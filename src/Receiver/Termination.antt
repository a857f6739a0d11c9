-- ===== src/Receiver/Termination.antt =====
-- The end of a receiver: Terminate and unsolicitedTermination, drainQueue, ReceiveMessage and the loop
-- of `run`, which the persistent and the direct receiver (internal/impl/receiver) have in common, and
-- how they tell each other that the buffer is empty.
--
-- A step of a thread is one access to an atomic or a channel. `M` is the type of the messages.
pub mod Knowledge
pub mod Steps
pub mod Start
pub mod Once
pub mod Delivery
pub mod Notice
mod Tests
use pubsubplus_go_client.Prelude.{
  ℕ, ◌+◌, ◌&&◌, Bool, true, false, List, [], ◌∷◌, ◌++◌, Option, none, some, length, ltb, leb,
  if◌then◌else◌,
}

-- The channels and flags that the threads share. `buffer` is the channel of messages with its close,
-- `empty_flag` is bufferEmptyOnTerminateFlag, `empty_closes` counts the closes of
-- bufferEmptyOnTerminate (a second one panics), `notified` and `complete` are the closes of
-- terminationNotification and terminationComplete, `callback_set` is the channel rxCallbackSet,
-- `has_callback` whether rxCallback is set.
-- `accepted` and `delivered` count the messages that went into the buffer and those that ReceiveMessage
-- and `run` have taken out; `evicted` counts those that the callback of a direct receiver with
-- drop-oldest backpressure has taken out; `undelivered` is the count of drainQueue, `discarded` what is added to the metric
-- ReceivedMessagesTerminationDiscarded.
pub record Shared (M : Type 0) : Type 0 where
  pub buffer : List M
  pub is_closed : Bool
  pub buffer_closed : Bool
  pub empty_flag : Bool
  pub empty_closes : ℕ
  pub notified : Bool
  pub complete : Bool
  pub callback_set : Option Bool
  pub has_callback : Bool
  pub accepted : ℕ
  pub delivered : ℕ
  pub evicted : ℕ
  pub undelivered : ℕ
  pub discarded : ℕ

-- `checkEmptyBufferAndNotify`: before the load, the read of the length, the compare-and-swap, the close.
pub data Check : Type 0 where
  loads lengths swaps closes : Check

-- `ReceiveMessage`: before the receive, in the deferred check, after its return.
pub data Consumer : Type 0 where
  receives returned : Consumer
  checks : Check → Consumer

-- `run`: before the first receive, at the head of the loop, in the check of a pause, in its wait, before
-- the look at the notification, before the receive, in the callback, at the two steps that follow the
-- close of the buffer, before the close of terminationComplete, after it.
pub data Dispatch : Type 0 where
  awaits looks paused peeks selects handles swaps closes leaves gone : Dispatch
  checks : Check → Dispatch

-- `Terminate` after it has been let through: before its send on rxCallbackSet, the close of the buffer,
-- the store, the read of the length, the compare-and-swap, the close; in the select; before the close
-- of the notification, in the wait for `run`; in drainQueue, its compare-and-swap and close; before
-- the metric; in the wait for `run` after a notice; at the return, with the count of the error. The
-- four with `un` are the first steps of `unsolicitedTermination`, in the order of the persistent
-- receiver; the direct one sends on rxCallbackSet first.
pub data Terminator : Type 0 where
  sends closes_buffer stores lengths swaps closes waits : Terminator
  notifies joins_late drains swaps_late closes_late counts joins_early : Terminator
  un_closes un_stores un_sends un_notifies : Terminator
  finished : Option ℕ → Terminator

-- `ReceiveAsync`: before its compare-and-swap, before its send on rxCallbackSet, at the return.
pub data Registrar : Type 0 where
  registers tells registered : Registrar

-- `callback` is messageCallback, which is called any number of times.
pub data Place : Type 0 where
  callback : Place
  registrar : Registrar → Place
  consumer : Consumer → Place
  dispatch : Dispatch → Place
  terminator : Terminator → Place

-- The case of a select: the buffer, pauseInterrupt or doUnpause, terminationNotification, the timer,
-- bufferEmptyOnTerminate.
pub data Branch : Type 0 where
  message interrupt notification timer emptied : Branch

-- What a step finds outside: the message that the callback is called with, if the buffer has room for
-- it, whether it drops the oldest message if not, whether the receiver is paused, and which case of a select is tried.
pub record Pick (M : Type 0) : Type 0 where
  pub item : M
  pub fits : Bool
  pub drops_oldest : Bool
  pub is_paused : Bool
  pub branch : Branch

abbrev pub is_nil : {M : Type 0} → List M → Bool
is_nil [] = true
is_nil (m ∷ rest) = false

-- What a step of the check leads to: another, or its result.
pub data Checked : Type 0 where
  at : Check → Checked
  over : Bool → Checked

abbrev pub checked_consumer : Checked → Consumer
checked_consumer (at c) = Consumer.checks c
checked_consumer (over b) = Consumer.returned

-- The check of a pause: a notice that this thread gave ends the loop.
abbrev pub checked_pause : Checked → Dispatch
checked_pause (at c) = Dispatch.checks c
checked_pause (over true) = Dispatch.leaves
checked_pause (over false) = Dispatch.paused

-- A send on rxCallbackSet, which does not block.
abbrev pub tell : Bool → Option Bool → Option Bool
tell b none = some b
tell b (some go) = some go

module _ {M : Type 0} where
  -- The select of drop-oldest, which takes a message out if there is one.
  abbrev pub take_oldest : List M → Shared M → Shared M
  take_oldest [] s = s
  take_oldest (m ∷ rest) s = record s { buffer = rest; evicted = s.evicted + 1 }

  -- An access of messageCallback to the buffer: its push, or the removal for a full buffer, which the
  -- second push follows as another step. The callback runs under the lock that UnregisterRXCallback
  -- takes, which comes before the close of the buffer, so none begun before the close goes on after it.
  abbrev pub push : Pick M → Shared M → Shared M
  push i s =
      if s.is_closed
      then record s { discarded = s.discarded + 1 }
      else if i.fits
      then record s { buffer = s.buffer ++ (i.item ∷ []); accepted = s.accepted + 1 }
      else if i.drops_oldest
      then take_oldest s.buffer s
      else s

  abbrev pub swap_flag : Shared M → Shared M
  swap_flag s = record s { empty_flag = true }

  abbrev pub close_empty : Shared M → Shared M
  close_empty s = record s { empty_closes = s.empty_closes + 1 }

  abbrev pub check : Check → Shared M → Shared M × Checked
  check Check.loads s = (s, if s.buffer_closed then at Check.lengths else over false)
  check Check.lengths s = (s, if is_nil s.buffer then at Check.swaps else over false)
  check Check.swaps s = if s.empty_flag then (s, over false) else (swap_flag s, at Check.closes)
  check Check.closes s = (close_empty s, over true)

  abbrev pub took : List M → Shared M → Shared M
  took rest s = record s { buffer = rest; delivered = s.delivered + 1 }

  -- A receive that is ready takes a message or finds the buffer closed; the rest blocks.
  abbrev pub receive : Branch → List M → Shared M → Shared M × Consumer
  receive message (m ∷ rest) s = (took rest s, Consumer.checks Check.loads)
  receive message [] s = (s, if s.is_closed then Consumer.checks Check.loads else Consumer.receives)
  receive timer b s = (s, Consumer.checks Check.loads)
  receive emptied b s =
      (s, if leb 1 s.empty_closes then Consumer.checks Check.loads else Consumer.receives)
  receive _ b s = (s, Consumer.receives)

  abbrev pub consume : Pick M → Consumer → Shared M → Shared M × Consumer
  consume i Consumer.receives s = receive i.branch s.buffer s
  consume i (Consumer.checks c) s = let (s', r) = check c s in (s', checked_consumer r)
  consume i Consumer.returned s = (s, Consumer.receives)

  abbrev pub resume : Branch → Shared M → Dispatch
  resume interrupt s = Dispatch.peeks
  resume notification s = if s.notified then Dispatch.leaves else Dispatch.paused
  resume emptied s = if leb 1 s.empty_closes then Dispatch.leaves else Dispatch.paused
  resume _ s = Dispatch.paused

  abbrev pub select : Branch → List M → Shared M → Shared M × Dispatch
  select message (m ∷ rest) s = (took rest s, Dispatch.handles)
  select message [] s = (s, if s.is_closed then Dispatch.swaps else Dispatch.selects)
  select interrupt b s = (s, Dispatch.looks)
  select notification b s = (s, if s.notified then Dispatch.leaves else Dispatch.selects)
  select _ b s = (s, Dispatch.selects)

  abbrev pub begin : Option Bool → Shared M → Shared M × Dispatch
  begin none s = (s, Dispatch.awaits)
  begin (some go) s =
      (record s { callback_set = none }, if go then Dispatch.looks else Dispatch.leaves)

  abbrev pub loop : Pick M → Dispatch → Shared M → Shared M × Dispatch
  loop i Dispatch.awaits s = begin s.callback_set s
  loop i Dispatch.looks s = (s, if i.is_paused then Dispatch.checks Check.loads else Dispatch.peeks)
  loop i (Dispatch.checks c) s = let (s', r) = check c s in (s', checked_pause r)
  loop i Dispatch.paused s = (s, resume i.branch s)
  loop i Dispatch.peeks s = (s, if s.notified then Dispatch.leaves else Dispatch.selects)
  loop i Dispatch.selects s = select i.branch s.buffer s
  loop i Dispatch.handles s = (s, Dispatch.looks)
  loop i Dispatch.swaps s =
      if s.empty_flag then (s, Dispatch.leaves) else (swap_flag s, Dispatch.closes)
  loop i Dispatch.closes s = (close_empty s, Dispatch.leaves)
  loop i Dispatch.leaves s = (record s { complete = true }, Dispatch.gone)
  loop i Dispatch.gone s = (s, Dispatch.gone)

  abbrev pub register : Registrar → Shared M → Shared M × Registrar
  register Registrar.registers s =
      if s.has_callback
      then (s, Registrar.registered)
      else (record s { has_callback = true }, Registrar.tells)
  register Registrar.tells s =
      (record s { callback_set = tell true s.callback_set }, Registrar.registered)
  register Registrar.registered s = (s, Registrar.registers)

  abbrev pub wait : Branch → Shared M → Terminator
  wait timer s = Terminator.notifies
  wait emptied s = if leb 1 s.empty_closes then Terminator.joins_early else Terminator.waits
  wait _ s = Terminator.waits

  -- A round of `range receiver.buffer`, which blocks on a buffer that is empty and not closed.
  abbrev pub drain : List M → Shared M → Shared M × Terminator
  drain (m ∷ rest) s =
      (record s { buffer = rest; undelivered = s.undelivered + 1 }, Terminator.drains)
  drain [] s = (s, if s.is_closed then Terminator.swaps_late else Terminator.drains)

  abbrev pub finish : Pick M → Terminator → Shared M → Shared M × Terminator
  finish i Terminator.sends s =
      (record s { callback_set = tell false s.callback_set }, Terminator.closes_buffer)
  finish i Terminator.closes_buffer s = (record s { is_closed = true }, Terminator.stores)
  finish i Terminator.stores s = (record s { buffer_closed = true }, Terminator.lengths)
  finish i Terminator.lengths s =
      (s, if is_nil s.buffer then Terminator.swaps else Terminator.waits)
  finish i Terminator.swaps s =
      if s.empty_flag then (s, Terminator.waits) else (swap_flag s, Terminator.closes)
  finish i Terminator.closes s = (close_empty s, Terminator.waits)
  finish i Terminator.waits s = (s, wait i.branch s)
  finish i Terminator.notifies s = (record s { notified = true }, Terminator.joins_late)
  finish i Terminator.joins_late s =
      (s, if s.complete then Terminator.drains else Terminator.joins_late)
  finish i Terminator.drains s = drain s.buffer s
  finish i Terminator.swaps_late s =
      if s.empty_flag then (s, Terminator.counts) else (swap_flag s, Terminator.closes_late)
  finish i Terminator.closes_late s = (close_empty s, Terminator.counts)
  finish i Terminator.counts s =
      if ltb 0 s.undelivered
      then (
        record s { discarded = s.discarded + s.undelivered },
        Terminator.finished (some s.undelivered),
      )
      else (s, Terminator.finished none)
  finish i Terminator.joins_early s =
      (s, if s.complete then Terminator.finished none else Terminator.joins_early)
  finish i Terminator.un_closes s = (record s { is_closed = true }, Terminator.un_stores)
  finish i Terminator.un_stores s = (record s { buffer_closed = true }, Terminator.un_sends)
  finish i Terminator.un_sends s =
      (record s { callback_set = tell false s.callback_set }, Terminator.un_notifies)
  finish i Terminator.un_notifies s = (record s { notified = true }, Terminator.drains)
  finish i (Terminator.finished r) s = (s, Terminator.finished r)

  unfoldable pub step : Pick M → Place → Shared M → Shared M × Place
  step i callback s = (push i s, callback)
  step i (registrar r) s = let (s', r') = register r s in (s', registrar r')
  step i (consumer c) s = let (s', c') = consume i c s in (s', consumer c')
  step i (dispatch d) s = let (s', d') = loop i d s in (s', dispatch d')
  step i (terminator t) s = let (s', t') = finish i t s in (s', terminator t')
