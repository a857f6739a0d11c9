-- ===== src/Receiver/Direct.antt =====
-- internal/impl/receiver/direct_message_receiver_impl.go: the bounded buffer between the callback of
-- the C library and the one that takes messages out, ReceiveMessage or the loop of `run`.
--
-- A step is what happens between two points where the other side may come in. The callback is called
-- on one thread, the context thread; one consumer takes at a time. `M` is the type of the messages.
pub mod Backpressure
pub mod Build
pub mod Cache
pub mod Subscriptions
pub mod Fate
pub mod Indication
mod Tests
use pubsubplus_go_client.Prelude.{
  ℕ, ◌+◌, ◌%◌, ◌^◌, ◌&&◌, Bool, true, false, List, [], ◌∷◌, ◌++◌, Option, none, some, length, ltb,
  if◌then◌else◌,
}

-- `receiverBackpressureStrategy`
pub data Strategy : Type 0 where
  drop_oldest drop_latest : Strategy

-- Where `messageCallback` stands: before the first push, before the removal of the oldest, before the
-- flag is set, before the second push, with whether a message was removed.
pub data Callback (M : Type 0) : Type 0 where
  idle : Callback M
  pushing full removed : M → Bool → Callback M
  repushing : M → Bool → Bool → Callback M

-- `directMessageReceiverImpl`; a `directInboundMessage` is a pair. `taken` is what the consumer has
-- taken and not yet handed on, `ending` is a state of Terminating or Terminated. The last two are the
-- metrics ReceivedMessagesBackpressureDiscarded and InternalDiscardNotifications.
pub record Direct (M : Type 0) : Type 0 where
  pub strategy : Strategy
  pub buffer_size : ℕ
  pub buffer : List (M × Bool)
  pub buffer_closed : Bool
  pub ending : Bool
  pub is_discard : Bool
  pub callback : Callback M
  pub taken : Option (M × Bool)
  pub backpressure_discarded : ℕ
  pub discard_notifications : ℕ

-- `refused` is a message that comes during the termination, `dropped` the latest and `evicted` the
-- oldest that backpressure discards.
pub data Event (M : Type 0) : Type 0 where
  pushed popped evicted delivered : M → Bool → Event M
  dropped refused : M → Event M
  blocked done : Event M

abbrev pub next_u64 : ℕ → ℕ
next_u64 n = (n + 1) % 2 ^ 64

module _ {M : Type 0} where
  unfoldable pub construct : Strategy → ℕ → Direct M
  construct strategy n = record {
    strategy = strategy;
    buffer_size = n;
    buffer = [];
    buffer_closed = false;
    ending = false;
    is_discard = false;
    callback = idle;
    taken = none;
    backpressure_discarded = 0;
    discard_notifications = 0;
  }

  -- `atomic.CompareAndSwapInt32(&receiver.isDiscard, discardTrue, discardFalse)` under drop latest.
  abbrev arrive : Strategy → M → Direct M → Direct M × Event M
  arrive Strategy.drop_latest m s =
      (record s { callback = pushing m s.is_discard; is_discard = false }, done)
  arrive Strategy.drop_oldest m s = (record s { callback = pushing m false }, done)

  abbrev push : M → Bool → Direct M → Direct M × Event M
  push m flag s =
      (record s { callback = idle; buffer = s.buffer ++ ((m, flag) ∷ []) }, pushed m flag)

  abbrev on_full : Strategy → M → Bool → Direct M → Direct M × Event M
  on_full Strategy.drop_oldest m flag s = (record s { callback = full m flag }, done)
  on_full Strategy.drop_latest m flag s = (
    record s {
      callback = idle;
      is_discard = true;
      backpressure_discarded = next_u64 s.backpressure_discarded;
    },
    dropped m,
  )

  abbrev first_push : M → Bool → Direct M → Direct M × Event M
  first_push m flag s =
      if s.buffer_closed
      then (record s { callback = idle }, refused m)
      else if ltb (length s.buffer) s.buffer_size
      then push m flag s
      else on_full s.strategy m flag s

  abbrev remove_oldest : List (M × Bool) → M → Bool → Direct M → Direct M × Event M
  remove_oldest [] m flag s = (record s { callback = repushing m flag false }, done)
  remove_oldest ((p, f) ∷ rest) m flag s =
      (record s { callback = removed m flag; buffer = rest }, evicted p f)

  abbrev second_push : M → Bool → Bool → Direct M → Direct M × Event M
  second_push m flag discard s =
      if s.buffer_closed
      then (record s { callback = idle }, refused m)
      else if ltb (length s.buffer) s.buffer_size
      then push m flag (record s {
        backpressure_discarded =
            if discard then next_u64 s.backpressure_discarded else s.backpressure_discarded;
      })
      else (s, blocked)

  abbrev continued : Callback M → Direct M → Direct M × Event M
  continued idle s = (s, blocked)
  continued (pushing m flag) s = first_push m flag s
  continued (full m flag) s = remove_oldest s.buffer m flag s
  continued (removed m flag) s =
      (record s { callback = repushing m flag true; is_discard = true }, done)
  continued (repushing m flag discard) s = second_push m flag discard s

  abbrev arrive_when : Callback M → M → Direct M → Direct M × Event M
  arrive_when idle m s = if s.ending then (s, refused m) else arrive s.strategy m s
  arrive_when _ m s = (s, blocked)

  -- `messageCallback`: its call with a message, and each of its further steps.
  unfoldable pub message_callback : Option M → Direct M → Direct M × Event M
  message_callback (some m) s = arrive_when s.callback m s
  message_callback none s = continued s.callback s

  abbrev take : Option (M × Bool) → List (M × Bool) → Direct M → Direct M × Event M
  take none ((m, flag) ∷ rest) s =
      (record s { taken = some (m, flag); buffer = rest }, popped m flag)
  take _ _ s = (s, blocked)

  abbrev hand : M → Bool → Direct M → Direct M × Event M
  hand m flag s = (
    record s {
      taken = none;
      discard_notifications =
          if flag then next_u64 s.discard_notifications else s.discard_notifications;
    },
    delivered m flag,
  )

  abbrev mark : Strategy → Option (M × Bool) → Direct M → Direct M × Event M
  mark _ none s = (s, blocked)
  mark Strategy.drop_oldest (some (m, flag)) s =
      hand m s.is_discard (record s { is_discard = false })
  mark Strategy.drop_latest (some (m, flag)) s = hand m flag s

  -- `ReceiveMessage`, and a round of `run`: the receive from the buffer, and what follows it.
  unfoldable pub receive_message : Direct M → Direct M × Event M
  receive_message s = take s.taken s.buffer s

  unfoldable pub hand_on : Direct M → Direct M × Event M
  hand_on s = mark s.strategy s.taken s

pub data Op (M : Type 0) : Type 0 where
  calls_back : M → Op M
  continues receives hands_on ends closes : Op M

module _ {M : Type 0} where
  -- `ends` is the change of the state, `closes` the close of the buffer after it.
  unfoldable pub step : Op M → Direct M → Direct M × Event M
  step (calls_back m) s = message_callback (some m) s
  step continues s = message_callback none s
  step receives s = receive_message s
  step hands_on s = hand_on s
  step ends s = (record s { ending = true }, done)
  step closes s = if s.ending then (record s { buffer_closed = true }, done) else (s, blocked)

  unfoldable pub run : List (Op M) → Direct M → Direct M × List (Event M)
  unfolding step
  run [] s = (s, [])
  run (op ∷ ops) s =
      let (s', event) = step op s in let (s'', events) = run ops s' in (s'', event ∷ events)
