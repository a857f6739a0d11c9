-- ===== src/Publisher/Request.antt =====
-- internal/impl/publisher/request_reply_message_publisher_impl.go: one request, from the making of its
-- correlation entry to the outcome that its reply handler or its caller gets.
--
-- A step is one stretch under `rxLock`, one receive of the waiting closure or one call. Entries are
-- found by their correlation id, so the steps of one request concern its own entry and the channel
-- `correlationComplete`. `M` is the type of the messages, `E` that of errors of sending.
pub mod Replies
pub mod Outcome
pub mod Wait
mod Tests
use pubsubplus_go_client.Prelude.{
  ℕ, ◌&&◌, ◌||◌, Bool, true, false, not, List, [], ◌∷◌, ◌++◌, Option, none, some, if◌then◌else◌,
}

pub data Failure (E : Type 0) : Type 0 where
  already_terminated timed_out : Failure E
  native : E → Failure E

-- Where the closure that `createReplyCorrelation` returns stands: not called, never to be called,
-- before the wait for the sending, the wait for the reply, the look at the map, the call of the
-- handler, the removal of the entry, and at its end. The last places hold `retMsg` and `retErr`.
pub data Waiter (M E : Type 0) : Type 0 where
  unstarted abandoned awaiting_sent awaiting_result : Waiter M E
  checking : M → Waiter M E
  dispatching closing done : Option M → Option (Failure E) → Waiter M E

-- `correlationEntryImpl` with its two channels of one place each; `in_map` is whether it is in
-- `requestCorrelationMap`. `correlation_complete` is whether that channel of the publisher is closed,
-- `ended` whether Terminate has closed the channels of the entries.
pub record Request (M E : Type 0) : Type 0 where
  pub in_map : Bool
  pub received : Bool
  pub has_timeout : Bool
  pub result : List M
  pub result_closed : Bool
  pub sent : List (Option E)
  pub sent_closed : Bool
  pub correlation_complete : Bool
  pub ended : Bool
  pub waiter : Waiter M E

-- What comes of a step. `dropped` is a reply that is read from the channel and let go, `panics` a send
-- on a closed channel that nobody recovers from.
pub data Event (M E : Type 0) : Type 0 where
  quiet blocked panics : Event M E
  accepted refused disposed dropped : M → Event M E
  dispatched : Option M → Option (Failure E) → Event M E

-- Which case of a `select` is taken.
pub data Choice : Type 0 where
  channel timer complete : Choice

module _ {M E : Type 0} where
  -- `createReplyCorrelation`, with the entry that `construct` fills in.
  unfoldable pub create_reply_correlation : Bool → Bool → Request M E
  create_reply_correlation has_timeout over = record {
    in_map = true;
    received = false;
    has_timeout = has_timeout;
    result = [];
    result_closed = false;
    sent = [];
    sent_closed = false;
    correlation_complete = over;
    ended = false;
    waiter = unstarted;
  }

  abbrev put_sent : Option E → List (Option E) → Request M E → Request M E × Event M E
  put_sent err [] s = (record s { sent = err ∷ [] }, quiet)
  put_sent err (x ∷ xs) s = (s, blocked)

  unfoldable pub signal_request_correlation_sent : Option E → Request M E → Request M E × Event M E
  signal_request_correlation_sent err s =
      if s.in_map
      then (if s.sent_closed then (s, panics) else put_sent err s.sent s)
      else (s, quiet)

  -- `handleReplyMessage`: a send on the closed channel is recovered from, and the reply given back.
  unfoldable pub handle_reply_message : M → Request M E → Request M E × Event M E
  handle_reply_message m s =
      if not s.in_map || s.received
      then (s, refused m)
      else if s.result_closed
      then (record s { received = true }, refused m)
      else (record s { received = true; result = s.result ++ (m ∷ []) }, accepted m)

  abbrev close_result : List M → Request M E → Request M E × Event M E
  close_result [] s = (record s { result_closed = true }, quiet)
  close_result (m ∷ ms) s = (record s { result = ms }, dropped m)

  abbrev close_sent : List (Option E) → Request M E → Request M E
  close_sent [] s = record s { sent_closed = true }
  close_sent (x ∷ xs) s = record s { sent = xs }

  -- `closeReplyCorrelation`; `last` is whether the termination waits for the map to be empty and this
  -- entry is the last of it.
  unfoldable pub close_reply_correlation : Bool → Request M E → Request M E × Event M E
  close_reply_correlation last s =
      let s' = record (close_sent s.sent s) {
        in_map = false;
        correlation_complete = s.correlation_complete || last;
      } in
      if s.in_map then close_result s.result s' else (s, quiet)

  -- The stretch of Terminate under the lock: the channel of the publisher is closed, and of each
  -- entry in the map both channels.
  unfoldable pub close_correlations : Request M E → Request M E
  close_correlations s =
      if s.ended
      then s
      else if s.in_map
      then record (close_sent s.sent s) {
        correlation_complete = true;
        ended = true;
        result_closed = true;
      }
      else record s { correlation_complete = true; ended = true }

  abbrev stopped : Request M E → Request M E × Event M E
  stopped s = (
    if s.correlation_complete
        then record s { waiter = dispatching none (some already_terminated) }
        else s,
    if s.correlation_complete then quiet else blocked,
  )

  abbrev take_sent : List (Option E) → Request M E → Request M E × Event M E
  take_sent [] s =
      if s.sent_closed
      then (record s { waiter = dispatching none (some already_terminated) }, quiet)
      else (s, blocked)
  take_sent (none ∷ xs) s = (record s { sent = xs; waiter = awaiting_result }, quiet)
  take_sent (some e ∷ xs) s =
      (record s { sent = xs; waiter = dispatching none (some (native e)) }, quiet)

  abbrev take_result : List M → Request M E → Request M E × Event M E
  take_result [] s =
      if s.result_closed
      then (record s { waiter = dispatching none (some already_terminated) }, quiet)
      else (s, blocked)
  take_result (m ∷ ms) s = (record s { result = ms; waiter = checking m }, quiet)

  abbrev wait_step : Waiter M E → Choice → Bool → Request M E → Request M E × Event M E
  wait_step awaiting_sent channel last s = take_sent s.sent s
  wait_step awaiting_sent timer last s = (s, blocked)
  wait_step awaiting_sent complete last s = stopped s
  wait_step awaiting_result channel last s = take_result s.result s
  wait_step awaiting_result timer last s =
      if s.has_timeout
      then (record s { waiter = dispatching none (some timed_out) }, quiet)
      else (s, blocked)
  wait_step awaiting_result complete last s = stopped s
  wait_step (checking m) choice last s =
      if s.in_map
      then (record s { waiter = dispatching (some m) none }, quiet)
      else (record s { waiter = dispatching none (some already_terminated) }, disposed m)
  wait_step (dispatching m e) choice last s = (record s { waiter = closing m e }, dispatched m e)
  wait_step (closing m e) choice last s =
      close_reply_correlation last (record s { waiter = done m e })
  wait_step _ choice last s = (s, blocked)

  -- A step of the closure.
  unfoldable pub await_outcome : Choice → Bool → Request M E → Request M E × Event M E
  unfolding close_reply_correlation
  await_outcome choice last s = wait_step s.waiter choice last s

  -- `publish` has returned the closure, which is then called.
  abbrev begin : Waiter M E → Request M E → Request M E
  begin unstarted s = record s { waiter = awaiting_sent }
  begin _ s = s

  -- The deferred function of `publish` on an error.
  abbrev abandon : Waiter M E → Bool → Request M E → Request M E × Event M E
  abandon unstarted last s = close_reply_correlation last (record s { waiter = abandoned })
  abandon _ last s = (s, blocked)

pub data Op (M E : Type 0) : Type 0 where
  signals : Option E → Op M E
  replies : M → Op M E
  begins ends : Op M E
  gives_up : Bool → Op M E
  waits : Choice → Bool → Op M E

module _ {M E : Type 0} where
  unfoldable pub step : Op M E → Request M E → Request M E × Event M E
  unfolding signal_request_correlation_sent handle_reply_message close_reply_correlation
      close_correlations await_outcome
  step (signals err) s = signal_request_correlation_sent err s
  step (replies m) s = handle_reply_message m s
  step begins s = (begin s.waiter s, quiet)
  step ends s = (close_correlations s, quiet)
  step (gives_up last) s = abandon s.waiter last s
  step (waits choice last) s = await_outcome choice last s

  unfoldable pub run : List (Op M E) → Request M E → Request M E × List (Event M E)
  run [] s = (s, [])
  run (op ∷ ops) s =
      let (s', event) = step op s in let (s'', events) = run ops s' in (s'', event ∷ events)
