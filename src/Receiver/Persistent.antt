-- ===== src/Receiver/Persistent.antt =====
-- internal/impl/receiver/persistent_message_receiver_impl.go: the buffer between the flow's callback
-- and the consumer, with the marks at which the flow is stopped and started again.
--
-- A step is one atomic access, channel operation or call of the C library. The callback is called on
-- the context thread; one consumer, ReceiveMessage or the loop of `run`, takes at a time. `M` is the
-- type of the messages.
pub mod Flow
pub mod Restart
pub mod Settlement
pub mod Pausing
pub mod Subscriptions
mod Tests
use pubsubplus_go_client.Prelude.{
  ℕ, ◌+◌, ◌*◌, ◌&&◌, Bool, true, false, List, [], ◌∷◌, ◌++◌, length, ltb, leb, if◌then◌else◌,
}

-- `internalFlowStopped`: 0, 1 and, in the termination, 2.
pub data FlowState : Type 0 where
  flowing stopped terminating : FlowState

abbrev pub is_flowing : FlowState → Bool
is_flowing flowing = true
is_flowing _ = false

abbrev pub is_stopped : FlowState → Bool
is_stopped stopped = true
is_stopped _ = false

-- Where `startFlow` stands: before the compare-and-swap, the call of Start, the store after a failure.
pub data Starting : Type 0 where
  swap call restore : Starting

-- Where `messageCallback` stands after the push: before the read of the length, the load of
-- `stopFlow`, its call of Stop, its store, the second read of the length, the read of the state.
pub data Callback : Type 0 where
  idle pushed loading stopping marking rechecking confirming : Callback
  starts : Starting → Callback

-- The consumer after the receive: before the read of the length, the read of the state.
pub data Consumer : Type 0 where
  idle taken confirming : Consumer
  starts : Starting → Consumer

-- `persistentMessageReceiverImpl`. `ending` is a state of Terminating or Terminated; `is_running` is
-- what the flow was last told with success.
pub record Persistent (M : Type 0) : Type 0 where
  pub highwater : ℕ
  pub lowwater : ℕ
  pub buffer_size : ℕ
  pub buffer : List M
  pub buffer_closed : Bool
  pub ending : Bool
  pub flow_stopped : FlowState
  pub is_running : Bool
  pub callback : Callback
  pub consumer : Consumer

-- `lost` is a message for which the buffer has no room, `refused` one that comes in the termination.
pub data Event (M : Type 0) : Type 0 where
  received taken lost refused : M → Event M
  blocked done : Event M

abbrev pub max_window_size : ℕ
max_window_size = 255

module _ {M : Type 0} where
  -- `construct`, and the flow that `Start` starts. The size of the buffer is computed before the
  -- high mark is set, while it is 0.
  unfoldable pub construct : ℕ → ℕ → Persistent M
  construct high low = record {
    highwater = high;
    lowwater = low;
    buffer_size = 2 * max_window_size + 2 * 0;
    buffer = [];
    buffer_closed = false;
    ending = false;
    flow_stopped = flowing;
    is_running = true;
    callback = idle;
    consumer = idle;
  }

  -- `select { case receiver.buffer <- msg: … default: … }`
  abbrev push : M → Persistent M → Persistent M × Event M
  push m s =
      if s.buffer_closed
      then (s, refused m)
      else if ltb (length s.buffer) s.buffer_size
      then (record s { callback = pushed; buffer = s.buffer ++ (m ∷ []) }, received m)
      else (s, lost m)

  abbrev arrive : Callback → M → Persistent M → Persistent M × Event M
  arrive idle m s = if s.ending then (s, refused m) else push m s
  arrive _ m s = (s, blocked)

  -- `messageCallback`, up to the push.
  unfoldable pub message_callback : M → Persistent M → Persistent M × Event M
  message_callback m s = arrive s.callback m s

  -- A step of `startFlow`, for the side whose place `back` sets; `ok` is whether the call succeeds.
  abbrev start_flow :
      Starting
      → Bool
      → (Starting → Persistent M → Persistent M)
      → (Persistent M → Persistent M)
      → Persistent M
      → Persistent M
  start_flow swap ok at leave s =
      if is_stopped s.flow_stopped then at call (record s { flow_stopped = flowing }) else leave s
  start_flow call ok at leave s =
      if ok then leave (record s { is_running = true }) else at restore s
  start_flow restore ok at leave s = leave (record s { flow_stopped = stopped })

  abbrev after_push : Callback → Bool → Persistent M → Persistent M
  after_push idle ok s = s
  after_push pushed ok s = record s {
    callback = if leb s.highwater (length s.buffer) then loading else idle;
  }
  after_push loading ok s = record s {
    callback = if is_flowing s.flow_stopped then stopping else idle;
  }
  after_push stopping ok s =
      if ok
      then record s { callback = marking; is_running = false }
      else record s { callback = idle }
  after_push marking ok s = record s { callback = rechecking; flow_stopped = stopped }
  after_push rechecking ok s = record s {
    callback = if ltb (length s.buffer) s.lowwater then confirming else idle;
  }
  after_push confirming ok s = record s { callback = if s.ending then idle else starts swap }
  after_push (starts p) ok s =
      start_flow p ok (λ q t. record t { callback = starts q }) (λ t. record t { callback = idle })
        s

  -- The steps of `messageCallback` after the push, with `stopFlow` and `startFlow`.
  unfoldable pub continue_callback : Bool → Persistent M → Persistent M
  continue_callback ok s = after_push s.callback ok s

  abbrev take : Consumer → List M → Persistent M → Persistent M × Event M
  take idle (m ∷ rest) s = (record s { buffer = rest; consumer = taken }, taken m)
  take _ _ s = (s, blocked)

  -- `ReceiveMessage` and a round of `run`: the receive.
  unfoldable pub receive : Persistent M → Persistent M × Event M
  receive s = take s.consumer s.buffer s

  abbrev after_take : Consumer → Bool → Persistent M → Persistent M
  after_take idle ok s = s
  after_take taken ok s = record s {
    consumer = if leb (length s.buffer) s.lowwater then confirming else idle;
  }
  after_take confirming ok s = record s { consumer = if s.ending then idle else starts swap }
  after_take (starts p) ok s =
      start_flow p ok (λ q t. record t { consumer = starts q }) (λ t. record t { consumer = idle })
        s

  -- The steps after the receive, with `startFlow`.
  unfoldable pub continue_consumer : Bool → Persistent M → Persistent M
  continue_consumer ok s = after_take s.consumer ok s

pub data Op (M : Type 0) : Type 0 where
  calls_back : M → Op M
  continues_callback continues_consumer : Bool → Op M
  receives ends stores_terminating stops closes : Op M

module _ {M : Type 0} where
  -- The last four are the steps of `Terminate`: the state, the store of 2, the call of Stop, the close
  -- of the buffer, each after the change of the state.
  unfoldable pub step : Op M → Persistent M → Persistent M × Event M
  step (calls_back m) s = message_callback m s
  step (continues_callback ok) s = (continue_callback ok s, done)
  step (continues_consumer ok) s = (continue_consumer ok s, done)
  step receives s = receive s
  step ends s = (record s { ending = true }, done)
  step stores_terminating s =
      if s.ending then (record s { flow_stopped = terminating }, done) else (s, blocked)
  step stops s = if s.ending then (record s { is_running = false }, done) else (s, blocked)
  step closes s = if s.ending then (record s { buffer_closed = true }, done) else (s, blocked)

  unfoldable pub run : List (Op M) → Persistent M → Persistent M × List (Event M)
  unfolding step
  run [] s = (s, [])
  run (op ∷ ops) s =
      let (s', event) = step op s in let (s'', events) = run ops s' in (s'', event ∷ events)
