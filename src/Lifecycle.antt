-- ===== src/Lifecycle.antt =====
-- The life of a publisher or receiver: internal/impl/publisher/message_publisher_impl.go
-- (basicMessagePublisher) and internal/impl/receiver/message_receiver_impl.go
-- (basicMessageReceiver), which differ in the messages of their errors. `Lifecycle.Calls` has the
-- calls as one thread makes them with no other in between, `Lifecycle.Threads` as single atomic
-- accesses, which any number of threads interleave.
pub mod Calls
pub mod Threads
pub mod Invariant
pub mod Safety
pub mod Solo
mod Tests
use pubsubplus_go_client.Prelude.{Bool, true, false, Option, ◌||◌}
use pubsubplus_go_client.Future.{Future, new_future_error}
use pubsubplus_go_client.Errors.{Error}

-- `messagePublisherState` and `messageReceiverState`, in the order of the constants.
pub data State : Type 0 where
  not_started starting started terminating terminated : State

abbrev pub is_not_started : State → Bool
is_not_started State.not_started = true
is_not_started _ = false

abbrev pub is_starting : State → Bool
is_starting State.starting = true
is_starting _ = false

abbrev pub is_started : State → Bool
is_started State.started = true
is_started _ = false

abbrev pub is_terminating : State → Bool
is_terminating State.terminating = true
is_terminating _ = false

abbrev pub is_terminated : State → Bool
is_terminated State.terminated = true
is_terminated _ = false

-- `state == Terminating || state == Terminated`
abbrev pub is_ending : State → Bool
is_ending s = is_terminating s || is_terminated s

-- The errors by which the two kinds of services differ.
pub record Errors : Type 0 where
  pub unable_to_start : Error
  pub parent_not_started : Error
  pub unable_to_terminate : Error

-- The fields that the calls below read and write.
pub record Basic : Type 0 where
  pub state : State
  pub start_future : Future Error
  pub terminate_future : Future Error

-- What a call comes to: it may go on with its work, it is over with an error or nil, or it waits on
-- a future.
pub data Verdict : Type 0 where
  proceed : Verdict
  over : Option Error → Verdict
  waits : Verdict

unfoldable pub construct : Basic
construct = record {
  state = State.not_started;
  start_future = new_future_error;
  terminate_future = new_future_error;
}
