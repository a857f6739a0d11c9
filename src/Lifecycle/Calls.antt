-- ===== src/Lifecycle/Calls.antt =====
-- message_publisher_impl.go and message_receiver_impl.go: the calls, each with no other in between.
use pubsubplus_go_client.Prelude.{Bool, Option, none, some, not, if◌then◌else◌}
use pubsubplus_go_client.Future.{complete, get}
use pubsubplus_go_client.Errors.{Error}
use pubsubplus_go_client.Lifecycle.{
  State, is_not_started, is_started, is_terminating, is_terminated, is_ending, Errors, Basic,
  Verdict, proceed, over, waits,
}

abbrev pub verdict_of : Option (Option Error) → Verdict
verdict_of none = waits
verdict_of (some e) = over e

module _ (errors : Errors) where
  unfoldable pub check_startup_state_and_wait : State → Basic → Verdict
  unfolding get
  check_startup_state_and_wait current b =
      if not (is_ending current)
      then verdict_of (get b.start_future)
      else over (some errors.unable_to_start)

  -- With no other thread the compare-and-swap succeeds, since the state has been read just before.
  unfoldable pub starting : Bool → Basic → Basic × Verdict
  unfolding check_startup_state_and_wait
  starting parent_is_running b =
      if not (is_not_started b.state)
      then (b, check_startup_state_and_wait b.state b)
      else if not parent_is_running
      then (b, over (some errors.parent_not_started))
      else (record b { state = State.starting }, proceed)

  unfoldable pub check_terminate_state_and_wait : State → Basic → Verdict
  unfolding get
  check_terminate_state_and_wait current b =
      if is_ending current
      then verdict_of (get b.terminate_future)
      else over (some errors.unable_to_terminate)

  unfoldable pub terminate : Basic → Basic × Verdict
  unfolding check_terminate_state_and_wait complete
  terminate b =
      if is_started b.state
      then (record b { state = State.terminating }, proceed)
      else if is_not_started b.state
      then (
        record b { state = State.terminated; terminate_future = complete none b.terminate_future },
        over none,
      )
      else (b, check_terminate_state_and_wait b.state b)

unfoldable pub started : Option Error → Basic → Basic
unfolding complete
started e b = record b { state = State.started; start_future = complete e b.start_future }

unfoldable pub terminated : Option Error → Basic → Basic
unfolding complete
terminated e b = record b {
  state = State.terminated;
  terminate_future = complete e b.terminate_future;
}

unfoldable pub is_running : Basic → Bool
is_running b = is_started b.state

unfoldable pub is_terminated_now : Basic → Bool
is_terminated_now b = is_terminated b.state

unfoldable pub is_terminating_now : Basic → Bool
is_terminating_now b = is_terminating b.state
