-- ===== src/Receiver/Persistent/Tests.antt =====
-- The persistent receiver: tests, and the theorems at concrete inputs.
use pubsubplus_go_client.Prelude.{
  ℕ, ◌≡◌, refl, true, false, List, [], ◌∷◌, ◌++◌, Option, none, some,
}
use pubsubplus_go_client.Lifecycle.{State}
use pubsubplus_go_client.Receiver.Persistent.{
  Op, calls_back, continues_callback, continues_consumer, receives, construct, step, run,
  message_callback, continue_callback, receive, continue_consumer,
}
use pubsubplus_go_client.Receiver.Persistent.Settlement.{
  NativeOutcome, with_id, ack, already_terminated,
}
use pubsubplus_go_client.Receiver.Persistent.Pausing
use pubsubplus_go_client.Receiver.Persistent.Pausing.{
  Loop, PauseStep, ResumeStep, unpaused, run-wakes,
}

-- With marks 2 and 1: two messages, of which the second stops the flow.
abbrev stopping_flow : List (Op ℕ)
stopping_flow =
    calls_back 1
    ∷ continues_callback true
    ∷ calls_back 2
    ∷ continues_callback true
    ∷ continues_callback true
    ∷ continues_callback true
    ∷ continues_callback true
    ∷ continues_callback true
    ∷ []

-- A receive brings the buffer to the low mark and starts the flow.
abbrev starting_flow : List (Op ℕ)
starting_flow =
    stopping_flow
    ++ (receives
        ∷ continues_consumer true
        ∷ continues_consumer true
        ∷ continues_consumer true
        ∷ continues_consumer true
        ∷ [])

flow_stops : (run stopping_flow (construct 2 1)).0.is_running ≡ false
unfolding run step construct message_callback continue_callback
flow_stops = refl

flow_starts : (run starting_flow (construct 2 1)).0.is_running ≡ true
unfolding run step construct message_callback continue_callback receive continue_consumer
flow_starts = refl

-- The buffer does not grow with the high mark.
same_size : (construct {M = ℕ} 50 40).buffer_size ≡ 510
unfolding construct
same_size = refl

abbrev flow : ℕ → NativeOutcome → Option ℕ
flow id o = none

too_late : ack flow State.terminated (with_id 7) ≡ some already_terminated
unfolding ack
too_late = refl

-- A pause that the loop waits in, and its end.
abbrev paused_and_resumed : List Pausing.Op
paused_and_resumed =
    Pausing.pauses PauseStep.drains
    ∷ Pausing.pauses Pausing.stores
    ∷ Pausing.loops false
    ∷ Pausing.resumes ResumeStep.drains
    ∷ Pausing.resumes ResumeStep.stores
    ∷ Pausing.resumes Pausing.notifies
    ∷ []

run-wakes_example :
    (Pausing.run_loop false (Pausing.run paused_and_resumed unpaused)).loop ≡ Loop.receiving
unfolding Pausing.run Pausing.step
run-wakes_example = run-wakes paused_and_resumed refl refl refl refl
