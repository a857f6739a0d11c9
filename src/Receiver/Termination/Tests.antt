-- ===== src/Receiver/Termination/Tests.antt =====
-- The end of a receiver: tests, and the theorems at concrete inputs.
use pubsubplus_go_client.Prelude.{
  ℕ, zero, suc, ◌+◌, ◌≤◌, ◌<◌, ◌≡◌, refl, true, false, List, [], ◌∷◌, ◌++◌, some, ◌==◌,
  if◌then◌else◌, arith,
}
use pubsubplus_go_client.Prelude.Family.{sum_below}
use pubsubplus_go_client.Prelude.Interleaving.{run, step_thread}
use pubsubplus_go_client.Receiver.Termination.{
  Place, callback, consumer, dispatch, terminator, Consumer, Dispatch, Terminator, Pick, Branch,
  message, timer, step,
}
use pubsubplus_go_client.Receiver.Termination.Steps.{discipline}
use pubsubplus_go_client.Receiver.Termination.Start.{Threads, at_start}
use pubsubplus_go_client.Receiver.Termination.Delivery.{run_returns}
use pubsubplus_go_client.Receiver.Termination.Once.{run_closes_once}
use pubsubplus_go_client.Receiver.Termination.Notice.{is_resting, run_wakes}

-- The callback, `run`, Terminate and a call of ReceiveMessage.
abbrev places : ℕ → Place
places t =
    if t == 0
    then callback
    else if t == 1
    then dispatch Dispatch.awaits
    else if t == 2
    then terminator Terminator.sends
    else consumer Consumer.receives

places-Threads : Threads 4 places
places-Threads = record { start = λ t h. ground arith; one_end = unfold sum_below in refl }

abbrev by : Branch → Pick ℕ
by b = record { item = 7; fits = true; drops_oldest = false; is_paused = false; branch = b }

abbrev turn : ℕ → Branch → ℕ × Pick ℕ
turn t b = (t, by b)

-- Two messages, of which ReceiveMessage takes one before the buffer is closed.
abbrev closing : List (ℕ × Pick ℕ)
closing =
    turn 0 message
    ∷ turn 0 message
    ∷ turn 3 message
    ∷ turn 2 timer
    ∷ turn 2 timer
    ∷ turn 2 timer
    ∷ turn 2 timer
    ∷ turn 1 message
    ∷ turn 1 message
    ∷ []

-- A message that comes when the buffer is full of one, in a receiver that drops the oldest.
abbrev crowded : Pick ℕ
crowded = record {
  item = 8;
  fits = false;
  drops_oldest = true;
  is_paused = false;
  branch = message;
}

-- The period ends with one message in the buffer.
abbrev ungraceful : List (ℕ × Pick ℕ)
ungraceful =
    ((0, by message) ∷ (0, crowded) ∷ [])
    ++ closing
    ++ (turn 2 timer
        ∷ turn 2 timer
        ∷ turn 2 timer
        ∷ turn 2 timer
        ∷ turn 2 timer
        ∷ turn 2 timer
        ∷ turn 2 timer
        ∷ turn 2 timer
        ∷ [])

ends_with_one :
    (run discipline ungraceful (at_start places)).pcs 2 ≡ terminator (Terminator.finished (some 1))
unfolding run step_thread step
ends_with_one = refl

run_returns_example :
    let s = (run discipline ungraceful (at_start places)).shared in
    (s.accepted ≡ s.delivered + s.evicted + 1)
    × (s.buffer ≡ [])
    × ((k : ℕ) → some 1 ≡ some k → (0 < k) × (k ≤ s.discarded))
run_returns_example =
    run_returns 4 places ungraceful 2 (some 1) places-Threads (omega arith) (omega arith)
      ends_with_one

run_closes_once_example : (run discipline ungraceful (at_start places)).shared.empty_closes ≤ 1
run_closes_once_example = run_closes_once 4 places ungraceful places-Threads (omega arith)

-- ReceiveMessage takes the last message, and gives the notice.
abbrev graceful : List (ℕ × Pick ℕ)
graceful =
    closing
    ++ (turn 3 message
        ∷ turn 3 message
        ∷ turn 3 message
        ∷ turn 3 message
        ∷ turn 3 message
        ∷ turn 3 message
        ∷ turn 3 message
        ∷ turn 3 message
        ∷ [])

graceful_rests :
    (t : ℕ) → t < 4 → is_resting ((run discipline graceful (at_start places)).pcs t) ≡ true
unfolding run step_thread step
graceful_rests zero h = refl
graceful_rests (suc zero) h = refl
graceful_rests (suc (suc zero)) h = refl
graceful_rests (suc (suc (suc zero))) h = refl
graceful_rests (suc (suc (suc (suc t)))) h = absurd (omega arith)

run_wakes_example : (run discipline graceful (at_start places)).shared.empty_closes ≡ 1
unfolding run step_thread step
run_wakes_example =
    run_wakes 4 places graceful places-Threads (omega arith) graceful_rests refl refl refl
