-- ===== src/Lifecycle/Tests.antt =====
-- Starting and terminating: tests, and the theorems at concrete schedules.
use pubsubplus_go_client.Prelude.{ℕ, ◌≤◌, ◌≡◌, refl, true, false, List, [], ◌∷◌, ◌++◌, none, arith}
use pubsubplus_go_client.Publisher.Basic.{publisher_errors}
use pubsubplus_go_client.Lifecycle.{construct}
use pubsubplus_go_client.Lifecycle.Threads.{Input, init, run, start_body, start_wait}
use pubsubplus_go_client.Lifecycle.Safety.{admits_start, admits_end, admissions, admissions_once}

abbrev starts : Input
starts = record { calls_start = true; parent_is_running = true; outcome = none }

abbrev ends : Input
ends = record { calls_start = false; parent_is_running = true; outcome = none }

-- Threads 0 and 1 start at once, and 0 wins.
abbrev race : List (ℕ × Input)
race =
    (0, starts)
    ∷ (1, starts)
    ∷ (0, starts)
    ∷ (1, starts)
    ∷ (0, starts)
    ∷ (0, starts)
    ∷ (1, starts)
    ∷ (1, starts)
    ∷ (1, starts)
    ∷ []

-- Then 0 finishes the start, and both terminate.
abbrev wind_up : List (ℕ × Input)
wind_up =
    (0, starts)
    ∷ (0, starts)
    ∷ (0, starts)
    ∷ (0, ends)
    ∷ (0, ends)
    ∷ (0, ends)
    ∷ (0, ends)
    ∷ (1, ends)
    ∷ []

winner : (run publisher_errors race init).pcs 0 ≡ start_body
unfolding run construct
winner = refl

loser : (run publisher_errors race init).pcs 1 ≡ start_wait
unfolding run construct
loser = refl

admissions_once_example :
    (admissions admits_start publisher_errors (race ++ wind_up) init ≤ 1)
    × (admissions admits_end publisher_errors (race ++ wind_up) init ≤ 1)
admissions_once_example = admissions_once publisher_errors 2 (race ++ wind_up) (omega arith)
