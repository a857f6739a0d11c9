-- ===== src/Executor/Tests.antt =====
-- The executor: tests, and the theorems at concrete schedules.
use pubsubplus_go_client.Prelude.{ℕ, ◌≡◌, refl, false, List, [], ◌∷◌, ◌++◌}
use pubsubplus_go_client.Executor.{
  Executor, Op, submits, resubmits, runs, terminates, accepted, full, new_executor, submit,
  resubmit, resize, run,
}
use pubsubplus_go_client.Executor.Fifo.{accepted_all, ran_all, run_fifo}

abbrev busy : List (Op ℕ)
busy = submits 3 ∷ submits 5 ∷ runs ∷ terminates ∷ submits 7 ∷ runs ∷ runs ∷ []

-- A full channel of two tasks is doubled by the second attempt.
abbrev narrow : Executor ℕ
narrow = record {
  channel = record { capacity = 2; items = 1 ∷ 2 ∷ []; closed = false };
  closed = false;
  scale = 2;
  terminate_complete = false;
  waiting = [];
}

doubled : (run (submits 3 ∷ resubmits ∷ []) narrow).1 ≡ full 3 ∷ accepted 3 ∷ []
unfolding run submit resubmit resize
doubled = refl

doubled_capacity : (run (submits 3 ∷ resubmits ∷ []) narrow).0.channel.capacity ≡ 4
unfolding run submit resubmit resize
doubled_capacity = refl

run_fifo_example :
    let (e, events) = run busy new_executor in
    accepted_all events ≡ ran_all events ++ e.channel.items
run_fifo_example = run_fifo busy

abbrev closing : List (Op ℕ)
closing = submits 3 ∷ submits 5 ∷ terminates ∷ []
