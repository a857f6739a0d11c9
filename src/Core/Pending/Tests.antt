-- ===== src/Core/Pending/Tests.antt =====
-- The table of those that wait: the theorems at concrete inputs.
use pubsubplus_go_client.Prelude.{ℕ, ◌≡◌, refl, List, [], ◌∷◌, none, some, length, arith}
use pubsubplus_go_client.Core.Pending.{
  Op, reserves, stores, resolves, no_pending, reserve, store, resolve, interrupt, step, run,
}
use pubsubplus_go_client.Prelude.Dict.{fetch, assign, discard}
use pubsubplus_go_client.Core.Pending.Answers.{run-interrupt}

-- Two requests, of which the first is answered twice, and the second not.
abbrev two_requests : List (Op ℕ)
two_requests =
    reserves ∷ stores 1 ∷ reserves ∷ resolves 1 none ∷ stores 2 ∷ resolves 1 (some 5) ∷ []

first_answer : (run two_requests no_pending).channels 1 ≡ (1, none) ∷ []
unfolding run step reserve store resolve no_pending fetch assign discard
first_answer = refl

run-interrupt_example : length ((interrupt 9 (run two_requests no_pending)).channels 2) ≡ 1
unfolding run step reserve store resolve no_pending fetch assign discard
run-interrupt_example =
    run-interrupt two_requests 9 2 (omega arith) (tt, (tt, (tt, (tt, (tt, (tt, tt))))))
      (omega arith) (omega arith) refl
