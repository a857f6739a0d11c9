-- ===== src/Publisher/Receipts/Tests.antt =====
-- The contexts of the persistent publisher: tests, and the theorems at concrete inputs.
use pubsubplus_go_client.Prelude.{ℕ, ◌≡◌, refl, List, [], ◌∷◌, ◌++◌, if◌then◌else◌, arith}
use pubsubplus_go_client.Prelude.Dict.{fetch, assign, discard, occurrences}
use pubsubplus_go_client.Publisher.Receipts.{
  Op, adds, removes, acknowledges, finishes, terminates, requests, drains, no_receipts, is_empty,
  add_correlation_context, remove_correlation_context, ack_handler, finish_ack, drain_ack_table,
  request_complete, step, run,
}
use pubsubplus_go_client.Publisher.Receipts.Once.{run_resolves, added}
use pubsubplus_go_client.Publisher.Receipts.Completion.{run_signals}

-- Two messages, of which the first is acknowledged.
abbrev two_messages : List (Op ℕ)
two_messages = adds 1 10 ∷ adds 2 20 ∷ acknowledges 1 ∷ finishes ∷ []

run_resolves_example :
    occurrences 2
      ((run two_messages no_receipts).1 ++ (drain_ack_table (run two_messages no_receipts).0).1)
    ≡ added 2 two_messages
unfolding run step add_correlation_context ack_handler finish_ack no_receipts fetch assign discard
run_resolves_example = run_resolves two_messages 2 (omega arith) (tt, (tt, (tt, (tt, tt)))) refl

abbrev ending : List (Op ℕ)
ending = adds 1 10 ∷ adds 2 20 ∷ terminates ∷ acknowledges 1 ∷ finishes ∷ []

abbrev last_one : List (Op ℕ)
last_one = acknowledges 2 ∷ acknowledges 2 ∷ finishes ∷ acknowledges 2 ∷ []

run_signals_example : (run last_one (request_complete (run ending no_receipts).0).0).0.completes ≡ (
    if is_empty (run last_one (request_complete (run ending no_receipts).0).0).0.correlation_map
    then 1
    else 0)
unfolding run step add_correlation_context ack_handler finish_ack no_receipts fetch assign discard
run_signals_example =
    run_signals ending last_one (tt, (tt, (tt, (tt, (tt, tt))))) (tt, (tt, (tt, (tt, tt)))) refl
      refl

-- A drain between the two halves of an acknowledgement resolves its context again.
resolved_twice :
    (run {C = ℕ} (adds 1 10 ∷ acknowledges 1 ∷ drains ∷ []) no_receipts).1 ≡ (1, 10) ∷ (1, 10) ∷ []
unfolding run step add_correlation_context ack_handler drain_ack_table no_receipts fetch assign
resolved_twice = refl

-- The last message is given up by its publish: the table is empty, and nothing is signalled.
given_up :
    (run {C = ℕ} (adds 1 10 ∷ terminates ∷ requests ∷ removes 1 ∷ []) no_receipts).0.completes ≡ 0
unfolding run step add_correlation_context remove_correlation_context request_complete no_receipts
    assign discard
given_up = refl

-- A message that is published after the signal: its acknowledgement closes the channel again.
closed_twice :
    (run {C = ℕ}
      (adds 1 10
        ∷ terminates
        ∷ requests
        ∷ acknowledges 1
        ∷ finishes
        ∷ adds 2 20
        ∷ acknowledges 2
        ∷ finishes
        ∷ [])
      no_receipts).0.completes
    ≡ 2
unfolding run step add_correlation_context ack_handler finish_ack request_complete no_receipts fetch
    assign discard
closed_twice = refl
