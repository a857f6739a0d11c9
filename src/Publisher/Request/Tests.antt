-- ===== src/Publisher/Request/Tests.antt =====
-- One request of the request-reply publisher: tests, and the theorems at concrete inputs.
use pubsubplus_go_client.Prelude.{
  ℕ, ◌≤◌, ◌≡◌, refl, true, false, List, [], ◌∷◌, ◌++◌, none, length, All, arith,
}
use pubsubplus_go_client.Publisher.Request.{
  Request, Event, Op, panics, channel, timer, complete, signals, replies, begins, ends, waits,
  create_reply_correlation, signal_request_correlation_sent, handle_reply_message,
  close_reply_correlation, close_correlations, await_outcome, step, run,
}
use pubsubplus_go_client.Publisher.Request.Replies.{
  run_reply_accounted, accepted_all, left_all, held,
}
use pubsubplus_go_client.Publisher.Request.Outcome.{run_handler_once, handler_calls, IsOne}
use pubsubplus_go_client.Publisher.Request.Wait.{run_over, has_outcome}

abbrev new : Request ℕ ℕ
new = create_reply_correlation true false

-- The message is sent, and the wait for the reply times out; then the reply 7 comes.
abbrev late_reply : List (Op ℕ ℕ)
late_reply =
    signals none
    ∷ begins
    ∷ waits channel false
    ∷ waits timer false
    ∷ replies 7
    ∷ waits channel false
    ∷ waits channel false
    ∷ []

-- The reply is taken over, and then read from its channel by the code that closes it.
late_reply_dropped : left_all (run late_reply new).1 ≡ 7 ∷ []
unfolding run step signal_request_correlation_sent handle_reply_message close_reply_correlation
    await_outcome create_reply_correlation
late_reply_dropped = refl

late_reply_accepted : accepted_all (run late_reply new).1 ≡ 7 ∷ []
unfolding run step signal_request_correlation_sent handle_reply_message close_reply_correlation
    await_outcome create_reply_correlation
late_reply_accepted = refl

-- Terminate closes the channels of a request that publish is about to signal.
sent_too_late : (run (ends ∷ signals none ∷ []) new).1 ≡ Event.quiet ∷ panics ∷ []
unfolding run step signal_request_correlation_sent close_correlations create_reply_correlation
sent_too_late = refl

run_reply_accounted_example :
    (accepted_all (run late_reply new).1
      ≡ left_all (run late_reply new).1 ++ held (run late_reply new).0)
    × (length (accepted_all (run late_reply new).1) ≤ 1)
run_reply_accounted_example = run_reply_accounted true false late_reply

run_handler_once_example :
    (handler_calls (run late_reply new).1 ≤ 1) × All IsOne (run late_reply new).1
run_handler_once_example = run_handler_once true false late_reply

abbrev sent_and_ended : List (Op ℕ ℕ)
sent_and_ended = signals none ∷ begins ∷ waits channel false ∷ ends ∷ []

abbrev five_steps : List (Op ℕ ℕ)
five_steps =
    waits complete false
    ∷ replies 3
    ∷ waits complete false
    ∷ waits complete false
    ∷ waits complete false
    ∷ waits complete false
    ∷ []

run_over_example : has_outcome (run five_steps (run sent_and_ended new).0).0.waiter ≡ true
unfolding run step signal_request_correlation_sent await_outcome close_correlations
    create_reply_correlation
run_over_example = run_over true false sent_and_ended five_steps refl refl (omega arith)
