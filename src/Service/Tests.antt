-- ===== src/Service/Tests.antt =====
-- The messaging service: tests, and the theorems at concrete inputs.
use pubsubplus_go_client.Prelude.{
  ℕ, zero, suc, ◌≤◌, ◌<◌, ◌≡◌, refl, true, false, not, List, [], ◌∷◌, ◌++◌, none, arith, ltb,
}
use pubsubplus_go_client.Prelude.Interleaving.{Picks, run, step_thread}
use pubsubplus_go_client.Future.{new_future_error}
use pubsubplus_go_client.Service.{
  is_not_connected, Input, Call, disconnect_wait, new_messaging_service, is_connected, step,
  connect_step, disconnect_step, down_step,
}
use pubsubplus_go_client.Service.Rights.{rank, discipline, init}
use pubsubplus_go_client.Service.Totals.{connects_at, ends_at}
use pubsubplus_go_client.Service.Connection.{run-once, run-answers}

abbrev by : ℕ → Call → ℕ × Input ℕ
by t call = (t, record { call = call; outcome = none })

-- Thread 0 connects, up to the store of the state.
abbrev nearly_connected : List (ℕ × Input ℕ)
nearly_connected =
    by 0 Call.connects ∷ by 0 Call.connects ∷ by 0 Call.connects ∷ by 0 Call.connects ∷ []

abbrev connected_then : List (ℕ × Input ℕ)
connected_then = by 0 Call.connects ∷ by 0 Call.connects ∷ []

-- The whole of a Connect, and the start of a Disconnect by thread 1 that reaches the transport.
abbrev schedule : List (ℕ × Input ℕ)
schedule =
    nearly_connected
    ++ (connected_then
        ++ (by 1 Call.disconnects
            ∷ by 1 Call.disconnects
            ∷ by 1 Call.disconnects
            ∷ by 1 Call.disconnects
            ∷ by 1 Call.disconnects
            ∷ []))

-- A session that goes down before the state is stored.
abbrev down_early : List (ℕ × Input ℕ)
down_early = nearly_connected ++ (by 1 Call.goes_down ∷ by 1 Call.goes_down ∷ connected_then)

-- A Disconnect whose compare-and-swap comes before the store of Connect, and whose load after it.
abbrev disconnect_early : List (ℕ × Input ℕ)
disconnect_early =
    nearly_connected
    ++ (by 1 Call.disconnects
        ∷ by 1 Call.disconnects
        ∷ by 0 Call.connects
        ∷ by 0 Call.connects
        ∷ by 1 Call.disconnects
        ∷ [])

after_down_early : is_connected (run discipline down_early init).shared ≡ true
unfolding run step_thread step connect_step disconnect_step down_step new_messaging_service
    is_connected
after_down_early = refl

after_disconnect_early : (run discipline disconnect_early init).pcs 1 ≡ disconnect_wait
unfolding run step_thread step connect_step disconnect_step down_step new_messaging_service
after_disconnect_early = refl

-- Nobody is at work, and the service stays connected.
nobody_disconnects :
    (run discipline disconnect_early init).shared.disconnect_future.resolved ≡ false
unfolding run step_thread step connect_step disconnect_step down_step new_messaging_service
    new_future_error
nobody_disconnects = refl

schedule-Picks : Picks 2 schedule
schedule-Picks = ground arith

down_early-Picks : Picks 2 down_early
down_early-Picks = ground arith

run-once_example :
    ((run discipline schedule init).shared.connects ≤ 1)
    × ((run discipline schedule init).shared.disconnects ≤ 1)
    × ((run discipline schedule init).shared.closes ≤ 1)
run-once_example = run-once 2 schedule schedule-Picks

down_early-quiet :
    (t : ℕ)
    → t < 2
    → (connects_at ((run discipline down_early init).pcs t) ≡ false)
      × (ends_at ((run discipline down_early init).pcs t) ≡ false)
unfolding run step_thread step connect_step disconnect_step down_step new_messaging_service
down_early-quiet zero h = (refl, refl)
down_early-quiet (suc zero) h = (refl, refl)
down_early-quiet (suc (suc t)) h = absurd (omega arith)

run-answers_example :
    ((run discipline down_early init).shared.connect_future.resolved
      ≡ not (is_not_connected (run discipline down_early init).shared.state))
    × ((run discipline down_early init).shared.disconnect_future.resolved
        ≡ ltb 2 (rank (run discipline down_early init).shared.state))
run-answers_example = run-answers 2 down_early down_early-Picks down_early-quiet
