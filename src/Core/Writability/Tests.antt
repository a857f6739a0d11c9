-- ===== src/Core/Writability/Tests.antt =====
-- The wait for room: the theorem at a concrete input.
use pubsubplus_go_client.Prelude.{◌≡◌, ◌||◌, refl, true, List, [], ◌∷◌}
use pubsubplus_go_client.Core.Writability.{
  Op, tests, takes, receives, sends_again, starts, publishes, would_block, idle_publisher, start,
  on_can_send, publish_loop, await_writable, step, run,
}
use pubsubplus_go_client.Core.Writability.Waiting.{run-awaits, is_filled}

-- The event comes before the task waits for it.
abbrev early_event : List Op
early_event =
    starts
    ∷ tests
    ∷ takes
    ∷ sends_again
    ∷ publishes would_block
    ∷ receives
    ∷ publishes would_block
    ∷ []

run-awaits_example :
    ((run early_event idle_publisher).owed || is_filled (run early_event idle_publisher).can_send)
    ≡ true
unfolding run step start on_can_send publish_loop await_writable idle_publisher
run-awaits_example = run-awaits early_event refl
