-- ===== src/Publisher/Backpressure/Tests.antt =====
-- The backpressure configuration: tests, and the theorems at concrete inputs.
use pubsubplus_go_client.Prelude.{ℕ, ◌≡◌, refl, [], ◌∷◌}
use pubsubplus_go_client.Prelude.Int.{ℤ, pos}
use pubsubplus_go_client.Validation.{Value, not_allowed}
use pubsubplus_go_client.Publisher.Backpressure.{
  Backpressure, Properties, property, failed, chosen, wait_when_full, validate_backpressure_config,
}

abbrev truncate : ℕ → ℤ
truncate f = pos f

abbrev defaults : Properties
defaults = record { strategy = Value.string wait_when_full; capacity = Value.int (pos 50) }

unknown_strategy :
    validate_backpressure_config truncate (record defaults { strategy = Value.string (b'?' ∷ []) })
    ≡ failed Backpressure.direct (pos 0) (property not_allowed)
unfolding validate_backpressure_config
unknown_strategy = refl

defaults_accepted :
    validate_backpressure_config truncate defaults ≡ chosen Backpressure.wait (pos 50)
unfolding validate_backpressure_config
defaults_accepted = refl
