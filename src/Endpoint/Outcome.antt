-- ===== src/Endpoint/Outcome.antt =====
-- endpoint_provisioner_impl.go: Provision and Deprovision, up to the wait for the broker's answer and
-- from it on. `E` is the type of the errors that the C library and the broker give.
use pubsubplus_go_client.Prelude.{
  ℕ, Bool, true, false, [], ◌∷◌, ◌++◌, Option, none, some, if◌then◌else◌, Result, ok, err,
}
use pubsubplus_go_client.Prelude.Int.{ℤ}
use pubsubplus_go_client.Prelude.Dict.{Dict}
use pubsubplus_go_client.Sdt.Strconv.{Bytes}
use pubsubplus_go_client.Validation.{Value, PropertyError}
use pubsubplus_go_client.Core.Provisioner.{Provisioner, asked}
use pubsubplus_go_client.Core.Provisioner
use pubsubplus_go_client.Endpoint.{Key, Setting, Settings, validate_endpoint_properties}

-- `not_running` is the IllegalStateError of a service that is not started.
pub data Failure (E : Type 0) : Type 0 where
  not_running : Failure E
  invalid : PropertyError → Failure E
  native : E → Failure E

-- `provisionOutcome`, whose endpointProperties stay nil.
pub record ProvisionOutcome (E : Type 0) : Type 0 where
  pub is_ok : Bool
  pub error : Option (Failure E)

-- A call is over, or waits for the answer to a request.
pub data Begun (E : Type 0) : Type 0 where
  settled : Failure E → Begun E
  waits : ℕ → Begun E

module _ {H E : Type 0} where
  abbrev pub awaited : Provisioner H E × (ℕ × Option E) → Provisioner H E × Begun E
  awaited (s, (id, none)) = (s, waits id)
  awaited (s, (id, some e)) = (s, settled (native e))

  abbrev pub with_settings :
      Result PropertyError Settings
      → Bytes
      → (Settings → Provisioner H E → Provisioner H E × (ℕ × Option E))
      → Provisioner H E
      → Provisioner H E × Begun E
  with_settings (err e) queue_name call s = (s, settled (invalid e))
  with_settings (ok settings) queue_name call s =
      awaited (call (settings ++ ((Key.name, Setting.text queue_name) ∷ [])) s)

  -- What Provision and Deprovision do before the call of the core.
  abbrev pub begin :
      Result PropertyError Settings
      → Bytes
      → (Settings → Provisioner H E → Provisioner H E × (ℕ × Option E))
      → Provisioner H E
      → Provisioner H E × Begun E
  begin r queue_name call s =
      if s.is_running then with_settings r queue_name call s else (s, settled not_running)

  module _ (truncate : ℕ → ℤ) (show : Value → Bytes)
      (library : Settings → ℕ → Bool → Option E) where
    unfoldable pub provision :
        Dict Value → Bytes → Bool → Provisioner H E → Provisioner H E × Begun E
    provision properties queue_name ignore_exists s =
        begin (validate_endpoint_properties truncate show properties) queue_name
          (λ p t. Provisioner.provision library p ignore_exists t) s

    unfoldable pub deprovision :
        Dict Value → Bytes → Bool → Provisioner H E → Provisioner H E × Begun E
    deprovision properties queue_name ignore_missing s =
        begin (validate_endpoint_properties truncate show properties) queue_name
          (λ p t. Provisioner.deprovision library p ignore_missing t) s

-- The outcome of a call that is over, and of one that has its answer.
unfoldable pub refused_outcome : {E : Type 0} → Failure E → ProvisionOutcome E
refused_outcome f = record { is_ok = false; error = some f }

unfoldable pub answered_outcome : {E : Type 0} → Option E → ProvisionOutcome E
answered_outcome none = record { is_ok = true; error = none }
answered_outcome (some e) = record { is_ok = false; error = some (native e) }
