-- ===== src/Endpoint/Tests.antt =====
-- The provisioner of the API: tests, and the theorems at concrete inputs.
use pubsubplus_go_client.Prelude.{ℕ, ◌≡◌, refl, Bool, true, false, [], ◌∷◌, Option, none, ok, err}
use pubsubplus_go_client.Prelude.Int.{ℤ, pos}
use pubsubplus_go_client.Sdt.Strconv.{Bytes, to_int}
use pubsubplus_go_client.Validation.{
  Value, boolean_property_validation, integer_property_validation_with_range,
  string_property_validation, out_of_range,
}
use pubsubplus_go_client.Core.Events.{new_ccsmp_events}
use pubsubplus_go_client.Core.Provisioner.{Provisioner, new_ccsmp_endpoint_provisioner}
use pubsubplus_go_client.Endpoint.{
  Settings, Permission, text_of, validate_endpoint_properties, setting, map_endpoint_permission,
  with_property,
}
use pubsubplus_go_client.Endpoint
use pubsubplus_go_client.Endpoint.Property
use pubsubplus_go_client.Endpoint.Outcome.{provision, deprovision}
use pubsubplus_go_client.Endpoint.Branches.{Told, provision-Told}

abbrev truncate : ℕ → ℤ
truncate n = pos 0

-- Texts show as they are.
abbrev show : Value → Bytes
show (Value.string s) = s
show _ = []

abbrev not_durable : ℕ × Value
not_durable = (Property.durable, Value.bool false)

abbrev access : ℕ × Value
access = (Property.permission, Value.string (text_of Permission.consume))

set_up :
    validate_endpoint_properties truncate show (not_durable ∷ access ∷ [])
    ≡ ok (
        (Endpoint.id, Endpoint.queue)
        ∷ (Endpoint.durable, Endpoint.disable)
        ∷ (Endpoint.permission, Endpoint.permitted Permission.consume)
        ∷ [])
unfolding validate_endpoint_properties boolean_property_validation map_endpoint_permission
    string_property_validation
set_up = refl

too_many :
    validate_endpoint_properties truncate show
      ((Property.max_message_redelivery, Value.uint 256) ∷ [])
    ≡ err out_of_range
unfolding validate_endpoint_properties integer_property_validation_with_range to_int
too_many = refl

abbrev provisioner : Provisioner Bool ℕ
provisioner = record (new_ccsmp_endpoint_provisioner new_ccsmp_events) { is_running = true }

abbrev library : Settings → ℕ → Bool → Option ℕ
library settings id ignore = none

provision-Told_example :
    let r = validate_endpoint_properties truncate show (not_durable ∷ []) in
    Told true r []
      (λ p id. library p id true)
      provisioner
      (provision truncate show library (not_durable ∷ []) [] true provisioner)
    × Told true r []
        (λ p id. library p id true)
        provisioner
        (deprovision truncate show library (not_durable ∷ []) [] true provisioner)
provision-Told_example = provision-Told truncate show library (not_durable ∷ []) [] true provisioner
