-- ===== src/Publisher/Backpressure.antt =====
-- internal/impl/publisher/message_publisher_impl.go: validateBackpressureConfig, and the builders'
-- methods of direct_message_publisher_impl.go that set what it reads.
pub mod Choice
mod Tests
use pubsubplus_go_client.Prelude.{
  ℕ, ◌≤◌, ◌<◌, ◌≡◌, ◌^◌, refl, Bool, true, false, not, List, [], ◌∷◌, Option, none, some, ◌==◌,
  if◌then◌else◌, arith, ltb,
}
use pubsubplus_go_client.Prelude.Int.{ℤ, pos, negsuc, ltb_ℤ, neg_ℕ}
use pubsubplus_go_client.Sdt.Strconv.{Bytes, w64, to_int, to_uint}
use pubsubplus_go_client.Sdt.Convert.{same_text}
use pubsubplus_go_client.Validation.{
  Value, Checked, PropertyError, string_property_validation, integer_property_validation,
}

-- `backpressureConfiguration`
pub data Backpressure : Type 0 where
  direct reject wait : Backpressure

-- `PublisherPropertyBackPressureStrategyBufferRejectWhenFull` and `…WaitWhenFull`
abbrev pub reject_when_full : Bytes
reject_when_full =
    b'B' ∷ b'U' ∷ b'F' ∷ b'F' ∷ b'E' ∷ b'R' ∷ b'_' ∷ b'R' ∷ b'E' ∷ b'J' ∷ b'E' ∷ b'C' ∷ b'T' ∷ b'_'
    ∷ b'W' ∷ b'H' ∷ b'E' ∷ b'N' ∷ b'_' ∷ b'F' ∷ b'U' ∷ b'L' ∷ b'L' ∷ []

abbrev pub wait_when_full : Bytes
wait_when_full =
    b'B' ∷ b'U' ∷ b'F' ∷ b'F' ∷ b'E' ∷ b'R' ∷ b'_' ∷ b'W' ∷ b'A' ∷ b'I' ∷ b'T' ∷ b'_' ∷ b'W' ∷ b'H'
    ∷ b'E' ∷ b'N' ∷ b'_' ∷ b'F' ∷ b'U' ∷ b'L' ∷ b'L' ∷ []

-- The two properties of the map that are read; a missing key is `null`.
pub record Properties : Type 0 where
  pub strategy : Value
  pub capacity : Value

-- `invalid_size` is the InvalidConfigurationError on the buffer size.
pub data ConfigError : Type 0 where
  property : PropertyError → ConfigError
  invalid_size : ConfigError

pub record Config : Type 0 where
  pub backpressure : Backpressure
  pub buffer_size : ℤ
  pub error : Option ConfigError

abbrev failed : Backpressure → ℤ → ConfigError → Config
failed b size e = record { backpressure = b; buffer_size = size; error = some e }

abbrev chosen : Backpressure → ℤ → Config
chosen b size = record { backpressure = b; buffer_size = size; error = none }

abbrev is_zero : ℤ → Bool
is_zero (pos n) = n == 0
is_zero (negsuc n) = false

-- The branches on the strategy, with both properties read.
abbrev choose : Bytes → ℤ → Config
choose strategy size =
    if same_text strategy reject_when_full
    then if ltb_ℤ size (pos 0)
      then failed Backpressure.direct size invalid_size
      else if is_zero size
      then chosen Backpressure.direct size
      else chosen Backpressure.reject size
    else if same_text strategy wait_when_full
    then if ltb_ℤ size (pos 1)
      then failed Backpressure.direct size invalid_size
      else chosen Backpressure.wait size
    else chosen Backpressure.direct size

abbrev sized : Bytes → Checked ℤ → Option PropertyError → Config
sized strategy size (some e) = failed Backpressure.direct size.value (property e)
sized strategy size none = choose strategy size.value

abbrev named : Checked Bytes → Option PropertyError → Checked ℤ → Config
named strategy (some e) size = failed Backpressure.direct (pos 0) (property e)
named strategy none size = sized strategy.value size size.error

unfoldable pub validate_backpressure_config : (ℕ → ℤ) → Properties → Config
unfolding string_property_validation integer_property_validation
validate_backpressure_config truncate p =
    let strategy = string_property_validation p.strategy (reject_when_full ∷ wait_when_full ∷ []) in
    named strategy strategy.error (integer_property_validation truncate p.capacity)

-- `OnBackPressureReject` and `OnBackPressureWait` of the direct publisher's builder.
unfoldable pub on_back_pressure_reject : ℕ → Properties → Properties
on_back_pressure_reject buffer_size p = record {
  strategy = Value.string reject_when_full;
  capacity = Value.uint buffer_size;
}

unfoldable pub on_back_pressure_wait : ℕ → Properties → Properties
on_back_pressure_wait buffer_size p = record {
  strategy = Value.string wait_when_full;
  capacity = Value.uint buffer_size;
}
