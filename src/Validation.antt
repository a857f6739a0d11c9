-- ===== src/Validation.antt =====
-- internal/impl/validation/validator.go: a configuration value of any dynamic type, checked and
-- converted to the type that a property wants.
pub mod Range
mod Tests
use pubsubplus_go_client.Prelude.{
  ℕ, Bool, true, false, not, ◌&&◌, ◌||◌, List, [], ◌∷◌, Option, none, some, ◌==◌, if◌then◌else◌,
}
use pubsubplus_go_client.Prelude.Int.{ℤ, pos, leb_ℤ}
use pubsubplus_go_client.Sdt.Strconv.{Bytes, w64, to_int, to_uint}
use pubsubplus_go_client.Sdt.Convert.{same_text, text_true}

-- An `interface{}`: the dynamic types that the validators tell apart, and `other` for the rest. A
-- float64 is its bit pattern.
pub data Value : Type 0 where
  null : Value
  string : Bytes → Value
  bool : Bool → Value
  int int32 int64 : ℤ → Value
  uint uint32 uint64 : ℕ → Value
  float64 : ℕ → Value
  other : Value

-- `requiredPropertyError`, `wrongTypeError`, and the errors of the value itself.
pub data PropertyError : Type 0 where
  required wrong_type not_allowed out_of_range : PropertyError

-- The triple that a validator returns: value, whether the property was set, error.
pub record Checked (A : Type 0) : Type 0 where
  pub value : A
  pub present : Bool
  pub error : Option PropertyError

abbrev pub absent : {A : Type 0} → A → Checked A
absent zero = record { value = zero; present = false; error = some required }

abbrev pub invalid : {A : Type 0} → A → PropertyError → Checked A
invalid zero e = record { value = zero; present = true; error = some e }

abbrev pub valid : {A : Type 0} → A → Checked A
valid a = record { value = a; present = true; error = none }

-- The loop over the allowed values.
unfoldable pub one_of : Bytes → List Bytes → Checked Bytes
one_of s [] = invalid [] not_allowed
one_of s (a ∷ allowed) = let rest = one_of s allowed in if same_text a s then valid a else rest

abbrev among : Bytes → List Bytes → Checked Bytes
among s [] = valid s
among s (a ∷ allowed) = one_of s (a ∷ allowed)

unfoldable pub string_property_validation : Value → List Bytes → Checked Bytes
unfolding one_of
string_property_validation Value.null allowed = absent []
string_property_validation (Value.string s) allowed = among s allowed
string_property_validation _ allowed = invalid [] wrong_type

-- The first argument stands for Go's conversion of a float64 to an int.
unfoldable pub integer_property_validation : (ℕ → ℤ) → Value → Checked ℤ
integer_property_validation truncate Value.null = absent (pos 0)
integer_property_validation truncate (Value.int z) = valid z
integer_property_validation truncate (Value.uint n) = valid (to_int w64 (pos n))
integer_property_validation truncate (Value.float64 f) = valid (truncate f)
integer_property_validation truncate _ = invalid (pos 0) wrong_type

unfoldable pub int64_property_validation : Value → Checked ℤ
int64_property_validation Value.null = absent (pos 0)
int64_property_validation (Value.int64 z) = valid z
int64_property_validation (Value.int32 z) = valid z
int64_property_validation (Value.int z) = valid z
int64_property_validation _ = invalid (pos 0) wrong_type

unfoldable pub uint64_property_validation : Value → Checked ℕ
uint64_property_validation Value.null = absent 0
uint64_property_validation (Value.uint64 n) = valid n
uint64_property_validation (Value.uint32 n) = valid n
uint64_property_validation (Value.uint n) = valid n
uint64_property_validation (Value.int z) = valid (to_uint w64 z)
uint64_property_validation _ = invalid 0 wrong_type

abbrev has_error : Option PropertyError → Bool
has_error none = false
has_error (some e) = true

-- `!present || err != nil`
abbrev not_ready : {A : Type 0} → Checked A → Bool
not_ready c = not c.present || has_error c.error

abbrev within : ℤ → ℤ → Checked ℤ → Checked ℤ
within low high c =
    if not_ready c
    then c
    else if leb_ℤ low c.value && leb_ℤ c.value high
    then valid c.value
    else invalid (pos 0) out_of_range

unfoldable pub integer_property_validation_with_range : (ℕ → ℤ) → Value → ℤ → ℤ → Checked ℤ
unfolding integer_property_validation
integer_property_validation_with_range truncate v low high =
    within low high (integer_property_validation truncate v)

abbrev text_capital_true : Bytes
text_capital_true = b'T' ∷ b'r' ∷ b'u' ∷ b'e' ∷ []

abbrev is_one : ℤ → Bool
is_one (pos n) = n == 1
is_one _ = false

unfoldable pub boolean_property_validation : Value → Checked Bool
boolean_property_validation Value.null = absent false
boolean_property_validation (Value.int z) = valid (is_one z)
boolean_property_validation (Value.bool b) = valid b
boolean_property_validation (Value.string s) =
    valid (same_text s text_true || same_text s text_capital_true)
boolean_property_validation _ = invalid false wrong_type
