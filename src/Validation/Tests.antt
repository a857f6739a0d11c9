-- ===== src/Validation/Tests.antt =====
-- The validators: tests, and the theorem at a concrete input.
use pubsubplus_go_client.Prelude.{ℕ, ◌≡◌, refl, [], ◌∷◌, false}
use pubsubplus_go_client.Prelude.Int.{ℤ, pos, negsuc}
use pubsubplus_go_client.Sdt.Strconv.{to_int, to_uint}
use pubsubplus_go_client.Sdt.Convert.{text_true}
use pubsubplus_go_client.Validation.{
  Value, valid, invalid, out_of_range, not_allowed, wrong_type, string_property_validation,
  int64_property_validation, uint64_property_validation, integer_property_validation_with_range,
  boolean_property_validation,
}

abbrev truncate : ℕ → ℤ
truncate f = pos f

too_large :
    integer_property_validation_with_range truncate (Value.uint 70000) (pos 0) (pos 65535)
    ≡ invalid (pos 0) out_of_range
unfolding integer_property_validation_with_range to_int
too_large = refl

not_listed :
    string_property_validation (Value.string (b'x' ∷ [])) (text_true ∷ []) ≡ invalid [] not_allowed
unfolding string_property_validation
not_listed = refl

listed :
    string_property_validation (Value.string text_true) ((b'x' ∷ []) ∷ text_true ∷ [])
    ≡ valid text_true
unfolding string_property_validation
listed = refl

narrow : int64_property_validation (Value.int32 (negsuc 4)) ≡ valid (negsuc 4)
unfolding int64_property_validation
narrow = refl

negative : uint64_property_validation (Value.int (negsuc 0)) ≡ valid 18446744073709551615
unfolding uint64_property_validation to_uint
negative = refl

not_boolean : boolean_property_validation (Value.uint 1) ≡ invalid false wrong_type
unfolding boolean_property_validation
not_boolean = refl
