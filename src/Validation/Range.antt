-- ===== src/Validation/Range.antt =====
-- Which values IntegerPropertyValidationWithRange lets through.
use pubsubplus_go_client.Prelude.{ℕ, ◌≡◌, ◌↔◌, arith}
use pubsubplus_go_client.Prelude.Int.{ℤ, ◌≤ℤ◌}
use pubsubplus_go_client.Validation.{
  Value, valid, integer_property_validation, integer_property_validation_with_range,
}

-- The result has no error for exactly the values that convert to an integer of the range, which is
-- then the result, of a property that is present.
with_range-eq-valid :
    (truncate : ℕ → ℤ) (v : Value) (low high z : ℤ)
    → (integer_property_validation_with_range truncate v low high ≡ valid z)
      ↔ ((integer_property_validation truncate v ≡ valid z) × (low ≤ℤ z) × (z ≤ℤ high))
unfolding integer_property_validation_with_range
with_range-eq-valid truncate Value.null low high z = (λ h. ground arith, λ h. ground arith)
with_range-eq-valid truncate _ low high z = (λ h. ground arith, λ h. ground arith)
