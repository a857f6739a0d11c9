-- ===== src/Publisher/Backpressure/Choice.antt =====
-- The backpressure that a publisher is built with.
use pubsubplus_go_client.Prelude.{
  ℕ, zero, suc, ◌-◌, ◌<◌, ◌≡◌, ◌^◌, refl, true, false, [], ◌∷◌, Option, none, some, ◌==◌,
  if◌then◌else◌, arith, ltb, inl, inr, Bool-cases,
}
use pubsubplus_go_client.Prelude.Int.{ℤ, pos, negsuc, ltb_ℤ, neg_ℕ, ◌≤ℤ◌}
use pubsubplus_go_client.Sdt.Strconv.{Bytes, w64, to_int, to_uint}
use pubsubplus_go_client.Sdt.Convert.{same_text}
use pubsubplus_go_client.Validation.{
  Checked, PropertyError, string_property_validation, integer_property_validation,
}
use pubsubplus_go_client.Publisher.Backpressure.{
  Backpressure, Properties, Config, invalid_size, is_zero, choose, sized, named, chosen, failed,
  reject_when_full, wait_when_full, validate_backpressure_config, on_back_pressure_reject,
  on_back_pressure_wait,
}

-- What the builder's methods ask for. A uint from 2^63 on is a negative int.
abbrev pub rejecting : ℕ → Config
rejecting n =
    if n == 0
    then chosen Backpressure.direct (pos 0)
    else if ltb n (2 ^ 63)
    then chosen Backpressure.reject (pos n)
    else failed Backpressure.direct (neg_ℕ (2 ^ 64 - n)) invalid_size

abbrev pub waiting : ℕ → Config
waiting n =
    if n == 0
    then failed Backpressure.direct (pos 0) invalid_size
    else if ltb n (2 ^ 63)
    then chosen Backpressure.wait (pos n)
    else failed Backpressure.direct (neg_ℕ (2 ^ 64 - n)) invalid_size

int_of_uint :
    (n : ℕ)
    → n < 2 ^ 64
    → to_int w64 (pos n) ≡ (if ltb n (2 ^ 63) then pos n else neg_ℕ (2 ^ 64 - n))
unfolding to_int to_uint
int_of_uint n h = ground arith

ltb_ℤ-neg_ℕ : (n : ℕ) (k : ℕ) → 0 < n → ltb_ℤ (neg_ℕ n) (pos k) ≡ true
ltb_ℤ-neg_ℕ zero k h = absurd (omega arith)
ltb_ℤ-neg_ℕ (suc n) k h = ground arith

is_zero-neg_ℕ : (n : ℕ) → 0 < n → is_zero (neg_ℕ n) ≡ false
is_zero-neg_ℕ zero h = absurd (omega arith)
is_zero-neg_ℕ (suc n) h = refl

-- The builder's two methods, for every buffer size that a uint can hold.
validate_backpressure_config-builder :
    (truncate : ℕ → ℤ) (p : Properties) (n : ℕ)
    → n < 2 ^ 64
    → (validate_backpressure_config truncate (on_back_pressure_reject n p) ≡ rejecting n)
      × (validate_backpressure_config truncate (on_back_pressure_wait n p) ≡ waiting n)
unfolding validate_backpressure_config on_back_pressure_reject on_back_pressure_wait
validate_backpressure_config-builder truncate p n h =
    rw (int_of_uint n h) (elim (Bool-cases (ltb n (2 ^ 63))) [
      | inl small ↦ rw small (ground arith, ground arith)
      | inr large ↦
          let negative = ltb_ℤ-neg_ℕ (2 ^ 64 - n) 0 (omega arith) in
          let small_size = ltb_ℤ-neg_ℕ (2 ^ 64 - n) 1 (omega arith) in
          rw large (ground arith, ground arith)
    ])

-- The buffer has the size that its strategy needs, and no channel is made with a negative size.
abbrev pub HasFittingSize : Config → Type 0
HasFittingSize c =
    (c.backpressure ≡ Backpressure.reject → pos 1 ≤ℤ c.buffer_size)
    × (c.backpressure ≡ Backpressure.wait → pos 1 ≤ℤ c.buffer_size)

choose-HasFittingSize :
    (s : Bytes) (z : ℤ) → (choose s z).error ≡ none → HasFittingSize (choose s z)
choose-HasFittingSize s (pos n) h = elim (Bool-cases (same_text s reject_when_full)) [
  | inl yes' ↦ ground arith
  | inr no' ↦ elim (Bool-cases (same_text s wait_when_full)) [
    | inl yes' ↦ ground arith
    | inr other ↦ ground arith
  ]
]
choose-HasFittingSize s (negsuc n) h = elim (Bool-cases (same_text s reject_when_full)) [
  | inl yes' ↦ ground arith
  | inr no' ↦ elim (Bool-cases (same_text s wait_when_full)) [
    | inl yes' ↦ ground arith
    | inr other ↦ ground arith
  ]
]

named-HasFittingSize :
    (s : Checked Bytes) (z : Checked ℤ) (e e' : Option PropertyError)
    → z.error ≡ e'
    → (named s e z).error ≡ none
    → HasFittingSize (named s e z)
named-HasFittingSize s z (some e) e' p h = cc
named-HasFittingSize s z none none p h =
    rw (p, sized) (choose-HasFittingSize s.value z.value (rw (p, sized) at h))
named-HasFittingSize s z none (some e') p h = cc

-- Whatever the properties hold, a configuration that is accepted has a fitting size.
validate_backpressure_config-HasFittingSize :
    (truncate : ℕ → ℤ) (p : Properties)
    → (validate_backpressure_config truncate p).error ≡ none
    → HasFittingSize (validate_backpressure_config truncate p)
unfolding validate_backpressure_config
validate_backpressure_config-HasFittingSize truncate p h =
    let s = string_property_validation p.strategy (reject_when_full ∷ wait_when_full ∷ []) in
    let z = integer_property_validation truncate p.capacity in
    named-HasFittingSize s z s.error z.error refl h
