-- ===== src/Prelude/Family.antt =====
-- A value for each thread: writing one, and a measure summed over the first n threads.
use mathlib.Core.Path.{◌≡◌, refl}
use native.Mathlib.Omega.{arith}
use pubsubplus_go_client.Prelude.{
  ℕ, zero, suc, ◌+◌, ◌≤◌, ◌<◌, ◌≢◌, inl, inr, ◌==◌, if◌then◌else◌, Bool-cases,
}

abbrev pub put {ℓ} : {A : Type ℓ} → ℕ → A → (ℕ → A) → ℕ → A
put i a f j = if i == j then a else f j

module _ {ℓ} {A : Type ℓ} (measure : A → ℕ) where
  unfoldable pub sum_below : ℕ → (ℕ → A) → ℕ
  sum_below zero f = 0
  sum_below (suc n) f = measure (f n) + sum_below n f

  -- A write beyond the range does not count.
  sum_below-put_beyond :
      (n i : ℕ) (a : A) (f : ℕ → A) → n ≤ i → sum_below n (put i a f) ≡ sum_below n f
  unfolding sum_below
  sum_below-put_beyond zero i a f h = refl
  sum_below-put_beyond (suc n) i a f h = ground (arith, sum_below-put_beyond n i a f)

  -- A write trades the measure of the old value for that of the new one.
  pub sum_below-put :
      (n i : ℕ) (a : A) (f : ℕ → A)
      → i < n
      → sum_below n (put i a f) + measure (f i) ≡ sum_below n f + measure a
  unfolding sum_below
  sum_below-put zero i a f h = absurd (omega arith)
  sum_below-put (suc n) i a f h = elim (Bool-cases (i == n)) [
    | inl last ↦ ground (arith, sum_below-put_beyond n i a f)
    | inr before ↦ ground (arith, sum_below-put n i a f)
  ]

  -- One thread's measure is part of the sum.
  pub measure-le-sum_below : (n i : ℕ) (f : ℕ → A) → i < n → measure (f i) ≤ sum_below n f
  unfolding sum_below
  measure-le-sum_below zero i f h = absurd (omega arith)
  measure-le-sum_below (suc n) i f h = elim (Bool-cases (i == n)) [
    | inl last ↦ ground arith
    | inr before ↦ ground (arith, measure-le-sum_below n i f)
  ]

  -- Two threads' measures are part of the sum.
  pub two-le-sum_below :
      (n i j : ℕ) (f : ℕ → A)
      → i < n
      → j < n
      → i ≢ j
      → measure (f i) + measure (f j) ≤ sum_below n f
  unfolding sum_below
  two-le-sum_below zero i j f hi hj ne = absurd (omega arith)
  two-le-sum_below (suc n) i j f hi hj ne = elim (Bool-cases (i == n)) [
    | inl first ↦ ground (arith, measure-le-sum_below n j f)
    | inr before ↦ elim (Bool-cases (j == n)) [
      | inl second ↦ ground (arith, measure-le-sum_below n i f)
      | inr both ↦ ground (arith, two-le-sum_below n i j f)
    ]
  ]

  pub sum_below-zero :
      (n : ℕ) (f : ℕ → A) → ((i : ℕ) → i < n → measure (f i) ≡ 0) → sum_below n f ≡ 0
  unfolding sum_below
  sum_below-zero zero f h = refl
  sum_below-zero (suc n) f h =
      omega (arith, h n (omega arith), sum_below-zero n f (λ i b. h i (omega arith)))
