-- ===== src/Prelude/Lists.antt =====
-- Lists measured and indexed by native numbers, and the last element split off a queue.
use Prim.Native.Nat.{ℕ, zero, suc, ◌+◌}
use mathlib.Core.Path.{◌≡◌, sym, ap, ◌∙◌}
use mathlib.Core.List.{List, [], ◌∷◌, ◌++◌, append_assoc}
use mathlib.Core.Option.{Option, none, some}
use native.Mathlib.Omega.{arith}

module _ {ℓ} {A : Type ℓ} where
  abbrev pub length : List A → ℕ
  length [] = 0
  length (x ∷ xs) = suc (length xs)

  abbrev pub get_elem? : List A → ℕ → Option A
  get_elem? [] i = none
  get_elem? (x ∷ xs) zero = some x
  get_elem? (x ∷ xs) (suc i) = get_elem? xs i

  pub length-append : (xs ys : List A) → length (xs ++ ys) ≡ length xs + length ys
  length-append [] ys = omega arith
  length-append (x ∷ xs) ys = omega (arith, length-append xs ys)

  abbrev pub All {κ} : (A → Type κ) → List A → Type κ
  All P [] = Unit
  All P (x ∷ xs) = P x × All P xs

-- Two steps of a queue are one: what was held and comes in goes out, or is held.
pub queue_twice {ℓ} :
    {A : Type ℓ} (held first next out between later after : List A)
    → held ++ first ≡ out ++ between
    → between ++ next ≡ later ++ after
    → held ++ (first ++ next) ≡ (out ++ later) ++ after
queue_twice held first next out between later after e f =
    sym (append_assoc held first next)
    ∙ ap (λ l. l ++ next) e
    ∙ append_assoc out between next
    ∙ ap (◌++◌ out) f
    ∙ sym (append_assoc out later after)

pub All-append {ℓ κ} :
    {A : Type ℓ} (Holds : A → Type κ) (front back : List A)
    → All Holds front × All Holds back
    → All Holds (front ++ back)
All-append Holds [] back both = both.1
All-append Holds (a ∷ front) back both = (both.0.0, All-append Holds front back (both.0.1, both.1))
