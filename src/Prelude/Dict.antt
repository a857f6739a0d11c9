-- ===== src/Prelude/Dict.antt =====
-- A Go map with numbers for keys, as an association list.
use mathlib.Core.Path.{◌≡◌}
use mathlib.Core.List.{List, [], ◌∷◌, ◌++◌}
use mathlib.Core.Option.{Option, none, some}
use native.Mathlib.Omega.{arith}
use pubsubplus_go_client.Prelude.{
  ◌+◌, false, ℕ, suc, ◌≤◌, ◌==◌, if◌then◌else◌, Bool-cases, All, true, inl, inr, refl,
}

abbrev pub Dict {ℓ} : Type ℓ → Type ℓ
Dict V = List (ℕ × V)

module _ {ℓ} {V : Type ℓ} where
  -- `x, ok := d[key]`
  unfoldable pub fetch : Dict V → ℕ → Option V
  fetch [] key = none
  fetch ((q, x) ∷ d) key = let rest = fetch d key in if key == q then some x else rest

  -- `d[key] = x`
  unfoldable pub assign : Dict V → ℕ → V → Dict V
  assign [] key x = (key, x) ∷ []
  assign ((q, y) ∷ d) key x =
      let rest = assign d key x in if key == q then (q, x) ∷ d else (q, y) ∷ rest

  -- `delete(d, key)`
  unfoldable pub discard : Dict V → ℕ → Dict V
  discard [] key = []
  discard ((q, y) ∷ d) key = let rest = discard d key in if key == q then rest else (q, y) ∷ rest

  pub fetch-assign :
      (d : Dict V) (key other : ℕ) (x : V)
      → fetch (assign d key x) other ≡ (if other == key then some x else fetch d other)
  unfolding fetch assign
  fetch-assign [] key other x = ground arith
  fetch-assign ((q, y) ∷ d) key other x = ground (arith, fetch-assign d key other x)

  pub fetch-discard :
      (d : Dict V) (key other : ℕ)
      → fetch (discard d key) other ≡ (if other == key then none else fetch d other)
  unfolding fetch discard
  fetch-discard [] key other = ground arith
  fetch-discard ((q, y) ∷ d) key other = ground (arith, fetch-discard d key other)

  -- The number of entries with a key.
  unfoldable pub occurrences : ℕ → Dict V → ℕ
  occurrences key [] = 0
  occurrences key ((q, y) ∷ d) = let rest = occurrences key d in if key == q then suc rest else rest

  pub occurrences-discard :
      (d : Dict V) (key other : ℕ)
      → occurrences other (discard d key) ≡ (if other == key then 0 else occurrences other d)
  unfolding occurrences discard
  occurrences-discard [] key other = ground arith
  occurrences-discard ((q, y) ∷ d) key other = ground (arith, occurrences-discard d key other)

  pub occurrences-assign :
      (d : Dict V) (key other : ℕ) (x : V)
      → occurrences key d ≡ 0
      → occurrences other (assign d key x) ≡ (if other == key then 1 else occurrences other d)
  unfolding occurrences assign
  occurrences-assign [] key other x h = ground arith
  occurrences-assign ((q, y) ∷ d) key other x h = ground (arith, occurrences-assign d key other x)

  pub fetch-one-le-occurrences :
      (d : Dict V) (key : ℕ) (x : V) → fetch d key ≡ some x → 1 ≤ occurrences key d
  unfolding occurrences fetch
  fetch-one-le-occurrences [] key x h = ground arith
  fetch-one-le-occurrences ((q, y) ∷ d) key x h = ground (arith, fetch-one-le-occurrences d key x)

  pub fetch-none : (d : Dict V) (key : ℕ) → fetch d key ≡ none → occurrences key d ≡ 0
  unfolding occurrences fetch
  fetch-none [] key h = refl
  fetch-none ((q, y) ∷ d) key h = ground (arith, fetch-none d key)

  -- What holds of every entry holds of the one that is fetched.
  pub All-discard {κ} :
      (P : ℕ × V → Type κ) (d : Dict V) (key : ℕ) → All P d → All P (discard d key)
  unfolding discard
  All-discard P [] key h = tt
  All-discard P ((q, y) ∷ d) key h = elim (Bool-cases (key == q)) [
    | inl same ↦ rw same (All-discard P d key h.1)
    | inr other ↦ rw other (h.0, All-discard P d key h.1)
  ]

  pub All-assign {κ} :
      (P : ℕ × V → Type κ) (d : Dict V) (key : ℕ) (x : V)
      → ((q : ℕ) → (key == q) ≡ true → P (q, x))
      → P (key, x)
      → All P d
      → All P (assign d key x)
  unfolding assign
  All-assign P [] key x same new h = (new, tt)
  All-assign P ((q, y) ∷ d) key x same new h = elim (Bool-cases (key == q)) [
    | inl e ↦ rw e (same q e, h.1)
    | inr e ↦ rw e (h.0, All-assign P d key x same new h.1)
  ]

  pub occurrences-append :
      (d e : Dict V) (key : ℕ) → occurrences key (d ++ e) ≡ occurrences key d + occurrences key e
  unfolding occurrences
  occurrences-append [] e key = omega arith
  occurrences-append ((q, y) ∷ d) e key = ground (arith, occurrences-append d e key)

  pub occurrences-assign_other :
      (d : Dict V) (key other : ℕ) (x : V)
      → (other == key) ≡ false
      → occurrences other (assign d key x) ≡ occurrences other d
  unfolding occurrences assign
  occurrences-assign_other [] key other x h = ground arith
  occurrences-assign_other ((q, y) ∷ d) key other x h =
      ground (arith, occurrences-assign_other d key other x h)
