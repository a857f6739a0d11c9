-- ===== src/Receiver/Topics.antt =====
-- The list of the topics that a receiver has subscribed to, which the persistent and the direct
-- receiver (internal/impl/receiver) read and change by the same loops.
use mathlib.Core.Path.{subst}
use pubsubplus_go_client.Prelude.{
  ℕ, zero, suc, ◌+◌, ◌-◌, ◌≡◌, refl, ap, ◌∙◌, Bool, true, false, List, [], ◌∷◌, ◌++◌, Option, none,
  some, leb, if◌then◌else◌, arith, inl, inr, Bool-cases, Option-cases,
}
use pubsubplus_go_client.Sdt.Strconv.{Bytes}
use pubsubplus_go_client.Sdt.Convert.{same_text}

unfoldable pub is_subscribed : Bytes → List Bytes → Bool
is_subscribed topic [] = false
is_subscribed topic (x ∷ xs) =
    let rest = is_subscribed topic xs in if same_text x topic then true else rest

-- The loop of an addition: the topic goes to the end if it is not there.
unfoldable pub enlist : Bytes → List Bytes → List Bytes
unfolding is_subscribed
enlist topic xs = if is_subscribed topic xs then xs else xs ++ (topic ∷ [])

-- The loop of a removal, at position `i`: `found` is `spliceIndex`, with `none` for -1.
unfoldable pub splice_index : Bytes → ℕ → Option ℕ → List Bytes → Option ℕ
splice_index topic i found [] = found
splice_index topic i found (x ∷ xs) =
    splice_index topic (i + 1) (if same_text x topic then some i else found) xs

-- `append(xs[:i], xs[i+1:]...)`
unfoldable pub without : ℕ → List Bytes → List Bytes
without i [] = []
without zero (x ∷ xs) = xs
without (suc i) (x ∷ xs) = x ∷ without i xs

abbrev spliced : Option ℕ → List Bytes → List Bytes
spliced none xs = xs
spliced (some i) xs = without i xs

unfoldable pub delist : Bytes → List Bytes → List Bytes
unfolding splice_index without
delist topic xs = spliced (splice_index topic 0 none xs) xs

-- How often a topic stands in the list.
unfoldable pub count : Bytes → List Bytes → ℕ
count topic [] = 0
count topic (x ∷ xs) = (if same_text x topic then 1 else 0) + count topic xs

pub same_text_refl : (s : Bytes) → same_text s s ≡ true
same_text_refl [] = refl
same_text_refl (c ∷ s) = ground (arith, same_text_refl s)

pub eq_of_same_text : (s t : Bytes) → same_text s t ≡ true → s ≡ t
eq_of_same_text [] [] h = refl
eq_of_same_text [] (d ∷ t) h = cc
eq_of_same_text (c ∷ s) [] h = cc
eq_of_same_text (c ∷ s) (d ∷ t) h = ground (arith, eq_of_same_text s t)

pub is_subscribed-count : (u : Bytes) (xs : List Bytes) → is_subscribed u xs ≡ leb 1 (count u xs)
unfolding is_subscribed count
is_subscribed-count u [] = refl
is_subscribed-count u (x ∷ xs) = ground (arith, is_subscribed-count u xs)

count-append : (u : Bytes) (xs ys : List Bytes) → count u (xs ++ ys) ≡ count u xs + count u ys
unfolding count
count-append u [] ys = omega arith
count-append u (x ∷ xs) ys = omega (arith, count-append u xs ys)

-- An addition makes the topic's count at least 1, and leaves the others.
pub count-enlist :
    (t u : Bytes) (xs : List Bytes)
    → count u (enlist t xs)
      ≡ (if same_text t u then (if is_subscribed u xs then count u xs else 1) else count u xs)
unfolding enlist count
count-enlist t u xs = elim (Bool-cases (same_text t u)) [
  | inl same ↦
      subst
        (λ (v : Bytes).
          count v (enlist t xs)
          ≡ (if same_text t v then (if is_subscribed v xs then count v xs else 1) else count v xs))
        (eq_of_same_text t u same)
        (ground (arith, same_text_refl t, count-append t xs (t ∷ []), is_subscribed-count t xs))
  | inr other ↦ ground (arith, count-append u xs (t ∷ []))
]

-- The position of the last occurrence.
last_index : Bytes → List Bytes → Option ℕ
last_index t [] = none
last_index t (x ∷ xs) = elim (last_index t xs) [
  | some j ↦ some (suc j)
  | none ↦ if same_text x t then some 0 else none
]

abbrev from_index : ℕ → Option ℕ → Option ℕ → Option ℕ
from_index i found none = found
from_index i found (some j) = some (i + j)

splice_index-last_index :
    (t : Bytes) (i : ℕ) (found : Option ℕ) (xs : List Bytes)
    → splice_index t i found xs ≡ from_index i found (last_index t xs)
unfolding splice_index last_index
splice_index-last_index t i found [] = refl
splice_index-last_index t i found (x ∷ xs) =
    splice_index-last_index t (i + 1) (if same_text x t then some i else found) xs ∙ ground arith

-- Nothing is found exactly where the topic does not stand.
abbrev found_count : Option ℕ → ℕ → Bool
found_count none n = leb n 0
found_count (some j) n = leb 1 n

last_index-count : (t : Bytes) (xs : List Bytes) → found_count (last_index t xs) (count t xs) ≡ true
unfolding last_index count
last_index-count t [] = refl
last_index-count t (x ∷ xs) = elim (Option-cases (last_index t xs)) [
  | inl h ↦ ground (arith, last_index-count t xs)
  | inr (j, h) ↦ ground (arith, last_index-count t xs)
]

count-spliced_self :
    (t : Bytes) (xs : List Bytes) → count t (spliced (last_index t xs) xs) ≡ count t xs - 1
unfolding last_index count without
count-spliced_self t [] = refl
count-spliced_self t (x ∷ xs) = elim (Option-cases (last_index t xs)) [
  | inl h ↦ ground (arith, last_index-count t xs, count-spliced_self t xs)
  | inr (j, h) ↦ ground (arith, last_index-count t xs, count-spliced_self t xs)
]

count-spliced_other :
    (t u : Bytes) (xs : List Bytes)
    → same_text t u ≡ false
    → count u (spliced (last_index t xs) xs) ≡ count u xs
unfolding last_index count without
count-spliced_other t u [] other = refl
count-spliced_other t u (x ∷ xs) other =
    let differs = λ (same : same_text x t ≡ true).
      ap (λ (s : Bytes). same_text s u) (eq_of_same_text x t same) ∙ other in
    elim (Option-cases (last_index t xs)) [
      | inl h ↦ elim (Bool-cases (same_text x t)) [
        | inl same ↦ ground (arith, differs same)
        | inr no' ↦ ground arith
      ]
      | inr (j, h) ↦ ground (arith, count-spliced_other t u xs other)
    ]

-- A removal takes one occurrence of the topic, if there is one, and leaves the others.
pub count-delist :
    (t u : Bytes) (xs : List Bytes)
    → count u (delist t xs) ≡ (if same_text t u then count u xs - 1 else count u xs)
unfolding delist
count-delist t u xs =
    let same_index : splice_index t 0 none xs ≡ last_index t xs =
      splice_index-last_index t 0 none xs ∙ from_zero (last_index t xs) in
    elim (Bool-cases (same_text t u)) [
      | inl same ↦
          rw (same, same_index)
            (subst (λ (v : Bytes). count v (spliced (last_index t xs) xs) ≡ count v xs - 1)
              (eq_of_same_text t u same) (count-spliced_self t xs))
      | inr other ↦ rw (other, same_index) (count-spliced_other t u xs other)
    ]
  where
    from_zero : (o : Option ℕ) → from_index 0 none o ≡ o
    from_zero none = refl
    from_zero (some j) = ap some (omega arith)
