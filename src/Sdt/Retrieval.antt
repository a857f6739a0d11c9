-- ===== src/Sdt/Retrieval.antt =====
-- What the getters of a Stream and of a Map find: the generic bodies `at_index` and `at_key`.
use pubsubplus_go_client.Prelude.{
  ℕ, zero, suc, ◌≤◌, ◌<◌, ◌≡◌, ◌↔◌, inl, inr, refl, some, ok, err, arith, leb, Bool-cases,
}
use pubsubplus_go_client.Prelude.Int.{ℤ, pos, negsuc}
use pubsubplus_go_client.Sdt.Data.{Data, Stream, out_of_bounds, Converted}
use pubsubplus_go_client.Sdt.Convert.{converted}
use pubsubplus_go_client.Sdt.StreamAccess.{at_index, length, element?}

abbrev pub append : Stream → Stream → Stream
append Stream.nil t = t
append (Stream.cons d s) t = Stream.cons d (append s t)

element?-append :
    (s : Stream) (d : Data) (t : Stream) → element? (append s (Stream.cons d t)) (length s) ≡ some d
element?-append Stream.nil d t = refl
element?-append (Stream.cons c s) d t = element?-append s d t

length-append_lt :
    (s : Stream) (d : Data) (t : Stream) → length s < length (append s (Stream.cons d t))
length-append_lt Stream.nil d t = omega arith
length-append_lt (Stream.cons c s) d t = omega (arith, length-append_lt s d t)

at_index_found :
    {A : Type 0} (get : Data → Converted A) (s : Stream) (i : ℕ) (d : Data)
    → i < length s
    → element? s i ≡ some d
    → at_index get s (pos i) ≡ converted (get d)
unfolding at_index
at_index_found get s i d h e = ground arith

-- The getter of any type reads, at the index where an element stands, that element.
at_index-append :
    {A : Type 0} (get : Data → Converted A) (s : Stream) (d : Data) (t : Stream)
    → at_index get (append s (Stream.cons d t)) (pos (length s)) ≡ converted (get d)
at_index-append get s d t =
    at_index_found get _ (length s) d (length-append_lt s d t) (element?-append s d t)

abbrev pub IsOutside : Stream → ℤ → Type 0
IsOutside s (pos i) = length s ≤ i
IsOutside s (negsuc i) = Unit

converted-ne-out_of_bounds :
    {A : Type 0} (r : Converted A) (j : ℤ) → ¬ (converted r ≡ err (out_of_bounds j))
converted-ne-out_of_bounds (ok a) j h = cc
converted-ne-out_of_bounds (err e) j h = cc

element?_lt : (s : Stream) (i : ℕ) → i < length s → (d : Data) × (element? s i ≡ some d)
element?_lt Stream.nil i h = absurd (omega arith)
element?_lt (Stream.cons d s) zero h = (d, refl)
element?_lt (Stream.cons d s) (suc i) h = element?_lt s i (omega arith)

at_index_outside :
    {A : Type 0} (get : Data → Converted A) (s : Stream) (i : ℤ)
    → IsOutside s i
    → at_index get s i ≡ err (out_of_bounds i)
unfolding at_index
at_index_outside get s (pos i) h = ground arith
at_index_outside get s (negsuc i) h = ground arith

at_index_inside :
    {A : Type 0} (get : Data → Converted A) (s : Stream) (i : ℤ) (j : ℤ)
    → at_index get s i ≡ err (out_of_bounds j)
    → IsOutside s i
unfolding at_index
at_index_inside get s (negsuc i) j h = tt
at_index_inside get s (pos i) j h = elim (Bool-cases (leb (length s) i)) [
  | inl out ↦ ground arith
  | inr inside ↦
      let (d, e) = element?_lt s i (ground arith) in
      absurd (converted-ne-out_of_bounds (get d) j (cc (at_index_found get s i d (ground arith) e)))
]

-- The getter of any type fails with an OutOfBoundsError for exactly the indexes that are negative
-- or not below the length, and the error carries the index that was asked for.
at_index-eq-out_of_bounds :
    {A : Type 0} (get : Data → Converted A) (s : Stream) (i : ℤ) (j : ℤ)
    → (at_index get s i ≡ err (out_of_bounds j)) ↔ (IsOutside s i × (i ≡ j))
at_index-eq-out_of_bounds get s i j = (
  λ h. let out = at_index_inside get s i j h in (out, cc (at_index_outside get s i out)),
  λ p. cc (at_index_outside get s i p.0),
)
