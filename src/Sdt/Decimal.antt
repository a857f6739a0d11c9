-- ===== src/Sdt/Decimal.antt =====
-- Printing an integer and parsing it again, at any bound.
use pubsubplus_go_client.Prelude.{
  ℕ, zero, suc, ◌+◌, ◌-◌, ◌*◌, ◌/◌, ◌%◌, ◌≤◌, ◌<◌, ◌≡◌, inl, inr, refl, Bool, false, [], ◌∷◌, ◌++◌,
  ltb, if◌then◌else◌, Result, ok, err, ◌>>=◌, arith, Bool-cases,
}
use pubsubplus_go_client.Prelude.Int.{ℤ, pos, negsuc}
use pubsubplus_go_client.Sdt.Strconv.{
  Bytes, Width, half, full, NumError, range, syntax, decimal_from, decimal, sprint, digit_loop,
  parse_uint, with_sign, parse_int,
}

-- The loop over two parts of a text is the loop over the second from where the first left off.
digit_loop-append :
    (bound : ℕ) (s t : Bytes) (n : ℕ)
    → digit_loop bound (s ++ t) n ≡ (digit_loop bound s n >>= λ m. digit_loop bound t m)
unfolding digit_loop
digit_loop-append bound [] t n = refl
digit_loop-append bound (c ∷ s) t n =
    ground (arith, digit_loop-append bound s t (n * 10 + (c - b'0')))

-- Reading a number's digits gives the number back if it is below the bound, and else overflows.
pub digit_loop-decimal_from :
    (bound f n : ℕ)
    → n < f
    → digit_loop bound (decimal_from f n) 0 ≡ (if ltb n bound then ok n else err range)
unfolding digit_loop decimal_from
digit_loop-decimal_from bound zero n h = absurd (omega arith)
digit_loop-decimal_from bound (suc f) n h = elim (Bool-cases (ltb n 10)) [
  | inl small ↦ ground arith
  | inr large ↦ ground (
    arith,
    digit_loop-append bound (decimal_from f (n / 10)) ((b'0' + n % 10) ∷ []) 0,
    digit_loop-decimal_from bound f (n / 10),
  )
]

-- A number is printed with at least one byte, and the first is no sign.
decimal_head : (f n : ℕ) → n < f → (c : ℕ) × (s : Bytes) × (b'0' ≤ c) × (decimal_from f n ≡ c ∷ s)
unfolding decimal_from
decimal_head zero n h = absurd (omega arith)
decimal_head (suc f) n h = elim (Bool-cases (ltb n 10)) [
  | inl small ↦ (b'0' + n, [], omega arith, rw small)
  | inr large ↦
      let (c, s, digit, e) = decimal_head f (n / 10) (ground arith) in
      (c, s ++ ((b'0' + n % 10) ∷ []), digit, rw (large, e))
]

pub parse_uint-decimal :
    (w : Width) (n : ℕ) → parse_uint w (decimal n) ≡ (if ltb n (full w) then ok n else err range)
unfolding parse_uint decimal
parse_uint-decimal w n =
    let (c, s, digit, e) = decimal_head (suc n) n (omega arith) in
    ground (arith, digit_loop-decimal_from (full w) (suc n) n)

-- The values of a signed type of the width.
abbrev pub fits_int : Width → ℤ → Bool
fits_int w (pos n) = ltb n (half w)
fits_int w (negsuc n) = ltb n (half w)

parse_int_digits :
    (w : Width) (c : ℕ) (s : Bytes)
    → b'0' ≤ c
    → parse_int w (c ∷ s) ≡ with_sign w false (parse_uint w (c ∷ s))
unfolding parse_int
parse_int_digits w c s h = ground arith

pub parse_int-decimal :
    (w : Width) (n : ℕ) → parse_int w (decimal n) ≡ with_sign w false (parse_uint w (decimal n))
unfolding decimal
parse_int-decimal w n =
    let (c, s, digit, e) = decimal_head (suc n) n (omega arith) in
    rw e (parse_int_digits w c s digit)

-- `ParseInt` of the print of any integer.
pub parse_int-sprint :
    (w : Width) (z : ℤ) → parse_int w (sprint z) ≡ (if fits_int w z then ok z else err range)
unfolding sprint
parse_int-sprint w (pos n) =
    rw (parse_int-decimal w n, parse_uint-decimal w n) (unfold with_sign in ground arith)
parse_int-sprint w (negsuc n) =
    unfold parse_int in rw (parse_uint-decimal w (suc n)) (unfold with_sign in ground arith)

-- `ParseUint` of the print of any integer: a minus sign is no digit.
abbrev pub expected_uint : Width → ℤ → Result NumError ℕ
expected_uint w (pos n) = if ltb n (full w) then ok n else err range
expected_uint w (negsuc n) = err syntax

pub parse_uint-sprint : (w : Width) (z : ℤ) → parse_uint w (sprint z) ≡ expected_uint w z
unfolding sprint parse_uint digit_loop
parse_uint-sprint w (pos n) = parse_uint-decimal w n
parse_uint-sprint w (negsuc n) = refl
