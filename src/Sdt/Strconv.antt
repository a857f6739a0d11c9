-- ===== src/Sdt/Strconv.antt =====
-- What structured_data_types.go uses of Go's standard library: `fmt.Sprint` of an integer,
-- `strconv.ParseUint` and `strconv.ParseInt` in base 10, and the integer conversions `intN(x)`.
-- A text is the list of its bytes.
use pubsubplus_go_client.Prelude.{
  ℕ, zero, suc, ◌+◌, ◌-◌, ◌*◌, ◌/◌, ◌%◌, Bool, true, false, ◌&&◌, List, [], ◌∷◌, ◌++◌, ltb, leb,
  ◌==◌, if◌then◌else◌, Result, ok, err,
}
use pubsubplus_go_client.Prelude.Int.{ℤ, pos, negsuc, neg_ℕ}

abbrev pub Bytes : Type 0
Bytes = List ℕ

-- The sizes that the package hands to strconv. `int` and `uint` have 64 bits on every platform
-- that the library is built for.
pub data Width : Type 0 where
  w8 w16 w32 w64 : Width

-- 2^(bits-1)
abbrev pub half : Width → ℕ
half w8 = 0x80
half w16 = 0x8000
half w32 = 0x8000_0000
half w64 = 0x8000_0000_0000_0000

-- 2^bits
abbrev pub full : Width → ℕ
full w = 2 * half w

pub data NumError : Type 0 where
  syntax range : NumError

-- `n` digits suffice below 10^n, so the fuel n + 1 is enough for n.
unfoldable pub decimal_from : ℕ → ℕ → Bytes
decimal_from zero n = []
decimal_from (suc f) n =
    let rest = decimal_from f (n / 10) ++ ((b'0' + n % 10) ∷ []) in
    if ltb n 10 then (b'0' + n) ∷ [] else rest

unfoldable pub decimal : ℕ → Bytes
unfolding decimal_from
decimal n = decimal_from (suc n) n

-- `fmt.Sprint` of an integer of any kind.
unfoldable pub sprint : ℤ → Bytes
unfolding decimal
sprint (pos n) = decimal n
sprint (negsuc n) = b'-' ∷ decimal (suc n)

abbrev pub is_digit : ℕ → Bool
is_digit c = leb b'0' c && leb c b'9'

-- The loop of `ParseUint`: the byte is checked first, then the value against the largest one.
unfoldable pub digit_loop : ℕ → Bytes → ℕ → Result NumError ℕ
digit_loop bound [] n = ok n
digit_loop bound (c ∷ s) n =
    let rest = digit_loop bound s (n * 10 + (c - b'0')) in
    if is_digit c then if ltb (n * 10 + (c - b'0')) bound then rest else err range else err syntax

-- `strconv.ParseUint(s, 10, bits)`
unfoldable pub parse_uint : Width → Bytes → Result NumError ℕ
unfolding digit_loop
parse_uint w [] = err syntax
parse_uint w (c ∷ s) = digit_loop (full w) (c ∷ s) 0

-- The end of `ParseInt`, with the sign picked off. A range error of `ParseUint` stays one.
unfoldable pub with_sign : Width → Bool → Result NumError ℕ → Result NumError ℤ
with_sign w negative (err e) = err e
with_sign w false (ok n) = if ltb n (half w) then ok (pos n) else err range
with_sign w true (ok n) = if leb n (half w) then ok (neg_ℕ n) else err range

-- `strconv.ParseInt(s, 10, bits)`
unfoldable pub parse_int : Width → Bytes → Result NumError ℤ
unfolding parse_uint with_sign
parse_int w [] = err syntax
parse_int w (c ∷ s) =
    if c == b'+'
    then with_sign w false (parse_uint w s)
    else if c == b'-'
    then with_sign w true (parse_uint w s)
    else with_sign w false (parse_uint w (c ∷ s))

-- `uintN(x)` of an integer: the low bits.
unfoldable pub to_uint : Width → ℤ → ℕ
to_uint w (pos n) = n % full w
to_uint w (negsuc n) = full w - 1 - n % full w

-- `intN(x)` of an integer: the low bits, read in two's complement.
unfoldable pub to_int : Width → ℤ → ℤ
unfolding to_uint
to_int w z = let n = to_uint w z in if ltb n (half w) then pos n else neg_ℕ (full w - n)
