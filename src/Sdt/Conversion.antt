-- ===== src/Sdt/Conversion.antt =====
-- What the integer and Boolean conversions of structured_data_types.go give.
use pubsubplus_go_client.Prelude.{
  ℕ, zero, suc, ◌-◌, ◌%◌, ◌<◌, ◌≡◌, ◌∙◌, refl, Bool, true, false, [], ◌∷◌, ltb, if◌then◌else◌,
  Result, ok, err, arith,
}
use pubsubplus_go_client.Prelude.Int.{ℤ, pos, negsuc}
use pubsubplus_go_client.Sdt.Strconv.{
  Bytes, Width, w8, w16, w32, w64, half, full, NumError, range, syntax, with_sign, parse_int,
  to_int, to_uint,
}
use pubsubplus_go_client.Sdt.Decimal.{fits_int, parse_int-sprint, parse_uint-sprint}
use pubsubplus_go_client.Sdt.Data.{Data, IntKind, Converted, Wanted, nested_conversion}
use pubsubplus_go_client.Sdt.Convert.{
  get_bool, parse_int_of, parse_uint_of, get_signed, get_unsigned, get_int8, get_int16, get_int32,
  get_int64, get_uint8, get_uint16, get_uint32, get_uint64,
}

-- The getter of each signed type: `getInt8`, `getInt16`, `getInt32`, and `getInt64`.
abbrev pub signed_getter : Width → Data → Converted ℤ
signed_getter w8 = get_int8
signed_getter w16 = get_int16
signed_getter w32 = get_int32
signed_getter w64 = get_int64

abbrev pub unsigned_getter : Width → Data → Converted ℕ
unsigned_getter w8 = get_uint8
unsigned_getter w16 = get_uint16
unsigned_getter w32 = get_uint32
unsigned_getter w64 = get_uint64

signed_getter_lem : (w : Width) (d : Data) → signed_getter w d ≡ get_signed w d
unfolding get_int8 get_int16 get_int32 get_int64
signed_getter_lem w8 d = refl
signed_getter_lem w16 d = refl
signed_getter_lem w32 d = refl
signed_getter_lem w64 d = refl

unsigned_getter_lem : (w : Width) (d : Data) → unsigned_getter w d ≡ get_unsigned w d
unfolding get_uint8 get_uint16 get_uint32 get_uint64
unsigned_getter_lem w8 d = refl
unsigned_getter_lem w16 d = refl
unsigned_getter_lem w32 d = refl
unsigned_getter_lem w64 d = refl

-- The conversion to the type changes no value of the type.
to_int_fits : (w : Width) (z : ℤ) → fits_int w z ≡ true → to_int w z ≡ z
unfolding to_int to_uint
to_int_fits w (pos n) h = ground arith
to_int_fits w (negsuc n) h =
    let back : full w - (full w - 1 - n % full w) ≡ suc n = ground arith in
    let high : ltb (full w - 1 - n % full w) (half w) ≡ false = ground arith in rw (high, back)

to_uint_fits : (w : Width) (n : ℕ) → n < full w → to_uint w (pos n) ≡ n
unfolding to_uint
to_uint_fits w n h = ground arith

get_signed-integer :
    (w : Width) (k : IntKind) (z : ℤ)
    → get_signed w (Data.integer k z) ≡ (
        if fits_int w z
        then ok z
        else err (nested_conversion (Data.integer k z) (Wanted.int_of w) range))
unfolding get_signed parse_int_of
get_signed-integer w k z = rw (parse_int-sprint w z) (ground (arith, to_int_fits w z))

-- An integer of any of the ten types is read as a signed type of any width exactly if it is a value
-- of that type, and unchanged; any other is the conversion error that names the value, the type
-- and the range.
pub signed_getter-integer :
    (w : Width) (k : IntKind) (z : ℤ)
    → signed_getter w (Data.integer k z) ≡ (
        if fits_int w z
        then ok z
        else err (nested_conversion (Data.integer k z) (Wanted.int_of w) range))
signed_getter-integer w k z = signed_getter_lem w _ ∙ get_signed-integer w k z

-- What an unsigned getter gives for an integer.
abbrev pub unsigned_outcome : Width → IntKind → ℤ → Converted ℕ
unsigned_outcome w k (pos n) =
    if ltb n (full w)
    then ok n
    else err (nested_conversion (Data.integer k (pos n)) (Wanted.uint_of w) range)
unsigned_outcome w k (negsuc n) =
    err (nested_conversion (Data.integer k (negsuc n)) (Wanted.uint_of w) syntax)

-- An integer of any of the ten types is read as an unsigned type of any width exactly if it is a
-- value of that type, and unchanged; one that is too large is a range error, a negative one is a
-- syntax error.
unsigned_getter-integer :
    (w : Width) (k : IntKind) (z : ℤ)
    → unsigned_getter w (Data.integer k z) ≡ unsigned_outcome w k z
unfolding get_unsigned parse_uint_of
unsigned_getter-integer w k (pos n) =
    unsigned_getter_lem w _ ∙ rw (parse_uint-sprint w (pos n)) (ground (arith, to_uint_fits w n))
unsigned_getter-integer w k (negsuc n) =
    unsigned_getter_lem w _ ∙ rw (parse_uint-sprint w (negsuc n)) refl

-- Every successful result is a value of the type, whatever was converted.
with_sign-fits :
    (w : Width) (negative : Bool) (r : Result NumError ℕ) (z : ℤ)
    → with_sign w negative r ≡ ok z
    → fits_int w z ≡ true
unfolding with_sign
with_sign-fits w negative (err e) z h = cc
with_sign-fits w false (ok n) z h = ground arith
with_sign-fits w true (ok zero) z h = ground arith
with_sign-fits w true (ok (suc n)) z h = ground arith

parse_int-fits : (w : Width) (s : Bytes) (z : ℤ) → parse_int w s ≡ ok z → fits_int w z ≡ true
unfolding parse_int
parse_int-fits w [] z h = cc
parse_int-fits w (c ∷ s) z h = grind (arith, with_sign-fits)

parse_int_of-fits : (w : Width) (d : Data) (z : ℤ) → parse_int_of w d ≡ ok z → fits_int w z ≡ true
unfolding parse_int_of
parse_int_of-fits w (Data.bool true) z h = ground arith
parse_int_of-fits w (Data.bool false) z h = ground arith
parse_int_of-fits w (Data.integer k n) z h = grind (arith, parse_int-fits)
parse_int_of-fits w (Data.string s) z h = grind (arith, parse_int-fits)
parse_int_of-fits w _ z h = cc

-- Whatever is converted, a signed getter's result is a value of its type, and the conversion from
-- the parsed int64 lost nothing.
signed_getter-fits : (w : Width) (d : Data) (z : ℤ) → signed_getter w d ≡ ok z → fits_int w z ≡ true
unfolding get_signed
signed_getter-fits w d z h =
    grind (arith, signed_getter_lem w d, parse_int_of-fits w d, to_int_fits w)

-- A Boolean read as any integer type and read back from there is the same Boolean.
get_bool-signed_getter :
    (w : Width) (k : IntKind) (b : Bool) (z : ℤ)
    → signed_getter w (Data.bool b) ≡ ok z
    → get_bool (Data.integer k z) ≡ ok b
unfolding get_signed parse_int_of get_bool to_int to_uint
get_bool-signed_getter w k b z h = ground (arith, signed_getter_lem w (Data.bool b))
