-- ===== src/Sdt/Convert.antt =====
-- structured_data_types.go: the conversions getBool to getDestination, and parseInt, parseUint.
use pubsubplus_go_client.Prelude.{
  ℕ, Bool, true, false, not, ◌||◌, [], ◌∷◌, ◌==◌, if◌then◌else◌, Result, ok, err, map_ok,
}
use pubsubplus_go_client.Prelude.Int.{ℤ, pos, negsuc}
use pubsubplus_go_client.Sdt.Strconv.{
  Bytes, Width, w8, w16, w32, w64, NumError, sprint, parse_int, parse_uint, to_int, to_uint,
}
use pubsubplus_go_client.Sdt.Data.{
  Data, IntKind, Map, Stream, Queue, Topic, Wanted, SdtError, format_conversion, Converted,
  default_conversion, nested_conversion, bool_text, wchar_length,
}

abbrev pub same_text : Bytes → Bytes → Bool
same_text [] [] = true
same_text [] (_ ∷ _) = false
same_text (_ ∷ _) [] = false
same_text (c ∷ s) (d ∷ t) = let rest = same_text s t in if c == d then rest else false

abbrev pub text_true : Bytes
text_true = b't' ∷ b'r' ∷ b'u' ∷ b'e' ∷ []

abbrev pub text_false : Bytes
text_false = b'f' ∷ b'a' ∷ b'l' ∷ b's' ∷ b'e' ∷ []

-- `casted != 0`
abbrev pub is_nonzero : ℤ → Bool
is_nonzero (pos n) = not (n == 0)
is_nonzero (negsuc n) = true

unfoldable pub get_bool : Data → Converted Bool
get_bool (Data.bool b) = ok b
get_bool (Data.integer k z) = ok (is_nonzero z)
get_bool (Data.string s) =
    if same_text s text_true || same_text s (b'1' ∷ [])
    then ok true
    else if same_text s text_false || same_text s (b'0' ∷ [])
    then ok false
    else err (bool_text s)
get_bool d = err (default_conversion d Wanted.bool)

abbrev pub or_nested : {A : Type 0} → Data → Wanted → Result NumError A → Converted A
or_nested d t (ok a) = ok a
or_nested d t (err e) = err (nested_conversion d t e)

-- `parseInt(elem, bits)`, an int64
unfoldable pub parse_int_of : Width → Data → Converted ℤ
parse_int_of w (Data.bool true) = ok (pos 1)
parse_int_of w (Data.bool false) = ok (pos 0)
parse_int_of w (Data.integer k z) =
    or_nested (Data.integer k z) (Wanted.int_of w) (parse_int w (sprint z))
parse_int_of w (Data.string s) = or_nested (Data.string s) (Wanted.int_of w) (parse_int w s)
parse_int_of w d = err (default_conversion d (Wanted.int_of w))

-- `parseUint(elem, bits)`, a uint64
unfoldable pub parse_uint_of : Width → Data → Converted ℕ
parse_uint_of w (Data.bool true) = ok 1
parse_uint_of w (Data.bool false) = ok 0
parse_uint_of w (Data.integer k z) =
    or_nested (Data.integer k z) (Wanted.uint_of w) (parse_uint w (sprint z))
parse_uint_of w (Data.string s) = or_nested (Data.string s) (Wanted.uint_of w) (parse_uint w s)
parse_uint_of w d = err (default_conversion d (Wanted.uint_of w))

-- The common body of the ten getters below: parse for the width, then convert to the type.
unfoldable pub get_signed : Width → Data → Converted ℤ
get_signed w d = map_ok (to_int w) (parse_int_of w d)

unfoldable pub get_unsigned : Width → Data → Converted ℕ
get_unsigned w d = map_ok (λ n. to_uint w (pos n)) (parse_uint_of w d)

unfoldable pub get_uint8 : Data → Converted ℕ
unfolding get_unsigned
get_uint8 = get_unsigned w8

unfoldable pub get_int8 : Data → Converted ℤ
unfolding get_signed
get_int8 = get_signed w8

unfoldable pub get_uint16 : Data → Converted ℕ
unfolding get_unsigned
get_uint16 = get_unsigned w16

unfoldable pub get_int16 : Data → Converted ℤ
unfolding get_signed
get_int16 = get_signed w16

unfoldable pub get_uint32 : Data → Converted ℕ
unfolding get_unsigned
get_uint32 = get_unsigned w32

unfoldable pub get_int32 : Data → Converted ℤ
unfolding get_signed
get_int32 = get_signed w32

unfoldable pub get_uint64 : Data → Converted ℕ
unfolding get_unsigned
get_uint64 = get_unsigned w64

unfoldable pub get_int64 : Data → Converted ℤ
unfolding get_signed
get_int64 = get_signed w64

unfoldable pub get_uint : Data → Converted ℕ
unfolding get_unsigned
get_uint = get_unsigned w64

unfoldable pub get_int : Data → Converted ℤ
unfolding get_signed
get_int = get_signed w64

unfoldable pub get_byte_array : Data → Converted Bytes
get_byte_array (Data.bytes s) = ok s
get_byte_array (Data.string s) = ok s
get_byte_array d = err (default_conversion d Wanted.byte_array)

-- The argument stands for `strconv.ParseFloat(s, 32)`, with the bit pattern as its result.
unfoldable pub get_float32 : (Bytes → Result NumError ℕ) → Data → Converted ℕ
get_float32 parse_float (Data.float32 f) = ok f
get_float32 parse_float (Data.string s) = or_nested (Data.string s) Wanted.float32 (parse_float s)
get_float32 parse_float d = err (default_conversion d Wanted.float32)

unfoldable pub get_float64 : (Bytes → Result NumError ℕ) → Data → Converted ℕ
get_float64 parse_float (Data.float64 f) = ok f
get_float64 parse_float (Data.string s) = or_nested (Data.string s) Wanted.float64 (parse_float s)
get_float64 parse_float d = err (default_conversion d Wanted.float64)

unfoldable pub get_string : Data → Converted Bytes
get_string (Data.string s) = ok s
get_string d = err (default_conversion d Wanted.string)

abbrev wchar_text : Bytes → Converted ℕ
wchar_text (c ∷ []) = ok c
wchar_text s = err (wchar_length s)

unfoldable pub get_wchar : Data → Converted ℕ
get_wchar (Data.integer IntKind.uint8 z) = ok (to_uint w16 z)
get_wchar (Data.integer IntKind.int8 z) = ok (to_uint w16 z)
get_wchar (Data.wchar c) = ok c
get_wchar (Data.string s) = wchar_text s
get_wchar d = err (default_conversion d Wanted.wchar)

unfoldable pub get_map : Data → Converted Map
get_map (Data.map m) = ok m
get_map d = err (default_conversion d Wanted.map)

unfoldable pub get_stream : Data → Converted Stream
get_stream (Data.stream s) = ok s
get_stream d = err (default_conversion d Wanted.stream)

unfoldable pub get_queue : Data → Converted Queue
get_queue (Data.queue q) = ok q
get_queue d = err (default_conversion d Wanted.queue)

unfoldable pub get_topic : Data → Converted Topic
get_topic (Data.topic t) = ok t
get_topic d = err (default_conversion d Wanted.topic)

-- `resource.Destination` is an interface, which a Queue and a Topic implement.
pub data Destination : Type 0 where
  queue : Queue → Destination
  topic : Topic → Destination

unfoldable pub get_destination : Data → Converted Destination
get_destination (Data.queue q) = ok (Destination.queue q)
get_destination (Data.topic t) = ok (Destination.topic t)
get_destination d = err (default_conversion d Wanted.destination)

abbrev pub converted : {A : Type 0} → Converted A → Result SdtError A
converted (ok a) = ok a
converted (err e) = err (format_conversion e)
