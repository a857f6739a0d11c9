-- ===== src/Sdt/Tests.antt =====
-- Structured data: tests, and the theorems at concrete inputs.
use pubsubplus_go_client.Prelude.{◌≡◌, refl, true, false, [], ◌∷◌, ok, err}
use pubsubplus_go_client.Prelude.Int.{pos, negsuc}
use pubsubplus_go_client.Sdt.Strconv.{w8, sprint, range, to_int}
use pubsubplus_go_client.Sdt.Data.{
  Data, IntKind, Stream, Wanted, nested_conversion, bool_text, format_conversion,
}
use pubsubplus_go_client.Sdt.Convert.{get_int8, get_signed, parse_int_of}
use pubsubplus_go_client.Sdt.StreamAccess.{at_index}
use pubsubplus_go_client.Sdt.StreamAccess
use pubsubplus_go_client.Sdt.Conversion.{signed_getter, signed_getter-integer}

prints : sprint (negsuc 127) ≡ b'-' ∷ b'1' ∷ b'2' ∷ b'8' ∷ []
unfolding sprint
prints = refl

smallest_int8 : get_int8 (Data.integer IntKind.int64 (negsuc 127)) ≡ ok (negsuc 127)
unfolding get_int8
smallest_int8 = signed_getter-integer w8 IntKind.int64 (negsuc 127)

signed_getter-integer_example :
    signed_getter w8 (Data.integer IntKind.uint16 (pos 128))
    ≡ err (nested_conversion (Data.integer IntKind.uint16 (pos 128)) (Wanted.int_of w8) range)
signed_getter-integer_example = signed_getter-integer w8 IntKind.uint16 (pos 128)

bool_as_int8 : signed_getter w8 (Data.bool true) ≡ ok (pos 1)
unfolding get_int8 get_signed parse_int_of to_int
bool_as_int8 = refl

abbrev pair : Stream
pair = Stream.cons (Data.bool false) (Stream.cons (Data.string (b'h' ∷ b'i' ∷ [])) Stream.nil)

wrong_type :
    StreamAccess.get_bool pair (pos 1) ≡ err (format_conversion (bool_text (b'h' ∷ b'i' ∷ [])))
unfolding StreamAccess.get_bool
wrong_type = refl
