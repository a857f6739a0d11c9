-- ===== src/Sdt/StreamAccess.antt =====
-- structured_data_types.go: the getters of `Stream`, each the bounds check of the index
-- and then the conversion for the type. In `get_float32` and `get_float64` the argument stands for
-- `strconv.ParseFloat`.
use pubsubplus_go_client.Prelude.{
  ℕ, zero, suc, Bool, ◌||◌, if◌then◌else◌, Option, none, some, Result, err,
}
use pubsubplus_go_client.Prelude.Int.{ℤ, pos, pos_part, ltb_ℤ, leb_ℤ}
use pubsubplus_go_client.Sdt.Strconv.{Bytes, NumError}
use pubsubplus_go_client.Sdt.Data.{
  Data, Map, Stream, Queue, Topic, SdtError, out_of_bounds, Converted,
}
use pubsubplus_go_client.Sdt.Convert.{Destination, same_text}
use pubsubplus_go_client.Sdt.Convert

abbrev pub length : Stream → ℕ
length Stream.nil = 0
length (Stream.cons d s) = suc (length s)

abbrev pub element? : Stream → ℕ → Option Data
element? Stream.nil i = none
element? (Stream.cons d s) zero = some d
element? (Stream.cons d s) (suc i) = element? s i

-- `sdtStream[index]`; Go would panic where there is no element, which `at_index` never asks for.
abbrev read : {A : Type 0} → (Data → Converted A) → ℤ → Option Data → Result SdtError A
read get index none = err (out_of_bounds index)
read get index (some d) = Convert.converted (get d)

-- `index >= len(sdtStream) || index < 0`
unfoldable pub at_index : {A : Type 0} → (Data → Converted A) → Stream → ℤ → Result SdtError A
at_index get s index =
    if leb_ℤ (pos (length s)) index || ltb_ℤ index (pos 0)
    then err (out_of_bounds index)
    else read get index (element? s (pos_part index))

unfoldable pub get_bool : Stream → ℤ → Result SdtError Bool
unfolding at_index Convert.get_bool
get_bool c key = at_index Convert.get_bool c key

unfoldable pub get_byte : Stream → ℤ → Result SdtError ℕ
unfolding at_index Convert.get_uint8
get_byte c key = at_index Convert.get_uint8 c key

unfoldable pub get_int : Stream → ℤ → Result SdtError ℤ
unfolding at_index Convert.get_int
get_int c key = at_index Convert.get_int c key

unfoldable pub get_uint : Stream → ℤ → Result SdtError ℕ
unfolding at_index Convert.get_uint
get_uint c key = at_index Convert.get_uint c key

unfoldable pub get_int8 : Stream → ℤ → Result SdtError ℤ
unfolding at_index Convert.get_int8
get_int8 c key = at_index Convert.get_int8 c key

unfoldable pub get_int16 : Stream → ℤ → Result SdtError ℤ
unfolding at_index Convert.get_int16
get_int16 c key = at_index Convert.get_int16 c key

unfoldable pub get_int32 : Stream → ℤ → Result SdtError ℤ
unfolding at_index Convert.get_int32
get_int32 c key = at_index Convert.get_int32 c key

unfoldable pub get_int64 : Stream → ℤ → Result SdtError ℤ
unfolding at_index Convert.get_int64
get_int64 c key = at_index Convert.get_int64 c key

unfoldable pub get_uint8 : Stream → ℤ → Result SdtError ℕ
unfolding at_index Convert.get_uint8
get_uint8 c key = at_index Convert.get_uint8 c key

unfoldable pub get_uint16 : Stream → ℤ → Result SdtError ℕ
unfolding at_index Convert.get_uint16
get_uint16 c key = at_index Convert.get_uint16 c key

unfoldable pub get_uint32 : Stream → ℤ → Result SdtError ℕ
unfolding at_index Convert.get_uint32
get_uint32 c key = at_index Convert.get_uint32 c key

unfoldable pub get_uint64 : Stream → ℤ → Result SdtError ℕ
unfolding at_index Convert.get_uint64
get_uint64 c key = at_index Convert.get_uint64 c key

unfoldable pub get_float32 : (Bytes → Result NumError ℕ) → Stream → ℤ → Result SdtError ℕ
unfolding at_index Convert.get_float32
get_float32 parse_float c key = at_index (Convert.get_float32 parse_float) c key

unfoldable pub get_float64 : (Bytes → Result NumError ℕ) → Stream → ℤ → Result SdtError ℕ
unfolding at_index Convert.get_float64
get_float64 parse_float c key = at_index (Convert.get_float64 parse_float) c key

unfoldable pub get_string : Stream → ℤ → Result SdtError Bytes
unfolding at_index Convert.get_string
get_string c key = at_index Convert.get_string c key

unfoldable pub get_wchar : Stream → ℤ → Result SdtError ℕ
unfolding at_index Convert.get_wchar
get_wchar c key = at_index Convert.get_wchar c key

unfoldable pub get_byte_array : Stream → ℤ → Result SdtError Bytes
unfolding at_index Convert.get_byte_array
get_byte_array c key = at_index Convert.get_byte_array c key

unfoldable pub get_map : Stream → ℤ → Result SdtError Map
unfolding at_index Convert.get_map
get_map c key = at_index Convert.get_map c key

unfoldable pub get_stream : Stream → ℤ → Result SdtError Stream
unfolding at_index Convert.get_stream
get_stream c key = at_index Convert.get_stream c key

unfoldable pub get_destination : Stream → ℤ → Result SdtError Destination
unfolding at_index Convert.get_destination
get_destination c key = at_index Convert.get_destination c key

unfoldable pub get_queue : Stream → ℤ → Result SdtError Queue
unfolding at_index Convert.get_queue
get_queue c key = at_index Convert.get_queue c key

unfoldable pub get_topic : Stream → ℤ → Result SdtError Topic
unfolding at_index Convert.get_topic
get_topic c key = at_index Convert.get_topic c key
