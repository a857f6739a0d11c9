-- ===== src/Sdt/MapAccess.antt =====
-- structured_data_types.go: the getters of `Map`, each the lookup of the key
-- and then the conversion for the type. In `get_float32` and `get_float64` the argument stands for
-- `strconv.ParseFloat`.
use pubsubplus_go_client.Prelude.{ℕ, Bool, if◌then◌else◌, Option, none, some, Result, err}
use pubsubplus_go_client.Prelude.Int.{ℤ}
use pubsubplus_go_client.Sdt.Strconv.{Bytes, NumError}
use pubsubplus_go_client.Sdt.Data.{
  Data, Map, Stream, Queue, Topic, SdtError, key_not_found, Converted,
}
use pubsubplus_go_client.Sdt.Convert.{Destination, same_text}
use pubsubplus_go_client.Sdt.Convert

-- `sdtMap[key]`
unfoldable pub lookup : Bytes → Map → Option Data
lookup key Map.empty = none
lookup key (Map.entry k d m) = if same_text k key then some d else lookup key m

abbrev found : {A : Type 0} → (Data → Converted A) → Bytes → Option Data → Result SdtError A
found get key none = err (key_not_found key)
found get key (some d) = Convert.converted (get d)

unfoldable pub at_key : {A : Type 0} → (Data → Converted A) → Map → Bytes → Result SdtError A
unfolding lookup
at_key get m key = found get key (lookup key m)

unfoldable pub get_bool : Map → Bytes → Result SdtError Bool
unfolding at_key Convert.get_bool
get_bool c key = at_key Convert.get_bool c key

unfoldable pub get_byte : Map → Bytes → Result SdtError ℕ
unfolding at_key Convert.get_uint8
get_byte c key = at_key Convert.get_uint8 c key

unfoldable pub get_int : Map → Bytes → Result SdtError ℤ
unfolding at_key Convert.get_int
get_int c key = at_key Convert.get_int c key

unfoldable pub get_uint : Map → Bytes → Result SdtError ℕ
unfolding at_key Convert.get_uint
get_uint c key = at_key Convert.get_uint c key

unfoldable pub get_int8 : Map → Bytes → Result SdtError ℤ
unfolding at_key Convert.get_int8
get_int8 c key = at_key Convert.get_int8 c key

unfoldable pub get_int16 : Map → Bytes → Result SdtError ℤ
unfolding at_key Convert.get_int16
get_int16 c key = at_key Convert.get_int16 c key

unfoldable pub get_int32 : Map → Bytes → Result SdtError ℤ
unfolding at_key Convert.get_int32
get_int32 c key = at_key Convert.get_int32 c key

unfoldable pub get_int64 : Map → Bytes → Result SdtError ℤ
unfolding at_key Convert.get_int64
get_int64 c key = at_key Convert.get_int64 c key

unfoldable pub get_uint8 : Map → Bytes → Result SdtError ℕ
unfolding at_key Convert.get_uint8
get_uint8 c key = at_key Convert.get_uint8 c key

unfoldable pub get_uint16 : Map → Bytes → Result SdtError ℕ
unfolding at_key Convert.get_uint16
get_uint16 c key = at_key Convert.get_uint16 c key

unfoldable pub get_uint32 : Map → Bytes → Result SdtError ℕ
unfolding at_key Convert.get_uint32
get_uint32 c key = at_key Convert.get_uint32 c key

unfoldable pub get_uint64 : Map → Bytes → Result SdtError ℕ
unfolding at_key Convert.get_uint64
get_uint64 c key = at_key Convert.get_uint64 c key

unfoldable pub get_float32 : (Bytes → Result NumError ℕ) → Map → Bytes → Result SdtError ℕ
unfolding at_key Convert.get_float32
get_float32 parse_float c key = at_key (Convert.get_float32 parse_float) c key

unfoldable pub get_float64 : (Bytes → Result NumError ℕ) → Map → Bytes → Result SdtError ℕ
unfolding at_key Convert.get_float64
get_float64 parse_float c key = at_key (Convert.get_float64 parse_float) c key

unfoldable pub get_string : Map → Bytes → Result SdtError Bytes
unfolding at_key Convert.get_string
get_string c key = at_key Convert.get_string c key

unfoldable pub get_wchar : Map → Bytes → Result SdtError ℕ
unfolding at_key Convert.get_wchar
get_wchar c key = at_key Convert.get_wchar c key

unfoldable pub get_byte_array : Map → Bytes → Result SdtError Bytes
unfolding at_key Convert.get_byte_array
get_byte_array c key = at_key Convert.get_byte_array c key

unfoldable pub get_map : Map → Bytes → Result SdtError Map
unfolding at_key Convert.get_map
get_map c key = at_key Convert.get_map c key

unfoldable pub get_stream : Map → Bytes → Result SdtError Stream
unfolding at_key Convert.get_stream
get_stream c key = at_key Convert.get_stream c key

unfoldable pub get_destination : Map → Bytes → Result SdtError Destination
unfolding at_key Convert.get_destination
get_destination c key = at_key Convert.get_destination c key

unfoldable pub get_queue : Map → Bytes → Result SdtError Queue
unfolding at_key Convert.get_queue
get_queue c key = at_key Convert.get_queue c key

unfoldable pub get_topic : Map → Bytes → Result SdtError Topic
unfolding at_key Convert.get_topic
get_topic c key = at_key Convert.get_topic c key
