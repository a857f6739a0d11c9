-- ===== src/Sdt/Data.antt =====
-- structured_data_types.go: the values that a Map or a Stream holds, and the errors of the getters.
-- An `interface{}` is a value of `Data` with its dynamic type; Go's ten integer types share one
-- constructor, with the type as `IntKind`. A float is its IEEE bit pattern. The text of an error
-- is not modelled, only what it is about.
use pubsubplus_go_client.Prelude.{ℕ, Bool, Result}
use pubsubplus_go_client.Prelude.Int.{ℤ}
use pubsubplus_go_client.Sdt.Strconv.{Bytes, Width, NumError}

pub data IntKind : Type 0 where
  int uint int8 int16 int32 int64 uint8 uint16 uint32 uint64 : IntKind

-- `resource.Queue`
pub record Queue : Type 0 where
  pub name : Bytes
  pub exclusively_accessible : Bool
  pub durable : Bool

-- `resource.Topic`
pub record Topic : Type 0 where
  pub name : Bytes

-- `other` stands for a value of a type that the package does not name, `nil` among them.
mutual
  pub data Data : Type 0 where
    bool : Bool → Data
    integer : IntKind → ℤ → Data
    bytes : Bytes → Data
    float32 : ℕ → Data
    float64 : ℕ → Data
    string : Bytes → Data
    wchar : ℕ → Data
    map : Map → Data
    stream : Stream → Data
    queue : Queue → Data
    topic : Topic → Data
    other : Data

  pub data Map : Type 0 where
    empty : Map
    entry : Bytes → Data → Map → Map

  pub data Stream : Type 0 where
    nil : Stream
    cons : Data → Stream → Stream

-- The type that a getter was asked for, as its error names it.
pub data Wanted : Type 0 where
  bool float32 float64 byte_array string wchar map stream queue topic destination : Wanted
  int_of uint_of : Width → Wanted

-- `FormatConversionError`, by the place that makes it: the two helper functions, and the two
-- literals in `getBool` and `getWChar`.
pub data ConversionError : Type 0 where
  default_conversion : Data → Wanted → ConversionError
  nested_conversion : Data → Wanted → NumError → ConversionError
  bool_text : Bytes → ConversionError
  wchar_length : Bytes → ConversionError

pub data SdtError : Type 0 where
  key_not_found : Bytes → SdtError
  out_of_bounds : ℤ → SdtError
  format_conversion : ConversionError → SdtError

abbrev pub Converted : Type 0 → Type 0
Converted A = Result ConversionError A
