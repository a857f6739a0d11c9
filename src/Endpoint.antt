-- ===== src/Endpoint.antt =====
-- internal/impl/provisioner/endpoint_provisioner_impl.go: queues set up by properties of any dynamic
-- type, over the provisioner of `Core.Provisioner`.
--
-- A property is known by its number: those of pkg/solace/config/endpoint_properties.go are 0 to 7 in
-- the order of their constants. A map is visited in any order, so a function that loops over one takes
-- the entries in the order of the visit. The keys and values of the C library are constructors.
pub mod Property
pub mod Order
pub mod Outcome
pub mod Branches
mod Tests
use pubsubplus_go_client.Prelude.{
  ℕ, ◌+◌, Bool, true, false, List, [], ◌∷◌, ◌++◌, Option, none, some, ◌==◌, if◌then◌else◌, Result,
  ok, err, ◌>>=◌,
}
use pubsubplus_go_client.Prelude.Int.{ℤ, pos}
use pubsubplus_go_client.Prelude.Dict.{Dict, assign}
use pubsubplus_go_client.Sdt.Strconv.{Bytes, sprint}
use pubsubplus_go_client.Sdt.Convert.{same_text}
use pubsubplus_go_client.Endpoint.Property
use pubsubplus_go_client.Validation.{
  Value, Checked, PropertyError, boolean_property_validation,
  integer_property_validation_with_range, uint64_property_validation, string_property_validation,
}

-- The keys and the values of the C library, each a text there.
pub data Key : Type 0 where
  id name durable access_type discard_behavior max_redelivery max_size permission quota : Key
  respects_ttl : Key

pub data Permission : Type 0 where
  none_at_all read_only consume modify_topic delete : Permission

pub data Setting : Type 0 where
  queue enable disable exclusive nonexclusive sender_on sender_off empty : Setting
  text : Bytes → Setting
  permitted : Permission → Setting

abbrev pub Settings : Type 0
Settings = List (Key × Setting)

-- The constants of EndpointPermission.
abbrev permission_prefix : Bytes
permission_prefix =
    b's' ∷ b'o' ∷ b'l' ∷ b'a' ∷ b'c' ∷ b'e' ∷ b'.' ∷ b'm' ∷ b'e' ∷ b's' ∷ b's' ∷ b'a' ∷ b'g' ∷ b'i'
    ∷ b'n' ∷ b'g' ∷ b'.' ∷ b'e' ∷ b'n' ∷ b'd' ∷ b'p' ∷ b'o' ∷ b'i' ∷ b'n' ∷ b't' ∷ b'-' ∷ b'p'
    ∷ b'e' ∷ b'r' ∷ b'm' ∷ b'i' ∷ b's' ∷ b's' ∷ b'i' ∷ b'o' ∷ b'n' ∷ b'.' ∷ []

abbrev pub text_of : Permission → Bytes
text_of none_at_all = permission_prefix ++ (b'n' ∷ b'o' ∷ b'n' ∷ b'e' ∷ [])
text_of read_only =
    permission_prefix ++ (b'r' ∷ b'e' ∷ b'a' ∷ b'd' ∷ b'-' ∷ b'o' ∷ b'n' ∷ b'l' ∷ b'y' ∷ [])
text_of consume = permission_prefix ++ (b'c' ∷ b'o' ∷ b'n' ∷ b's' ∷ b'u' ∷ b'm' ∷ b'e' ∷ [])
text_of modify_topic =
    permission_prefix
    ++ (b'm' ∷ b'o' ∷ b'd' ∷ b'i' ∷ b'f' ∷ b'y' ∷ b'-' ∷ b't' ∷ b'o' ∷ b'p' ∷ b'i' ∷ b'c' ∷ [])
text_of delete = permission_prefix ++ (b'd' ∷ b'e' ∷ b'l' ∷ b'e' ∷ b't' ∷ b'e' ∷ [])

-- The lookup in the table of permissions; what is not in it gives the empty text.
unfoldable pub map_endpoint_permission : Bytes → Setting
map_endpoint_permission s =
    if same_text s (text_of none_at_all)
    then permitted none_at_all
    else if same_text s (text_of read_only)
    then permitted read_only
    else if same_text s (text_of consume)
    then permitted consume
    else if same_text s (text_of modify_topic)
    then permitted modify_topic
    else if same_text s (text_of delete)
    then permitted delete
    else empty

abbrev allowed_permissions : List Bytes
allowed_permissions =
    text_of none_at_all
    ∷ text_of read_only
    ∷ text_of consume
    ∷ text_of modify_topic
    ∷ text_of delete
    ∷ []

-- `if present { if err != nil { return nil, err }; … }`
abbrev without_error : Option PropertyError → Settings → Result PropertyError Settings
without_error none s = ok s
without_error (some e) s = err e

abbrev with_value : {A : Type 0} → Checked A → (A → Settings) → Result PropertyError Settings
with_value c of = if c.present then without_error c.error (of c.value) else ok []

abbrev one : Key → Setting → Settings
one k v = (k, v) ∷ []

-- `truncate` is Go's conversion of a float64 to an int, `show` is `fmt.Sprintf("%v", value)`.
module _ (truncate : ℕ → ℤ) (show : Value → Bytes) where
  abbrev bool_setting : Value → (Bool → Settings) → Result PropertyError Settings
  bool_setting v of = with_value (boolean_property_validation v) of

  -- A round of the loop, by its property.
  unfoldable pub setting : ℕ → Value → Result PropertyError Settings
  setting p v =
      if p == Property.durable
      then bool_setting v (λ b. one durable (if b then enable else disable))
      else if p == Property.exclusive
      then bool_setting v (λ b. one access_type (if b then exclusive else nonexclusive))
      else if p == Property.notify_sender
      then bool_setting v (λ b. one discard_behavior (if b then sender_on else sender_off))
      else if p == Property.max_message_redelivery
      then with_value (integer_property_validation_with_range truncate v (pos 0) (pos 255))
          (λ z. one max_redelivery (text (sprint z)))
      else if p == Property.max_message_size
      then with_value (uint64_property_validation v) (λ n. one max_size (text (sprint (pos n))))
      else if p == Property.permission
      then with_value (string_property_validation (Value.string (show v)) allowed_permissions)
          (λ s. one permission (map_endpoint_permission s))
      else if p == Property.quota_mb
      then with_value (uint64_property_validation v) (λ n. one quota (text (sprint (pos n))))
      else if p == Property.respects_ttl
      then bool_setting v (λ b. if b then one respects_ttl enable else [])
      else ok []

  unfoldable pub validate_from : Dict Value → Settings → Result PropertyError Settings
  unfolding setting
  validate_from [] settings = ok settings
  validate_from ((p, v) ∷ entries) settings =
      setting p v >>= λ s. validate_from entries (settings ++ s)

  unfoldable pub validate_endpoint_properties : Dict Value → Result PropertyError Settings
  unfolding validate_from
  validate_endpoint_properties entries = validate_from entries (one id queue)

-- WithProperty; the other setters are calls of it with a property of their own.
unfoldable pub with_property : ℕ → Value → Dict Value → Dict Value
with_property p v properties = assign properties p v

-- FromConfigurationProvider, over the entries of the provider's map.
unfoldable pub merge_endpoint_property_map : Dict Value → Dict Value → Dict Value
merge_endpoint_property_map original [] = original
merge_endpoint_property_map original ((p, v) ∷ entries) =
    merge_endpoint_property_map (assign original p v) entries
