-- ===== src/Receiver/Direct/Build.antt =====
-- internal/impl/receiver/direct_message_receiver_impl.go: the builder of a direct receiver, the share
-- name and the subscriptions of a receiver that has one.
pub mod Accepted
mod Tests
use pubsubplus_go_client.Prelude.{
  ℕ, ◌≡◌, refl, ap, sym, ◌∙◌, Bool, true, false, not, ◌||◌, List, [], ◌∷◌, ◌++◌, map, Option, none,
  some, ◌==◌, if◌then◌else◌, arith,
}
use pubsubplus_go_client.Prelude.Int.{ℤ, pos, ltb_ℤ}
use pubsubplus_go_client.Sdt.Strconv.{Bytes}
use pubsubplus_go_client.Sdt.Convert.{same_text}
use pubsubplus_go_client.Validation.{
  Value, Checked, PropertyError, string_property_validation, integer_property_validation,
}
use pubsubplus_go_client.Receiver.Direct.{Strategy, drop_oldest, drop_latest}

-- `resource.Subscription`: a topic subscription, or another type.
pub data Subscription : Type 0 where
  topic_subscription other_subscription : Bytes → Subscription

abbrev pub get_name : Subscription → Bytes
get_name (topic_subscription name) = name
get_name (other_subscription name) = name

pub data BuildError : Type 0 where
  share_name_empty share_name_invalid buffer_too_small unsupported_subscription : BuildError
  property : PropertyError → BuildError

-- `ReceiverBackPressureStrategyDropLatest` and `…DropOldest`
abbrev pub text_drop_latest : Bytes
text_drop_latest =
    b'B' ∷ b'U' ∷ b'F' ∷ b'F' ∷ b'E' ∷ b'R' ∷ b'_' ∷ b'D' ∷ b'R' ∷ b'O' ∷ b'P' ∷ b'_' ∷ b'L' ∷ b'A'
    ∷ b'T' ∷ b'E' ∷ b'S' ∷ b'T' ∷ b'_' ∷ b'W' ∷ b'H' ∷ b'E' ∷ b'N' ∷ b'_' ∷ b'F' ∷ b'U' ∷ b'L'
    ∷ b'L' ∷ []

abbrev pub text_drop_oldest : Bytes
text_drop_oldest =
    b'B' ∷ b'U' ∷ b'F' ∷ b'F' ∷ b'E' ∷ b'R' ∷ b'_' ∷ b'D' ∷ b'R' ∷ b'O' ∷ b'P' ∷ b'_' ∷ b'O' ∷ b'L'
    ∷ b'D' ∷ b'E' ∷ b'S' ∷ b'T' ∷ b'_' ∷ b'W' ∷ b'H' ∷ b'E' ∷ b'N' ∷ b'_' ∷ b'F' ∷ b'U' ∷ b'L'
    ∷ b'L' ∷ []

-- The two properties that are read; a missing key is `null`.
pub record Builder : Type 0 where
  pub strategy : Value
  pub capacity : Value
  pub subscriptions : List Subscription

-- `directMessageReceiverProps`, with the subscriptions as `construct` writes them.
pub record Built : Type 0 where
  pub share_name : Option Bytes
  pub strategy : Strategy
  pub buffer_size : ℤ
  pub subscriptions : List Bytes

abbrev pub contains : ℕ → Bytes → Bool
contains c [] = false
contains c (d ∷ s) = let rest = contains c s in c == d || rest

-- The pattern matches where one of the two bytes stands anywhere.
unfoldable pub validate_share_name : Bytes → Option BuildError
validate_share_name [] = some share_name_empty
validate_share_name (c ∷ s) =
    if contains b'>' (c ∷ s) || contains b'*' (c ∷ s) then some share_name_invalid else none

abbrev pub share_prefix : Bytes
share_prefix = b'#' ∷ b's' ∷ b'h' ∷ b'a' ∷ b'r' ∷ b'e' ∷ b'/' ∷ []

unfoldable pub build_subscription : Option Bytes → Subscription → Bytes
build_subscription (some share_name) s = share_prefix ++ (share_name ++ (b'/' ∷ get_name s))
build_subscription none s = get_name s

-- `checkDirectMessageReceiverSubscriptionType`
abbrev pub check_subscription_type : Subscription → Option BuildError
check_subscription_type (topic_subscription name) = none
check_subscription_type (other_subscription name) = some unsupported_subscription

abbrev pub first_error : Option BuildError → Option BuildError → Option BuildError
first_error (some e) later = some e
first_error none later = later

abbrev pub check_all : List Subscription → Option BuildError
check_all [] = none
check_all (s ∷ rest) = first_error (check_subscription_type s) (check_all rest)

abbrev pub check_share_name : Option Bytes → Option BuildError
unfolding validate_share_name
check_share_name none = none
check_share_name (some name) = validate_share_name name

abbrev pub strategy_of : Bytes → Strategy
strategy_of s = if same_text s text_drop_latest then drop_latest else drop_oldest

pub data Result : Type 0 where
  built : Built → Result
  failed : BuildError → Result

abbrev pub construct_receiver : Option Bytes → Bytes → ℤ → List Subscription → Result
unfolding build_subscription
construct_receiver share strategy size subscriptions = built (record {
  share_name = share;
  strategy = strategy_of strategy;
  buffer_size = size;
  subscriptions = map (build_subscription share) subscriptions;
})

abbrev pub or_fail : Option BuildError → Result → Result
or_fail (some e) r = failed e
or_fail none r = r

abbrev pub as_property : Option PropertyError → Option BuildError
as_property none = none
as_property (some e) = some (property e)

abbrev pub check_size : ℤ → Option BuildError
check_size size = if ltb_ℤ size (pos 1) then some buffer_too_small else none

-- The first argument stands for Go's conversion of a float64 to an int.
unfoldable pub build_with_share_name : (ℕ → ℤ) → Option Bytes → Builder → Result
unfolding string_property_validation integer_property_validation
build_with_share_name truncate share b =
    let strategy =
      string_property_validation b.strategy (text_drop_latest ∷ text_drop_oldest ∷ []) in
    let size = integer_property_validation truncate b.capacity in
    or_fail (check_share_name share) (
      or_fail (as_property strategy.error) (
        or_fail (as_property size.error) (
          or_fail (check_size size.value) (
            or_fail (check_all b.subscriptions)
              (construct_receiver share strategy.value size.value b.subscriptions)))))

unfoldable pub on_back_pressure_drop_latest : ℕ → Builder → Builder
on_back_pressure_drop_latest capacity b = record b {
  strategy = Value.string text_drop_latest;
  capacity = Value.uint capacity;
}

unfoldable pub on_back_pressure_drop_oldest : ℕ → Builder → Builder
on_back_pressure_drop_oldest capacity b = record b {
  strategy = Value.string text_drop_oldest;
  capacity = Value.uint capacity;
}
