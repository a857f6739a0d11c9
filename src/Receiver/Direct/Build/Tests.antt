-- ===== src/Receiver/Direct/Build/Tests.antt =====
-- The builder of a direct receiver: tests, and the theorem at a concrete input.
use pubsubplus_go_client.Prelude.{◌≡◌, refl, [], ◌∷◌, some, none}
use pubsubplus_go_client.Prelude.Int.{pos}
use pubsubplus_go_client.Sdt.Strconv.{to_int, to_uint}
use pubsubplus_go_client.Validation.{
  Value, string_property_validation, integer_property_validation, one_of,
}
use pubsubplus_go_client.Receiver.Direct.{drop_latest}
use pubsubplus_go_client.Receiver.Direct.Build.{
  topic_subscription, Builder, Built, built, failed, share_name_invalid, buffer_too_small,
  validate_share_name, build_subscription, build_with_share_name, on_back_pressure_drop_latest,
  on_back_pressure_drop_oldest, construct_receiver,
}
use pubsubplus_go_client.Receiver.Direct.Build.Accepted.{Accepted, build-Accepted}

-- `validateShareName` allows a slash: two receivers with different share names and topics then have
-- the same subscription.
share_names_collide :
    build_subscription (some (b'a' ∷ b'/' ∷ b'b' ∷ [])) (topic_subscription (b'c' ∷ []))
    ≡ build_subscription (some (b'a' ∷ [])) (topic_subscription (b'b' ∷ b'/' ∷ b'c' ∷ []))
unfolding build_subscription
share_names_collide = refl

slash_allowed : validate_share_name (b'a' ∷ b'/' ∷ b'b' ∷ []) ≡ none
unfolding validate_share_name
slash_allowed = refl

wildcard_refused : validate_share_name (b'a' ∷ b'*' ∷ []) ≡ some share_name_invalid
unfolding validate_share_name
wildcard_refused = refl

abbrev one_topic : Builder
one_topic = record {
  strategy = Value.null;
  capacity = Value.null;
  subscriptions = topic_subscription (b't' ∷ []) ∷ [];
}

abbrev shared : Built
shared = record {
  share_name = some (b'a' ∷ []);
  strategy = drop_latest;
  buffer_size = pos 5;
  subscriptions = (b'#' ∷ b's' ∷ b'h' ∷ b'a' ∷ b'r' ∷ b'e' ∷ b'/' ∷ b'a' ∷ b'/' ∷ b't' ∷ []) ∷ [];
}

built_with_share :
    build_with_share_name pos (some (b'a' ∷ [])) (on_back_pressure_drop_latest 5 one_topic)
    ≡ built shared
unfolding build_with_share_name on_back_pressure_drop_latest construct_receiver build_subscription
    validate_share_name string_property_validation integer_property_validation one_of to_int to_uint
built_with_share = refl

build-Accepted_example :
    Accepted (some (b'a' ∷ [])) (on_back_pressure_drop_latest 5 one_topic) shared
build-Accepted_example =
    build-Accepted pos (some (b'a' ∷ [])) (on_back_pressure_drop_latest 5 one_topic) shared
      built_with_share

no_place :
    build_with_share_name pos none (on_back_pressure_drop_oldest 0 one_topic)
    ≡ failed buffer_too_small
unfolding build_with_share_name on_back_pressure_drop_oldest construct_receiver build_subscription
    validate_share_name string_property_validation integer_property_validation one_of to_int to_uint
no_place = refl
