-- ===== src/Receiver/Direct/Build/Accepted.antt =====
-- What a receiver that the builder returns is like, and when its subscriptions tell share names apart.
use pubsubplus_go_client.Prelude.{
  ℕ, ◌≡◌, refl, ap, sym, false, List, [], ◌∷◌, ◌++◌, map, Option, none, some, arith, All,
}
use mathlib.Core.Path.{subst}
use pubsubplus_go_client.Prelude.Int.{ℤ, pos, negsuc, ◌≤ℤ◌}
use pubsubplus_go_client.Sdt.Strconv.{Bytes}
use pubsubplus_go_client.Validation.{string_property_validation, integer_property_validation}
use pubsubplus_go_client.Receiver.Direct.Build.{
  Subscription, topic_subscription, other_subscription, get_name, BuildError, Builder, Built,
  contains, validate_share_name, build_subscription, check_all, check_share_name, Result, built,
  or_fail, as_property, check_size, construct_receiver, build_with_share_name, text_drop_latest,
  text_drop_oldest,
}

-- What comes before the first slash, and what comes after it.
split_same :
    (a b s t : Bytes)
    → contains b'/' a ≡ false
    → contains b'/' b ≡ false
    → a ++ (b'/' ∷ s) ≡ b ++ (b'/' ∷ t)
    → (a ≡ b) × (s ≡ t)
split_same [] [] s t ha hb e = ground arith
split_same [] (d ∷ b) s t ha hb e = ground arith
split_same (c ∷ a) [] s t ha hb e = ground arith
split_same (c ∷ a) (d ∷ b) s t ha hb e =
    let rest = split_same a b s t (ground arith) (ground arith) (ground arith) in ground arith

-- The subscriptions of two share names without a slash are the same only if the share names and the
-- topics are.
pub build_subscription-distinct :
    (a b : Bytes) (s t : Subscription)
    → contains b'/' a ≡ false
    → contains b'/' b ≡ false
    → build_subscription (some a) s ≡ build_subscription (some b) t
    → (a ≡ b) × (get_name s ≡ get_name t)
unfolding build_subscription
build_subscription-distinct a b s t ha hb e =
    split_same a b (get_name s) (get_name t) ha hb (ground arith)

abbrev pub IsShareName : Option Bytes → Type 0
IsShareName none = Unit
IsShareName (some name) =
    (name ≡ [] → ⊥) × (contains b'>' name ≡ false) × (contains b'*' name ≡ false)

abbrev pub IsTopic : Subscription → Type 0
IsTopic (topic_subscription name) = Unit
IsTopic (other_subscription name) = ⊥

pub record Accepted (share : Option Bytes) (b : Builder) (r : Built) : Type 0 where
  pub size : pos 1 ≤ℤ r.buffer_size
  pub named : IsShareName share
  pub topics : All IsTopic b.subscriptions
  pub listed : r.subscriptions ≡ map (build_subscription share) b.subscriptions

share-IsShareName : (share : Option Bytes) → check_share_name share ≡ none → IsShareName share
share-IsShareName none h = tt
share-IsShareName (some []) h = unfold validate_share_name in ground arith
share-IsShareName (some (c ∷ s)) h = unfold validate_share_name in ground arith

topics-IsTopic : (l : List Subscription) → check_all l ≡ none → All IsTopic l
topics-IsTopic [] h = tt
topics-IsTopic (topic_subscription name ∷ rest) h = (tt, topics-IsTopic rest h)
topics-IsTopic (other_subscription name ∷ rest) h = cc

or_fail-built :
    (o : Option BuildError) (x : Result) (r : Built)
    → or_fail o x ≡ built r
    → (o ≡ none) × (x ≡ built r)
or_fail-built none x r h = (refl, h)
or_fail-built (some e) x r h = cc

built-injective : {x y : Built} → built x ≡ built y → x ≡ y
built-injective e = cc

size-positive : (size : ℤ) → check_size size ≡ none → pos 1 ≤ℤ size
size-positive (pos n) h = ground arith
size-positive (negsuc n) h = ground arith

-- Every receiver that the builder returns has a buffer of at least one place, a share name that is
-- allowed or none, and topics alone, listed under the share name.
pub build-Accepted :
    (truncate : ℕ → ℤ) (share : Option Bytes) (b : Builder) (r : Built)
    → build_with_share_name truncate share b ≡ built r
    → Accepted share b r
unfolding build_with_share_name construct_receiver build_subscription
build-Accepted truncate share b r h =
    let strategy =
      string_property_validation b.strategy (text_drop_latest ∷ text_drop_oldest ∷ []) in
    let size = integer_property_validation truncate b.capacity in
    let made = construct_receiver share strategy.value size.value b.subscriptions in
    let checked = or_fail (check_all b.subscriptions) made in
    let sized = or_fail (check_size size.value) checked in
    let read = or_fail (as_property size.error) sized in
    let one =
      or_fail-built (check_share_name share) (or_fail (as_property strategy.error) read) r h in
    let two = or_fail-built (as_property strategy.error) read r one.1 in
    let three = or_fail-built (as_property size.error) sized r two.1 in
    let four = or_fail-built (check_size size.value) checked r three.1 in
    let five = or_fail-built (check_all b.subscriptions) made r four.1 in
    let same = built-injective five.1 in
    record {
      size = subst (λ x. pos 1 ≤ℤ x.buffer_size) same (size-positive size.value four.0);
      named = share-IsShareName share one.0;
      topics = topics-IsTopic b.subscriptions five.0;
      listed = sym (ap (λ x. x.subscriptions) same);
    }
