-- ===== src/Receiver/Direct/Subscriptions.antt =====
-- internal/impl/receiver/direct_message_receiver_impl.go: the topics that a direct receiver subscribes to,
-- from Start to cleanupSubscriptions.
--
-- A topic stands as built with the share name. `subscribed` are the topics that the C library holds for
-- the receiver: the requests that it took, each topic once.
pub mod Cleanup
pub mod Start
mod Tests
use pubsubplus_go_client.Prelude.{
  ℕ, zero, suc, ◌+◌, not, ◌&&◌, Bool, true, false, List, [], ◌∷◌, ◌++◌, Option, none, some,
  if◌then◌else◌,
}
use pubsubplus_go_client.Sdt.Strconv.{Bytes}
use pubsubplus_go_client.Receiver.Topics.{is_subscribed, enlist, delist}

-- `adding` and `removing` are the topics of the calls between the request and the change of the list,
-- which hold `subscriptionTerminationLock` for reading; `cleaning` those that cleanupSubscriptions, which
-- holds it for writing until it is through, has not come to.
pub record Subscriber : Type 0 where
  pub is_started : Bool
  pub subscriptions : List Bytes
  pub subscribed : List Bytes
  pub adding : List Bytes
  pub removing : List Bytes
  pub cleaning : Option (List Bytes)

-- The Boolean says whether the C library takes the request.
pub data Op : Type 0 where
  asks_to_add asks_to_remove : Bytes → Bool → Op
  lists delists : Bytes → Op
  leaves_started locks : Op
  cleans : Bool → Op

pub data Event : Type 0 where
  bad_state refused asked done blocked : Event

abbrev pub may_read : Option (List Bytes) → Bool
may_read (some (topic ∷ rest)) = false
may_read _ = true

abbrev pub is_none : Option (List Bytes) → Bool
is_none none = true
is_none (some rest) = false

-- `addSubscription` and `removeSubscription` up to the request.
unfoldable pub ask_to_add : Bytes → Bool → Subscriber → Subscriber × Event
ask_to_add topic is_taken s =
    if not (may_read s.cleaning)
    then (s, blocked)
    else if not s.is_started
    then (s, bad_state)
    else if is_taken
    then (record s { subscribed = enlist topic s.subscribed; adding = topic ∷ s.adding }, asked)
    else (s, refused)

unfoldable pub ask_to_remove : Bytes → Bool → Subscriber → Subscriber × Event
ask_to_remove topic is_taken s =
    if not (may_read s.cleaning)
    then (s, blocked)
    else if not s.is_started
    then (s, bad_state)
    else if is_taken
    then (record s { subscribed = delist topic s.subscribed; removing = topic ∷ s.removing }, asked)
    else (s, refused)

-- Their changes of the list, under `subscriptionsLock`.
unfoldable pub list_topic : Bytes → Subscriber → Subscriber × Event
list_topic topic s =
    if is_subscribed topic s.adding
    then (
      record s { subscriptions = enlist topic s.subscriptions; adding = delist topic s.adding },
      done,
    )
    else (s, blocked)

unfoldable pub delist_topic : Bytes → Subscriber → Subscriber × Event
delist_topic topic s =
    if is_subscribed topic s.removing
    then (
      record s { subscriptions = delist topic s.subscriptions; removing = delist topic s.removing },
      done,
    )
    else (s, blocked)

abbrev pub is_empty : List Bytes → Bool
is_empty [] = true
is_empty (x ∷ xs) = false

-- `cleanupSubscriptions`, which Terminate calls after the state has changed: the lock, and a round of
-- its loop.
unfoldable pub lock_cleanup : Subscriber → Subscriber × Event
lock_cleanup s =
    if is_none s.cleaning && (not s.is_started && (is_empty s.adding && is_empty s.removing))
    then (record s { cleaning = some s.subscriptions }, done)
    else (s, blocked)

abbrev clean_when : Option (List Bytes) → Bool → Subscriber → Subscriber × Event
clean_when (some (topic ∷ rest)) true s =
    (record s { subscribed = delist topic s.subscribed; cleaning = some rest }, done)
clean_when (some (topic ∷ rest)) false s = (record s { cleaning = some rest }, refused)
clean_when _ is_taken s = (s, blocked)

unfoldable pub clean : Bool → Subscriber → Subscriber × Event
clean is_taken s = clean_when s.cleaning is_taken s

unfoldable pub step : Op → Subscriber → Subscriber × Event
step (asks_to_add topic is_taken) s = ask_to_add topic is_taken s
step (asks_to_remove topic is_taken) s = ask_to_remove topic is_taken s
step (lists topic) s = list_topic topic s
step (delists topic) s = delist_topic topic s
step leaves_started s = (record s { is_started = false }, done)
step locks s = lock_cleanup s
step (cleans is_taken) s = clean is_taken s

unfoldable pub run : List Op → Subscriber → Subscriber
run [] s = s
run (op ∷ ops) s = run ops (step op s).0
