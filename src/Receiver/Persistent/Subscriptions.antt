-- ===== src/Receiver/Persistent/Subscriptions.antt =====
-- internal/impl/receiver/persistent_message_receiver_impl.go: the subscriptions of a persistent
-- receiver, over the table of the session's receiver in which the requests wait for the broker.
--
-- `C` is the type of the session's callbacks, `E` that of errors. A call of the C library is an
-- argument, which gives `none` or an error. The channel of a request is known by its id.
pub mod Held
pub mod Unanswered
mod Tests
use pubsubplus_go_client.Prelude.{
  ℕ, Bool, true, false, List, [], ◌∷◌, Option, none, some, Result, ok, err, if◌then◌else◌,
}
use pubsubplus_go_client.Prelude.Dict.{Dict, assign, discard}
use pubsubplus_go_client.Sdt.Strconv.{Bytes}
use pubsubplus_go_client.Lifecycle.{State, is_started}
use pubsubplus_go_client.Core.Events.{Info}
use pubsubplus_go_client.Core.Receiver.{
  Receiver, flow_subscribe, flow_unsubscribe, endpoint_unsubscribe, clear_subscription_correlation,
  handle_subscription_event,
}
use pubsubplus_go_client.Receiver.Topics.{is_subscribed, enlist, delist}

-- The fields that the operations below read and write. `outstanding` is
-- `outstandingSubscriptionEvents`, a map to empty structs.
pub record Subscriber (C E : Type 0) : Type 0 where
  pub state : State
  pub subscriptions : List Bytes
  pub outstanding : Dict (Unit {0})
  pub session : Receiver C E

-- What the C library does with the flow and the endpoint.
pub record Native (E : Type 0) : Type 0 where
  pub subscribe : Bytes → ℕ → Option E
  pub unsubscribe : Bytes → ℕ → Option E
  pub endpoint_unsubscribe : Bytes → Bytes → ℕ → Option E
  pub destination : Result E (Bytes × Bool)

-- An IllegalStateError with the name of the state, the IllegalArgumentError of a subscription that
-- is no topic, and an error of the C library.
pub data Refusal (E : Type 0) : Type 0 where
  bad_state : State → Refusal E
  unsupported : Refusal E
  native : E → Refusal E

unfoldable pub keys : Dict (Unit {0}) → List ℕ
keys [] = []
keys ((id, _) ∷ d) = id ∷ keys d

module _ {C E : Type 0} where
  unfoldable pub add_correlation : ℕ → Subscriber C E → Subscriber C E
  add_correlation id s = record s { outstanding = assign s.outstanding id tt }

  unfoldable pub clear_correlation : ℕ → Subscriber C E → Subscriber C E
  clear_correlation id s = record s { outstanding = discard s.outstanding id }

  abbrev pub asked :
      (List Bytes → List Bytes)
      → Subscriber C E
      → Receiver C E × (ℕ × Option E)
      → Subscriber C E × Result (Refusal E) ℕ
  asked change s (session, (id, none)) = (
    record (add_correlation id s) { session = session; subscriptions = change s.subscriptions },
    ok id,
  )
  asked change s (session, (id, some e)) = (record s { session = session }, err (native e))

  -- `addSubscription`
  unfoldable pub add_subscription :
      Native E → Bytes → Subscriber C E → Subscriber C E × Result (Refusal E) ℕ
  unfolding flow_subscribe add_correlation
  add_subscription calls topic s =
      if is_started s.state
      then asked (enlist topic) s (flow_subscribe calls.subscribe topic s.session)
      else (s, err (bad_state s.state))

  -- A topic that the receiver does not know may be one of the endpoint.
  abbrev pub elsewhere :
      Result E (Bytes × Bool) → Native E → Bytes → Receiver C E → Receiver C E × (ℕ × Option E)
  elsewhere (err e) calls topic r = (r, (0, some e))
  elsewhere (ok (name, true)) calls topic r =
      endpoint_unsubscribe calls.endpoint_unsubscribe name topic r
  elsewhere (ok (name, false)) calls topic r = flow_unsubscribe calls.unsubscribe topic r

  unfoldable pub unsubscribe : Native E → Bytes → Subscriber C E → Receiver C E × (ℕ × Option E)
  unfolding flow_unsubscribe endpoint_unsubscribe
  unsubscribe calls topic s =
      if is_subscribed topic s.subscriptions
      then flow_unsubscribe calls.unsubscribe topic s.session
      else elsewhere calls.destination calls topic s.session

  -- `removeSubscription`
  unfoldable pub remove_subscription :
      Native E → Bytes → Subscriber C E → Subscriber C E × Result (Refusal E) ℕ
  unfolding unsubscribe add_correlation
  remove_subscription calls topic s =
      if is_started s.state
      then asked (delist topic) s (unsubscribe calls topic s)
      else (s, err (bad_state s.state))

  -- `AddSubscription` and `RemoveSubscription` up to the wait, and the synchronous part of their
  -- asynchronous forms; `none` is a subscription that is no topic.
  abbrev pub checked :
      (Bytes → Subscriber C E → Subscriber C E × Result (Refusal E) ℕ)
      → Option Bytes
      → Subscriber C E
      → Subscriber C E × Result (Refusal E) ℕ
  checked call none s = (s, err (if is_started s.state then unsupported else bad_state s.state))
  checked call (some topic) s =
      if is_started s.state then call topic s else (s, err (bad_state s.state))

  unfoldable pub begin_add :
      Native E → Option Bytes → Subscriber C E → Subscriber C E × Result (Refusal E) ℕ
  unfolding add_subscription
  begin_add calls o s = checked (add_subscription calls) o s

  unfoldable pub begin_remove :
      Native E → Option Bytes → Subscriber C E → Subscriber C E × Result (Refusal E) ℕ
  unfolding remove_subscription
  begin_remove calls o s = checked (remove_subscription calls) o s

  -- The loop over the correlations that are to be given up.
  unfoldable pub clear_all : List ℕ → Receiver C E → Receiver C E
  clear_all [] r = r
  clear_all (id ∷ ids) r = clear_all ids (clear_subscription_correlation id r)

  -- The deferred part of `Terminate` that gives up what is outstanding.
  unfoldable pub give_up : Subscriber C E → Subscriber C E
  unfolding clear_all keys
  give_up s = record s { session = clear_all (keys s.outstanding) s.session; outstanding = [] }

-- A call of the receiver up to its wait; the end of a wait; an event with the answer of the broker; a
-- change of the state by the life cycle; the deferred part of `Terminate`.
pub data Op (E : Type 0) : Type 0 where
  adds removes : Native E → Option Bytes → Op E
  finishes : ℕ → Op E
  answers : Info E → Option E → Op E
  turns : State → Op E
  gives_up : Op E

pub data Outcome : Type 0 where
  added removed : Bytes → Outcome
  unchanged : Outcome

abbrev pub outcome :
    {E : Type 0} → (Bytes → Outcome) → Option Bytes → Result (Refusal E) ℕ → Outcome
outcome of none r = unchanged
outcome of (some topic) (ok id) = of topic
outcome of (some topic) (err e) = unchanged

module _ {C E : Type 0} where
  unfoldable pub step : Op E → Subscriber C E → Subscriber C E × Outcome
  unfolding begin_add begin_remove clear_correlation handle_subscription_event give_up
  step (adds calls o) s = let (s', r) = begin_add calls o s in (s', outcome added o r)
  step (removes calls o) s = let (s', r) = begin_remove calls o s in (s', outcome removed o r)
  step (finishes id) s = (clear_correlation id s, unchanged)
  step (answers event e) s =
      (record s { session = handle_subscription_event event e s.session }, unchanged)
  step (turns state) s = (record s { state = state }, unchanged)
  step gives_up s = (give_up s, unchanged)

  unfoldable pub run : List (Op E) → Subscriber C E → Subscriber C E × List Outcome
  unfolding step
  run [] s = (s, [])
  run (op ∷ ops) s = let (s', o) = step op s in let (s'', os) = run ops s' in (s'', o ∷ os)
