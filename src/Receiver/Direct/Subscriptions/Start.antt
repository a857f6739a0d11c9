-- ===== src/Receiver/Direct/Subscriptions/Start.antt =====
-- Start of internal/impl/receiver/direct_message_receiver_impl.go, for the caller that starts the
-- receiver, with what it takes back if it fails.
use pubsubplus_go_client.Prelude.{
  ℕ, suc, ◌+◌, ◌-◌, ◌≤◌, ◌≡◌, refl, sym, ap, ◌∙◌, Bool, true, false, List, [], ◌∷◌, Option, none,
  some, if◌then◌else◌, leb, arith, inl, inr, Option-cases,
}
use mathlib.Core.Path.{subst}
use pubsubplus_go_client.Sdt.Strconv.{Bytes}
use pubsubplus_go_client.Receiver.Topics.{
  enlist, delist, count, count-enlist, count-delist, is_subscribed-count,
}
use pubsubplus_go_client.Receiver.Direct.Subscriptions.{Subscriber}

-- `asked` are the topics of `subscriptionsAdded`.
pub record Asked (E : Type 0) : Type 0 where
  pub asked : List Bytes
  pub subscribed : List Bytes
  pub error : Option E

-- The receiver after Start: whether the handler of the down event and the callback are registered,
-- whether `run` was started, and the error that Start returns.
pub record Begun (E : Type 0) : Type 0 where
  pub subscriber : Subscriber
  pub has_handler : Bool
  pub has_callback : Bool
  pub is_running : Bool
  pub error : Option E

abbrev pub subscriber_of : Bool → List Bytes → List Bytes → Subscriber
subscriber_of is_started subscriptions subscribed = record {
  is_started = is_started;
  subscriptions = subscriptions;
  subscribed = subscribed;
  adding = [];
  removing = [];
  cleaning = none;
}

-- What the C library says to the i-th request, what the broker answers to it, and whether the C library
-- takes the i-th request of those that take a subscription back.
module _ {E : Type 0} (refuse answer : ℕ → Option E) (takes_back : ℕ → Bool) where
  abbrev pub ask_when : Option E → Bytes → Asked E → List Bytes → Asked E
  ask_when (some e) topic later subscribed = record {
    asked = [];
    subscribed = subscribed;
    error = some e;
  }
  ask_when none topic later subscribed = record later { asked = topic ∷ later.asked }

  -- The loop of the requests.
  unfoldable pub ask_all : ℕ → List Bytes → List Bytes → Asked E
  ask_all i [] subscribed = record { asked = []; subscribed = subscribed; error = none }
  ask_all i (topic ∷ rest) subscribed =
      let later = ask_all (suc i) rest (enlist topic subscribed) in
      ask_when (refuse i) topic later subscribed

  abbrev first_error : Option E → Option E → Option E
  first_error (some e) later = some e
  first_error none later = later

  -- The loop of the answers.
  unfoldable pub await_all : ℕ → List Bytes → Option E
  await_all i [] = none
  await_all i (topic ∷ rest) = let later = await_all (suc i) rest in first_error (answer i) later

  -- The deferred loop after an error; what the broker answers is only logged.
  unfoldable pub take_back : ℕ → List Bytes → List Bytes → List Bytes
  take_back i [] subscribed = subscribed
  take_back i (topic ∷ rest) subscribed =
      take_back (suc i) rest (if takes_back i then delist topic subscribed else subscribed)

  abbrev pub settle : List Bytes → Asked E → Option E → Begun E
  settle subscriptions a none = record {
    subscriber = subscriber_of true subscriptions a.subscribed;
    has_handler = true;
    has_callback = true;
    is_running = true;
    error = none;
  }
  settle subscriptions a (some e) = record {
    subscriber = subscriber_of false subscriptions (take_back 0 a.asked a.subscribed);
    has_handler = false;
    has_callback = false;
    is_running = false;
    error = some e;
  }

  abbrev pub outcome_of : Asked E → Option E
  outcome_of a = first_error a.error (await_all 0 a.asked)

  unfoldable pub start : List Bytes → Begun E
  start subscriptions = let a = ask_all 0 subscriptions [] in settle subscriptions a (outcome_of a)

  -- What was asked is in the library, and nothing else, each topic once.
  record Matches (u : Bytes) (before : ℕ) (a : Asked E) : Type 0 where
    single : count u a.subscribed ≤ 1
    within : count u a.subscribed ≤ before + count u a.asked
    there : 1 ≤ before + count u a.asked → 1 ≤ count u a.subscribed

  ask_all-Matches :
      (i : ℕ) (u : Bytes) (topics subscribed : List Bytes)
      → count u subscribed ≤ 1
      → Matches u (count u subscribed) (ask_all i topics subscribed)
  unfolding ask_all count
  ask_all-Matches i u [] subscribed h = ground arith
  ask_all-Matches i u (t ∷ rest) subscribed h = elim (Option-cases (refuse i)) [
    | inl taken ↦
        let e = count-enlist t u subscribed in
        let f = is_subscribed-count u subscribed in
        let few : count u (enlist t subscribed) ≤ 1 = ground arith in
        let v = ask_all-Matches (suc i) u rest (enlist t subscribed) few in ground arith
    | inr (e, refused) ↦ rw refused (ground arith)
  ]

  first-Matches : (u : Bytes) (topics : List Bytes) → Matches u 0 (ask_all 0 topics [])
  unfolding count
  first-Matches u topics = ask_all-Matches 0 u topics [] (omega arith)

  -- With no error every topic is asked for.
  ask_all-all :
      (i : ℕ) (topics subscribed : List Bytes)
      → (ask_all i topics subscribed).error ≡ none
      → (ask_all i topics subscribed).asked ≡ topics
  unfolding ask_all
  ask_all-all i [] subscribed h = refl
  ask_all-all i (t ∷ rest) subscribed h =
      ground (arith, ask_all-all (suc i) rest (enlist t subscribed))

  take_back-count :
      (i : ℕ) (u : Bytes) (topics subscribed : List Bytes)
      → ((j : ℕ) → takes_back j ≡ true)
      → count u (take_back i topics subscribed) ≡ count u subscribed - count u topics
  unfolding take_back count
  take_back-count i u [] subscribed all = omega arith
  take_back-count i u (t ∷ rest) subscribed all = rw (all i) (
      ground (
        arith,
        take_back-count (suc i) u rest (delist t subscribed) all,
        count-delist t u subscribed,
      ))

  -- On success the receiver is registered, and the C library holds just the topics that it lists; on
  -- failure nothing is left.
  abbrev pub Settled : List Bytes → Begun E → Option E → Type 0
  Settled topics b none =
      (b.has_handler ≡ true)
      × (b.has_callback ≡ true)
      × (b.is_running ≡ true)
      × (b.subscriber.is_started ≡ true)
      × ((u : Bytes) → count u b.subscriber.subscribed ≡ (if leb 1 (count u topics) then 1 else 0))
  Settled topics b (some e) =
      (b.has_handler ≡ false)
      × (b.has_callback ≡ false)
      × (b.is_running ≡ false)
      × (b.subscriber.is_started ≡ false)
      × ((u : Bytes) → count u b.subscriber.subscribed ≡ 0)

  held :
      (u : Bytes) (topics : List Bytes) (a : Asked E)
      → Matches u 0 a
      → a.asked ≡ topics
      → count u a.subscribed ≡ (if leb 1 (count u topics) then 1 else 0)
  held u topics a v e = ground (arith, ap (count u) e)

  settle-Settled :
      (o : Option E) (topics : List Bytes) (a : Asked E)
      → ((u : Bytes) → Matches u 0 a)
      → (a.error ≡ none → a.asked ≡ topics)
      → ((j : ℕ) → takes_back j ≡ true)
      → outcome_of a ≡ o
      → Settled topics (settle topics a o) o
  settle-Settled none topics a v all taken h =
      let no_error : a.error ≡ none = ground arith in
      (refl, refl, refl, refl, λ u. held u topics a (v u) (all no_error))
  settle-Settled (some e) topics a v all taken h = (
    refl,
    refl,
    refl,
    refl,
    λ u. let within = (v u).within in omega (arith, take_back-count 0 u a.asked a.subscribed taken),
  )

  settle-error : (o : Option E) (topics : List Bytes) (a : Asked E) → (settle topics a o).error ≡ o
  settle-error none topics a = refl
  settle-error (some e) topics a = refl

  -- Start of a receiver that lists `topics`, whatever the C library refuses and whatever the broker
  -- answers. Without an error the event handler and the callback are registered, the run loop is
  -- started, and the C library holds just the topics of the list, each once. With an error all of
  -- this is taken back, if the C library takes the requests for it, and no subscription is left.
  pub start-Settled :
      (topics : List Bytes)
      → ((j : ℕ) → takes_back j ≡ true)
      → Settled topics (start topics) (start topics).error
  unfolding start
  start-Settled topics taken =
      let a = ask_all 0 topics [] in
      let v = λ (u : Bytes). first-Matches u topics in
      subst (λ o. Settled topics (settle topics a (outcome_of a)) o)
        (sym (settle-error (outcome_of a) topics a))
        (settle-Settled (outcome_of a) topics a v (ask_all-all 0 topics []) taken refl)

  -- The same of a start with no error, whatever becomes of other requests.
  pub started :
      (topics : List Bytes) (u : Bytes)
      → (start topics).error ≡ none
      → let subscribed = (ask_all 0 topics []).subscribed in
        ((start topics).subscriber ≡ subscriber_of true topics subscribed)
        × (count u subscribed ≡ (if leb 1 (count u topics) then 1 else 0))
  unfolding start
  started topics u ok =
      let a = ask_all 0 topics [] in
      let none_given : outcome_of a ≡ none = sym (settle-error (outcome_of a) topics a) ∙ ok in
      let no_error : a.error ≡ none = ground arith in
      (
        ap (λ o. (settle topics a o).subscriber) none_given,
        held u topics a (first-Matches u topics) (ask_all-all 0 topics [] no_error),
      )
