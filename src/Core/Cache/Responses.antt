-- ===== src/Core/Cache/Responses.antt =====
-- Each cache request gets one response.
use pubsubplus_go_client.Prelude.{
  ℕ, ◌≡◌, refl, List, [], ◌∷◌, ◌++◌, Option, none, some, ◌==◌, if◌then◌else◌, arith, Bool-cases,
  inl, inr, ◌∙◌,
}
use mathlib.Core.List.{append-nil}
use pubsubplus_go_client.Prelude.Dict.{Dict, fetch, discard, fetch-discard}
use pubsubplus_go_client.Core.Cache.{
  CacheEvent, CacheResponse, respond, processed, process_cache_event, process_all,
}

-- The first event of the session.
abbrev pub first_of : ℕ → List CacheEvent → Option CacheEvent
first_of i [] = none
first_of i (e ∷ events) = let rest = first_of i events in if i == e.session then some e else rest

module _ {R : Type 0} where
  -- The responses for the session, in their order.
  abbrev pub responses_for : ℕ → List (ℕ × CacheResponse R) → List (CacheResponse R)
  responses_for i [] = []
  responses_for i ((q, r) ∷ l) = let rest = responses_for i l in if i == q then r ∷ rest else rest

  abbrev pub answer : Option CacheEvent → Option R → List (CacheResponse R)
  answer none o = []
  answer (some e) none = []
  answer (some e) (some r) = respond e r ∷ []

  responses_for-processed :
      (e : CacheEvent) (o : Option R) (i : ℕ) (more : List (ℕ × CacheResponse R))
      → responses_for i (processed e o ++ more) ≡ (
          if i == e.session
          then answer (some e) o ++ responses_for i more
          else responses_for i more)
  responses_for-processed e none i more = ground arith
  responses_for-processed e (some r) i more = ground arith

  pub answer-none : (e : Option CacheEvent) → answer e none ≡ []
  answer-none none = refl
  answer-none (some e) = refl

  -- Over any events, duplicates and events of unknown sessions included: the responses under a session
  -- are one, made from its first event, if the session is in the map and has an event, and else none.
  pub process_all-answer :
      (events : List CacheEvent) (d : Dict R) (i : ℕ)
      → responses_for i (process_all events d).1 ≡ answer (first_of i events) (fetch d i)
  unfolding process_all process_cache_event
  process_all-answer [] d i = refl
  process_all-answer (e ∷ events) d i =
      let more = (process_all events (discard d e.session)).1 in
      let split = responses_for-processed e (fetch d e.session) i more in
      let rest = process_all-answer events (discard d e.session) i in
      let gone = fetch-discard d e.session i in
      elim (Bool-cases (i == e.session)) [
        | inl same ↦
            let eq : i ≡ e.session = ground arith in
            split
            ∙ rw (same, rest, gone, same, eq)
                (rw (answer-none (first_of e.session events)) (append-nil _))
        | inr other ↦ split ∙ rw (other, rest, gone, other) refl
      ]
