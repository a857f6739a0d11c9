-- ===== src/Receiver/Direct/Cache/Once.antt =====
-- The limit of the outstanding cache requests, and the response of each, over any schedule.
use pubsubplus_go_client.Prelude.{
  ℕ, ◌+◌, ◌≤◌, ◌≡◌, refl, ap, true, List, [], ◌∷◌, Option, none, some, inl, inr, length,
  Option-cases, arith,
}
use pubsubplus_go_client.Prelude.Dict.{fetch, occurrences, fetch-one-le-occurrences, fetch-none}
use pubsubplus_go_client.Core.Cache.{CacheEvent, process_all}
use pubsubplus_go_client.Core.Cache.Responses.{responses_for}
use pubsubplus_go_client.Receiver.Direct.Cache.Teardown.{
  left_to_process, one_if_some, teardown_cache-answers,
}
use pubsubplus_go_client.Receiver.Direct.Cache.{
  Requests, Op, answers, no_requests, cache_event_callback, step, run,
  max_outstanding_cache_requests, done, blocked,
}
use pubsubplus_go_client.Receiver.Direct.Cache.Steps.{
  Inv, Held, step-Kept, sent_all, answered_all, unanswered, outstanding, length-discard,
}

module _ {R : Type 0} where
  record Reaches (s : Requests R) : Type 0 where
    inv : Inv s
    held : (i : ℕ) → Held i s

  start-Reaches : Reaches no_requests
  unfolding no_requests occurrences
  start-Reaches = record { inv = ground arith; held = λ i. ground arith }

  step-Reaches : (op : Op R) (s : Requests R) → Reaches s → Reaches (step op s).0
  step-Reaches op s v = record {
    inv = (step-Kept op 0 s v.inv v.held).inv;
    held = λ i. (step-Kept op i s v.inv v.held).held;
  }

  run-Reaches : (ops : List (Op R)) (s : Requests R) → Reaches s → Reaches (run ops s).0
  unfolding run
  run-Reaches [] s v = v
  run-Reaches (op ∷ ops) s v = run-Reaches ops (step op s).0 (step-Reaches op s v)

  run-count :
      (ops : List (Op R)) (k : ℕ) (s : Requests R)
      → Reaches s
      → unanswered k s + sent_all k (run ops s).1
        ≡ answered_all k (run ops s).1 + unanswered k (run ops s).0
  unfolding run
  run-count [] k s v = omega arith
  run-count (op ∷ ops) k s v =
      let one = (step-Kept op k s v.inv v.held).count in
      omega (arith, run-count ops k (step op s).0 (step-Reaches op s v))

  module _ (ops : List (Op R)) where
    abbrev pub reached : Requests R
    reached = (run ops no_requests).0

    answers-done :
        (e : CacheEvent) (r : R)
        → fetch reached.pending e.session ≡ some r
        → (step (answers e) reached).1 ≡ done
    unfolding step cache_event_callback
    answers-done e r h =
        let v = run-Reaches ops no_requests start-Reaches in
        let inv = v.inv in
        let least = fetch-one-le-occurrences reached.pending e.session r h in
        let short = length-discard reached.pending e.session in rw h (ground arith)

    answers-blocked :
        (e : CacheEvent)
        → fetch reached.pending e.session ≡ none
        → (step (answers e) reached).1 ≡ blocked
    unfolding step cache_event_callback
    answers-blocked e h = rw h refl

    -- Over any schedule, before `teardownCache`, of requests with their errors, of events of the C
    -- library and of the polling loop: at most 1024 requests are outstanding, which is what the counter
    -- says, and an event of the C library finds room in the channel if it is for a request that the
    -- library has taken and not answered, and else makes no step.
    pub run_never_blocks :
        (e : CacheEvent)
        → (reached.added ≡ reached.removed + outstanding reached)
          × (outstanding reached ≤ max_outstanding_cache_requests)
          × ((step (answers e) reached).1
              ≡ elim (fetch reached.pending e.session) [ some r ↦ done | none ↦ blocked ])
    run_never_blocks e =
        let inv = (run-Reaches ops no_requests start-Reaches).inv in
        (
          inv.balance,
          inv.limit,
          elim (Option-cases (fetch reached.pending e.session)) [
            | inl unknown ↦ rw unknown (answers-blocked e unknown)
            | inr (r, there) ↦ rw there (answers-done e r there)
          ],
        )

    -- Over any such schedule, the responses that the application gets under a session, with its
    -- request that is still unanswered if there is one, are as many as the requests that the C library
    -- took under it, and at most one of these is unanswered.
    pub run_answers_each :
        (k : ℕ)
        → let (s, events) = run ops no_requests in
          (sent_all k events ≡ answered_all k events + unanswered k s) × (unanswered k s ≤ 1)
    run_answers_each k =
        let v = run-Reaches ops no_requests start-Reaches in
        let held = v.held k in
        let none_yet : unanswered k (let s : Requests R = no_requests in s) ≡ 0 =
          unfold no_requests occurrences in refl in
        let once = held.once in
        let count = run-count ops k no_requests start-Reaches in (omega arith, omega arith)

    -- The termination after such a schedule, with no request on its way to the C library: once the
    -- polling loop has processed all that is left, the C library having put an event of its own into the
    -- channel for each session that it does not refuse to cancel, the application has had as many
    -- responses under each session as the C library took requests under it.
    pub run_teardown-answers :
        (cancelled : ℕ) (cancel : ℕ → Option CacheEvent) (k : ℕ)
        → ((j : ℕ) (e : CacheEvent) → cancel j ≡ some e → e.session ≡ j)
        → reached.cache_polling_running ≡ true
        → reached.stored ≡ []
        → let (s, events) = run ops no_requests in
          let (left, responses) =
            process_all (left_to_process cancelled cancel s) s.cache_request_map in
          sent_all k events ≡ answered_all k events + length (responses_for k responses)
    run_teardown-answers cancelled cancel k own polls sent_on =
        let (count, few) = run_answers_each k in
        let mapped = ((run-Reaches ops no_requests start-Reaches).held k).mapped in
        let answered = teardown_cache-answers cancelled cancel reached k own polls in
        let none_stored : occurrences k reached.stored ≡ 0 =
          unfold occurrences in ap (λ d. occurrences k d) sent_on in
        elim (Option-cases (fetch reached.cache_request_map k)) [
          | inl unknown ↦
              let absent = fetch-none reached.cache_request_map k unknown in
              let zero_more = ap one_if_some unknown in omega arith
          | inr (r, there) ↦
              let present = fetch-one-le-occurrences reached.cache_request_map k r there in
              let one_more = ap one_if_some there in omega arith
        ]
