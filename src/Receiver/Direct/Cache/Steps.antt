-- ===== src/Receiver/Direct/Cache/Steps.antt =====
-- What the steps of cache requests keep: the count of the outstanding ones, and where a session is.
use pubsubplus_go_client.Prelude.{
  ℕ, zero, suc, ◌+◌, ◌≤◌, ◌≡◌, refl, Bool, true, false, List, [], ◌∷◌, ◌++◌, Option, none, some,
  length, length-append, ◌==◌, if◌then◌else◌, arith, inl, inr, Option-cases,
}
use pubsubplus_go_client.Prelude.Dict.{
  Dict, fetch, discard, occurrences, occurrences-discard, occurrences-assign,
  fetch-one-le-occurrences, fetch-none,
}
use pubsubplus_go_client.Core.Cache.{CacheEvent, process_cache_event}
use pubsubplus_go_client.Receiver.Direct.Cache.{
  Requests, Event, responded, Op, begins, fails_to_create, creates, stores, sends, answers, takes,
  processes, leaves_started, sets_running, events_for, event_for, holds, begin, create,
  fail_to_create, index, add_cache_session_to_map_if_not_present, send, cache_event_callback, poll,
  process, step, max_outstanding_cache_requests, sent,
}

events_for-append :
    (k : ℕ) (xs ys : List CacheEvent) → events_for k (xs ++ ys) ≡ events_for k xs + events_for k ys
events_for-append k [] ys = omega arith
events_for-append k (e ∷ xs) ys = omega (arith, events_for-append k xs ys)

pub length-discard :
    {R : Type 0} (d : Dict R) (k : ℕ) → length (discard d k) + occurrences k d ≡ length d
unfolding discard occurrences
length-discard [] k = refl
length-discard ((q, r) ∷ d) k = ground (arith, length-discard d k)

module _ {R : Type 0} where
  -- A request that the C library took, and the responses for a session.
  abbrev pub sent_of : ℕ → Event R → ℕ
  sent_of k (sent i) = if k == i then 1 else 0
  sent_of k _ = 0

  abbrev pub answered_of : ℕ → Event R → ℕ
  answered_of k (responded responses) = occurrences k responses
  answered_of k _ = 0

  abbrev pub sent_all : ℕ → List (Event R) → ℕ
  sent_all k [] = 0
  sent_all k (e ∷ events) = sent_of k e + sent_all k events

  abbrev pub answered_all : ℕ → List (Event R) → ℕ
  answered_all k [] = 0
  answered_all k (e ∷ events) = answered_of k e + answered_all k events

  -- The requests of `k` that have no response yet.
  abbrev pub unanswered : ℕ → Requests R → ℕ
  unanswered k s =
      occurrences k s.pending + events_for k s.cache_response_chan + event_for k s.processing

  abbrev pub outstanding : Requests R → ℕ
  outstanding s =
      s.creating
      + length s.created
      + length s.stored
      + length s.pending
      + length s.cache_response_chan

  pub record Inv (s : Requests R) : Type 0 where
    pub balance : s.added ≡ s.removed + outstanding s
    pub limit : outstanding s ≤ max_outstanding_cache_requests

  -- A session is in use once at most, and is in the map from its indexing to its response.
  pub record Held (k : ℕ) (s : Requests R) : Type 0 where
    pub once : holds k s ≤ 1
    pub mapped : occurrences k s.cache_request_map ≡ occurrences k s.stored + unanswered k s

  -- What a step keeps, with the requests and the responses that it makes for `k`.
  pub record Kept (k : ℕ) (s : Requests R) (r : Requests R × Event R) : Type 0 where
    pub inv : Inv r.0
    pub held : Held k r.0
    pub count : unanswered k s + sent_of k r.1 ≡ answered_of k r.1 + unanswered k r.0

  begin-Kept : (k : ℕ) (s : Requests R) → Inv s → Held k s → Kept k s (begin s)
  unfolding begin
  begin-Kept k s v h = ground arith

  create-Kept :
      (n i k : ℕ) (r : R) (s : Requests R)
      → s.creating ≡ n
      → Inv s
      → Held k s
      → Kept k s (create i r s)
  unfolding create occurrences
  create-Kept zero i k r s e v h = ground arith
  create-Kept (suc n) i k r s e v h = ground arith

  fail-Kept :
      (n k : ℕ) (s : Requests R) → s.creating ≡ n → Inv s → Held k s → Kept k s (fail_to_create s)
  unfolding fail_to_create
  fail-Kept zero k s e v h = ground arith
  fail-Kept (suc n) k s e v h = ground arith

  -- A session that is fetched is held there once.
  pub one_fetched :
      (d : Dict R) (i : ℕ) (r : R)
      → fetch d i ≡ some r
      → occurrences i d ≤ 1
      → (occurrences i d ≡ 1) × (length (discard d i) + 1 ≡ length d)
  one_fetched d i r e few =
      let least = fetch-one-le-occurrences d i r e in
      (omega arith, omega (arith, length-discard d i))

  index-Kept :
      (o : Option R) (i k : ℕ) (r : R) (s : Requests R)
      → fetch s.cache_request_map i ≡ o
      → fetch s.created i ≡ some r
      → Inv s
      → Held i s
      → Held k s
      → Kept k s (index o i r (record s { created = discard s.created i }))
  unfolding occurrences
  index-Kept none i k r s m e v hi h =
      let (one, shorter) = one_fetched s.created i r e (let few = hi.once in omega arith) in
      ground (
        arith,
        occurrences-discard s.created i k,
        occurrences-discard s.created i i,
        occurrences-assign s.cache_request_map i k r (fetch-none s.cache_request_map i m),
      )
  index-Kept (some other) i k r s m e v hi h =
      let (one, shorter) = one_fetched s.created i r e (let few = hi.once in omega arith) in
      ground (arith, occurrences-discard s.created i k)

  store-Kept :
      (o : Option R) (i k : ℕ) (s : Requests R)
      → fetch s.created i ≡ o
      → Inv s
      → Held i s
      → Held k s
      → Kept k s (add_cache_session_to_map_if_not_present i s)
  unfolding add_cache_session_to_map_if_not_present
  store-Kept none i k s e v hi h = ground arith
  store-Kept (some r) i k s e v hi h =
      rw e (index-Kept (fetch s.cache_request_map i) i k r s refl e v hi h)

  send-Kept :
      (o : Option R) (i k : ℕ) (is_taken : Bool) (s : Requests R)
      → fetch s.stored i ≡ o
      → Inv s
      → Held i s
      → Held k s
      → Kept k s (send i is_taken s)
  unfolding send occurrences
  send-Kept none i k b s e v hi h = ground arith
  send-Kept (some r) i k true s e v hi h =
      let (one, shorter) = one_fetched s.stored i r e (let few = hi.once in omega arith) in
      ground (arith, occurrences-discard s.stored i k)
  send-Kept (some r) i k false s e v hi h =
      let (one, shorter) = one_fetched s.stored i r e (let few = hi.once in omega arith) in
      ground (arith, occurrences-discard s.stored i k, occurrences-discard s.cache_request_map i k)

  answer-Kept :
      (o : Option R) (e : CacheEvent) (k : ℕ) (s : Requests R)
      → fetch s.pending e.session ≡ o
      → Inv s
      → Held e.session s
      → Held k s
      → Kept k s (cache_event_callback e s)
  unfolding cache_event_callback
  answer-Kept none e k s f v hi h = ground arith
  answer-Kept (some r) e k s f v hi h =
      let (one, shorter) = one_fetched s.pending e.session r f (let few = hi.once in omega arith) in
      ground (
        arith,
        occurrences-discard s.pending e.session k,
        events_for-append k s.cache_response_chan (e ∷ []),
        length-append s.cache_response_chan (e ∷ []),
      )

  take-Kept :
      (o : Option CacheEvent) (c : List CacheEvent) (k : ℕ) (s : Requests R)
      → s.processing ≡ o
      → s.cache_response_chan ≡ c
      → Inv s
      → Held k s
      → Kept k s (poll s)
  unfolding poll
  take-Kept none [] k s p c v h = ground arith
  take-Kept none (e ∷ events) k s p c v h = ground arith
  take-Kept (some e) c k s p q v h = ground arith

  process-Kept :
      (o : Option CacheEvent) (k : ℕ) (s : Requests R)
      → s.processing ≡ o
      → Inv s
      → Held k s
      → Kept k s (process s)
  unfolding process process_cache_event occurrences
  process-Kept none k s p v h = ground arith
  process-Kept (some e) k s p v h = elim (Option-cases (fetch s.cache_request_map e.session)) [
    | inl nothing ↦ ground (
      arith,
      occurrences-discard s.cache_request_map e.session k,
      fetch-none s.cache_request_map e.session nothing,
    )
    | inr (r, found) ↦ ground (
      arith,
      occurrences-discard s.cache_request_map e.session k,
      fetch-one-le-occurrences s.cache_request_map e.session r found,
    )
  ]

  pub step-Kept :
      (op : Op R) (k : ℕ) (s : Requests R) → Inv s → ((i : ℕ) → Held i s) → Kept k s (step op s)
  unfolding step
  step-Kept begins k s v h = begin-Kept k s v (h k)
  step-Kept fails_to_create k s v h = fail-Kept s.creating k s refl v (h k)
  step-Kept (creates i r) k s v h = create-Kept s.creating i k r s refl v (h k)
  step-Kept (stores i) k s v h = store-Kept (fetch s.created i) i k s refl v (h i) (h k)
  step-Kept (sends i b) k s v h = send-Kept (fetch s.stored i) i k b s refl v (h i) (h k)
  step-Kept (answers e) k s v h =
      answer-Kept (fetch s.pending e.session) e k s refl v (h e.session) (h k)
  step-Kept takes k s v h = take-Kept s.processing s.cache_response_chan k s refl refl v (h k)
  step-Kept processes k s v h = process-Kept s.processing k s refl v (h k)
  step-Kept leaves_started k s v h = let hk = h k in ground arith
  step-Kept (sets_running b) k s v h = let hk = h k in ground arith
