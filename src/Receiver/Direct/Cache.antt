-- ===== src/Receiver/Direct/Cache.antt =====
-- internal/impl/receiver/direct_message_receiver_impl.go: the cache requests of a direct receiver, from
-- RequestCachedAsync and RequestCachedAsyncWithCallback to their responses, in steps.
--
-- A step is what a thread does between two calls of the C library, under `cacheResourceLock` where the
-- code takes it. A cache session stands as a number, as in its pointer; the C library gives no session
-- that is in use, and one event for each request that it took. `R` is the type of the requests.
--
-- A schedule goes as far as `teardownCache`, whose events and whose close of the channel come after it
-- and stand in `Teardown`; the counter, which tests no request from then on, is not followed there.
mod Steps
pub mod Once
pub mod Teardown
mod Tests
use pubsubplus_go_client.Prelude.{
  ℕ, zero, suc, ◌+◌, ◌==◌, not, ◌||◌, Bool, true, false, List, [], ◌∷◌, ◌++◌, Option, none, some,
  length, leb, ltb, if◌then◌else◌,
}
use pubsubplus_go_client.Prelude.Dict.{Dict, fetch, assign, discard, occurrences}
use pubsubplus_go_client.Core.Cache.{
  CacheEvent, CacheResponse, ReturnCode, SubCode, process_cache_event,
}

abbrev pub max_outstanding_cache_requests : ℕ
max_outstanding_cache_requests = 1024

-- `numOutstandingCacheRequests` is `added` less `removed`. `creating` counts the calls before
-- CreateCacheRequest; `created`, `stored` are the requests of calls before the map is written, before
-- SendCacheRequest; `pending` those that the C library took. `processing` is the event that the polling
-- loop has received.
pub record Requests (R : Type 0) : Type 0 where
  pub is_started : Bool
  pub is_running : Bool
  pub cache_polling_running : Bool
  pub added : ℕ
  pub removed : ℕ
  pub creating : ℕ
  pub created : Dict R
  pub stored : Dict R
  pub pending : Dict R
  pub cache_response_chan : List CacheEvent
  pub processing : Option CacheEvent
  pub cache_request_map : Dict R

-- `responded` has the responses that the application gets, with their sessions.
pub data Event (R : Type 0) : Type 0 where
  not_started not_running too_many begun not_created created duplicate stored : Event R
  sent not_sent : ℕ → Event R
  responded : List (ℕ × CacheResponse R) → Event R
  blocked done : Event R

pub data Op (R : Type 0) : Type 0 where
  begins fails_to_create : Op R
  creates : ℕ → R → Op R
  stores : ℕ → Op R
  sends : ℕ → Bool → Op R
  answers : CacheEvent → Op R
  takes processes leaves_started : Op R
  sets_running : Bool → Op R

abbrev pub events_for : ℕ → List CacheEvent → ℕ
events_for k [] = 0
events_for k (e ∷ events) = (if k == e.session then 1 else 0) + events_for k events

abbrev pub event_for : ℕ → Option CacheEvent → ℕ
event_for k none = 0
event_for k (some e) = events_for k (e ∷ [])

module _ {R : Type 0} where
  unfoldable pub no_requests : Requests R
  no_requests = record {
    is_started = true;
    is_running = true;
    cache_polling_running = false;
    added = 0;
    removed = 0;
    creating = 0;
    created = [];
    stored = [];
    pending = [];
    cache_response_chan = [];
    processing = none;
    cache_request_map = [];
  }

  -- Where a session is in use.
  abbrev pub holds : ℕ → Requests R → ℕ
  holds k s =
      occurrences k s.created
      + occurrences k s.stored
      + occurrences k s.pending
      + events_for k s.cache_response_chan
      + event_for k s.processing

  unfoldable pub check_state_for_cache_request : Requests R → Option (Event R)
  check_state_for_cache_request s =
      if not s.is_started
      then some not_started
      else if not s.is_running
      then some not_running
      else if leb (s.removed + max_outstanding_cache_requests) s.added
      then some too_many
      else none

  -- `StartAndInitCacheRequestorIfNotDoneAlready`: the polling loop runs from then on.
  unfoldable pub start_polling : Requests R → Requests R
  start_polling s = if s.cache_polling_running then s else record s { cache_polling_running = true }

  abbrev begin_when : Option (Event R) → Requests R → Requests R × Event R
  begin_when (some refusal) s = (s, refusal)
  begin_when none s =
      (start_polling (record s { added = suc s.added; creating = suc s.creating }), begun)

  -- What a request does under `cacheResourceLock`.
  unfoldable pub begin : Requests R → Requests R × Event R
  unfolding check_state_for_cache_request start_polling
  begin s = begin_when (check_state_for_cache_request s) s

  -- CreateCacheRequest with its result.
  abbrev create_when : ℕ → ℕ → R → Requests R → Requests R × Event R
  create_when zero i r s = (s, blocked)
  create_when (suc n) i r s =
      if ltb 0 (holds i s)
      then (s, blocked)
      else (record s { creating = n; created = (i, r) ∷ s.created }, created)

  unfoldable pub create : ℕ → R → Requests R → Requests R × Event R
  create i r s = create_when s.creating i r s

  abbrev fail_when : ℕ → Requests R → Requests R × Event R
  fail_when zero s = (s, blocked)
  fail_when (suc n) s = (record s { creating = n; removed = suc s.removed }, not_created)

  unfoldable pub fail_to_create : Requests R → Requests R × Event R
  fail_to_create s = fail_when s.creating s

  abbrev index : Option R → ℕ → R → Requests R → Requests R × Event R
  index (some other) i r s = (record s { removed = suc s.removed }, duplicate)
  index none i r s = (
    record s { stored = (i, r) ∷ s.stored; cache_request_map = assign s.cache_request_map i r },
    stored,
  )

  abbrev store_when : Option R → ℕ → Requests R → Requests R × Event R
  store_when none i s = (s, blocked)
  store_when (some r) i s =
      index (fetch s.cache_request_map i) i r (record s { created = discard s.created i })

  -- `addCacheSessionToMapIfNotPresent`, with what its callers do on an error.
  unfoldable pub add_cache_session_to_map_if_not_present : ℕ → Requests R → Requests R × Event R
  add_cache_session_to_map_if_not_present i s = store_when (fetch s.created i) i s

  abbrev send_when : Option R → ℕ → Bool → Requests R → Requests R × Event R
  send_when none i is_taken s = (s, blocked)
  send_when (some r) i true s =
      (record s { stored = discard s.stored i; pending = (i, r) ∷ s.pending }, sent i)
  send_when (some r) i false s = (
    record s {
      stored = discard s.stored i;
      removed = suc s.removed;
      cache_request_map = discard s.cache_request_map i;
    },
    not_sent i,
  )

  -- SendCacheRequest, with whether the C library takes the request, and what follows.
  unfoldable pub send : ℕ → Bool → Requests R → Requests R × Event R
  send i is_taken s = send_when (fetch s.stored i) i is_taken s

  abbrev answer_when : Option R → CacheEvent → Requests R → Requests R × Event R
  answer_when none e s = (s, blocked)
  answer_when (some r) e s =
      if ltb (length s.cache_response_chan) max_outstanding_cache_requests
      then (
        record s {
          pending = discard s.pending e.session;
          cache_response_chan = s.cache_response_chan ++ (e ∷ []);
        },
        done,
      )
      else (s, blocked)

  -- `cacheEventCallback`, on the context thread of the C library.
  unfoldable pub cache_event_callback : CacheEvent → Requests R → Requests R × Event R
  cache_event_callback e s = answer_when (fetch s.pending e.session) e s

  abbrev take_when : Option CacheEvent → List CacheEvent → Requests R → Requests R × Event R
  take_when none (e ∷ events) s =
      if s.cache_polling_running
      then (
        record s { cache_response_chan = events; removed = suc s.removed; processing = some e },
        done,
      )
      else (s, blocked)
  take_when _ _ s = (s, blocked)

  -- `PollAndProcessCacheResponseChannel`: the receive, and ProcessCacheEvent.
  unfoldable pub poll : Requests R → Requests R × Event R
  poll s = take_when s.processing s.cache_response_chan s

  abbrev process_when : Option CacheEvent → Requests R → Requests R × Event R
  process_when none s = (s, blocked)
  process_when (some e) s =
      let (rest, responses) = process_cache_event e s.cache_request_map in
      (record s { processing = none; cache_request_map = rest }, responded responses)

  unfoldable pub process : Requests R → Requests R × Event R
  process s = process_when s.processing s

  unfoldable pub step : Op R → Requests R → Requests R × Event R
  step begins s = begin s
  step fails_to_create s = fail_to_create s
  step (creates i r) s = create i r s
  step (stores i) s = add_cache_session_to_map_if_not_present i s
  step (sends i is_taken) s = send i is_taken s
  step (answers e) s = cache_event_callback e s
  step takes s = poll s
  step processes s = process s
  step leaves_started s = (record s { is_started = false }, done)
  step (sets_running b) s = (record s { is_running = b }, done)

  unfoldable pub run : List (Op R) → Requests R → Requests R × List (Event R)
  run [] s = (s, [])
  run (op ∷ ops) s =
      let (s', event) = step op s in let (s'', events) = run ops s' in (s'', event ∷ events)
