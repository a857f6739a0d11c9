-- ===== src/Receiver/Direct/Cache/Teardown.antt =====
-- teardownCache of internal/impl/receiver/direct_message_receiver_impl.go with
-- CancelPendingCacheRequests of internal/impl/core/cache_requestor.go: the events that it puts into the
-- channel before it closes it, and the responses to the requests that are left.
use pubsubplus_go_client.Prelude.{
  ℕ, ◌≡◌, refl, sym, ap, ◌∙◌, Bool, true, false, List, [], ◌∷◌, ◌++◌, Option, none, some, length,
  if◌then◌else◌, arith, inl, inr, Option-cases,
}
use pubsubplus_go_client.Prelude.Dict.{Dict, fetch}
use pubsubplus_go_client.Core.Cache.{CacheEvent, ReturnCode, SubCode, process_all}
use pubsubplus_go_client.Core.Cache.Responses.{
  first_of, responses_for, answer, answer-none, process_all-answer,
}
use pubsubplus_go_client.Receiver.Direct.Cache.{Requests}

-- What CancelPendingCacheRequests returns: the cancellation that it makes if the C library refuses, and
-- otherwise the event with no field set.
unfoldable pub cancel_pending_cache_requests : ℕ → Option CacheEvent → ℕ → CacheEvent
cancel_pending_cache_requests cancelled none session = record {
  session = session;
  return_code = ReturnCode.other_code;
  sub_code = SubCode.other_sub_code cancelled;
}
cancel_pending_cache_requests cancelled (some e) session = record {
  session = 0;
  return_code = ReturnCode.ok;
  sub_code = SubCode.other_sub_code 0;
}

abbrev own_event : Option CacheEvent → List CacheEvent
own_event none = []
own_event (some e) = e ∷ []

abbrev is_some : Option CacheEvent → Bool
is_some none = false
is_some (some e) = true

first_of-append :
    (i : ℕ) (xs ys : List CacheEvent)
    → is_some (first_of i ys) ≡ true
    → is_some (first_of i (xs ++ ys)) ≡ true
first_of-append i [] ys h = h
first_of-append i (e ∷ xs) ys h = ground (arith, first_of-append i xs ys)

module _ {R : Type 0} where
  abbrev pub one_if_some : Option R → ℕ
  one_if_some none = 0
  one_if_some (some r) = 1

  answer-one : (o : Option CacheEvent) (r : R) → is_some o ≡ true → length (answer o (some r)) ≡ 1
  answer-one none r h = cc
  answer-one (some e) r h = refl

module _ {R : Type 0} (cancelled : ℕ) (cancel : ℕ → Option CacheEvent) where
  -- The loop over the map. `cancel` gives the event that the C library puts into the channel itself when
  -- it cancels a session, or `none` where it refuses.
  unfoldable pub cancel_all : Dict R → List CacheEvent
  unfolding cancel_pending_cache_requests
  cancel_all [] = []
  cancel_all ((i, r) ∷ d) =
      own_event (cancel i) ++ (cancel_pending_cache_requests cancelled (cancel i) i ∷ cancel_all d)

  -- What is in the channel when it is closed, or as it was where the polling loop does not run.
  unfoldable pub teardown_cache : Requests R → List CacheEvent
  teardown_cache s =
      if s.cache_polling_running
      then s.cache_response_chan ++ cancel_all s.cache_request_map
      else s.cache_response_chan

  first_of-cancel_all :
      (i : ℕ) (d : Dict R) (r : R)
      → ((j : ℕ) (e : CacheEvent) → cancel j ≡ some e → e.session ≡ j)
      → fetch d i ≡ some r
      → is_some (first_of i (cancel_all d)) ≡ true
  unfolding fetch cancel_all cancel_pending_cache_requests
  first_of-cancel_all i [] r own h = cc
  first_of-cancel_all i ((q, x) ∷ d) r own h = elim (Option-cases (cancel q)) [
    | inl refused ↦ ground (arith, first_of-cancel_all i d r own)
    | inr (e, accepted) ↦ ground (arith, own q e accepted, first_of-cancel_all i d r own)
  ]

  -- What the polling loop processes from then on.
  abbrev pub left_to_process : Requests R → List CacheEvent
  left_to_process s = own_event s.processing ++ teardown_cache s

  -- A termination of a receiver whose polling loop runs: once the loop has processed the event that it
  -- has received and what is in the channel when it is closed, each request of the map has had one
  -- response, and other sessions none. The C library may refuse to cancel a session; where it cancels
  -- one, it puts an event of that session into the channel.
  pub teardown_cache-answers :
      (s : Requests R) (i : ℕ)
      → ((j : ℕ) (e : CacheEvent) → cancel j ≡ some e → e.session ≡ j)
      → s.cache_polling_running ≡ true
      → length (responses_for i (process_all (left_to_process s) s.cache_request_map).1)
        ≡ one_if_some (fetch s.cache_request_map i)
  unfolding teardown_cache
  teardown_cache-answers s i own polls =
      let all = process_all-answer (left_to_process s) s.cache_request_map i in
      elim (Option-cases (fetch s.cache_request_map i)) [
        | inl unknown ↦
            ap length (all ∙ ap (answer (first_of i (left_to_process s))) unknown)
            ∙ ap length (answer-none (first_of i (left_to_process s)))
            ∙ ap one_if_some (sym unknown)
        | inr (r, there) ↦
            let made = first_of-cancel_all i s.cache_request_map r own there in
            let queued =
              first_of-append i s.cache_response_chan (cancel_all s.cache_request_map) made in
            let found : is_some (first_of i (left_to_process s)) ≡ true =
              first_of-append i (own_event s.processing) (teardown_cache s) (rw polls queued) in
            ap length (all ∙ ap (answer (first_of i (left_to_process s))) there)
            ∙ answer-one (first_of i (left_to_process s)) r found
            ∙ ap one_if_some (sym there)
      ]
