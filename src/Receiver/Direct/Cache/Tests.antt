-- ===== src/Receiver/Direct/Cache/Tests.antt =====
-- The cache requests of a direct receiver: tests, and the theorems at concrete inputs.
use pubsubplus_go_client.Prelude.{
  ℕ, ◌+◌, ◌≤◌, ◌≡◌, refl, true, List, [], ◌∷◌, Option, none, some, length, ◌==◌, if◌then◌else◌,
  arith,
}
use pubsubplus_go_client.Prelude.Dict.{fetch, assign, discard, occurrences}
use pubsubplus_go_client.Core.Cache.{
  CacheEvent, ReturnCode, SubCode, process_cache_event, process_all,
}
use pubsubplus_go_client.Core.Cache.Responses.{responses_for}
use pubsubplus_go_client.Receiver.Direct.Cache.{
  Requests, Op, begins, creates, stores, sends, answers, takes, processes, leaves_started,
  no_requests, begin, create, add_cache_session_to_map_if_not_present, send, cache_event_callback,
  poll, process, step, run, max_outstanding_cache_requests, done,
}
use pubsubplus_go_client.Receiver.Direct.Cache.Steps.{
  sent_all, answered_all, unanswered, outstanding,
}
use pubsubplus_go_client.Receiver.Direct.Cache.Once.{
  reached, run_never_blocks, run_answers_each, run_teardown-answers,
}
use pubsubplus_go_client.Receiver.Direct.Cache.Teardown.{
  cancel_pending_cache_requests, cancel_all, teardown_cache, left_to_process,
}

abbrev ok_event : ℕ → CacheEvent
ok_event i = record {
  session = i;
  return_code = ReturnCode.ok;
  sub_code = SubCode.other_sub_code 0;
}

-- Two requests, of which the first has its response.
abbrev two_requests : List (Op ℕ)
two_requests =
    begins
    ∷ begins
    ∷ creates 7 70
    ∷ stores 7
    ∷ sends 7 true
    ∷ answers (ok_event 7)
    ∷ creates 8 80
    ∷ stores 8
    ∷ takes
    ∷ sends 8 true
    ∷ processes
    ∷ []

run_never_blocks_example :
    ((reached two_requests).added
      ≡ (reached two_requests).removed + outstanding (reached two_requests))
    × (outstanding (reached two_requests) ≤ max_outstanding_cache_requests)
    × ((step (answers (ok_event 8)) (reached two_requests)).1 ≡ done)
unfolding run step begin create add_cache_session_to_map_if_not_present send cache_event_callback
    poll process process_cache_event no_requests fetch assign discard occurrences
run_never_blocks_example = run_never_blocks two_requests (ok_event 8)

run_answers_each_example :
    let (s, events) = run two_requests no_requests in
    (sent_all 7 events ≡ answered_all 7 events + unanswered 7 s) × (unanswered 7 s ≤ 1)
run_answers_each_example = run_answers_each two_requests 7

-- The C library refuses to cancel 8, and cancels 9.
abbrev refuses_eight : ℕ → Option CacheEvent
refuses_eight i = if i == 8 then none else some (ok_event i)

abbrev two_sent : List (Op ℕ)
two_sent =
    begins
    ∷ begins
    ∷ creates 8 80
    ∷ stores 8
    ∷ sends 8 true
    ∷ creates 9 90
    ∷ stores 9
    ∷ sends 9 true
    ∷ leaves_started
    ∷ []

abbrev two_left : Requests ℕ
two_left = (run two_sent no_requests).0

refuses_eight-session : (j : ℕ) (e : CacheEvent) → refuses_eight j ≡ some e → e.session ≡ j
refuses_eight-session j e h = ground arith

run_teardown-answers_example :
    let (s, events) = run two_sent no_requests in
    let (left, responses) = process_all (left_to_process 99 refuses_eight s) s.cache_request_map in
    sent_all 9 events ≡ answered_all 9 events + length (responses_for 9 responses)
unfolding run step begin create add_cache_session_to_map_if_not_present send no_requests fetch
    assign discard occurrences
run_teardown-answers_example =
    run_teardown-answers two_sent 99 refuses_eight 9 refuses_eight-session refl refl

-- Where the C library cancels a session, an event of no session goes into the channel beside its own.
event_of_no_session :
    teardown_cache 99 refuses_eight two_left
    ≡ record {
      session = 8;
      return_code = ReturnCode.other_code;
      sub_code = SubCode.other_sub_code 99;
    }
      ∷ ok_event 9
      ∷ ok_event 0
      ∷ []
unfolding run step begin create add_cache_session_to_map_if_not_present send no_requests fetch
    assign discard occurrences teardown_cache cancel_all cancel_pending_cache_requests
event_of_no_session = refl

-- A request that has passed its test of the state is sent after the receiver has left Started; a
-- request that comes then is refused.
sent_late :
    (run {R = ℕ}
      (begins ∷ leaves_started ∷ creates 7 70 ∷ stores 7 ∷ sends 7 true ∷ [])
      no_requests).0.pending
    ≡ (7, 70) ∷ []
unfolding run step begin create add_cache_session_to_map_if_not_present send no_requests fetch
    assign discard occurrences
sent_late = refl
