-- ===== src/Core/Cache/Tests.antt =====
-- Cache responses: tests, and the theorems at concrete inputs.
use pubsubplus_go_client.Prelude.{ℕ, ◌≡◌, refl, List, [], ◌∷◌, none}
use pubsubplus_go_client.Prelude.Dict.{Dict, fetch}
use pubsubplus_go_client.Core.Cache.{
  CacheEvent, ReturnCode, other_sub_code, cache_no_data, failed, outcome_of, process_all,
}
use pubsubplus_go_client.Core.Cache.Responses.{first_of, responses_for, answer, process_all-answer}

-- A request that fails, and a response that tells of no error.
failed_without_error : outcome_of ReturnCode.incomplete (other_sub_code 3) ≡ (failed, none)
unfolding outcome_of
failed_without_error = refl

failed_with_no_data : outcome_of ReturnCode.other_code cache_no_data ≡ (failed, none)
unfolding outcome_of
failed_with_no_data = refl

abbrev event : ℕ → ReturnCode → CacheEvent
event i code = record { session = i; return_code = code; sub_code = cache_no_data }

-- Two sessions, the first with a duplicate event.
abbrev two_sessions : Dict ℕ
two_sessions = (4, 40) ∷ (5, 50) ∷ []

abbrev events : List CacheEvent
events = event 4 ReturnCode.incomplete ∷ event 4 ReturnCode.other_code ∷ event 5 ReturnCode.ok ∷ []

process_all-answer_example :
    responses_for 4 (process_all events two_sessions).1
    ≡ answer (first_of 4 events) (fetch two_sessions 4)
process_all-answer_example = process_all-answer events two_sessions 4
