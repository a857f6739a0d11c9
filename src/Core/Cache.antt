-- ===== src/Core/Cache.antt =====
-- ProcessCacheEvent of internal/impl/core/cache_response.go: the events that end cache requests, and the
-- responses that the application gets.
--
-- A cache session stands as a number, as in its pointer. `R` is the type of the requests, with its
-- processor and its id.
pub mod Responses
mod Tests
use pubsubplus_go_client.Prelude.{ℕ, List, [], ◌∷◌, ◌++◌, Option, none, some}
use pubsubplus_go_client.Prelude.Dict.{Dict, fetch, discard}

-- `ccsmp.SolClientReturnCode` and `ccsmp.SolClientSubCode`, as far as they are told apart.
pub data ReturnCode : Type 0 where
  ok incomplete other_code : ReturnCode

pub data SubCode : Type 0 where
  cache_suspect_data cache_no_data cache_timeout : SubCode
  other_sub_code : ℕ → SubCode

-- `solace.CacheRequestOutcome`
pub data CacheRequestOutcome : Type 0 where
  outcome_ok no_data suspect_data failed : CacheRequestOutcome

pub data CacheError : Type 0 where
  timed_out : CacheError
  native : SubCode → CacheError

-- `CoreCacheEventInfo`
pub record CacheEvent : Type 0 where
  pub session : ℕ
  pub return_code : ReturnCode
  pub sub_code : SubCode

-- `cacheResponse`, with the request whose processor and id it goes with.
pub record CacheResponse (R : Type 0) : Type 0 where
  pub request : R
  pub outcome : CacheRequestOutcome
  pub error : Option CacheError

abbrev incomplete_outcome : SubCode → CacheRequestOutcome × Option CacheError
incomplete_outcome cache_suspect_data = (suspect_data, none)
incomplete_outcome cache_no_data = (no_data, none)
incomplete_outcome cache_timeout = (failed, some timed_out)
incomplete_outcome (other_sub_code n) = (failed, none)

abbrev failed_outcome : SubCode → CacheRequestOutcome × Option CacheError
failed_outcome cache_suspect_data = (failed, none)
failed_outcome cache_no_data = (failed, none)
failed_outcome code = (failed, some (native code))

unfoldable pub outcome_of : ReturnCode → SubCode → CacheRequestOutcome × Option CacheError
outcome_of ok code = (outcome_ok, none)
outcome_of incomplete code = incomplete_outcome code
outcome_of other_code code = failed_outcome code

module _ {R : Type 0} where
  unfoldable pub respond : CacheEvent → R → CacheResponse R
  unfolding outcome_of
  respond e r =
      let (outcome, error) = outcome_of e.return_code e.sub_code in
      record { request = r; outcome = outcome; error = error }

  abbrev pub processed : CacheEvent → Option R → List (ℕ × CacheResponse R)
  processed e none = []
  processed e (some r) = (e.session, respond e r) ∷ []

  -- The map after the event, and the responses that are processed, with their sessions.
  unfoldable pub process_cache_event : CacheEvent → Dict R → Dict R × List (ℕ × CacheResponse R)
  unfolding respond
  process_cache_event e d = (discard d e.session, processed e (fetch d e.session))

  -- The loop of PollAndProcessCacheResponseChannel over the events that come.
  unfoldable pub process_all : List CacheEvent → Dict R → Dict R × List (ℕ × CacheResponse R)
  unfolding process_cache_event
  process_all [] d = (d, [])
  process_all (e ∷ events) d =
      let (d', responses) = process_cache_event e d in
      let (d'', more) = process_all events d' in (d'', responses ++ more)
