-- ===== src/Core/Events/Tests.antt =====
-- The session events: tests, and the theorem at a concrete input.
use pubsubplus_go_client.Prelude.{ℕ, ◌≡◌, refl, Bool, true, false, List, [], ◌∷◌, none, some, arith}
use pubsubplus_go_client.Prelude.Dict.{fetch, assign, discard}
use pubsubplus_go_client.Core.Events.{
  Event, SessionEvent, LastError, Op, adds, removes, starts, terminates, index,
  session_event_mapping, new_ccsmp_events, start, terminate, add_event_handler,
  remove_event_handler, event_callback, run, apply,
}
use pubsubplus_go_client.Core.Events.Refinement.{fetch-event_callback}

abbrev history : List (Op Bool)
history =
    starts
    ∷ adds Event.down true
    ∷ adds Event.can_send true
    ∷ adds Event.down false
    ∷ removes 1
    ∷ []

abbrev no_error : LastError ℕ
no_error = record { is_ok = true; native = 9 }

one_left :
    event_callback no_error SessionEvent.down_error [] 4 5 (run history new_ccsmp_events)
    ≡ (3, (false, record { error = none; info_string = []; correlation_p = 4; user_p = 5 })) ∷ []
unfolding event_callback session_event_mapping run apply start add_event_handler
    remove_event_handler new_ccsmp_events index fetch assign discard
one_left = refl

none_left : (run (adds Event.up true ∷ terminates ∷ []) new_ccsmp_events).event_handlers 0 ≡ []
unfolding run apply terminate
none_left = refl

fetch-event_callback_example :
    fetch (event_callback no_error SessionEvent.down_error [] 4 5 (run history new_ccsmp_events)) 3
    ≡ some (false, record { error = none; info_string = []; correlation_p = 4; user_p = 5 })
unfolding session_event_mapping index
fetch-event_callback_example =
    fetch-event_callback history no_error SessionEvent.down_error [] 4 5 3 (omega arith)
