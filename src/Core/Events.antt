-- ===== src/Core/Events.antt =====
-- internal/impl/core/events.go: the handlers of session events, and the dispatch of an event that the
-- C library reports.
pub mod Refinement
mod Tests
use pubsubplus_go_client.Prelude.{
  ℕ, zero, suc, ◌+◌, ◌%◌, ◌^◌, Bool, true, false, List, [], ◌∷◌, Option, none, some, map,
  if◌then◌else◌,
}
use pubsubplus_go_client.Prelude.Dict.{Dict, fetch, assign, discard}
use pubsubplus_go_client.Prelude.Family.{put}

-- `Event`, in the order of the constants; `index` is their number.
pub data Event : Type 0 where
  up down can_send acknowledgement rejected reconnect reconnect_attempt : Event
  subscription_ok subscription_error provision_ok provision_error : Event

unfoldable pub index : Event → ℕ
index Event.up = 0
index Event.down = 1
index Event.can_send = 2
index Event.acknowledgement = 3
index Event.rejected = 4
index Event.reconnect = 5
index Event.reconnect_attempt = 6
index Event.subscription_ok = 7
index Event.subscription_error = 8
index Event.provision_ok = 9
index Event.provision_error = 10

abbrev pub event_count : ℕ
event_count = 11

-- `ccsmp.SolClientSessionEvent`: those of the mapping, and `unmapped` for the rest.
pub data SessionEvent : Type 0 where
  up_notice down_error can_send acknowledgement rejected_msg_error : SessionEvent
  reconnected_notice reconnecting_notice subscription_error subscription_ok : SessionEvent
  provision_error provision_ok unmapped : SessionEvent

-- `sessionEventMapping`
unfoldable pub session_event_mapping : SessionEvent → Option Event
session_event_mapping SessionEvent.up_notice = some Event.up
session_event_mapping SessionEvent.down_error = some Event.down
session_event_mapping SessionEvent.can_send = some Event.can_send
session_event_mapping SessionEvent.acknowledgement = some Event.acknowledgement
session_event_mapping SessionEvent.rejected_msg_error = some Event.rejected
session_event_mapping SessionEvent.reconnected_notice = some Event.reconnect
session_event_mapping SessionEvent.reconnecting_notice = some Event.reconnect_attempt
session_event_mapping SessionEvent.subscription_error = some Event.subscription_error
session_event_mapping SessionEvent.subscription_ok = some Event.subscription_ok
session_event_mapping SessionEvent.provision_error = some Event.provision_error
session_event_mapping SessionEvent.provision_ok = some Event.provision_ok
session_event_mapping SessionEvent.unmapped = none

-- `ccsmpBackedEvents`. The handlers of an event stand by its index; a map that is not there yet is
-- read as an empty one. `has_callback` is what the session was last given.
pub record Events (H : Type 0) : Type 0 where
  pub event_handlers : ℕ → Dict H
  pub handler_id : ℕ  -- uint
  pub has_callback : Bool

-- `sessionEventInfo`, with the pointers as numbers. The result of `ToNativeError` is of type `E`.
pub record Info (E : Type 0) : Type 0 where
  pub error : Option E
  pub info_string : List ℕ
  pub correlation_p : ℕ
  pub user_p : ℕ

-- What `GetLastErrorInfo` and `ToNativeError` give in the callback.
pub record LastError (E : Type 0) : Type 0 where
  pub is_ok : Bool
  pub native : E

module _ {H : Type 0} where
  unfoldable pub new_ccsmp_events : Events H
  new_ccsmp_events = record { event_handlers = λ _. []; handler_id = 0; has_callback = false }

  unfoldable pub start : Events H → Events H
  start s = record s { has_callback = true }

  unfoldable pub terminate : Events H → Events H
  terminate s = record s { event_handlers = λ _. []; has_callback = false }

  unfoldable pub add_event_handler : Event → H → Events H → Events H × ℕ
  add_event_handler event h s =
      let id = (s.handler_id + 1) % 2 ^ 64 in
      (
        record s {
          event_handlers =
              put (index event) (assign (s.event_handlers (index event)) id h) s.event_handlers;
          handler_id = id;
        },
        id,
      )

  abbrev is_there : Option H → Bool
  is_there none = false
  is_there (some h) = true

  -- The loop of `RemoveEventHandler` over the events below `count`, which ends at the first that has
  -- the id. Go visits them in any order.
  unfoldable pub remove_below : ℕ → ℕ → (ℕ → Dict H) → ℕ → Dict H
  remove_below zero id m = m
  remove_below (suc k) id m =
      let rest = remove_below k id m in
      if is_there (fetch (m k) id) then put k (discard (m k) id) m else rest

  unfoldable pub remove_event_handler : ℕ → Events H → Events H
  unfolding remove_below
  remove_event_handler id s = record s {
    event_handlers = remove_below event_count id s.event_handlers;
  }

  -- The calls that are made, in some order: the handler's id, the handler, what it is told.
  unfoldable pub emit_event : {I : Type 0} → Event → I → Events H → List (ℕ × (H × I))
  emit_event event info s = map (λ p. (p.0, (p.1, info))) (s.event_handlers (index event))

  abbrev told : {E : Type 0} → Option Event → Info E → Events H → List (ℕ × (H × Info E))
  told none info s = []
  told (some event) info s = emit_event event info s

  unfoldable pub event_callback :
      {E : Type 0}
      → LastError E
      → SessionEvent
      → List ℕ
      → ℕ
      → ℕ
      → Events H
      → List (ℕ × (H × Info E))
  unfolding emit_event
  event_callback last session_event text correlation user s =
      told (session_event_mapping session_event)
        (record {
          error = if last.is_ok then none else some last.native;
          info_string = text;
          correlation_p = correlation;
          user_p = user;
        })
        s

pub data Op (H : Type 0) : Type 0 where
  adds : Event → H → Op H
  removes : ℕ → Op H
  starts terminates : Op H

module _ {H : Type 0} where
  unfoldable pub apply : Op H → Events H → Events H
  apply (adds event h) s = (add_event_handler event h s).0
  apply (removes id) s = remove_event_handler id s
  apply starts s = start s
  apply terminates s = terminate s

  unfoldable pub run : List (Op H) → Events H → Events H
  run [] s = s
  run (op ∷ ops) s = run ops (apply op s)
