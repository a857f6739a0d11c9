-- ===== src/Core/Receiver/Tests.antt =====
-- The core receiver: tests, and the theorems at concrete inputs.
use pubsubplus_go_client.Prelude.{ℕ, ◌≡◌, refl, false, [], none}
use pubsubplus_go_client.Core.Events.{LastError, SessionEvent, new_ccsmp_events}
use pubsubplus_go_client.Core.Receiver.{
  Receiver, new_ccsmp_receiver, start, subscribe, on_session_event,
}
use pubsubplus_go_client.Core.Receiver.Confirmation.{confirms, on_session_event-start}

-- A callback is a number, and takes over the messages that are equal to it.
abbrev new : Receiver ℕ ℕ
new = new_ccsmp_receiver new_ccsmp_events

abbrev no_error : LastError ℕ
no_error = record { is_ok = false; native = 3 }

-- One request waits; the library refuses it.
abbrev asking : Receiver ℕ ℕ
asking = (subscribe (λ ptr topic id. none) [] 1 new).0

on_session_event-start_example :
    on_session_event no_error SessionEvent.subscription_error [] 1 1 (start asking)
    ≡ record (start asking) {
      subscriptions = confirms no_error SessionEvent.subscription_error 1 asking.subscriptions;
    }
unfolding subscribe new_ccsmp_receiver new_ccsmp_events
on_session_event-start_example =
    on_session_event-start no_error SessionEvent.subscription_error [] 1 1 asking refl (λ i. tt)
