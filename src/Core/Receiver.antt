-- ===== src/Core/Receiver.antt =====
-- internal/impl/core/receiver.go: the receiver of the session, which hands each message to the
-- callback that its dispatch pointer names, and the answers of the broker to those that wait for them.
--
-- `C` is the type of the callbacks, `E` that of errors. A call of the C library is an argument, which
-- gives `none` or an error.
pub mod Dispatch
pub mod Confirmation
mod Tests
use pubsubplus_go_client.Prelude.{
  ℕ, ◌+◌, ◌%◌, ◌^◌, Bool, true, false, List, [], ◌∷◌, Option, none, some, if◌then◌else◌,
}
use pubsubplus_go_client.Prelude.Dict.{Dict, fetch, assign, discard}
use pubsubplus_go_client.Core.Events.{
  Event, Events, Info, LastError, SessionEvent, add_event_handler, remove_event_handler,
  event_callback,
}
use pubsubplus_go_client.Core.Pending.{
  Pending, no_pending, new_correlation, clear, resolve, interrupt, request,
}

-- The handlers that this part registers, and those of the others.
pub data Handler : Type 0 where
  handle_subscription_ok handle_subscription_err : Handler
  other : ℕ → Handler

-- `ccsmpBackedReceiver`
pub record Receiver (C E : Type 0) : Type 0 where
  pub events : Events Handler
  pub running : Bool
  pub has_message_callback : Bool
  pub rx_map : Dict C
  pub dispatch_id : ℕ  -- uint64
  pub subscriptions : Pending E
  pub subscription_ok_event : ℕ
  pub subscription_error_event : ℕ

abbrev pub called : {C M : Type 0} → (C → M → Bool) → M → Option C → Bool
called call msg none = false
called call msg (some c) = call c msg

module _ {C E : Type 0} where
  unfoldable pub new_ccsmp_receiver : Events Handler → Receiver C E
  unfolding no_pending
  new_ccsmp_receiver events = record {
    events = events;
    running = false;
    has_message_callback = false;
    rx_map = [];
    dispatch_id = 0;
    subscriptions = no_pending;
    subscription_ok_event = 0;
    subscription_error_event = 0;
  }

  unfoldable pub start : Receiver C E → Receiver C E
  unfolding add_event_handler
  start s =
      let (after_ok, ok_id) =
        add_event_handler Event.subscription_ok handle_subscription_ok s.events in
      let (after_both, error_id) =
        add_event_handler Event.subscription_error handle_subscription_err after_ok in
      if s.running then s else record s {
        running = true;
        has_message_callback = true;
        events = after_both;
        subscription_ok_event = ok_id;
        subscription_error_event = error_id;
      }

  -- `e` is the error of an unreachable service.
  unfoldable pub terminate : E → Receiver C E → Receiver C E
  unfolding remove_event_handler interrupt
  terminate e s =
      if s.running
      then record s {
        running = false;
        has_message_callback = false;
        events =
            remove_event_handler s.subscription_error_event
              (remove_event_handler s.subscription_ok_event s.events);
        subscriptions = interrupt e s.subscriptions;
      }
      else s

  -- Whether the message is taken over; without a callback it is not.
  unfoldable pub rx_callback : {M : Type 0} → (C → M → Bool) → M → ℕ → Receiver C E → Bool
  rx_callback call msg user_p s = called call msg (fetch s.rx_map user_p)

  unfoldable pub register_rx_callback : C → Receiver C E → Receiver C E × ℕ
  register_rx_callback c s =
      let id = (s.dispatch_id + 1) % 2 ^ 64 in
      (record s { dispatch_id = id; rx_map = assign s.rx_map id c }, id)

  unfoldable pub unregister_rx_callback : ℕ → Receiver C E → Receiver C E
  unregister_rx_callback ptr s = record s { rx_map = discard s.rx_map ptr }

  -- What Subscribe and its like give: the id and the error.
  abbrev pub asked : Receiver C E → Pending E × (ℕ × Option E) → Receiver C E × (ℕ × Option E)
  asked s (pending, (id, none)) = (record s { subscriptions = pending }, (id, none))
  asked s (pending, (id, some e)) = (record s { subscriptions = pending }, (0, some e))

  unfoldable pub subscribe :
      (ℕ → List ℕ → ℕ → Option E) → List ℕ → ℕ → Receiver C E → Receiver C E × (ℕ × Option E)
  unfolding request
  subscribe native topic ptr s = asked s (request (native ptr topic) s.subscriptions)

  unfoldable pub unsubscribe :
      (ℕ → List ℕ → ℕ → Option E) → List ℕ → ℕ → Receiver C E → Receiver C E × (ℕ × Option E)
  unfolding request
  unsubscribe native topic ptr s = asked s (request (native ptr topic) s.subscriptions)

  unfoldable pub endpoint_unsubscribe :
      (List ℕ → List ℕ → ℕ → Option E)
      → List ℕ
      → List ℕ
      → Receiver C E
      → Receiver C E × (ℕ × Option E)
  unfolding request
  endpoint_unsubscribe native queue_name topic s =
      asked s (request (native queue_name topic) s.subscriptions)

  -- The flow's Subscribe and Unsubscribe, which use the table of the session's receiver.
  unfoldable pub flow_subscribe :
      (List ℕ → ℕ → Option E) → List ℕ → Receiver C E → Receiver C E × (ℕ × Option E)
  unfolding request
  flow_subscribe native topic s = asked s (request (native topic) s.subscriptions)

  unfoldable pub flow_unsubscribe :
      (List ℕ → ℕ → Option E) → List ℕ → Receiver C E → Receiver C E × (ℕ × Option E)
  unfolding request
  flow_unsubscribe native topic s = asked s (request (native topic) s.subscriptions)

  unfoldable pub clear_subscription_correlation : ℕ → Receiver C E → Receiver C E
  unfolding clear
  clear_subscription_correlation id s = record s { subscriptions = clear id s.subscriptions }

  unfoldable pub handle_subscription_event : Info E → Option E → Receiver C E → Receiver C E
  unfolding resolve
  handle_subscription_event event err s = record s {
    subscriptions = resolve event.correlation_p err s.subscriptions;
  }

  -- The call of a handler with what the session reports.
  unfoldable pub handle : Handler → Info E → Receiver C E → Receiver C E
  unfolding handle_subscription_event
  handle handle_subscription_ok event s = handle_subscription_event event none s
  handle handle_subscription_err event s = handle_subscription_event event event.error s
  handle (other id) event s = s

  unfoldable pub handle_all : List (ℕ × (Handler × Info E)) → Receiver C E → Receiver C E
  unfolding handle
  handle_all [] s = s
  handle_all ((id, (h, event)) ∷ calls) s = handle_all calls (handle h event s)

  -- An event of the session, with the handlers that it is dispatched to.
  unfoldable pub on_session_event :
      LastError E → SessionEvent → List ℕ → ℕ → ℕ → Receiver C E → Receiver C E
  unfolding event_callback handle_all
  on_session_event last event text correlation user s =
      handle_all (event_callback last event text correlation user s.events) s
