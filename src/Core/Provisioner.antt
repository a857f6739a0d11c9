-- ===== src/Core/Provisioner.antt =====
-- internal/impl/core/endpoint_provisioner.go: queues provisioned and taken away on the broker, and its
-- answers to those that wait for them.
--
-- A call of the C library is an argument, which gives `none` or an error for the id of the request;
-- `P` is the type of the list of properties that is passed on to it.
pub mod Answers
mod Tests
use pubsubplus_go_client.Prelude.{
  ℕ, Bool, true, false, List, [], ◌∷◌, Option, none, some, if◌then◌else◌,
}
use pubsubplus_go_client.Core.Events.{Event, Events, Info, add_event_handler, remove_event_handler}
use pubsubplus_go_client.Core.Pending.{
  Pending, no_pending, new_correlation, clear, resolve, interrupt, request,
}

-- `ccsmpBackedEndpointProvisioner`. `H` is the type of the event handlers, `E` that of errors.
pub record Provisioner (H E : Type 0) : Type 0 where
  pub events : Events H
  pub is_running : Bool
  pub provisions : Pending E
  pub provision_ok_event : ℕ
  pub provision_error_event : ℕ

-- A call of the provisioner; `ignores` is whether an existing or a missing queue is no error.
pub data Op (E : Type 0) : Type 0 where
  starts : Op E
  terminates : E → Op E
  provisions deprovisions : (List ℕ → ℕ → Bool → Option E) → List ℕ → Bool → Op E
  clears : ℕ → Op E
  confirms fails : Info E → Op E

module _ {H E : Type 0} where
  unfoldable pub new_ccsmp_endpoint_provisioner : Events H → Provisioner H E
  unfolding no_pending
  new_ccsmp_endpoint_provisioner events = record {
    events = events;
    is_running = false;
    provisions = no_pending;
    provision_ok_event = 0;
    provision_error_event = 0;
  }

  -- `ok` and `failed` are the two handlers.
  unfoldable pub start : H → H → Provisioner H E → Provisioner H E
  unfolding add_event_handler
  start ok failed s =
      let (after_ok, ok_id) = add_event_handler Event.provision_ok ok s.events in
      let (after_both, error_id) = add_event_handler Event.provision_error failed after_ok in
      if s.is_running then s else record s {
        is_running = true;
        events = after_both;
        provision_ok_event = ok_id;
        provision_error_event = error_id;
      }

  -- `e` is the error of an unreachable service.
  unfoldable pub terminate : E → Provisioner H E → Provisioner H E
  unfolding remove_event_handler interrupt
  terminate e s =
      if s.is_running
      then record s {
        is_running = false;
        events =
            remove_event_handler s.provision_error_event
              (remove_event_handler s.provision_ok_event s.events);
        provisions = interrupt e s.provisions;
      }
      else s

  abbrev pub asked : Provisioner H E → Pending E × (ℕ × Option E) → Provisioner H E × (ℕ × Option E)
  asked s (pending, (id, none)) = (record s { provisions = pending }, (id, none))
  asked s (pending, (id, some e)) = (record s { provisions = pending }, (0, some e))

  unfoldable pub provision :
      {P : Type 0}
      → (P → ℕ → Bool → Option E)
      → P
      → Bool
      → Provisioner H E
      → Provisioner H E × (ℕ × Option E)
  unfolding request
  provision native properties ignores s =
      asked s (request (λ id. native properties id ignores) s.provisions)

  unfoldable pub deprovision :
      {P : Type 0}
      → (P → ℕ → Bool → Option E)
      → P
      → Bool
      → Provisioner H E
      → Provisioner H E × (ℕ × Option E)
  unfolding request
  deprovision native properties ignores s =
      asked s (request (λ id. native properties id ignores) s.provisions)

  unfoldable pub clear_provision_correlation : ℕ → Provisioner H E → Provisioner H E
  unfolding clear
  clear_provision_correlation id s = record s { provisions = clear id s.provisions }

  unfoldable pub handle_event : Info E → Option E → Provisioner H E → Provisioner H E
  unfolding resolve
  handle_event event err s = record s { provisions = resolve event.correlation_p err s.provisions }

  unfoldable pub handle_ok : Info E → Provisioner H E → Provisioner H E
  unfolding handle_event
  handle_ok event s = handle_event event none s

  unfoldable pub handle_err : Info E → Provisioner H E → Provisioner H E
  unfolding handle_event
  handle_err event s = handle_event event event.error s

  unfoldable pub step : H → H → Op E → Provisioner H E → Provisioner H E
  unfolding start terminate provision deprovision clear_provision_correlation handle_ok handle_err
  step ok failed starts s = start ok failed s
  step ok failed (terminates e) s = terminate e s
  step ok failed (provisions native properties ignores) s =
      (provision native properties ignores s).0
  step ok failed (deprovisions native properties ignores) s =
      (deprovision native properties ignores s).0
  step ok failed (clears id) s = clear_provision_correlation id s
  step ok failed (confirms event) s = handle_ok event s
  step ok failed (fails event) s = handle_err event s

  unfoldable pub run : H → H → List (Op E) → Provisioner H E → Provisioner H E
  run ok failed [] s = s
  run ok failed (op ∷ ops) s = run ok failed ops (step ok failed op s)
