-- ===== src/Core/Receiver/Confirmation.antt =====
-- Which events of the session answer a request.
use pubsubplus_go_client.Prelude.{
  ℕ, ◌≡◌, refl, Bool, true, false, List, [], ◌∷◌, Option, none, some, ◌==◌, if◌then◌else◌, map, All,
  ap, ◌∙◌, inl, inr, Bool-cases,
}
use pubsubplus_go_client.Core.Events.{
  Info, SessionEvent, LastError, index, event_callback, emit_event, session_event_mapping,
  add_event_handler,
}
use pubsubplus_go_client.Core.Pending.{Pending, resolve}
use pubsubplus_go_client.Core.Receiver.{
  Receiver, Handler, other, handle_subscription_ok, handle_subscription_err, start,
  on_session_event, handle_all, handle, handle_subscription_event,
}
use pubsubplus_go_client.Prelude.Dict.{Dict, assign}

module _ {E : Type 0} where
  abbrev error_of : LastError E → Option E
  error_of last = if last.is_ok then none else some last.native

  -- What an event with the pointer `p` is to those that wait.
  abbrev pub confirms : LastError E → SessionEvent → ℕ → Pending E → Pending E
  confirms last SessionEvent.subscription_ok p w = resolve p none w
  confirms last SessionEvent.subscription_error p w = resolve p (error_of last) w
  confirms last _ p w = w

abbrev is_other : Handler → Bool
is_other (other id) = true
is_other _ = false

abbrev pub AreOther : Dict Handler → Type 0
AreOther = All (λ p. is_other p.1 ≡ true)

abbrev calls : {E : Type 0} → Dict Handler → Info E → List (ℕ × (Handler × Info E))
calls d event = map (λ p. (p.0, (p.1, event))) d

module _ {C E : Type 0} where
  other-idle :
      (h : Handler) (event : Info E) (s : Receiver C E) → is_other h ≡ true → handle h event s ≡ s
  unfolding handle
  other-idle (other id) event s e = refl
  other-idle handle_subscription_ok event s e = cc
  other-idle handle_subscription_err event s e = cc

  others-idle :
      (d : Dict Handler) (event : Info E) (s : Receiver C E)
      → AreOther d
      → handle_all (calls d event) s ≡ s
  unfolding handle_all
  others-idle [] event s a = refl
  others-idle ((id, h) ∷ d) event s a =
      ap (handle_all (calls d event)) (other-idle h event s a.0) ∙ others-idle d event s a.1

  handle_all-assign :
      (d : Dict Handler) (id : ℕ) (h : Handler) (event : Info E) (s : Receiver C E)
      → AreOther d
      → handle_all (calls (assign d id h) event) s ≡ handle h event s
  unfolding handle_all assign
  handle_all-assign [] id h event s a = refl
  handle_all-assign ((q, g) ∷ d) id h event s a = elim (Bool-cases (id == q)) [
    | inl same ↦ rw same (others-idle d event (handle h event s) a.1)
    | inr differs ↦ rw differs (
        ap (handle_all (calls (assign d id h) event)) (other-idle g event s a.0)
        ∙ handle_all-assign d id h event s a.1)
  ]

  -- Once the receiver is started, an event of the C library that confirms or refuses a subscription
  -- answers what waits with its pointer, with the error that the library reports, and no other event
  -- of the session does anything to the receiver; handlers of other parts may be registered.
  pub on_session_event-start :
      (last : LastError E) (e : SessionEvent) (text : List ℕ) (p user : ℕ) (s : Receiver C E)
      → s.running ≡ false
      → ((i : ℕ) → AreOther (s.events.event_handlers i))
      → on_session_event last e text p user (start s)
        ≡ record (start s) { subscriptions = confirms last e p s.subscriptions }
  unfolding on_session_event event_callback emit_event session_event_mapping start add_event_handler
      index handle handle_subscription_event handle_all
  on_session_event-start last SessionEvent.subscription_ok text p user s h a =
      rw h (handle_all-assign (s.events.event_handlers 7) _ handle_subscription_ok _ _ (a 7))
  on_session_event-start last SessionEvent.subscription_error text p user s h a =
      rw h (handle_all-assign (s.events.event_handlers 8) _ handle_subscription_err _ _ (a 8))
  on_session_event-start last SessionEvent.unmapped text p user s h a = rw h refl
  on_session_event-start last SessionEvent.up_notice text p user s h a =
      rw h (others-idle (s.events.event_handlers 0) _ _ (a 0))
  on_session_event-start last SessionEvent.down_error text p user s h a =
      rw h (others-idle (s.events.event_handlers 1) _ _ (a 1))
  on_session_event-start last SessionEvent.can_send text p user s h a =
      rw h (others-idle (s.events.event_handlers 2) _ _ (a 2))
  on_session_event-start last SessionEvent.acknowledgement text p user s h a =
      rw h (others-idle (s.events.event_handlers 3) _ _ (a 3))
  on_session_event-start last SessionEvent.rejected_msg_error text p user s h a =
      rw h (others-idle (s.events.event_handlers 4) _ _ (a 4))
  on_session_event-start last SessionEvent.reconnected_notice text p user s h a =
      rw h (others-idle (s.events.event_handlers 5) _ _ (a 5))
  on_session_event-start last SessionEvent.reconnecting_notice text p user s h a =
      rw h (others-idle (s.events.event_handlers 6) _ _ (a 6))
  on_session_event-start last SessionEvent.provision_ok text p user s h a =
      rw h (others-idle (s.events.event_handlers 9) _ _ (a 9))
  on_session_event-start last SessionEvent.provision_error text p user s h a =
      rw h (others-idle (s.events.event_handlers 10) _ _ (a 10))
