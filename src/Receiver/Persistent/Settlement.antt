-- ===== src/Receiver/Persistent/Settlement.antt =====
-- Ack and Settle of internal/impl/receiver/persistent_message_receiver_impl.go.
use pubsubplus_go_client.Prelude.{
  ℕ, ◌≡◌, ◌↔◌, refl, true, ◌||◌, Option, none, some, if◌then◌else◌, arith, Bool-cases, inl, inr,
}
use pubsubplus_go_client.Lifecycle.{State, is_started, is_terminating, is_terminated}

-- `config.MessageSettlementOutcome`, which is a string: the three that are known, and the rest.
pub data Outcome : Type 0 where
  accepted failed rejected unknown : Outcome

-- `ccsmp.SolClientMessageSettlementOutcome`
pub data NativeOutcome : Type 0 where
  accepted failed rejected : NativeOutcome

-- An `apimessage.InboundMessage`: of another implementation, without a message id, or with one.
pub data Inbound : Type 0 where
  foreign without_id : Inbound
  with_id : ℕ → Inbound

-- The errors of `Settle`; `native` is that of the flow.
pub data SettleError (E : Type 0) : Type 0 where
  already_terminated not_started invalid_message_type no_message_id invalid_outcome : SettleError E
  native : E → SettleError E

unfoldable pub native_outcome : Outcome → Option NativeOutcome
native_outcome Outcome.accepted = some NativeOutcome.accepted
native_outcome Outcome.failed = some NativeOutcome.failed
native_outcome Outcome.rejected = some NativeOutcome.rejected
native_outcome Outcome.unknown = none

module _ {E : Type 0} where
  abbrev converted : Option E → Option (SettleError E)
  converted none = none
  converted (some e) = some (native e)

  abbrev settle_as :
      (ℕ → NativeOutcome → Option E) → ℕ → Option NativeOutcome → Option (SettleError E)
  settle_as flow id none = some invalid_outcome
  settle_as flow id (some o) = converted (flow id o)

  abbrev settle_message :
      (ℕ → NativeOutcome → Option E) → Inbound → Outcome → Option (SettleError E)
  settle_message flow foreign outcome = some invalid_message_type
  settle_message flow without_id outcome = some no_message_id
  settle_message flow (with_id id) outcome = settle_as flow id (native_outcome outcome)

  -- `flow` is `Settle` of the flow.
  unfoldable pub settle :
      (ℕ → NativeOutcome → Option E) → State → Inbound → Outcome → Option (SettleError E)
  unfolding native_outcome
  settle flow state msg outcome =
      if is_started state || is_terminating state
      then settle_message flow msg outcome
      else if is_terminated state
      then some already_terminated
      else some not_started

  unfoldable pub ack : (ℕ → NativeOutcome → Option E) → State → Inbound → Option (SettleError E)
  unfolding settle
  ack flow state msg = settle flow state msg Outcome.accepted

  converted-none : (r : Option E) → converted r ≡ none → r ≡ none
  converted-none none h = refl
  converted-none (some e) h = cc

  settled :
      (flow : ℕ → NativeOutcome → Option E) (msg : Inbound) (outcome : Outcome)
      → settle_message flow msg outcome ≡ none
      → (id : ℕ) × (o : NativeOutcome) × (msg ≡ with_id id)
        × (native_outcome outcome ≡ some o)
        × (flow id o ≡ none)
  unfolding native_outcome
  settled flow foreign outcome h = cc
  settled flow without_id outcome h = cc
  settled flow (with_id id) Outcome.accepted h =
      (id, NativeOutcome.accepted, refl, refl, converted-none _ h)
  settled flow (with_id id) Outcome.failed h =
      (id, NativeOutcome.failed, refl, refl, converted-none _ h)
  settled flow (with_id id) Outcome.rejected h =
      (id, NativeOutcome.rejected, refl, refl, converted-none _ h)
  settled flow (with_id id) unknown h = cc

  -- Settle succeeds exactly if the receiver is started or terminating, the message has an id, the
  -- outcome is one of the three, and the flow takes the id with that outcome.
  settle-eq-none :
      (flow : ℕ → NativeOutcome → Option E) (state : State) (msg : Inbound) (outcome : Outcome)
      → (settle flow state msg outcome ≡ none) ↔ (
          ((is_started state || is_terminating state) ≡ true)
          × ((id : ℕ) × (o : NativeOutcome) × (msg ≡ with_id id)
              × (native_outcome outcome ≡ some o)
              × (flow id o ≡ none)))
  unfolding settle
  settle-eq-none flow state msg outcome =
      elim (Bool-cases (is_started state || is_terminating state)) [
        | inl ready ↦ rw ready (
          λ h. (refl, settled flow msg outcome h),
          λ (e, (id, o, is_msg, is_outcome, taken)). rw (is_msg, is_outcome, taken),
        )
        | inr late ↦ rw late (λ h. ground arith, λ (e, rest). ground arith)
      ]
