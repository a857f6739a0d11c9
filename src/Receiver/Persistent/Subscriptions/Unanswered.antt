-- ===== src/Receiver/Persistent/Subscriptions/Unanswered.antt =====
-- The requests that are outstanding when Terminate of the receiver takes them out of the table.
use mathlib.Core.Path.{subst}
use pubsubplus_go_client.Prelude.{
  suc, sym, ℕ, ◌+◌, ◌≤◌, ◌<◌, ◌^◌, ◌≡◌, refl, ap, ◌∙◌, false, List, [], ◌∷◌, none, some, ◌==◌,
  length, arith, inl, inr, Bool-cases,
}
use pubsubplus_go_client.Prelude.Dict.{Dict, fetch, fetch-discard}
use pubsubplus_go_client.Core.Pending
use pubsubplus_go_client.Core.Pending.{Pending, clears, no_pending, clear}
use pubsubplus_go_client.Core.Pending.Answers.{Inv, step-Kept, run-Inv, no_pending-Inv}
use pubsubplus_go_client.Core.Pending.Silence.{Gone, run-Gone, clear-Gone}
use pubsubplus_go_client.Core.Receiver.{Receiver, clear_subscription_correlation}
use pubsubplus_go_client.Receiver.Persistent.Subscriptions.{Subscriber, keys, clear_all, give_up}

-- The loop as steps of the table.
abbrev clearing : {E : Type 0} → Dict (Unit {0}) → List (Pending.Op E)
clearing [] = []
clearing ((k, u) ∷ d) = clears k ∷ clearing d

module _ {E : Type 0} where
  -- Nothing is sent, and no id is handed out.
  clearing-Quiet :
      (d : Dict (Unit {0})) (s : Pending E)
      → let s' = Pending.run (clearing d) s in
        (s'.correlation_id ≡ s.correlation_id)
        × (s'.channels ≡ s.channels)
        × (length (clearing {E = E} d) ≡ length d)
  unfolding Pending.run Pending.step clear
  clearing-Quiet [] s = (refl, refl, refl)
  clearing-Quiet ((k, u) ∷ d) s =
      let rest = clearing-Quiet d (clear k s) in (rest.0, rest.1, ap suc rest.2)

  clearing-Gone :
      (d : Dict (Unit {0})) (s : Pending E) (id : ℕ)
      → length d + s.correlation_id < 2 ^ 64
      → Inv s
      → s.reserved id ≡ false
      → id ≤ s.correlation_id
      → fetch d id ≡ some tt
      → Gone id (Pending.run (clearing d) s)
  unfolding Pending.run fetch
  clearing-Gone [] s id small v free old held = cc
  clearing-Gone ((k, u) ∷ d) s id small v free old held = elim (Bool-cases (id == k)) [
    | inl same ↦
        let e : id ≡ k = ground arith in
        (run-Gone (clearing d) (Pending.step (clears k) s) id
          (omega (arith, (clearing-Quiet d s).2, step_same k))
          (subst (λ j. Gone id (Pending.step (clears j) s)) e
            (clear-Gone s id (omega arith) v free old))).0
    | inr other ↦
        clearing-Gone d (Pending.step (clears k) s) id (omega (arith, step_same k))
          (step-Kept (clears k) s (omega arith) v).inv (step_free k) (omega (arith, step_same k))
          (ground arith)
  ]
    where
      step_same : (k : ℕ) → (Pending.step (clears k) s).correlation_id ≡ s.correlation_id
      step_same k = unfold Pending.step clear in refl

      step_free : (k : ℕ) → (Pending.step (clears k) s).reserved id ≡ false
      step_free k = unfold Pending.step clear in free

module _ {C E : Type 0} where
  -- Of the session's table the outstanding entries go, and no others.
  clear_all-fetch :
      (d : Dict (Unit {0})) (r : Receiver C E) (id : ℕ)
      → fetch (clear_all (keys d) r).subscriptions.correlation id
        ≡ elim (fetch d id) [ some u ↦ none | none ↦ fetch r.subscriptions.correlation id ]
  unfolding keys clear_all fetch clear_subscription_correlation clear
  clear_all-fetch [] r id = refl
  clear_all-fetch ((k, u) ∷ d) r id =
      clear_all-fetch d (clear_subscription_correlation k r) id
      ∙ ground (arith, fetch-discard r.subscriptions.correlation k id)

  clear_all-run :
      (d : Dict (Unit {0})) (r : Receiver C E)
      → (clear_all (keys d) r).subscriptions ≡ Pending.run (clearing d) r.subscriptions
  unfolding keys clear_all clear_subscription_correlation Pending.run Pending.step
  clear_all-run [] r = refl
  clear_all-run ((k, u) ∷ d) r = clear_all-run d (clear_subscription_correlation k r)

  -- Terminate takes out of the session's table just the requests of the receiver that are outstanding.
  pub give_up-fetch :
      (s : Subscriber C E) (id : ℕ)
      → fetch (give_up s).session.subscriptions.correlation id ≡ elim (fetch s.outstanding id) [
        | some u ↦ none
        | none ↦ fetch s.session.subscriptions.correlation id
      ]
  unfolding give_up
  give_up-fetch s id = clear_all-fetch s.outstanding s.session id

  -- Take a table that any steps have led to, fewer than 2^64 with those that follow, from which Terminate
  -- of a persistent receiver takes its requests. Of a request that is outstanding there the channel
  -- stays as it is, whatever follows; so a call
  -- that waits for an answer which has not come by then waits for ever.
  pub give_up-unanswered :
      (before after : List (Pending.Op E)) (s : Subscriber C E) (id : ℕ)
      → s.session.subscriptions ≡ Pending.run before no_pending
      → s.session.subscriptions.correlation_id + length s.outstanding + length before + length after
        < 2 ^ 64
      → s.session.subscriptions.reserved id ≡ false
      → id ≤ s.session.subscriptions.correlation_id
      → fetch s.outstanding id ≡ some tt
      → (Pending.run after (give_up s).session.subscriptions).channels id
        ≡ s.session.subscriptions.channels id
  unfolding give_up
  give_up-unanswered before after s id reached small free old held =
      let p = s.session.subscriptions in
      let q = Pending.run (clearing s.outstanding) p in
      let cleared : (clear_all (keys s.outstanding) s.session).subscriptions ≡ q =
        clear_all-run s.outstanding s.session in
      let quiet = clearing-Quiet s.outstanding p in
      let v : Inv p =
        subst Inv (sym reached)
          (run-Inv before no_pending (unfold no_pending in omega arith) no_pending-Inv) in
      let gone = clearing-Gone s.outstanding p id (omega arith) v free old held in
      ap (λ (t : Pending E). (Pending.run after t).channels id) cleared
      ∙ (run-Gone after q id (omega (arith, quiet.0)) gone).1
      ∙ ap (λ (f : ℕ → List (Pending.Answer E)). f id) quiet.1
