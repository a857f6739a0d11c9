-- ===== src/Receiver/Termination/Delivery.antt =====
-- What becomes of the messages of a receiver that terminates.
use pubsubplus_go_client.Prelude.{
  ℕ, ◌+◌, ◌≤◌, ◌<◌, ◌≡◌, refl, Bool, true, List, [], ◌∷◌, Option, none, some, length, length-append,
  arith, ap, sym, ◌∙◌,
}
use pubsubplus_go_client.Prelude.Interleaving.{System, Picks, run, run-Inv, run-keeps}
use pubsubplus_go_client.Receiver.Termination.{
  Shared, Check, Consumer, Dispatch, Terminator, Place, callback, registrar, consumer, dispatch,
  terminator, Registrar, Pick, Branch, step, push, consume, loop, finish,
}
use pubsubplus_go_client.Receiver.Termination.Knowledge.{allowed}
use pubsubplus_go_client.Receiver.Termination.Steps.{discipline}
use pubsubplus_go_client.Receiver.Termination.Start.{start-Inv, Threads, at_start}

module _ {M : Type 0} where
  abbrev Account : Shared M → Type 0
  Account s = s.accepted ≡ s.delivered + s.evicted + length s.buffer + s.undelivered

  consume-Account :
      (i : Pick M) (c : Consumer) (br : Branch) (b : List M) (s : Shared M)
      → i.branch ≡ br
      → s.buffer ≡ b
      → Account s
      → Account (consume i c s).0
  consume-Account i (Consumer.checks Check.loads) br b s hi hb h = h
  consume-Account i (Consumer.checks _) br b s hi hb h = ground arith
  consume-Account i Consumer.returned br b s hi hb h = h
  consume-Account i Consumer.receives Branch.message [] s hi hb h = ground arith
  consume-Account i Consumer.receives Branch.message (m ∷ rest) s hi hb h = ground arith
  consume-Account i Consumer.receives _ b s hi hb h = ground arith

  loop-Account :
      (i : Pick M) (d : Dispatch) (br : Branch) (o : Option Bool) (b : List M) (s : Shared M)
      → i.branch ≡ br
      → s.callback_set ≡ o
      → s.buffer ≡ b
      → Account s
      → Account (loop i d s).0
  loop-Account i (Dispatch.checks Check.loads) br o b s hi ho hb h = h
  loop-Account i (Dispatch.checks _) br o b s hi ho hb h = ground arith
  loop-Account i Dispatch.awaits br none b s hi ho hb h = ground arith
  loop-Account i Dispatch.awaits br (some go) b s hi ho hb h = ground arith
  loop-Account i Dispatch.selects Branch.message o [] s hi ho hb h = ground arith
  loop-Account i Dispatch.selects Branch.message o (m ∷ rest) s hi ho hb h = ground arith
  loop-Account i Dispatch.selects br o b s hi ho hb h = ground arith
  loop-Account i _ br o b s hi ho hb h = ground arith

  finish-Account :
      (i : Pick M) (t : Terminator) (b : List M) (s : Shared M)
      → s.buffer ≡ b
      → Account s
      → Account (finish i t s).0
  finish-Account i Terminator.drains [] s hb h = ground arith
  finish-Account i Terminator.drains (m ∷ rest) s hb h = ground arith
  finish-Account i _ b s hb h = ground arith

  push-Account :
      (i : Pick M) (b : List M) (s : Shared M) → s.buffer ≡ b → Account s → Account (push i s)
  push-Account i [] s hb h = ground (arith, length-append s.buffer (i.item ∷ []))
  push-Account i (m ∷ rest) s hb h = ground (arith, length-append s.buffer (i.item ∷ []))

  step-Account :
      (i : Pick M) (p : Place) (s : Shared M)
      → allowed s p ≡ true
      → Account s
      → Account (step i p s).0
  unfolding step
  step-Account i callback s a h = push-Account i s.buffer s refl h
  step-Account i (registrar Registrar.registered) s a h = h
  step-Account i (registrar _) s a h = ground arith
  step-Account i (consumer c) s a h = consume-Account i c i.branch s.buffer s refl refl h
  step-Account i (dispatch d) s a h =
      loop-Account i d i.branch s.callback_set s.buffer s refl refl refl h
  step-Account i (terminator t) s a h = finish-Account i t s.buffer s refl h

abbrev pub left : Option ℕ → ℕ
left none = 0
left (some k) = k

module _ {M : Type 0} where
  finished-knows :
      (r : Option ℕ) (s : Shared M)
      → allowed s (terminator (Terminator.finished r)) ≡ true
      → Account s
      → (s.accepted ≡ s.delivered + s.evicted + left r)
        × (s.buffer ≡ [])
        × ((k : ℕ) → r ≡ some k → (0 < k) × (k ≤ s.discarded))
  finished-knows r s a h = knows-result r s.buffer s refl a h
    where
      knows-result :
          (r : Option ℕ) (b : List M) (s : Shared M)
          → s.buffer ≡ b
          → allowed s (terminator (Terminator.finished r)) ≡ true
          → Account s
          → (s.accepted ≡ s.delivered + s.evicted + left r)
            × (s.buffer ≡ [])
            × ((k : ℕ) → r ≡ some k → (0 < k) × (k ≤ s.discarded))
      knows-result none [] s hb a h = (ground arith, hb, λ k e. cc)
      knows-result (some n) [] s hb a h = (ground arith, hb, λ k e. ground arith)
      knows-result _ (m ∷ rest) s hb a h = absurd (ground arith)

  -- Any number of threads call the receiver, of which one terminates it, by Terminate or by an
  -- unsolicited termination, in any order of their steps. When that one is through, every message that
  -- went into the buffer was taken out for the application or, as the oldest of a full buffer, by the
  -- callback, but for as many as its error says; that number is not 0 and was added to the metric; and nothing is left in the buffer.
  pub run_returns :
      (n : ℕ) (places : ℕ → Place) (picks : List (ℕ × Pick M)) (t : ℕ) (r : Option ℕ)
      → Threads n places
      → Picks n picks
      → t < n
      → let s = run discipline picks (at_start places) in
        s.pcs t ≡ terminator (Terminator.finished r)
        → (s.shared.accepted ≡ s.shared.delivered + s.shared.evicted + left r)
          × (s.shared.buffer ≡ [])
          × ((k : ℕ) → r ≡ some k → (0 < k) × (k ≤ s.shared.discarded))
  run_returns n places picks t r threads h ht e =
      let v = start-Inv M n places threads.start threads.one_end in
      let s : System (Shared M) Place = run discipline picks (at_start places) in
      let a : allowed s.shared (terminator (Terminator.finished r)) ≡ true =
        ap (allowed s.shared) (sym e)
        ∙ (run-Inv discipline n picks (at_start places) h v).knows t ht in
      finished-knows r s.shared a
        (run-keeps discipline Account step-Account n picks (at_start places) h v (omega arith))
