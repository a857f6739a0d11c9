-- ===== src/Publisher/Persistent/Once.antt =====
-- Each context is resolved once, in a termination that is graceful.
use pubsubplus_go_client.Prelude.{
  ℕ, ◌+◌, ◌≤◌, ◌≡◌, refl, sym, false, List, [], ◌∷◌, ◌++◌, none, arith, All, inl, inr, Bool-cases,
  ◌⊎◌,
}
use mathlib.Core.Path.{subst}
use pubsubplus_go_client.Prelude.Dict.{occurrences, occurrences-append}
use pubsubplus_go_client.Publisher.Backpressure.{Backpressure}
use pubsubplus_go_client.Publisher.Direct
use pubsubplus_go_client.Publisher.Direct.{Direct, Loop, Move, moves, run_loop}
use pubsubplus_go_client.Publisher.Direct.Order
use pubsubplus_go_client.Publisher.Receipts
use pubsubplus_go_client.Publisher.Receipts.{
  Receipts, ack_handler, finish_ack, request_complete, drain_ack_table, no_receipts,
}
use pubsubplus_go_client.Publisher.Persistent.{
  Persistent, Op, buffers, begins, acknowledges, finishes, terminates, requests, Resolved,
  holds_back, construct, receive, waits_to_begin, step, run,
}
use pubsubplus_go_client.Publisher.Persistent.Contexts.{Counted, count}
use pubsubplus_go_client.Publisher.Persistent.Places.{IsMove, Spares}
use pubsubplus_go_client.Publisher.Persistent.Moves.{moved-Counted}
use pubsubplus_go_client.Publisher.Persistent.Receiving.{
  begins-Counted, acknowledged-Counted, finish-Counted,
}
use pubsubplus_go_client.Publisher.Persistent.Asides.{later, later-Counted}
use pubsubplus_go_client.Publisher.Persistent.Steps.{
  step-waits, step-later, step-held, step-free, step-Forward, run-Forward,
}

-- The tasks are not cut short.
abbrev pub IsGraceful : Op → Type 0
IsGraceful (buffers op) = Spares op
IsGraceful _ = Unit

record Inv (k r : ℕ) (s : Persistent) : Type 0 where
  order : Order.Inv s.direct
  counted : Counted k r s

IsMove-cases : (op : Direct.Op ℕ) → ((m : Move) × (op ≡ moves m)) ⊎ (IsMove op → ⊥)
IsMove-cases (moves m) = inl (m, refl)
IsMove-cases _ = inr (λ h. h)

abbrev CountedAfter : ℕ → ℕ → Persistent × Resolved → Type 0
CountedAfter k r (s, told) = Counted k (r + occurrences k told) s

moves-Counted :
    (m : Move) (k r : ℕ) (s : Persistent)
    → waits_to_begin (moves m) s.begun ≡ false
    → Inv k r s
    → CountedAfter k r (later (moves m) s)
unfolding Direct.step run_loop
moves-Counted m k r s w v =
    moved-Counted s.direct.loop m s.direct.tasks s.direct.buffer k r s refl refl refl
      v.order.aligned w v.counted

buffers-Counted :
    (op : Direct.Op ℕ) (k r : ℕ) (s : Persistent)
    → Spares op
    → waits_to_begin op s.begun ≡ false
    → Inv k r s
    → CountedAfter k r (later op s)
buffers-Counted op k r s spares w v = elim (IsMove-cases op) [
  | inl (m, e) ↦
      subst (λ o. CountedAfter k r (later o s)) (sym e)
        (moves-Counted m k r s (subst (λ o. waits_to_begin o s.begun ≡ false) e w) v)
  | inr other ↦ later-Counted op k r s spares other v.counted
]

abbrev nothing : Resolved
nothing = []

quiet : (k r : ℕ) (s : Persistent) → Counted k r s → Counted k (r + occurrences k nothing) s
unfolding occurrences
quiet k r s v = subst (λ n. Counted k n s) (omega arith) v

acknowledges-Counted :
    (id k r : ℕ) (s : Persistent)
    → holds_back id s.direct.loop ≡ false
    → Counted k r s
    → CountedAfter k r (receive s (ack_handler id s.receipts))
unfolding ack_handler
acknowledges-Counted id k r s free v = acknowledged-Counted s.receipts.acking id k r s refl free v

step-Counted :
    (op : Op) (k r : ℕ) (s : Persistent)
    → count k s.accepted ≤ 1
    → IsGraceful op
    → Inv k r s
    → CountedAfter k r (step op s)
unfolding step Receipts.step request_complete
step-Counted (buffers op) k r s few spares v = elim (Bool-cases (waits_to_begin op s.begun)) [
  | inl waits ↦ subst (CountedAfter k r) (sym (step-waits op s waits)) (quiet k r s v.counted)
  | inr on ↦
      subst (CountedAfter k r) (sym (step-later op s on)) (buffers-Counted op k r s spares on v)
]
step-Counted begins k r s few spares v =
    quiet k r _ (begins-Counted s.direct.loop k r s refl v.order.aligned few v.counted)
step-Counted (acknowledges id) k r s few spares v =
    elim (Bool-cases (holds_back id s.direct.loop)) [
      | inl held ↦ subst (CountedAfter k r) (sym (step-held id s held)) (quiet k r s v.counted)
      | inr free ↦
          subst (CountedAfter k r) (sym (step-free id s free))
            (acknowledges-Counted id k r s free v.counted)
    ]
step-Counted finishes k r s few spares v =
    quiet k r _ (finish-Counted s.receipts.acking k r s refl v.counted)
step-Counted terminates k r s few spares v = let c = v.counted in quiet k r _ (ground arith)
step-Counted requests k r s few spares v = let c = v.counted in quiet k r _ (ground arith)

run-Counted :
    (ops : List Op) (k r : ℕ) (s : Persistent)
    → count k (run ops s).0.accepted ≤ 1
    → All IsGraceful ops
    → Inv k r s
    → CountedAfter k r (run ops s)
unfolding run
run-Counted [] k r s few l v = quiet k r s v.counted
run-Counted (op ∷ ops) k r s few l v =
    let s' = (step op s).0 in
    let one = step-Forward op k s v.order in
    let ahead = (run-Forward ops k s' one.order).more in
    let first = one.more in
    let v' = step-Counted op k r s (omega arith) l.0 v in
    let rest =
      run-Counted ops k (r + occurrences k (step op s).1) s' few l.1
        (record { order = one.order; counted = v' }) in
    subst (λ n. Counted k n (run ops s').0)
      (omega (arith, occurrences-append (step op s).1 (run ops s').1 k)) rest

construct-Inv : (b : Backpressure) (n k : ℕ) → Inv k 0 (construct b n)
unfolding construct no_receipts Direct.construct occurrences
construct-Inv b n k = record {
  order = unfold Direct.construct in Order.construct-Inv b n false;
  counted = ground arith;
}

module _ (b : Backpressure) (n : ℕ) (ops : List Op) where
  abbrev pub reached : Persistent
  reached = (run ops (construct b n)).0

  abbrev pub told_of : Resolved
  told_of = (run ops (construct b n)).1

  -- Over any schedule of publishes, of the steps of the run loop and of its tasks, of acknowledgements and
  -- of the steps of a termination, neither this publisher nor the core's interrupting a task, once the
  -- run loop has ended, the buffer is empty and no acknowledgement is under way: the context of a message id that the buffer
  -- took once is resolved once, by its acknowledgement, by its task, by `drainQueue` or by
  -- `drainAckTable`, and that of one that the buffer did not take is not resolved.
  pub run_resolves_each :
      (k : ℕ)
      → count k reached.accepted ≤ 1
      → All IsGraceful ops
      → reached.direct.loop ≡ Direct.ended
      → reached.direct.buffer ≡ []
      → reached.receipts.acking ≡ none
      → occurrences k (told_of ++ (drain_ack_table reached.receipts).1) ≡ count k reached.accepted
  unfolding drain_ack_table
  run_resolves_each k few l over empty quiet_now =
      let v = run-Counted ops k 0 (construct b n) few l (construct-Inv b n k) in
      let balance = v.balance in
      let stage = v.stage in
      ground (arith, occurrences-append told_of reached.receipts.correlation_map k)
