-- ===== src/Publisher/Persistent/Steps.antt =====
-- The cases of a step, and what every step keeps: the invariant of the buffers, and the messages that
-- were accepted.
use pubsubplus_go_client.Prelude.{
  ℕ, ◌≤◌, ◌≡◌, refl, sym, ap, true, false, List, [], ◌∷◌, arith, inl, inr, Bool-cases,
}
use mathlib.Core.Path.{subst}
use pubsubplus_go_client.Publisher.Direct
use pubsubplus_go_client.Publisher.Direct.{Direct, Loop, Move, moves, run_loop}
use pubsubplus_go_client.Publisher.Direct.Accounting.{written_of}
use pubsubplus_go_client.Publisher.Direct.Order
use pubsubplus_go_client.Publisher.Receipts
use pubsubplus_go_client.Publisher.Receipts.{
  Receipts, ack_handler, finish_ack, request_complete, drain_ack_table, no_receipts,
}
use pubsubplus_go_client.Publisher.Persistent.{
  Persistent, Op, buffers, begins, acknowledges, holds_back, begin_task, receive, after,
  waits_to_begin, step, run,
}
use pubsubplus_go_client.Publisher.Persistent.Contexts.{count, count-append, stepped}
use pubsubplus_go_client.Publisher.Persistent.Asides.{later}

pub step-waits :
    (op : Direct.Op ℕ) (s : Persistent)
    → waits_to_begin op s.begun ≡ true
    → step (buffers op) s ≡ (s, [])
unfolding step
step-waits op s h = rw h

pub step-later :
    (op : Direct.Op ℕ) (s : Persistent)
    → waits_to_begin op s.begun ≡ false
    → step (buffers op) s ≡ later op s
unfolding step
step-later op s h = rw h

pub step-held :
    (id : ℕ) (s : Persistent)
    → holds_back id s.direct.loop ≡ true
    → step (acknowledges id) s ≡ (s, [])
unfolding step
step-held id s h = rw h

pub step-free :
    (id : ℕ) (s : Persistent)
    → holds_back id s.direct.loop ≡ false
    → step (acknowledges id) s ≡ receive s (ack_handler id s.receipts)
unfolding step Receipts.step
step-free id s h = rw h

-- What follows a step of the buffers leaves them as they are.
after-direct :
    (op : Direct.Op ℕ) (l : Loop ℕ) (e : Direct.Event ℕ) (s : Persistent)
    → ((after op l e s).0.direct ≡ s.direct) × ((after op l e s).0.accepted ≡ s.accepted)
after-direct op l e s = ground arith

begin-direct :
    (l : Loop ℕ) (s : Persistent)
    → ((begin_task l s).direct ≡ s.direct) × ((begin_task l s).accepted ≡ s.accepted)
begin-direct l s = ground arith

-- The buffers' own invariant, and the messages accepted, of which there are ever more.
pub record Forward (k : ℕ) (s s' : Persistent) : Type 0 where
  pub order : Order.Inv s'.direct
  pub more : count k s.accepted ≤ count k s'.accepted

same-Forward :
    (k : ℕ) (s s' : Persistent)
    → Order.Inv s.direct
    → (s'.direct ≡ s.direct) × (s'.accepted ≡ s.accepted)
    → Forward k s s'
same-Forward k s s' v e = record {
  order = subst Order.Inv (sym e.0) v;
  more = let same = ap (count k) e.1 in omega arith;
}

later-Forward :
    (op : Direct.Op ℕ) (k : ℕ) (s : Persistent) → Order.Inv s.direct → Forward k s (later op s).0
later-Forward op k s v =
    let e = (Direct.step op s.direct).1 in
    let kept = after-direct op s.direct.loop e (stepped op s) in
    record {
      order = subst Order.Inv (sym kept.0) (Order.step-Kept op s.direct v).inv;
      more =
          let same = ap (count k) kept.1 in omega (arith, count-append k s.accepted (written_of e));
    }

pub step-Forward :
    (op : Op) (k : ℕ) (s : Persistent) → Order.Inv s.direct → Forward k s (step op s).0
unfolding step
step-Forward (buffers op) k s v = elim (Bool-cases (waits_to_begin op s.begun)) [
  | inl waits ↦ same-Forward k s _ v (rw waits, rw waits)
  | inr on ↦ subst (λ x. Forward k s x.0) (sym (step-later op s on)) (later-Forward op k s v)
]
step-Forward begins k s v = same-Forward k s _ v (begin-direct s.direct.loop s)
step-Forward (acknowledges id) k s v = same-Forward k s _ v (ground arith)
step-Forward _ k s v = same-Forward k s _ v (refl, refl)

pub run-Forward :
    (ops : List Op) (k : ℕ) (s : Persistent) → Order.Inv s.direct → Forward k s (run ops s).0
unfolding run
run-Forward [] k s v = same-Forward k s s v (refl, refl)
run-Forward (op ∷ ops) k s v =
    let one = step-Forward op k s v in
    let rest = run-Forward ops k (step op s).0 one.order in
    record { order = rest.order; more = let a = one.more in let b = rest.more in omega arith }
