-- ===== src/Publisher/Persistent/Contexts.antt =====
-- The contexts that were resolved, against the messages that the buffer accepted.
use pubsubplus_go_client.Prelude.{
  ℕ, ◌+◌, ◌≤◌, ◌≡◌, sym, ap, ◌∙◌, Bool, true, false, ◌&&◌, List, [], ◌∷◌, ◌++◌, ◌==◌, if◌then◌else◌,
  arith,
}
use pubsubplus_go_client.Prelude.Dict.{occurrences}
use pubsubplus_go_client.Publisher.Direct
use pubsubplus_go_client.Publisher.Direct.{
  Direct, Loop, ready, holding, sending, waiting, finished, looked, ended, Move, moves, takes,
  hands_over, abandons, publishes, writable, interrupted, looks, pops, drains, drained, popped,
  moved, run_loop, accepted, would_block, error, drain_queue, writes, gives_up, submits,
}
use pubsubplus_go_client.Publisher.Direct.Accounting.{written_of, taken_of}
use pubsubplus_go_client.Publisher.Direct.Accounting
use pubsubplus_go_client.Publisher.Direct.Order.{running}
use pubsubplus_go_client.Publisher.Receipts.Once.{acks, open'}
use pubsubplus_go_client.Publisher.Persistent.{Persistent, holds_back}
use pubsubplus_go_client.Publisher.Persistent.Places.{
  stage_ok, is_ended, is_cut, IsMove, step-Aside, Spares, step-interrupted,
}

abbrev pub count : ℕ → List ℕ → ℕ
count k [] = 0
count k (x ∷ xs) = (if k == x then 1 else 0) + count k xs

pub count-append : (k : ℕ) (xs ys : List ℕ) → count k (xs ++ ys) ≡ count k xs + count k ys
count-append k [] ys = omega arith
count-append k (x ∷ xs) ys = omega (arith, count-append k xs ys)

-- The message whose task has begun.
abbrev pub begun_with : Loop ℕ → Bool → List ℕ
begun_with l true = running l
begun_with l false = []

-- `r` contexts were resolved under the id `k`.
pub record Counted (k r : ℕ) (s : Persistent) : Type 0 where
  pub graceful : is_cut s.direct ≡ false
  pub stage : stage_ok s.direct.loop s.begun ≡ true
  pub alive : s.direct.complete ≡ true → is_ended s.direct.loop ≡ true
  pub balance :
      r + open' k s.receipts + count k s.direct.buffer
      ≡ count k s.accepted + count k (begun_with s.direct.loop s.begun)
  pub light : occurrences k s.receipts.correlation_map ≤ 1
  pub told : acks k s.receipts.acking ≡ true → 1 ≤ r
  pub held :
      (s.begun && holds_back k s.direct.loop) ≡ true
      → (acks k s.receipts.acking ≡ false) × (occurrences k s.receipts.correlation_map ≡ 1)

-- Steps that change neither the loop nor the contexts but for those that are drained.
abbrev pub stepped : Direct.Op ℕ → Persistent → Persistent
stepped op s = record s {
  direct = (Direct.step op s.direct).0;
  accepted = s.accepted ++ written_of (Direct.step op s.direct).1;
}

-- The buffer's count in a step.
flow :
    (op : Direct.Op ℕ) (k : ℕ) (d : Direct ℕ)
    → count k d.buffer + count k (written_of (Direct.step op d).1)
      ≡ count k (taken_of (Direct.step op d).1) + count k (Direct.step op d).0.buffer
flow op k d =
    let (d', e) = Direct.step op d in
    sym (count-append k d.buffer (written_of e))
    ∙ ap (count k) (Accounting.step-Kept op d).order
    ∙ count-append k (taken_of e) d'.buffer

-- The rest of a step in which the loop stays.
pub aside-Counted :
    (op : Direct.Op ℕ) (k r t : ℕ) (s : Persistent)
    → Spares op
    → (IsMove op → ⊥)
    → t ≡ count k (taken_of (Direct.step op s.direct).1)
    → Counted k r s
    → Counted k (r + t) (stepped op s)
aside-Counted op k r t s spares other et v =
    let d' = (Direct.step op s.direct).0 in
    let e = (Direct.step op s.direct).1 in
    let aside = step-Aside op s.direct other in
    record {
      graceful = step-interrupted op s.direct spares ∙ v.graceful;
      stage = ap (λ l. stage_ok l s.begun) aside.loop ∙ v.stage;
      alive = λ h. ap is_ended aside.loop ∙ v.alive (sym aside.complete ∙ h);
      balance = omega (
        arith,
        v.balance,
        flow op k s.direct,
        count-append k s.accepted (written_of e),
        et,
        ap (λ l. count k (begun_with l s.begun)) aside.loop,
      );
      light = v.light;
      told = λ h. let some_told = v.told h in omega arith;
      held = λ h. v.held (ap (λ l. s.begun && holds_back k l) (sym aside.loop) ∙ h);
    }
