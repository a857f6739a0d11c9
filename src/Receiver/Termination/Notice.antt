-- ===== src/Receiver/Termination/Notice.antt =====
-- The notice that the buffer is empty is never missed.
use pubsubplus_go_client.Prelude.{
  ℕ, ◌+◌, ◌≤◌, ◌<◌, ◌≡◌, refl, Bool, true, false, ◌&&◌, List, [], ◌∷◌, Option, none, some, not,
  ◌==◌, if◌then◌else◌, arith, ap, ◌⊎◌, inl, inr,
}
use pubsubplus_go_client.Prelude.Family.{sum_below, sum_below-zero}
use pubsubplus_go_client.Prelude.Interleaving.{System, Picks, run, run-total, run-tended}
use pubsubplus_go_client.Receiver.Termination.{
  Shared, Check, Consumer, Dispatch, Terminator, Place, callback, registrar, consumer, dispatch,
  terminator, Registrar, Pick, Branch, step, push, is_nil, consume, loop, finish,
}
use pubsubplus_go_client.Receiver.Termination.Knowledge.{allowed}
use pubsubplus_go_client.Receiver.Termination.Steps.{discipline}
use pubsubplus_go_client.Receiver.Termination.Start.{start-Inv, Threads, at_start}
use pubsubplus_go_client.Receiver.Termination.Once.{closing, unsignalled, step-Balanced, start-open}

-- A thread that is going to look whether the buffer is empty, or to set the flag.
abbrev tending : Place → ℕ
tending (consumer (Consumer.checks Check.closes)) = 0
tending (consumer (Consumer.checks c)) = 1
tending (dispatch (Dispatch.checks Check.closes)) = 0
tending (dispatch (Dispatch.checks c)) = 1
tending (dispatch Dispatch.looks) = 1
tending (dispatch Dispatch.peeks) = 1
tending (dispatch Dispatch.selects) = 1
tending (dispatch Dispatch.handles) = 1
tending (dispatch Dispatch.swaps) = 1
tending (terminator Terminator.lengths) = 1
tending (terminator Terminator.swaps) = 1
tending (terminator Terminator.un_sends) = 1
tending (terminator Terminator.un_notifies) = 1
tending _ = 0

-- No step of the thread is due that bears on the notice: it has not begun, it waits, or it is over. The
-- loop of `run` rests in the wait of a pause, not in its receive, which a closed buffer does not block.
abbrev pub is_resting : Place → Bool
is_resting p = tending p + closing p == 0

resting-zero :
    (n : ℕ) (pcs : ℕ → Place)
    → ((t : ℕ) → t < n → is_resting (pcs t) ≡ true)
    → (sum_below tending n pcs ≡ 0) × (sum_below closing n pcs ≡ 0)
resting-zero n pcs rest = (
  sum_below-zero tending n pcs (λ t h. (both (pcs t) (rest t h)).0),
  sum_below-zero closing n pcs (λ t h. (both (pcs t) (rest t h)).1),
)
  where
    both : (p : Place) → is_resting p ≡ true → (tending p ≡ 0) × (closing p ≡ 0)
    both p h = ground arith

module _ {M : Type 0} where
  -- The buffer is closed and empty, nobody has set the flag, and the period is not over.
  abbrev owed : Shared M → ℕ
  owed s = if s.buffer_closed && is_nil s.buffer && not s.empty_flag && not s.notified then 1 else 0

  abbrev Tended : Place → Shared M → Shared M × Place → Type 0
  Tended p s r = (owed r.0 ≤ tending r.1) ⊎ ((owed r.0 ≤ owed s) × (tending p ≤ tending r.1))

  consume-Tended :
      (i : Pick M) (c : Consumer) (br : Branch) (b : List M) (s : Shared M)
      → i.branch ≡ br
      → s.buffer ≡ b
      → let (s', c') = consume i c s in Tended (consumer c) s (s', consumer c')
  consume-Tended i (Consumer.checks Check.closes) br b s hi hb = inr (ground arith)
  consume-Tended i (Consumer.checks _) br b s hi hb = inl (ground arith)
  consume-Tended i Consumer.returned br b s hi hb = inr (ground arith)
  consume-Tended i Consumer.receives Branch.message [] s hi hb = inr (ground arith)
  consume-Tended i Consumer.receives Branch.message (m ∷ rest) s hi hb = inl (ground arith)
  consume-Tended i Consumer.receives _ b s hi hb = inr (ground arith)

  loop-Tended :
      (i : Pick M) (d : Dispatch) (br : Branch) (o : Option Bool) (b : List M) (s : Shared M)
      → i.branch ≡ br
      → s.callback_set ≡ o
      → s.buffer ≡ b
      → let (s', d') = loop i d s in Tended (dispatch d) s (s', dispatch d')
  loop-Tended i (Dispatch.checks Check.closes) br o b s hi ho hb = inr (ground arith)
  loop-Tended i (Dispatch.checks _) br o b s hi ho hb = inl (ground arith)
  loop-Tended i Dispatch.awaits br none b s hi ho hb = inr (ground arith)
  loop-Tended i Dispatch.awaits br (some go) b s hi ho hb = inr (ground arith)
  loop-Tended i Dispatch.looks br o b s hi ho hb = inl (ground arith)
  loop-Tended i Dispatch.paused Branch.message o b s hi ho hb = inr (ground arith)
  loop-Tended i Dispatch.paused br o b s hi ho hb = inr (ground arith)
  loop-Tended i Dispatch.peeks br o b s hi ho hb = inl (ground arith)
  loop-Tended i Dispatch.selects Branch.message o [] s hi ho hb = inl (ground arith)
  loop-Tended i Dispatch.selects Branch.message o (m ∷ rest) s hi ho hb = inl (ground arith)
  loop-Tended i Dispatch.selects br o b s hi ho hb = inl (ground arith)
  loop-Tended i Dispatch.handles br o b s hi ho hb = inl (ground arith)
  loop-Tended i Dispatch.swaps br o b s hi ho hb = inl (ground arith)
  loop-Tended i _ br o b s hi ho hb = inr (ground arith)

  finish-Tended :
      (i : Pick M) (t : Terminator) (br : Branch) (b : List M) (s : Shared M)
      → i.branch ≡ br
      → s.buffer ≡ b
      → allowed s (terminator t) ≡ true
      → let (s', t') = finish i t s in Tended (terminator t) s (s', terminator t')
  finish-Tended i Terminator.stores br b s hi hb a = inl (ground arith)
  finish-Tended i Terminator.lengths br b s hi hb a = inl (ground arith)
  finish-Tended i Terminator.swaps br b s hi hb a = inl (ground arith)
  finish-Tended i Terminator.waits Branch.timer b s hi hb a = inr (ground arith)
  finish-Tended i Terminator.waits br b s hi hb a = inr (ground arith)
  finish-Tended i Terminator.drains br [] s hi hb a = inr (ground arith)
  finish-Tended i Terminator.drains br (m ∷ rest) s hi hb a = inl (ground arith)
  finish-Tended i Terminator.un_stores br b s hi hb a = inl (ground arith)
  finish-Tended i Terminator.un_sends br b s hi hb a = inl (ground arith)
  finish-Tended i Terminator.un_notifies br b s hi hb a = inl (ground arith)
  finish-Tended i _ br b s hi hb a = inr (ground arith)

  step-Tended :
      (i : Pick M) (p : Place) (s : Shared M) → allowed s p ≡ true → Tended p s (step i p s)
  unfolding step
  step-Tended i callback s a = inr (push-owed i s.buffer s refl a)
    where
      push-owed :
          (i : Pick M) (b : List M) (s : Shared M)
          → s.buffer ≡ b
          → allowed s callback ≡ true
          → (owed (push i s) ≤ owed s) × (0 ≤ 0)
      push-owed i [] s hb a = ground arith
      push-owed i (m ∷ rest) s hb a = ground arith
  step-Tended i (registrar Registrar.registered) s a = inr (ground arith)
  step-Tended i (registrar _) s a = inr (ground arith)
  step-Tended i (consumer c) s a = consume-Tended i c i.branch s.buffer s refl refl
  step-Tended i (dispatch d) s a = loop-Tended i d i.branch s.callback_set s.buffer s refl refl refl
  step-Tended i (terminator t) s a = finish-Tended i t i.branch s.buffer s refl refl a

  -- Any number of threads call the receiver, of which one terminates it, in any order of their steps.
  -- At a time when the period of the termination is not over, the buffer is closed and empty, and all
  -- threads rest, the notice has been given: bufferEmptyOnTerminate is closed, which wakes Terminate.
  pub run_wakes :
      (n : ℕ) (places : ℕ → Place) (picks : List (ℕ × Pick M))
      → Threads n places
      → Picks n picks
      → let s = run discipline picks (at_start places) in
        ((t : ℕ) → t < n → is_resting (s.pcs t) ≡ true)
        → s.shared.buffer_closed ≡ true
        → s.shared.buffer ≡ []
        → s.shared.notified ≡ false
        → s.shared.empty_closes ≡ 1
  run_wakes n places picks threads h rest closed empty early =
      let v = start-Inv M n places threads.start threads.one_end in
      let s : System (Shared M) Place = run discipline picks (at_start places) in
      let quiet = resting-zero n s.pcs rest in
      let tended =
        run-tended discipline owed tending step-Tended n picks (at_start places) h v
          (omega arith) in
      let balance =
        run-total discipline unsignalled closing step-Balanced n picks (at_start places) h v in
      let none_open =
        sum_below-zero closing n places (λ t ht. start-open (places t) (threads.start t ht)) in
      let nil : is_nil s.shared.buffer ≡ true = ap is_nil empty in ground arith
