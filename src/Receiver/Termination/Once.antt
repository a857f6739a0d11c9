-- ===== src/Receiver/Termination/Once.antt =====
-- The notice that the buffer is empty is given once.
use pubsubplus_go_client.Prelude.{
  ℕ, ◌+◌, ◌≤◌, ◌≡◌, refl, Bool, true, List, [], ◌∷◌, Option, none, some, if◌then◌else◌, arith, inl,
  inr,
}
use pubsubplus_go_client.Prelude.Family.{sum_below-zero}
use pubsubplus_go_client.Prelude.Interleaving.{Picks, run, run-total}
use pubsubplus_go_client.Receiver.Termination.{
  Shared, Check, Consumer, Dispatch, Terminator, Place, callback, registrar, consumer, dispatch,
  terminator, Registrar, Pick, Branch, step, consume, loop, finish,
}
use pubsubplus_go_client.Receiver.Termination.Knowledge.{allowed}
use pubsubplus_go_client.Receiver.Termination.Steps.{discipline}
use pubsubplus_go_client.Receiver.Termination.Start.{Starts, start-Inv, Threads, at_start}

-- A thread that has set the flag and is about to close the channel.
abbrev pub closing : Place → ℕ
closing (consumer (Consumer.checks Check.closes)) = 1
closing (dispatch (Dispatch.checks Check.closes)) = 1
closing (dispatch Dispatch.closes) = 1
closing (terminator Terminator.closes) = 1
closing (terminator Terminator.closes_late) = 1
closing _ = 0

pub start-open : (p : Place) → Starts p → closing p ≡ 0
start-open callback h = refl
start-open (registrar r) h = refl
start-open (consumer c) h = rw h refl
start-open (dispatch d) h = rw h refl
start-open (terminator t) (inl h) = rw h refl
start-open (terminator t) (inr h) = rw h refl

module _ {M : Type 0} where
  -- The flag not set, or the channel closed.
  abbrev pub unsignalled : Shared M → ℕ
  unsignalled s = (if s.empty_flag then 0 else 1) + s.empty_closes

  abbrev Balanced : Place → Shared M → Shared M × Place → Type 0
  Balanced p s r = unsignalled r.0 + closing r.1 ≡ unsignalled s + closing p

  consume-Balanced :
      (i : Pick M) (c : Consumer) (br : Branch) (b : List M) (s : Shared M)
      → i.branch ≡ br
      → s.buffer ≡ b
      → let (s', c') = consume i c s in Balanced (consumer c) s (s', consumer c')
  consume-Balanced i (Consumer.checks Check.loads) br b s hi hb = ground arith
  consume-Balanced i (Consumer.checks _) br b s hi hb = ground arith
  consume-Balanced i Consumer.returned br b s hi hb = refl
  consume-Balanced i Consumer.receives Branch.message [] s hi hb = ground arith
  consume-Balanced i Consumer.receives Branch.message (m ∷ rest) s hi hb = ground arith
  consume-Balanced i Consumer.receives _ b s hi hb = ground arith

  loop-Balanced :
      (i : Pick M) (d : Dispatch) (br : Branch) (o : Option Bool) (b : List M) (s : Shared M)
      → i.branch ≡ br
      → s.callback_set ≡ o
      → s.buffer ≡ b
      → let (s', d') = loop i d s in Balanced (dispatch d) s (s', dispatch d')
  loop-Balanced i (Dispatch.checks Check.loads) br o b s hi ho hb = ground arith
  loop-Balanced i (Dispatch.checks _) br o b s hi ho hb = ground arith
  loop-Balanced i Dispatch.awaits br none b s hi ho hb = ground arith
  loop-Balanced i Dispatch.awaits br (some go) b s hi ho hb = ground arith
  loop-Balanced i Dispatch.paused Branch.message o b s hi ho hb = ground arith
  loop-Balanced i Dispatch.paused br o b s hi ho hb = ground arith
  loop-Balanced i Dispatch.selects Branch.message o [] s hi ho hb = ground arith
  loop-Balanced i Dispatch.selects Branch.message o (m ∷ rest) s hi ho hb = ground arith
  loop-Balanced i Dispatch.selects br o b s hi ho hb = ground arith
  loop-Balanced i _ br o b s hi ho hb = ground arith

  finish-Balanced :
      (i : Pick M) (t : Terminator) (br : Branch) (b : List M) (s : Shared M)
      → i.branch ≡ br
      → s.buffer ≡ b
      → let (s', t') = finish i t s in Balanced (terminator t) s (s', terminator t')
  finish-Balanced i Terminator.waits Branch.timer b s hi hb = ground arith
  finish-Balanced i Terminator.waits br b s hi hb = ground arith
  finish-Balanced i Terminator.drains br [] s hi hb = ground arith
  finish-Balanced i Terminator.drains br (m ∷ rest) s hi hb = ground arith
  finish-Balanced i _ br b s hi hb = ground arith

  pub step-Balanced :
      (i : Pick M) (p : Place) (s : Shared M) → allowed s p ≡ true → Balanced p s (step i p s)
  unfolding step
  step-Balanced i callback s a = ground arith
  step-Balanced i (registrar Registrar.registered) s a = refl
  step-Balanced i (registrar _) s a = ground arith
  step-Balanced i (consumer c) s a = consume-Balanced i c i.branch s.buffer s refl refl
  step-Balanced i (dispatch d) s a =
      loop-Balanced i d i.branch s.callback_set s.buffer s refl refl refl
  step-Balanced i (terminator t) s a = finish-Balanced i t i.branch s.buffer s refl refl

  -- Any number of threads call the receiver, of which one terminates it, in any order of their steps:
  -- bufferEmptyOnTerminate is closed at most once, so no close of it panics.
  pub run_closes_once :
      (n : ℕ) (places : ℕ → Place) (picks : List (ℕ × Pick M))
      → Threads n places
      → Picks n picks
      → (run discipline picks (at_start places)).shared.empty_closes ≤ 1
  run_closes_once n places picks threads h =
      let v = start-Inv M n places threads.start threads.one_end in
      omega (
        arith,
        run-total discipline unsignalled closing step-Balanced n picks (at_start places) h v,
        sum_below-zero closing n places (λ t ht. start-open (places t) (threads.start t ht)),
      )
