-- ===== src/Receiver/Termination/Steps.antt =====
-- What the threads of a receiver's termination know stays true under every step.
use pubsubplus_go_client.Prelude.{
  ◌+◌, ◌≤◌, ◌≡◌, refl, Bool, true, false, ◌&&◌, List, [], ◌∷◌, ◌++◌, Option, none, some, arith,
}
use pubsubplus_go_client.Prelude.Interleaving.{Discipline}
use pubsubplus_go_client.Receiver.Termination.{
  Shared, Check, Consumer, Dispatch, Terminator, Place, callback, registrar, consumer, dispatch,
  terminator, Pick, Registrar, register, Branch, checked_consumer, checked_pause, is_nil, step,
  push, check, consume, loop, finish,
}
use pubsubplus_go_client.Receiver.Termination.Knowledge.{ends, knows, allowed, Grows, Good}

pub and-intro : {a b : Bool} → a ≡ true → b ≡ true → (a && b) ≡ true
and-intro p q = ground arith

module _ {M : Type 0} where
  is_nil-append : (b : List M) (m : M) → is_nil (b ++ (m ∷ [])) ≡ false
  is_nil-append [] m = refl
  is_nil-append (x ∷ b) m = refl

  push-Good :
      (i : Pick M) (b : List M) (s : Shared M)
      → s.buffer ≡ b
      → allowed s callback ≡ true
      → Good callback s (push i s, callback)
  push-Good i [] s hb a = ground arith
  push-Good i (m ∷ rest) s hb a = ground arith

  register-Good :
      (r : Registrar) (o : Option Bool) (s : Shared M)
      → allowed s (registrar r) ≡ true
      → let (s', r') = register r s in Good (registrar r) s (s', registrar r')
  register-Good _ o s a = ground arith

  check-Good :
      (c : Check) (b : List M) (s : Shared M)
      → s.buffer ≡ b
      → allowed s (consumer (Consumer.checks c)) ≡ true
      → let (s', r) = check c s in
        Good (consumer (Consumer.checks c)) s (s', consumer (checked_consumer r))
  check-Good _ b s hb a = ground arith

  consume-Good :
      (i : Pick M) (c : Consumer) (br : Branch) (b : List M) (s : Shared M)
      → i.branch ≡ br
      → s.buffer ≡ b
      → allowed s (consumer c) ≡ true
      → let (s', c') = consume i c s in Good (consumer c) s (s', consumer c')
  consume-Good i (Consumer.checks c) br b s hi hb a = check-Good c b s hb a
  consume-Good i Consumer.returned br b s hi hb a = ground arith
  consume-Good i Consumer.receives Branch.message [] s hi hb a = ground arith
  consume-Good i Consumer.receives Branch.message (m ∷ rest) s hi hb a = ground arith
  consume-Good i Consumer.receives _ b s hi hb a = ground arith

  pause-Good :
      (c : Check) (b : List M) (s : Shared M)
      → s.buffer ≡ b
      → allowed s (dispatch (Dispatch.checks c)) ≡ true
      → let (s', r) = check c s in
        Good (dispatch (Dispatch.checks c)) s (s', dispatch (checked_pause r))
  pause-Good _ b s hb a = ground arith

  loop-Good :
      (i : Pick M) (d : Dispatch) (br : Branch) (o : Option Bool) (b : List M) (s : Shared M)
      → i.branch ≡ br
      → s.callback_set ≡ o
      → s.buffer ≡ b
      → allowed s (dispatch d) ≡ true
      → let (s', d') = loop i d s in Good (dispatch d) s (s', dispatch d')
  loop-Good i (Dispatch.checks c) br o b s hi ho hb a = pause-Good c b s hb a
  loop-Good i Dispatch.awaits br none b s hi ho hb a = ground arith
  loop-Good i Dispatch.awaits br (some go) b s hi ho hb a = ground arith
  loop-Good i Dispatch.paused Branch.message o b s hi ho hb a = ground arith
  loop-Good i Dispatch.paused br o b s hi ho hb a = ground arith
  loop-Good i Dispatch.selects Branch.message o [] s hi ho hb a = ground arith
  loop-Good i Dispatch.selects Branch.message o (m ∷ rest) s hi ho hb a = ground arith
  loop-Good i Dispatch.selects br o b s hi ho hb a = ground arith
  loop-Good i _ br o b s hi ho hb a = ground arith

  finish-Good :
      (i : Pick M) (t : Terminator) (br : Branch) (b : List M) (s : Shared M)
      → i.branch ≡ br
      → s.buffer ≡ b
      → allowed s (terminator t) ≡ true
      → let (s', t') = finish i t s in Good (terminator t) s (s', terminator t')
  finish-Good i Terminator.waits Branch.timer b s hi hb a = ground arith
  finish-Good i Terminator.waits br b s hi hb a = ground arith
  finish-Good i Terminator.drains br [] s hi hb a = ground arith
  finish-Good i Terminator.drains br (m ∷ rest) s hi hb a = ground arith
  finish-Good i (Terminator.finished none) br b s hi hb a = ground arith
  finish-Good i (Terminator.finished (some n)) br b s hi hb a = ground arith
  finish-Good i _ br b s hi hb a = ground arith

  pub step-Good :
      (i : Pick M) (p : Place) (s : Shared M) → allowed s p ≡ true → Good p s (step i p s)
  unfolding step
  step-Good i callback s a = push-Good i s.buffer s refl a
  step-Good i (registrar r) s a = register-Good r s.callback_set s a
  step-Good i (consumer c) s a = consume-Good i c i.branch s.buffer s refl refl a
  step-Good i (dispatch d) s a = loop-Good i d i.branch s.callback_set s.buffer s refl refl refl a
  step-Good i (terminator t) s a = finish-Good i t i.branch s.buffer s refl refl a

  pub ends-step : (i : Pick M) (p : Place) (s : Shared M) → 0 + ends (step i p s).1 ≡ 0 + ends p
  unfolding step
  ends-step i callback s = refl
  ends-step i (registrar r) s = refl
  ends-step i (consumer c) s = refl
  ends-step i (dispatch d) s = refl
  ends-step i (terminator t) s = refl

  -- What another thread knows outlives a step, but for the tally of a second terminator.
  pub other-knows :
      (p other : Place) (s s' : Shared M)
      → Grows p s s'
      → allowed s other ≡ true
      → 0 + ends p + ends other ≤ 1
      → knows other s' ≡ true
  other-knows p callback s s' g a few = refl
  other-knows p (registrar r) s s' g a few = refl
  other-knows p (consumer Consumer.receives) s s' g a few = refl
  other-knows p (consumer _) s s' g a few = ground arith
  other-knows p (dispatch Dispatch.awaits) s s' g a few = refl
  other-knows p (dispatch (Dispatch.checks Check.loads)) s s' g a few = refl
  other-knows p (dispatch (Dispatch.checks _)) s s' g a few = ground arith
  other-knows p (dispatch _) s s' g a few = ground arith
  other-knows p (terminator (Terminator.finished none)) s s' g a few =
      let same = g.tally (omega arith) in ground arith
  other-knows p (terminator (Terminator.finished (some n))) s s' g a few =
      let same = g.tally (omega arith) in ground arith
  other-knows p (terminator _) s s' g a few = let same = g.tally (omega arith) in ground arith

  abbrev pub discipline : Discipline (Shared M) Place (Pick M)
  discipline = record {
    step = step;
    owns = ends;
    free = λ s. 0;
    allowed = allowed;
    owns-step = λ i p s a. ends-step i p s;
    allowed-step =
        λ i p s a. let good = step-Good i p s a in and-intro good.grows.sound' good.knows';
    allowed-other = λ i p other s a b few.
        let g = (step-Good i p s a).grows in
        and-intro g.sound' (other-knows p other s (step i p s).0 g b few);
  }
