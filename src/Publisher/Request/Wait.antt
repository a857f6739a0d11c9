-- ===== src/Publisher/Request/Wait.antt =====
-- The wait for a reply ends with the publisher.
use pubsubplus_go_client.Prelude.{
  ℕ, ◌+◌, ◌≤◌, ◌≡◌, ◌≢◌, refl, Bool, true, false, List, [], ◌∷◌, arith, leb, leb→le, Bool-cases,
  inl, inr,
}
use pubsubplus_go_client.Publisher.Request.{
  Request, Waiter, Op, unstarted, abandoned, done, channel, timer, complete, signals, replies,
  begins, ends, gives_up, waits, create_reply_correlation, await_outcome, step, run,
}
use pubsubplus_go_client.Publisher.Request.Outcome.{
  sound, steps_left, wait-Nearer, step-Kept, run-sound,
}

module _ {M E : Type 0} where
  abbrev own_of : Op M E → ℕ
  own_of (waits complete last) = 1
  own_of _ = 0

  -- The steps of the closure in which it takes the channel of the publisher's end, where it waits.
  abbrev pub own_steps : List (Op M E) → ℕ
  own_steps [] = 0
  own_steps (op ∷ ops) = own_of op + own_steps ops

  started : (w : Waiter M E) → steps_left w ≤ 5 → w ≢ unstarted
  started unstarted h e = omega arith
  started _ h e = cc

  step-nearer :
      (op : Op M E) (s : Request M E)
      → sound s.waiter ≡ true
      → s.correlation_complete ≡ true
      → steps_left s.waiter ≤ 5
      → 1 ≤ steps_left s.waiter
      → steps_left (step op s).0.waiter + own_of op ≤ steps_left s.waiter
  unfolding step await_outcome
  step-nearer (waits complete last) s i c l n =
      (wait-Nearer s.waiter last s i (started s.waiter l) refl).ahead c n
  step-nearer (waits channel last) s i c l n =
      let k = step-Kept (waits channel last) s i in omega (arith, k.nearer)
  step-nearer (waits timer last) s i c l n =
      let k = step-Kept (waits timer last) s i in omega (arith, k.nearer)
  step-nearer (signals err) s i c l n = omega (arith, (step-Kept (signals err) s i).nearer)
  step-nearer (replies m) s i c l n = omega (arith, (step-Kept (replies m) s i).nearer)
  step-nearer begins s i c l n = omega (arith, (step-Kept begins s i).nearer)
  step-nearer ends s i c l n = omega (arith, (step-Kept ends s i).nearer)
  step-nearer (gives_up last) s i c l n = omega (arith, (step-Kept (gives_up last) s i).nearer)

  run-nearer :
      (ops : List (Op M E)) (s : Request M E)
      → sound s.waiter ≡ true
      → s.correlation_complete ≡ true
      → steps_left s.waiter ≤ 5
      → steps_left s.waiter ≤ own_steps ops
      → steps_left (run ops s).0.waiter ≡ 0
  unfolding run
  run-nearer [] s i c l n = omega arith
  run-nearer (op ∷ ops) s i c l n =
      let k = step-Kept op s i in
      let near = k.nearer in
      let fewer : steps_left (step op s).0.waiter ≤ own_steps ops =
        elim (Bool-cases (leb 1 (steps_left s.waiter))) [
          | inl some' ↦ let m = step-nearer op s i c l (leb→le _ _ some') in omega arith
          | inr none' ↦ let z : steps_left s.waiter ≡ 0 = ground arith in omega arith
        ] in
      run-nearer ops (step op s).0 k.sound' (k.complete' c) (omega arith) fewer

  abbrev pub is_called : Waiter M E → Bool
  is_called unstarted = false
  is_called _ = true

  abbrev pub has_outcome : Waiter M E → Bool
  has_outcome (done m e) = true
  has_outcome abandoned = true
  has_outcome _ = false

  called-steps : (w : Waiter M E) → is_called w ≡ true → steps_left w ≤ 5
  called-steps unstarted h = cc
  called-steps _ h = omega arith

  outcome-steps : (w : Waiter M E) → steps_left w ≡ 0 → has_outcome w ≡ true
  outcome-steps (done m e) h = refl
  outcome-steps abandoned h = refl
  outcome-steps _ h = absurd (omega arith)

  -- Once the publisher's end is signalled, a wait for a reply ends, whatever it waits for and whatever
  -- else happens: five steps of its own are enough, if it takes that signal where it waits.
  pub run_over :
      (has_timeout over : Bool) (before ops : List (Op M E))
      → let s = (run before (create_reply_correlation has_timeout over)).0 in
        s.correlation_complete ≡ true
        → is_called s.waiter ≡ true
        → 5 ≤ own_steps ops
        → has_outcome (run ops s).0.waiter ≡ true
  unfolding create_reply_correlation
  run_over has_timeout over before ops c called enough =
      let start = create_reply_correlation has_timeout over in
      let s = (run before start).0 in
      let few = called-steps s.waiter called in
      outcome-steps (run ops s).0.waiter
        (run-nearer ops s (run-sound before start refl) c few (omega arith))
