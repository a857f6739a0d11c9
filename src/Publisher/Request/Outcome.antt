-- ===== src/Publisher/Request/Outcome.antt =====
-- What the reply handler is called with.
use pubsubplus_go_client.Prelude.{
  ℕ, ◌+◌, ◌≤◌, ◌≡◌, ◌≢◌, refl, Bool, true, false, List, [], ◌∷◌, Option, none, some, All, arith,
}
use pubsubplus_go_client.Publisher.Request.{
  Request, Waiter, Event, Op, Choice, Failure, dispatched, unstarted, abandoned, awaiting_sent,
  awaiting_result, checking, dispatching, closing, done, channel, timer, complete, signals, replies,
  begins, ends, gives_up, waits, create_reply_correlation, signal_request_correlation_sent,
  handle_reply_message, wait_step, abandon, close_reply_correlation, close_correlations,
  await_outcome, step, run,
}

-- A message or an error, and not both.
abbrev pub is_one : {M E : Type 0} → Option M → Option (Failure E) → Bool
is_one (some m) none = true
is_one none (some e) = true
is_one _ _ = false

module _ {M E : Type 0} where
  abbrev pub calls_of : Event M E → ℕ
  calls_of (dispatched m e) = 1
  calls_of _ = 0

  abbrev pub handler_calls : List (Event M E) → ℕ
  handler_calls [] = 0
  handler_calls (e ∷ es) = calls_of e + handler_calls es

  abbrev pub IsOne : Event M E → Type 0
  IsOne (dispatched m e) = is_one m e ≡ true
  IsOne _ = Unit

  -- The calls of the handler that are still to come.
  abbrev pub calls_left : Waiter M E → ℕ
  calls_left (closing m e) = 0
  calls_left (done m e) = 0
  calls_left abandoned = 0
  calls_left _ = 1

  abbrev pub sound : Waiter M E → Bool
  sound (dispatching m e) = is_one m e
  sound _ = true

  -- The steps that the closure has still to make, once it is called.
  abbrev pub steps_left : Waiter M E → ℕ
  steps_left unstarted = 6
  steps_left awaiting_sent = 5
  steps_left awaiting_result = 4
  steps_left (checking m) = 3
  steps_left (dispatching m e) = 2
  steps_left (closing m e) = 1
  steps_left _ = 0

  -- What a step from the place `w` keeps of the waiting; `over` is whether the publisher is over.
  pub record Kept (w : Waiter M E) (over : Bool) (r : Request M E × Event M E) : Type 0 where
    pub called : calls_of r.1 + calls_left r.0.waiter ≤ calls_left w
    pub one : IsOne r.1
    pub sound' : sound r.0.waiter ≡ true
    pub nearer : steps_left r.0.waiter ≤ steps_left w
    pub complete' : over ≡ true → r.0.correlation_complete ≡ true

  close-Kept :
      (last : Bool) (sent : List (Option E)) (r : List M) (w : Waiter M E) (s : Request M E)
      → s.sent ≡ sent
      → s.result ≡ r
      → sound w ≡ true
      → Kept w s.correlation_complete (close_reply_correlation last (record s { waiter = w }))
  unfolding close_reply_correlation
  close-Kept last [] [] w s h k i = ground arith
  close-Kept last (x ∷ xs) [] w s h k i = ground arith
  close-Kept last [] (m ∷ r) w s h k i = ground arith
  close-Kept last (x ∷ xs) (m ∷ r) w s h k i = ground arith

  -- The closure comes nearer to its end; where the publisher is over, with each step that it makes.
  pub record Nearer (w : Waiter M E) (over : Bool) (r : Request M E × Event M E) : Type 0 where
    pub kept : Kept w over r
    pub ahead : over ≡ true → 1 ≤ steps_left w → steps_left r.0.waiter + 1 ≤ steps_left w

  pub wait-Nearer :
      (w : Waiter M E) (last : Bool) (s : Request M E)
      → sound w ≡ true
      → w ≢ unstarted
      → s.waiter ≡ w
      → Nearer w s.correlation_complete (wait_step w complete last s)
  wait-Nearer unstarted last s i n h = absurd (n refl)
  wait-Nearer (closing m e) last s i n h =
      let k = close-Kept last s.sent s.result (done m e) s refl refl refl in
      let called = k.called in
      let nearer = k.nearer in
      record {
        kept = record {
          called = omega arith;
          one = k.one;
          sound' = k.sound';
          nearer = omega arith;
          complete' = k.complete';
        };
        ahead = λ o l. omega arith;
      }
  wait-Nearer _ last s i n h = ground arith

  waits-Kept :
      (w : Waiter M E) (choice : Choice) (last : Bool) (sent : List (Option E)) (r : List M)
      (s : Request M E)
      → sound w ≡ true
      → s.sent ≡ sent
      → s.result ≡ r
      → s.waiter ≡ w
      → Kept w s.correlation_complete (wait_step w choice last s)
  waits-Kept awaiting_sent channel last [] r s i k l h = ground arith
  waits-Kept awaiting_sent channel last (none ∷ xs) r s i k l h = ground arith
  waits-Kept awaiting_sent channel last (some x ∷ xs) r s i k l h = ground arith
  waits-Kept awaiting_sent timer last sent r s i k l h = ground arith
  waits-Kept awaiting_sent complete last sent r s i k l h = ground arith
  waits-Kept awaiting_result channel last sent [] s i k l h = ground arith
  waits-Kept awaiting_result channel last sent (m ∷ r) s i k l h = ground arith
  waits-Kept awaiting_result timer last sent r s i k l h = ground arith
  waits-Kept awaiting_result complete last sent r s i k l h = ground arith
  waits-Kept (closing m e) choice last sent r s i k l h =
      (wait-Nearer (closing m e) last s i (λ u. cc) h).kept
  waits-Kept _ choice last sent r s i k l h = ground arith

  signals-Kept :
      (sent : List (Option E)) (err : Option E) (s : Request M E)
      → s.sent ≡ sent
      → sound s.waiter ≡ true
      → Kept s.waiter s.correlation_complete (signal_request_correlation_sent err s)
  unfolding signal_request_correlation_sent
  signals-Kept [] err s h i = ground arith
  signals-Kept (x ∷ xs) err s h i = ground arith

  ends-Kept :
      (sent : List (Option E)) (s : Request M E)
      → s.sent ≡ sent
      → sound s.waiter ≡ true
      → Kept s.waiter s.correlation_complete (step ends s)
  unfolding step close_correlations
  ends-Kept [] s h i = ground arith
  ends-Kept (x ∷ xs) s h i = ground arith

  begins-Kept :
      (w : Waiter M E) (s : Request M E)
      → s.waiter ≡ w
      → sound w ≡ true
      → Kept w s.correlation_complete (step begins s)
  unfolding step
  begins-Kept unstarted s h i = ground arith
  begins-Kept _ s h i = ground arith

  gives_up-Kept :
      (w : Waiter M E) (last : Bool) (s : Request M E)
      → s.waiter ≡ w
      → sound w ≡ true
      → Kept w s.correlation_complete (abandon w last s)
  gives_up-Kept unstarted last s h i =
      let k = close-Kept last s.sent s.result abandoned s refl refl refl in
      let called = k.called in
      let nearer = k.nearer in
      record {
        called = omega arith;
        one = k.one;
        sound' = k.sound';
        nearer = omega arith;
        complete' = k.complete';
      }
  gives_up-Kept _ last s h i = ground arith

  replies-Kept :
      (m : M) (s : Request M E)
      → sound s.waiter ≡ true
      → Kept s.waiter s.correlation_complete (handle_reply_message m s)
  unfolding handle_reply_message
  replies-Kept m s i = ground arith

  pub step-Kept :
      (op : Op M E) (s : Request M E)
      → sound s.waiter ≡ true
      → Kept s.waiter s.correlation_complete (step op s)
  unfolding step await_outcome
  step-Kept (signals err) s i = signals-Kept s.sent err s refl i
  step-Kept (replies m) s i = replies-Kept m s i
  step-Kept begins s i = begins-Kept s.waiter s refl i
  step-Kept ends s i = ends-Kept s.sent s refl i
  step-Kept (gives_up last) s i = gives_up-Kept s.waiter last s refl i
  step-Kept (waits choice last) s i =
      waits-Kept s.waiter choice last s.sent s.result s i refl refl refl

  pub run-sound :
      (ops : List (Op M E)) (s : Request M E)
      → sound s.waiter ≡ true
      → sound (run ops s).0.waiter ≡ true
  unfolding run
  run-sound [] s i = i
  run-sound (op ∷ ops) s i = run-sound ops (step op s).0 (step-Kept op s i).sound'

  run-called :
      (ops : List (Op M E)) (s : Request M E)
      → sound s.waiter ≡ true
      → (handler_calls (run ops s).1 ≤ calls_left s.waiter) × All IsOne (run ops s).1
  unfolding run
  run-called [] s i = (omega arith, tt)
  run-called (op ∷ ops) s i =
      let k = step-Kept op s i in
      let (calls, ones) = run-called ops (step op s).0 k.sound' in
      (omega (arith, k.called, calls), (k.one, ones))

  -- The reply handler is called at most once, with a reply or with an error and never with both or
  -- neither, over any schedule.
  pub run_handler_once :
      (has_timeout over : Bool) (ops : List (Op M E))
      → let events = (run ops (create_reply_correlation has_timeout over)).1 in
        (handler_calls events ≤ 1) × All IsOne events
  unfolding create_reply_correlation
  run_handler_once has_timeout over ops =
      run-called ops (create_reply_correlation has_timeout over) refl
