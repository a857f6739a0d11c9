-- ===== src/Publisher/Request/Replies.antt =====
-- What becomes of the replies that are taken over from the C library.
use pubsubplus_go_client.Prelude.{
  ℕ, ◌+◌, ◌≤◌, ◌≡◌, refl, sym, ap, ◌∙◌, Bool, false, List, [], ◌∷◌, ◌++◌, Option, none, some,
  length, length-append, queue_twice, if◌then◌else◌, arith,
}
use mathlib.Core.Path.{subst}
use mathlib.Core.List.{append-nil}
use pubsubplus_go_client.Publisher.Request.{
  Request, Waiter, Event, Op, Choice, accepted, disposed, dropped, dispatched, unstarted, abandoned,
  awaiting_sent, awaiting_result, checking, dispatching, closing, done, channel, timer, complete,
  signals, replies, begins, ends, gives_up, waits, wait_step, abandon, create_reply_correlation,
  signal_request_correlation_sent, handle_reply_message, close_reply_correlation,
  close_correlations, await_outcome, step, run,
}

module _ {M E : Type 0} where
  abbrev accepted_of : Event M E → List M
  accepted_of (accepted m) = m ∷ []
  accepted_of _ = []

  -- Given to the application, or disposed of, or dropped.
  abbrev left_of : Event M E → List M
  left_of (disposed m) = m ∷ []
  left_of (dropped m) = m ∷ []
  left_of (dispatched (some m) e) = m ∷ []
  left_of _ = []

  abbrev in_hand : Waiter M E → List M
  in_hand (checking m) = m ∷ []
  in_hand (dispatching (some m) e) = m ∷ []
  in_hand _ = []

  abbrev pub held : Request M E → List M
  held s = s.result ++ in_hand s.waiter

  record Inv (s : Request M E) : Type 0 where
    one : length (held s) ≤ 1
    fresh : s.received ≡ false → held s ≡ []

  -- A reply may still be taken over.
  abbrev room : Request M E → ℕ
  room s = if s.received then 0 else 1

  record Kept (s : Request M E) (r : Request M E × Event M E) : Type 0 where
    order : held s ++ accepted_of r.1 ≡ left_of r.1 ++ held r.0
    inv : Inv r.0
    budget : length (accepted_of r.1) + room r.0 ≤ room s

  signals-Kept :
      (sent : List (Option E)) (err : Option E) (s : Request M E)
      → s.sent ≡ sent
      → Inv s
      → Kept s (signal_request_correlation_sent err s)
  unfolding signal_request_correlation_sent
  signals-Kept [] err s h v = ground (arith, append-nil (held s))
  signals-Kept (x ∷ xs) err s h v = ground (arith, append-nil (held s))

  replies-Kept :
      (m : M) (r hand : List M) (s : Request M E)
      → s.result ≡ r
      → in_hand s.waiter ≡ hand
      → Inv s
      → Kept s (handle_reply_message m s)
  unfolding handle_reply_message
  replies-Kept m [] [] s h k v = ground (arith, append-nil (held s))
  replies-Kept m [] (x ∷ xs) s h k v = ground (arith, append-nil (held s))
  replies-Kept m (x ∷ xs) hand s h k v = ground (arith, append-nil (held s))

  close-Kept :
      (last : Bool) (sent : List (Option E)) (r : List M) (s : Request M E)
      → s.sent ≡ sent
      → s.result ≡ r
      → in_hand s.waiter ≡ []
      → Inv s
      → Kept s (close_reply_correlation last s)
  unfolding close_reply_correlation
  close-Kept last [] [] s h k w v = ground (arith, append-nil (held s))
  close-Kept last (x ∷ xs) [] s h k w v = ground (arith, append-nil (held s))
  close-Kept last [] (m ∷ r) s h k w v = ground (arith, append-nil r)
  close-Kept last (x ∷ xs) (m ∷ r) s h k w v = ground (arith, append-nil r)

  same_hand :
      (w : Waiter M E) (s : Request M E) (r : Request M E × Event M E)
      → in_hand s.waiter ≡ in_hand w
      → Kept (record s { waiter = w }) r
      → Kept s r
  same_hand w s r h k =
      let same : held s ≡ held (record s { waiter = w }) = ap (λ l. s.result ++ l) h in
      record {
        order = ap (λ l. l ++ accepted_of r.1) same ∙ k.order;
        inv = k.inv;
        budget = k.budget;
      }

  other_waiter-Inv :
      (w : Waiter M E) (s : Request M E)
      → in_hand s.waiter ≡ in_hand w
      → Inv s
      → Inv (record s { waiter = w })
  other_waiter-Inv w s h v =
      let same : held s ≡ held (record s { waiter = w }) = ap (λ l. s.result ++ l) h in
      record { one = omega (arith, v.one, ap length same); fresh = λ f. sym same ∙ v.fresh f }

  close_as-Kept :
      (w : Waiter M E) (last : Bool) (s : Request M E)
      → in_hand s.waiter ≡ []
      → in_hand w ≡ []
      → Inv s
      → Kept s (close_reply_correlation last (record s { waiter = w }))
  close_as-Kept w last s h k v = same_hand w s _ (h ∙ sym k) (
      close-Kept last s.sent s.result (record s { waiter = w }) refl refl k
        (other_waiter-Inv w s (h ∙ sym k) v))

  waits-Kept :
      (w : Waiter M E) (choice : Choice) (last : Bool) (sent : List (Option E)) (r : List M)
      (s : Request M E)
      → s.waiter ≡ w
      → s.sent ≡ sent
      → s.result ≡ r
      → Inv s
      → Kept s (await_outcome choice last s)
  unfolding await_outcome
  waits-Kept unstarted choice last sent r s h k l v = ground (arith, append-nil (held s))
  waits-Kept abandoned choice last sent r s h k l v = ground (arith, append-nil (held s))
  waits-Kept awaiting_sent channel last [] r s h k l v = ground (arith, append-nil (held s))
  waits-Kept awaiting_sent channel last (none ∷ xs) r s h k l v =
      ground (arith, append-nil (held s))
  waits-Kept awaiting_sent channel last (some x ∷ xs) r s h k l v =
      ground (arith, append-nil (held s))
  waits-Kept awaiting_sent timer last sent r s h k l v = ground (arith, append-nil (held s))
  waits-Kept awaiting_sent complete last sent r s h k l v = ground (arith, append-nil (held s))
  waits-Kept awaiting_result channel last sent [] s h k l v = ground (arith, append-nil (held s))
  waits-Kept awaiting_result channel last sent (m ∷ []) s h k l v =
      ground (arith, append-nil (held s))
  waits-Kept awaiting_result channel last sent (m ∷ (n ∷ r)) s h k l v =
      ground (arith, append-nil (held s))
  waits-Kept awaiting_result timer last sent r s h k l v = ground (arith, append-nil (held s))
  waits-Kept awaiting_result complete last sent r s h k l v = ground (arith, append-nil (held s))
  waits-Kept (checking m) choice last sent [] s h k l v = ground (arith, append-nil (held s))
  waits-Kept (checking m) choice last sent (n ∷ r) s h k l v =
      ground (arith, append-nil (held s), length-append r (m ∷ []))
  waits-Kept (dispatching none e) choice last sent r s h k l v = ground (arith, append-nil (held s))
  waits-Kept (dispatching (some m) e) choice last sent [] s h k l v =
      ground (arith, append-nil (held s))
  waits-Kept (dispatching (some m) e) choice last sent (n ∷ r) s h k l v =
      ground (arith, append-nil (held s), length-append r (m ∷ []))
  waits-Kept (done m e) choice last sent r s h k l v = ground (arith, append-nil (held s))
  waits-Kept (closing m e) choice last sent r s h k l v =
      subst (λ r. Kept s r) (ap (λ w. wait_step w choice last s) (sym h))
        (close_as-Kept (done m e) last s (ap in_hand h) refl v)

  begins-Kept : (w : Waiter M E) (s : Request M E) → s.waiter ≡ w → Inv s → Kept s (step begins s)
  unfolding step
  begins-Kept unstarted s h v = ground (arith, append-nil (held s))
  begins-Kept _ s h v = ground (arith, append-nil (held s))

  gives_up-Kept :
      (w : Waiter M E) (last : Bool) (s : Request M E)
      → s.waiter ≡ w
      → Inv s
      → Kept s (step (gives_up last) s)
  unfolding step
  gives_up-Kept unstarted last s h v =
      subst (λ r. Kept s r) (ap (λ w. abandon w last s) (sym h))
        (close_as-Kept abandoned last s (ap in_hand h) refl v)
  gives_up-Kept _ last s h v = ground (arith, append-nil (held s))

  ends-Kept :
      (sent : List (Option E)) (s : Request M E) → s.sent ≡ sent → Inv s → Kept s (step ends s)
  unfolding step close_correlations
  ends-Kept [] s h v = ground (arith, append-nil (held s))
  ends-Kept (x ∷ xs) s h v = ground (arith, append-nil (held s))

  step-Kept : (op : Op M E) (s : Request M E) → Inv s → Kept s (step op s)
  unfolding step
  step-Kept (signals err) s v = signals-Kept s.sent err s refl v
  step-Kept (replies m) s v = replies-Kept m s.result (in_hand s.waiter) s refl refl v
  step-Kept begins s v = begins-Kept s.waiter s refl v
  step-Kept ends s v = ends-Kept s.sent s refl v
  step-Kept (gives_up last) s v = gives_up-Kept s.waiter last s refl v
  step-Kept (waits choice last) s v =
      waits-Kept s.waiter choice last s.sent s.result s refl refl refl v

  abbrev pub accepted_all : List (Event M E) → List M
  accepted_all [] = []
  accepted_all (e ∷ es) = accepted_of e ++ accepted_all es

  abbrev pub left_all : List (Event M E) → List M
  left_all [] = []
  left_all (e ∷ es) = left_of e ++ left_all es

  run-order :
      (ops : List (Op M E)) (s : Request M E)
      → Inv s
      → let (s', events) = run ops s in held s ++ accepted_all events ≡ left_all events ++ held s'
  unfolding run
  run-order [] s v = append-nil (held s)
  run-order (op ∷ ops) s v =
      let k = step-Kept op s v in
      queue_twice (held s) (accepted_of (step op s).1) _ (left_of (step op s).1)
        (held (step op s).0) _ _ k.order (run-order ops (step op s).0 k.inv)

  run-budget :
      (ops : List (Op M E)) (s : Request M E) → Inv s → length (accepted_all (run ops s).1) ≤ room s
  unfolding run
  run-budget [] s v = omega arith
  run-budget (op ∷ ops) s v =
      let k = step-Kept op s v in
      omega (
        arith,
        length-append (accepted_of (step op s).1) (accepted_all (run ops (step op s).0).1),
        k.budget,
        run-budget ops (step op s).0 k.inv,
      )

  create-Inv : (has_timeout over : Bool) → Inv (create_reply_correlation has_timeout over)
  unfolding create_reply_correlation
  create-Inv has_timeout over = record { one = omega arith; fresh = λ h. refl }

  -- Over any schedule of sending, replies, timeouts, waits and terminations, at most one reply to a
  -- request is taken over from the C library, and it is given to the application, or disposed of, or
  -- dropped, once, or it is still held.
  pub run_reply_accounted :
      (has_timeout over : Bool) (ops : List (Op M E))
      → let (s, events) = run ops (create_reply_correlation has_timeout over) in
        (accepted_all events ≡ left_all events ++ held s) × (length (accepted_all events) ≤ 1)
  unfolding create_reply_correlation
  run_reply_accounted has_timeout over ops =
      let v = create-Inv has_timeout over in
      (
        run-order ops (create_reply_correlation has_timeout over) v,
        run-budget ops (create_reply_correlation has_timeout over) v,
      )
