-- ===== src/Executor/Fifo.antt =====
-- The executor is an unbounded queue: tasks run in the order in which they were accepted.
use pubsubplus_go_client.Prelude.{
  ℕ, zero, suc, inl, inr, Bool-cases, ◌+◌, ◌*◌, ◌≤◌, ◌<◌, ◌≡◌, refl, sym, ap, ◌∙◌, true, false,
  List, [], ◌∷◌, ◌++◌, some, length, length-append, queue_twice, arith, All,
}
use mathlib.Core.List.{append-nil, append_assoc}
use pubsubplus_go_client.Executor.{
  Channel, Executor, Event, accepted, ran, panicked, stuck, new_executor, send, transfer, resize,
  submit, resubmit, run_round, terminate, Op, submits, resubmits, runs, terminates, step, run,
}

module _ {T : Type 0} where
  pub record Inv (e : Executor T) : Type 0 where
    pub capacity_is_scale : e.channel.capacity ≡ e.scale
    pub positive : 0 < e.scale
    pub within : length e.channel.items ≤ e.scale
    pub closed_together : e.channel.closed ≡ e.closed
    pub nobody_waits : e.closed ≡ true → e.waiting ≡ []
    pub drained : e.terminate_complete ≡ true → (e.closed ≡ true) × (e.channel.items ≡ [])

  new_executor-Inv : Inv new_executor
  unfolding new_executor
  new_executor-Inv = ground arith

  -- The new channel takes all items of the old one, in order.
  transfer-append :
      (old : List T) (to : Channel T)
      → length to.items + length old ≤ to.capacity
      → transfer old to ≡ some (record to { items = to.items ++ old })
  unfolding transfer
  transfer-append [] to h = rw (append-nil to.items)
  transfer-append (t ∷ old) to h = ground (
    arith,
    transfer-append old (send t to),
    length-append to.items (t ∷ []),
    append_assoc to.items (t ∷ []) old,
  )

  abbrev enlarged : Executor T → Executor T
  enlarged e = record e {
    channel = record { capacity = 2 * e.scale; items = e.channel.items; closed = false };
    scale = 2 * e.scale;
  }

  resize_lem : (e : Executor T) → Inv e → resize e ≡ some (enlarged e)
  unfolding resize
  resize_lem e v = ground (
    arith,
    transfer-append e.channel.items (record { capacity = 2 * e.scale; items = []; closed = false }),
  )

  abbrev pub accepted_of : Event T → List T
  accepted_of (accepted t) = t ∷ []
  accepted_of _ = []

  abbrev pub ran_of : Event T → List T
  ran_of (ran t) = t ∷ []
  ran_of _ = []

  -- No send on a closed channel, and none that waits with the locks held.
  abbrev pub IsSound : Event T → Type 0
  IsSound panicked = ⊥
  IsSound stuck = ⊥
  IsSound _ = Unit

  -- What a step keeps: the invariant, the tasks in their order, and soundness.
  record Kept (e : Executor T) (r : Executor T × Event T) : Type 0 where
    inv : Inv r.0
    order : e.channel.items ++ accepted_of r.1 ≡ ran_of r.1 ++ r.0.channel.items
    sound : IsSound r.1

  submit-Kept : (t : T) (e : Executor T) → Inv e → Kept e (submit t e)
  unfolding submit
  submit-Kept t e v =
      ground (arith, length-append e.channel.items (t ∷ []), append-nil e.channel.items)

  run_round_items :
      (items : List T) (e : Executor T) → e.channel.items ≡ items → Inv e → Kept e (run_round e)
  unfolding run_round
  run_round_items [] e h v = ground arith
  run_round_items (t ∷ items) e h v = ground (arith, append-nil items)

  terminate_waiting : (w : List T) (e : Executor T) → e.waiting ≡ w → Inv e → Kept e (terminate e)
  unfolding terminate
  terminate_waiting [] e h v = ground (arith, append-nil e.channel.items)
  terminate_waiting (t ∷ w) e h v = ground (arith, append-nil e.channel.items)

  resubmit_waiting : (w : List T) (e : Executor T) → e.waiting ≡ w → Inv e → Kept e (resubmit e)
  unfolding resubmit
  resubmit_waiting [] e h v = ground (arith, append-nil e.channel.items)
  resubmit_waiting (t ∷ w) e h v =
      let open' : e.closed ≡ false = ground arith in
      let e' : Executor T = record e { waiting = w } in
      let v' : Inv e' = ground arith in
      ground (
        arith,
        resize_lem e' v',
        length-append e.channel.items (t ∷ []),
        append-nil e.channel.items,
      )

  step-Kept : (op : Op T) (e : Executor T) → Inv e → Kept e (step op e)
  unfolding step
  step-Kept (submits t) e v = submit-Kept t e v
  step-Kept resubmits e v = resubmit_waiting e.waiting e refl v
  step-Kept runs e v = run_round_items e.channel.items e refl v
  step-Kept terminates e v = terminate_waiting e.waiting e refl v

  abbrev pub accepted_all : List (Event T) → List T
  accepted_all [] = []
  accepted_all (event ∷ events) = accepted_of event ++ accepted_all events

  abbrev pub ran_all : List (Event T) → List T
  ran_all [] = []
  ran_all (event ∷ events) = ran_of event ++ ran_all events

  run-Inv : (ops : List (Op T)) (e : Executor T) → Inv e → Inv (run ops e).0
  unfolding run
  run-Inv [] e v = v
  run-Inv (op ∷ ops) e v = run-Inv ops (step op e).0 (step-Kept op e v).inv

  run-order :
      (ops : List (Op T)) (e : Executor T)
      → Inv e
      → e.channel.items ++ accepted_all (run ops e).1
        ≡ ran_all (run ops e).1 ++ (run ops e).0.channel.items
  unfolding run
  run-order [] e v = append-nil e.channel.items
  run-order (op ∷ ops) e v =
      let k = step-Kept op e v in
      queue_twice e.channel.items (accepted_of (step op e).1) _ (ran_of (step op e).1)
        (step op e).0.channel.items _ _ k.order (run-order ops (step op e).0 k.inv)

  run-IsSound : (ops : List (Op T)) (e : Executor T) → Inv e → All IsSound (run ops e).1
  unfolding run
  run-IsSound [] e v = tt
  run-IsSound (op ∷ ops) e v =
      let k = step-Kept op e v in (k.sound, run-IsSound ops (step op e).0 k.inv)

  -- From a new executor, over any schedule: the tasks that ran are the first of those accepted, in
  -- the order of acceptance, and the others are the channel's content, whatever resizing happened.
  pub run_fifo :
      (ops : List (Op T))
      → let (e, events) = run ops new_executor in
        accepted_all events ≡ ran_all events ++ e.channel.items
  unfolding new_executor
  run_fifo ops = run-order ops new_executor new_executor-Inv

  -- No step sends on a closed channel, or waits for room with the locks held.
  run-new_executor-IsSound : (ops : List (Op T)) → All IsSound (run ops new_executor).1
  run-new_executor-IsSound ops = run-IsSound ops new_executor new_executor-Inv

  -- When `AwaitTermination` returns, every accepted task has run.
  run_terminated :
      (ops : List (Op T))
      → let (e, events) = run ops new_executor in
        e.terminate_complete ≡ true → ran_all events ≡ accepted_all events
  run_terminated ops h =
      let (shut, nothing) = (run-Inv ops new_executor new_executor-Inv).drained h in
      sym (run_fifo ops ∙ ap (◌++◌ (ran_all (run ops new_executor).1)) nothing ∙ append-nil _)

  -- n rounds of `Run`, with no other thread in between.
  abbrev pub rounds : ℕ → List (Op T)
  rounds zero = []
  rounds (suc n) = runs ∷ rounds n

  rounds_drain :
      (items : List T) (e : Executor T)
      → e.channel.items ≡ items
      → e.channel.closed ≡ true
      → (e.terminate_complete ≡ true → e.channel.items ≡ [])
      → (run (rounds (suc (length items))) e).0.terminate_complete ≡ true
  unfolding run step run_round
  rounds_drain [] e h c d = ground arith
  rounds_drain (t ∷ items) e h c d = elim (Bool-cases e.terminate_complete) [
    | inl over ↦ ground (arith, d over)
    | inr going ↦
        rounds_drain items (run_round e).0 (unfold run_round in ground arith) (ground arith)
          (λ over. ground arith)
  ]

  -- After `Terminate` the loop of `Run` ends: one round for each task that the channel holds, and
  -- one more.
  terminate_drains :
      (ops : List (Op T))
      → let e = (run ops new_executor).0 in
        e.closed ≡ true → (run (rounds (length e.channel.items + 1)) e).0.terminate_complete ≡ true
  terminate_drains ops h =
      let e : Executor T = (run ops new_executor).0 in
      let v : Inv e = run-Inv ops new_executor new_executor-Inv in
      let shut : e.channel.closed ≡ true = v.closed_together ∙ h in
      let n : length e.channel.items + 1 ≡ suc (length e.channel.items) = omega arith in
      rw n (rounds_drain e.channel.items e refl shut (λ over. (v.drained over).1))
