-- ===== src/Publisher/Direct/Order.antt =====
-- The message buffer and the task buffer go together until the termination cuts the run loop short.
use pubsubplus_go_client.Prelude.{
  ℕ, ◌+◌, ◌≤◌, ◌<◌, ◌≡◌, refl, Bool, ◌||◌, ◌&&◌, true, false, List, [], ◌∷◌, ◌++◌, Option, none,
  some, inl, inr, Bool-cases, length, length-append, queue_twice, arith, if◌then◌else◌,
}
use mathlib.Core.List.{append-nil}
use pubsubplus_go_client.Publisher.Backpressure.{Backpressure}
use pubsubplus_go_client.Publisher.Direct.{
  Direct, Event, queued, sent, failed, popped, Loop, Op, Move, construct, step, run, publish_write,
  publish_interrupted, submit, is_reject, run_loop, interrupt_waits, close_graceful, close_task,
  close_ungraceful, close_buffer, drain_queue, terminate_core, ready, holding, sending, waiting,
  finished, looked, ended, accepted, would_block, error, moved, takes, publishes, pops, writes,
  gives_up, submits, moves, drains,
}
use pubsubplus_go_client.Publisher.Direct.Accounting.{written_of, written_all}

module _ {M : Type 0} where
  -- The message of the task that runs, and the same while Publish has not yet returned with a result.
  abbrev pub running : Loop M → List M
  running ready = []
  running (holding m) = m ∷ []
  running (sending m) = m ∷ []
  running (waiting m) = m ∷ []
  running (finished m f) = m ∷ []
  running (looked m f u) = m ∷ []
  running ended = []

  abbrev pub unsent_running : Loop M → List M
  unsent_running (holding m) = m ∷ []
  unsent_running (sending m) = m ∷ []
  unsent_running (waiting m) = m ∷ []
  unsent_running _ = []

  abbrev pub between_buffers : Option M → List M
  between_buffers none = []
  between_buffers (some m) = m ∷ []

  abbrev pub queue_behind : Direct M → List M
  queue_behind s = s.tasks ++ between_buffers s.submitting

  -- The messages written to the buffer for which Publish has not returned with a result.
  abbrev pub unsent : Direct M → List M
  unsent s = unsent_running s.loop ++ queue_behind s

  abbrev pub published_of : Event M → List M
  published_of (sent m) = m ∷ []
  published_of (failed m) = m ∷ []
  published_of _ = []

  abbrev pub published_all : List (Event M) → List M
  published_all [] = []
  published_all (e ∷ es) = published_of e ++ published_all es

  -- The publisher has not interrupted its tasks and the run loop goes on. A graceful termination may be
  -- under way.
  abbrev pub IsGoing : Direct M → Type 0
  IsGoing s = (s.task_interrupted ≡ false) × (s.complete ≡ false)

  -- The core's publisher has not interrupted a task either.
  abbrev pub IsUncut : Direct M → Type 0
  IsUncut s = IsGoing s × (s.core_terminated ≡ false)

  pub record Inv (s : Direct M) : Type 0 where
    pub forced : s.ungraceful ≡ true → s.task_interrupted ≡ true
    pub closed : s.buffer_closed ≡ true → (s.complete || s.task_interrupted) ≡ true
    pub within : length s.buffer ≤ s.buffer_size
    pub aligned : IsUncut s → s.buffer ≡ running s.loop ++ queue_behind s
    pub behind :
        IsGoing s
        → length (running s.loop) + length s.tasks + length (between_buffers s.submitting)
          ≤ length s.buffer

  pub record Kept (s : Direct M) (r : Direct M × Event M) : Type 0 where
    pub inv : Inv r.0
    pub earlier : IsUncut r.0 → IsUncut s
    pub order : IsUncut r.0 → unsent s ++ written_of r.1 ≡ published_of r.1 ++ unsent r.0

  write-Kept :
      (o : Option M) (m : M) (s : Direct M) → s.submitting ≡ o → Inv s → Kept s (publish_write m s)
  unfolding publish_write
  write-Kept none m s h v = ground (arith, length-append s.buffer (m ∷ []), append-nil s.tasks)
  write-Kept (some other) m s h v = ground (arith, append-nil (unsent s))

  interrupted-Kept :
      (o : Option M) (m : M) (s : Direct M)
      → s.submitting ≡ o
      → Inv s
      → Kept s (publish_interrupted m s)
  unfolding publish_interrupted
  interrupted-Kept none m s h v = ground (arith, append-nil (unsent s))
  interrupted-Kept (some other) m s h v = ground (arith, append-nil (unsent s))

  submit-Kept : (o : Option M) (s : Direct M) → s.submitting ≡ o → Inv s → Kept s (submit s)
  unfolding submit
  submit-Kept none s h v = ground (arith, append-nil (unsent s))
  submit-Kept (some m) s h v = elim (Bool-cases (s.complete || s.task_interrupted)) [
    | inl over ↦ ground (arith, append-nil (unsent s))
    | inr going ↦
        let both : IsGoing s = ground arith in
        let behind = rw h at v.behind both in
        let within = v.within in
        let room : length s.tasks < s.buffer_size = omega arith in
        ground (
          arith,
          append-nil (unsent s),
          append-nil s.tasks,
          append-nil (s.tasks ++ (m ∷ [])),
          length-append s.tasks (m ∷ []),
        )
  ]

  moved-Kept :
      (l : Loop M) (move : Move) (tasks buffer : List M) (s : Direct M)
      → s.loop ≡ l
      → s.tasks ≡ tasks
      → s.buffer ≡ buffer
      → Inv s
      → Kept s (moved l move s)
  moved-Kept ready takes [] b s hl ht hb v = ground (arith, append-nil (unsent s))
  moved-Kept ready takes (t ∷ ts) b s hl ht hb v = ground (arith, append-nil (unsent s))
  moved-Kept (looked m f u) pops t [] s hl ht hb v = ground (arith, append-nil (unsent s))
  moved-Kept (looked m f u) pops t (p ∷ rest) s hl ht hb v = ground (arith, append-nil (unsent s))
  moved-Kept (sending m) (publishes accepted) t b s hl ht hb v =
      ground (arith, append-nil (unsent s), append-nil (queue_behind s))
  moved-Kept (sending m) (publishes would_block) t b s hl ht hb v =
      ground (arith, append-nil (unsent s))
  moved-Kept (sending m) (publishes error) t b s hl ht hb v =
      ground (arith, append-nil (unsent s), append-nil (queue_behind s))
  moved-Kept _ _ t b s hl ht hb v = ground (arith, append-nil (unsent s))

  drain-Kept : (b : List M) (s : Direct M) → s.buffer ≡ b → Inv s → Kept s (drain_queue s)
  unfolding drain_queue
  drain-Kept [] s h v = ground (arith, append-nil (unsent s))
  drain-Kept (p ∷ rest) s h v = ground (arith, append-nil (unsent s))

  pub step-Kept : (op : Op M) (s : Direct M) → Inv s → Kept s (step op s)
  unfolding step run_loop terminate_core interrupt_waits close_graceful close_task close_ungraceful
      close_buffer
  step-Kept (writes m) s v = write-Kept s.submitting m s refl v
  step-Kept (gives_up m) s v = interrupted-Kept s.submitting m s refl v
  step-Kept submits s v = submit-Kept s.submitting s refl v
  step-Kept (moves move) s v = moved-Kept s.loop move s.tasks s.buffer s refl refl refl v
  step-Kept drains s v = drain-Kept s.buffer s refl v
  step-Kept _ s v = ground (arith, append-nil (unsent s))

  pub construct-Inv : (b : Backpressure) (n : ℕ) (listens : Bool) → Inv (construct b n listens)
  unfolding construct
  construct-Inv b n listens = ground arith

  run-Inv : (ops : List (Op M)) (s : Direct M) → Inv s → Inv (run ops s).0
  unfolding run
  run-Inv [] s v = v
  run-Inv (op ∷ ops) s v = run-Inv ops (step op s).0 (step-Kept op s v).inv

  run-earlier : (ops : List (Op M)) (s : Direct M) → Inv s → IsUncut (run ops s).0 → IsUncut s
  unfolding run
  run-earlier [] s v g = g
  run-earlier (op ∷ ops) s v g =
      let k = step-Kept op s v in k.earlier (run-earlier ops (step op s).0 k.inv g)

  run-order :
      (ops : List (Op M)) (s : Direct M)
      → Inv s
      → IsUncut (run ops s).0
      → unsent s ++ written_all (run ops s).1 ≡ published_all (run ops s).1 ++ unsent (run ops s).0
  unfolding run
  run-order [] s v g = append-nil (unsent s)
  run-order (op ∷ ops) s v g =
      let k = step-Kept op s v in
      queue_twice (unsent s) (written_of (step op s).1) _ (published_of (step op s).1)
        (unsent (step op s).0) _ _ (k.order (run-earlier ops (step op s).0 k.inv g))
        (run-order ops (step op s).0 k.inv g)

  module _ (b : Backpressure) (n : ℕ) (listens : Bool) (ops : List (Op M)) where
    abbrev pub reached : Direct M
    reached = (run ops (construct b n listens)).0

    reached-Inv : Inv reached
    reached-Inv = run-Inv ops (construct b n listens) (construct-Inv b n listens)

    pub reached-not_ungraceful : IsGoing reached → reached.ungraceful ≡ false
    reached-not_ungraceful g = let v = reached-Inv in ground arith

    pub reached-aligned :
        IsUncut reached → reached.buffer ≡ running reached.loop ++ queue_behind reached
    reached-aligned g = reached-Inv.aligned g

    -- Over any schedule, as long as neither this publisher nor the termination of the core's interrupts
    -- a task and the run loop goes on: the messages that were written to the buffer are published once
    -- each, in the order in which they were written, and those not yet published are in the tasks, or
    -- about to be.
    pub run_publishes :
        IsUncut reached
        → let (s, events) = run ops (construct b n listens) in
          written_all events ≡ published_all events ++ unsent s
    unfolding construct
    run_publishes g = run-order ops (construct b n listens) (construct-Inv b n listens) g

    -- Over any schedule, as long as this publisher has not interrupted its tasks and the run loop goes
    -- on: the task buffer, which has the size of the message buffer, has room for the task of every
    -- message that was written.
    pub submit-queued :
        (m : M)
        → IsGoing reached
        → reached.submitting ≡ some m
        → (step submits reached).1 ≡ queued m
    unfolding step submit
    submit-queued m g h =
        let v = reached-Inv in
        let behind = rw h at v.behind g in
        let within = v.within in
        let room : length reached.tasks < reached.buffer_size = omega arith in ground arith

    -- As long as no task is interrupted, a task takes its own message out of the buffer, tells the failure listener of it if the
    -- publish failed, and the readiness listener if the buffer was found full.
    pops-popped :
        (m : M) (is_failed is_full : Bool)
        → IsUncut reached
        → reached.loop ≡ looked m is_failed is_full
        → (step (moves pops) reached).1
          ≡ popped m
              (if is_failed && reached.has_failure_listener then some m else none)
              (is_full && is_reject reached.backpressure)
    unfolding step run_loop
    pops-popped m is_failed is_full g h =
        let v = reached-Inv in let aligned = rw h at v.aligned g in rw (h, aligned)
