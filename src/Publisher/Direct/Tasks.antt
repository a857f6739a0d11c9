-- ===== src/Publisher/Direct/Tasks.antt =====
-- The messages whose tasks the task buffer took, until they are published: whatever is closed, as long
-- as no wait of a task is interrupted.
use pubsubplus_go_client.Prelude.{
  ℕ, ◌+◌, ◌*◌, ◌≡◌, refl, Bool, true, false, List, [], ◌∷◌, ◌++◌, Option, none, some, length,
  length-append, queue_twice, arith,
}
use mathlib.Core.List.{append-nil}
use pubsubplus_go_client.Publisher.Backpressure.{Backpressure}
use pubsubplus_go_client.Publisher.Direct.{
  Direct, Event, queued, Loop, Op, Move, construct, step, run, publish_write, publish_interrupted,
  submit, run_loop, terminate_core, interrupt_waits, close_graceful, close_task, close_ungraceful,
  close_buffer, drain_queue, ready, holding, sending, waiting, finished, looked, ended, accepted,
  would_block, error, moved, takes, publishes, pops, writes, gives_up, submits, moves, drains,
}
use pubsubplus_go_client.Publisher.Direct.Order.{published_of, published_all, unsent_running}

module _ {M : Type 0} where
  abbrev queued_of : Event M → List M
  queued_of (queued m) = m ∷ []
  queued_of _ = []

  abbrev pub queued_all : List (Event M) → List M
  queued_all [] = []
  queued_all (e ∷ es) = queued_of e ++ queued_all es

  -- The messages of tasks that were queued for which Publish has not returned with a result.
  abbrev pub unpublished : Direct M → List M
  unpublished s = unsent_running s.loop ++ s.tasks

  -- No wait of a task is interrupted, by this publisher or by the core's.
  abbrev pub IsUninterrupted : Direct M → Type 0
  IsUninterrupted s = (s.task_interrupted ≡ false) × (s.core_terminated ≡ false)

  -- The steps that are left of the run loop, the one that ends it included.
  abbrev pub stage : Loop M → ℕ
  stage ended = 0
  stage ready = 1
  stage (looked m f u) = 2
  stage (finished m f) = 3
  stage (sending m) = 4
  stage (waiting m) = 5
  stage (holding m) = 5

  abbrev pub remaining : Direct M → ℕ
  remaining s = stage s.loop + 5 * length s.tasks

  pub record Inv (s : Direct M) : Type 0 where
    pub forced : s.ungraceful ≡ true → s.task_interrupted ≡ true
    pub over : s.complete ≡ true → s.task_interrupted ≡ false → remaining s ≡ 0
    pub ends : stage s.loop ≡ 0 → s.complete ≡ true

  pub record Kept (s : Direct M) (r : Direct M × Event M) : Type 0 where
    pub inv : Inv r.0
    earlier : IsUninterrupted r.0 → IsUninterrupted s
    order :
        IsUninterrupted r.0 → unpublished s ++ queued_of r.1 ≡ published_of r.1 ++ unpublished r.0

  write-Kept :
      (o : Option M) (m : M) (s : Direct M) → s.submitting ≡ o → Inv s → Kept s (publish_write m s)
  unfolding publish_write
  write-Kept none m s h v = ground (arith, append-nil (unpublished s))
  write-Kept (some other) m s h v = ground (arith, append-nil (unpublished s))

  interrupted-Kept :
      (o : Option M) (m : M) (s : Direct M)
      → s.submitting ≡ o
      → Inv s
      → Kept s (publish_interrupted m s)
  unfolding publish_interrupted
  interrupted-Kept none m s h v = ground (arith, append-nil (unpublished s))
  interrupted-Kept (some other) m s h v = ground (arith, append-nil (unpublished s))

  submit-Kept : (o : Option M) (s : Direct M) → s.submitting ≡ o → Inv s → Kept s (submit s)
  unfolding submit
  submit-Kept none s h v = ground (arith, append-nil (unpublished s))
  submit-Kept (some m) s h v =
      ground (arith, append-nil (unpublished s), length-append s.tasks (m ∷ []))

  moved-Kept :
      (l : Loop M) (move : Move) (tasks buffer : List M) (s : Direct M)
      → s.loop ≡ l
      → s.tasks ≡ tasks
      → s.buffer ≡ buffer
      → Inv s
      → Kept s (moved l move s)
  moved-Kept ready takes [] b s hl ht hb v = ground (arith, append-nil (unpublished s))
  moved-Kept ready takes (t ∷ ts) b s hl ht hb v = ground (arith, append-nil (unpublished s))
  moved-Kept (looked m f u) pops t [] s hl ht hb v = ground (arith, append-nil (unpublished s))
  moved-Kept (looked m f u) pops t (p ∷ rest) s hl ht hb v =
      ground (arith, append-nil (unpublished s))
  moved-Kept (sending m) (publishes accepted) t b s hl ht hb v =
      ground (arith, append-nil (unpublished s), append-nil s.tasks)
  moved-Kept (sending m) (publishes would_block) t b s hl ht hb v =
      ground (arith, append-nil (unpublished s))
  moved-Kept (sending m) (publishes error) t b s hl ht hb v =
      ground (arith, append-nil (unpublished s), append-nil s.tasks)
  moved-Kept _ _ t b s hl ht hb v = ground (arith, append-nil (unpublished s))

  drain-Kept : (b : List M) (s : Direct M) → s.buffer ≡ b → Inv s → Kept s (drain_queue s)
  unfolding drain_queue
  drain-Kept [] s h v = ground (arith, append-nil (unpublished s))
  drain-Kept (p ∷ rest) s h v = ground (arith, append-nil (unpublished s))

  pub step-Kept : (op : Op M) (s : Direct M) → Inv s → Kept s (step op s)
  unfolding step run_loop terminate_core interrupt_waits close_graceful close_task close_ungraceful
      close_buffer
  step-Kept (writes m) s v = write-Kept s.submitting m s refl v
  step-Kept (gives_up m) s v = interrupted-Kept s.submitting m s refl v
  step-Kept submits s v = submit-Kept s.submitting s refl v
  step-Kept (moves move) s v = moved-Kept s.loop move s.tasks s.buffer s refl refl refl v
  step-Kept drains s v = drain-Kept s.buffer s refl v
  step-Kept _ s v = ground (arith, append-nil (unpublished s))

  pub run-Inv : (ops : List (Op M)) (s : Direct M) → Inv s → Inv (run ops s).0
  unfolding run
  run-Inv [] s v = v
  run-Inv (op ∷ ops) s v = run-Inv ops (step op s).0 (step-Kept op s v).inv

  run-earlier :
      (ops : List (Op M)) (s : Direct M) → Inv s → IsUninterrupted (run ops s).0 → IsUninterrupted s
  unfolding run
  run-earlier [] s v g = g
  run-earlier (op ∷ ops) s v g =
      let k = step-Kept op s v in k.earlier (run-earlier ops (step op s).0 k.inv g)

  pub run-order :
      (ops : List (Op M)) (s : Direct M)
      → Inv s
      → IsUninterrupted (run ops s).0
      → unpublished s ++ queued_all (run ops s).1
        ≡ published_all (run ops s).1 ++ unpublished (run ops s).0
  unfolding run
  run-order [] s v g = append-nil (unpublished s)
  run-order (op ∷ ops) s v g =
      let k = step-Kept op s v in
      queue_twice (unpublished s) (queued_of (step op s).1) _ (published_of (step op s).1)
        (unpublished (step op s).0) _ _ (k.order (run-earlier ops (step op s).0 k.inv g))
        (run-order ops (step op s).0 k.inv g)

  pub construct-Inv : (b : Backpressure) (n : ℕ) (listens : Bool) → Inv (construct b n listens)
  unfolding construct
  construct-Inv b n listens = ground arith
