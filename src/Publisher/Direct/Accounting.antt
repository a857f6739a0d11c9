-- ===== src/Publisher/Direct/Accounting.antt =====
-- What becomes of the messages that were written to the buffer, whatever is closed and when.
use pubsubplus_go_client.Prelude.{
  ℕ, ◌≤◌, ◌≡◌, refl, ◌∙◌, Bool, List, [], ◌∷◌, ◌++◌, Option, none, some, length, length-append,
  queue_twice, arith,
}
use mathlib.Core.List.{append-nil}
use pubsubplus_go_client.Publisher.Backpressure.{Backpressure}
use pubsubplus_go_client.Publisher.Direct.{
  Direct, Event, written, drained, popped, Loop, Op, Move, construct, step, run, publish_write,
  publish_interrupted, submit, run_loop, interrupt_waits, close_graceful, close_task,
  close_ungraceful, close_buffer, drain_queue, terminate_core, ready, sending, looked, accepted,
  would_block, error, moved, takes, publishes, pops, writes, gives_up, submits, moves, drains,
}

module _ {M : Type 0} where
  abbrev pub written_of : Event M → List M
  written_of (written m) = m ∷ []
  written_of _ = []

  abbrev pub taken_of : Event M → List M
  taken_of (popped m report notify) = m ∷ []
  taken_of (drained m) = m ∷ []
  taken_of _ = []

  abbrev pub written_all : List (Event M) → List M
  written_all [] = []
  written_all (e ∷ es) = written_of e ++ written_all es

  abbrev pub taken_all : List (Event M) → List M
  taken_all [] = []
  taken_all (e ∷ es) = taken_of e ++ taken_all es

  -- What a step keeps: the messages of the buffer in their order, and the size of the buffer.
  pub record Kept (s : Direct M) (r : Direct M × Event M) : Type 0 where
    pub order : s.buffer ++ written_of r.1 ≡ taken_of r.1 ++ r.0.buffer
    size : r.0.buffer_size ≡ s.buffer_size
    within : length s.buffer ≤ s.buffer_size → length r.0.buffer ≤ s.buffer_size

  write-Kept : (o : Option M) (m : M) (s : Direct M) → s.submitting ≡ o → Kept s (publish_write m s)
  unfolding publish_write
  write-Kept none m s h = ground (arith, length-append s.buffer (m ∷ []), append-nil s.buffer)
  write-Kept (some other) m s h = ground (arith, append-nil s.buffer)

  interrupted-Kept :
      (o : Option M) (m : M) (s : Direct M) → s.submitting ≡ o → Kept s (publish_interrupted m s)
  unfolding publish_interrupted
  interrupted-Kept none m s h = ground (arith, append-nil s.buffer)
  interrupted-Kept (some other) m s h = ground (arith, append-nil s.buffer)

  submit-Kept : (o : Option M) (s : Direct M) → s.submitting ≡ o → Kept s (submit s)
  unfolding submit
  submit-Kept none s h = ground (arith, append-nil s.buffer)
  submit-Kept (some m) s h = ground (arith, append-nil s.buffer)

  moved-Kept :
      (l : Loop M) (move : Move) (tasks buffer : List M) (s : Direct M)
      → s.tasks ≡ tasks
      → s.buffer ≡ buffer
      → Kept s (moved l move s)
  moved-Kept ready takes [] b s ht hb = ground (arith, append-nil s.buffer)
  moved-Kept ready takes (t ∷ ts) b s ht hb = ground (arith, append-nil s.buffer)
  moved-Kept (looked m f u) pops t [] s ht hb = ground (arith, append-nil s.buffer)
  moved-Kept (looked m f u) pops t (p ∷ rest) s ht hb = ground (arith, append-nil rest)
  moved-Kept (sending m) (publishes accepted) t b s ht hb = ground (arith, append-nil s.buffer)
  moved-Kept (sending m) (publishes would_block) t b s ht hb = ground (arith, append-nil s.buffer)
  moved-Kept (sending m) (publishes error) t b s ht hb = ground (arith, append-nil s.buffer)
  moved-Kept _ _ t b s ht hb = ground (arith, append-nil s.buffer)

  drain-Kept : (b : List M) (s : Direct M) → s.buffer ≡ b → Kept s (drain_queue s)
  unfolding drain_queue
  drain-Kept [] s h = ground (arith, append-nil s.buffer)
  drain-Kept (p ∷ rest) s h = ground (arith, append-nil rest)

  pub step-Kept : (op : Op M) (s : Direct M) → Kept s (step op s)
  unfolding step run_loop terminate_core interrupt_waits close_graceful close_task close_ungraceful
      close_buffer
  step-Kept (writes m) s = write-Kept s.submitting m s refl
  step-Kept (gives_up m) s = interrupted-Kept s.submitting m s refl
  step-Kept submits s = submit-Kept s.submitting s refl
  step-Kept (moves move) s = moved-Kept s.loop move s.tasks s.buffer s refl refl
  step-Kept drains s = drain-Kept s.buffer s refl
  step-Kept _ s = ground (arith, append-nil s.buffer)

  run-order :
      (ops : List (Op M)) (s : Direct M)
      → let (s', events) = run ops s in
        (s.buffer ++ written_all events ≡ taken_all events ++ s'.buffer)
        × (s'.buffer_size ≡ s.buffer_size)
        × (length s.buffer ≤ s.buffer_size → length s'.buffer ≤ s.buffer_size)
  unfolding run
  run-order [] s = (append-nil s.buffer, refl, λ h. h)
  run-order (op ∷ ops) s =
      let k = step-Kept op s in
      let (order, size, within) = run-order ops (step op s).0 in
      (
        queue_twice s.buffer (written_of (step op s).1) _ (taken_of (step op s).1)
            (step op s).0.buffer _ _ k.order order,
        size ∙ k.size,
        λ h. omega (arith, k.size, within (omega (arith, k.size, k.within h))),
      )

  -- Over any schedule, terminations included: of the messages that were written to the buffer, the
  -- first, in their order, have been taken out, each by one task or by one round of the drain, and
  -- the others are in the buffer, which holds no more than its size.
  pub run_accounted :
      (b : Backpressure) (n : ℕ) (listens : Bool) (ops : List (Op M))
      → let (s, events) = run ops (construct b n listens) in
        (written_all events ≡ taken_all events ++ s.buffer) × (length s.buffer ≤ n)
  unfolding construct
  run_accounted b n listens ops =
      let (order, size, within) = run-order ops (construct b n listens) in
      (order, within (omega arith))
