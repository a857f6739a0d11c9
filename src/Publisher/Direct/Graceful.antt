-- ===== src/Publisher/Direct/Graceful.antt =====
-- A termination that interrupts no task publishes what the task buffer took, and ends.
use pubsubplus_go_client.Prelude.{
  ℕ, zero, suc, ◌+◌, ◌*◌, ◌≤◌, ◌≡◌, refl, sym, ap, ◌∙◌, Bool, true, false, List, [], ◌∷◌, ◌++◌,
  length, queue_twice, arith,
}
use mathlib.Core.List.{append-nil}
use pubsubplus_go_client.Publisher.Backpressure.{Backpressure}
use pubsubplus_go_client.Publisher.Direct.{
  Direct, Loop, Op, Move, construct, step, run, run_loop, ready, holding, sending, waiting,
  finished, looked, ended, accepted, moved, takes, hands_over, publishes, writable, looks, pops,
  moves,
}
use pubsubplus_go_client.Publisher.Direct.Order.{published_all, reached, unsent_running}
use pubsubplus_go_client.Publisher.Direct.Tasks.{
  queued_all, unpublished, IsUninterrupted, stage, remaining, Inv, step-Kept, run-Inv, run-order,
  construct-Inv,
}

module _ {M : Type 0} where
  -- What the run loop does next, where the C library has room and accepts.
  abbrev next : Loop M → Move
  next ready = takes
  next (holding m) = hands_over
  next (sending m) = publishes accepted
  next (waiting m) = writable
  next (finished m f) = looks
  next (looked m f u) = pops
  next ended = takes

  unfoldable pub own_moves : ℕ → Direct M → List (Op M)
  own_moves zero s = []
  own_moves (suc n) s = moves (next s.loop) ∷ own_moves n (step (moves (next s.loop)) s).0

  -- A graceful termination is under way.
  record Calm (s : Direct M) : Type 0 where
    inv : Inv s
    graceful : s.graceful ≡ true
    uninterrupted : IsUninterrupted s

  record Closer (n : ℕ) (s s' : Direct M) : Type 0 where
    fewer : remaining s' ≤ n
    same_graceful : s'.graceful ≡ s.graceful
    same_task : s'.task_interrupted ≡ s.task_interrupted
    same_core : s'.core_terminated ≡ s.core_terminated

  moved-Closer :
      (l : Loop M) (tasks buffer : List M) (n : ℕ) (s : Direct M)
      → s.loop ≡ l
      → s.tasks ≡ tasks
      → s.buffer ≡ buffer
      → s.graceful ≡ true
      → s.ungraceful ≡ false
      → Inv s
      → s.task_interrupted ≡ false
      → remaining s ≤ suc n
      → Closer n s (moved l (next l) s).0
  moved-Closer ready [] b n s hl ht hb g u v i h = ground arith
  moved-Closer ready (t ∷ ts) b n s hl ht hb g u v i h = ground arith
  moved-Closer (looked m f w) t [] n s hl ht hb g u v i h = ground arith
  moved-Closer (looked m f w) t (p ∷ rest) n s hl ht hb g u v i h = ground arith
  moved-Closer _ t b n s hl ht hb g u v i h = ground arith

  next-Calm :
      (n : ℕ) (s : Direct M)
      → Calm s
      → remaining s ≤ suc n
      → let s' = (step (moves (next s.loop)) s).0 in Calm s' × (remaining s' ≤ n)
  unfolding step run_loop
  next-Calm n s c h =
      let v = c.inv in
      let (task, core) = c.uninterrupted in
      let g = c.graceful in
      let unforced : s.ungraceful ≡ false = ground arith in
      let closer = moved-Closer s.loop s.tasks s.buffer n s refl refl refl g unforced v task h in
      (
        record {
          inv = (step-Kept (moves (next s.loop)) s v).inv;
          graceful = closer.same_graceful ∙ g;
          uninterrupted = (closer.same_task ∙ task, closer.same_core ∙ core);
        },
        closer.fewer,
      )

  own_moves-Calm :
      (n : ℕ) (s : Direct M)
      → Calm s
      → remaining s ≤ n
      → let s' = (run (own_moves n s) s).0 in Calm s' × (remaining s' ≤ 0)
  unfolding run own_moves
  own_moves-Calm zero s c h = (c, h)
  own_moves-Calm (suc n) s c h =
      let (c', h') = next-Calm n s c h in own_moves-Calm n (step (moves (next s.loop)) s).0 c' h'

  none_remain :
      (l : Loop M) (tasks : List M)
      → stage l + 5 * length tasks ≤ 0
      → unsent_running l ++ tasks ≡ []
  none_remain ended [] h = refl
  none_remain ended (t ∷ ts) h = absurd (omega arith)
  none_remain _ tasks h = absurd (omega arith)

  -- Take any schedule that leads to a state in which a graceful termination has been signalled to the task
  -- buffer and in which no wait of a task has been interrupted, by this publisher or by the core's. From
  -- there as many steps of the run loop as remain for its tasks, the C library accepting each message,
  -- complete the task buffer, and in the whole run the messages whose tasks were queued have been
  -- published once each, in the order in which they were queued.
  pub own_moves-reached :
      (b : Backpressure) (n : ℕ) (listens : Bool) (ops : List (Op M))
      → IsUninterrupted (reached b n listens ops)
      → (reached b n listens ops).graceful ≡ true
      → let (s, events) = run ops (construct b n listens) in
        let (s', more) = run (own_moves (remaining s) s) s in
        (s'.complete ≡ true)
        × (queued_all events ++ queued_all more ≡ published_all events ++ published_all more)
  own_moves-reached b n listens ops uninterrupted g =
      let start : Direct M = construct b n listens in
      let s : Direct M = (run ops start).0 in
      let v0 = construct-Inv b n listens in
      let v = run-Inv ops start v0 in
      let (c, none_left) =
        own_moves-Calm (remaining s) s
          (record { inv = v; graceful = g; uninterrupted = uninterrupted }) (omega arith) in
      let more = run (own_moves (remaining s) s) s in
      let order = run-order ops start v0 uninterrupted in
      let order' = run-order (own_moves (remaining s) s) s v c.uninterrupted in
      let nothing : unpublished more.0 ≡ [] = none_remain more.0.loop more.0.tasks none_left in
      let at_first : unpublished start ≡ [] = unfold construct in refl in
      let queued_ever = queued_all (run ops start).1 ++ queued_all more.1 in
      let published_ever = published_all (run ops start).1 ++ published_all more.1 in
      let whole =
        queue_twice (unpublished start) (queued_all (run ops start).1) (queued_all more.1)
          (published_all (run ops start).1) (unpublished s) (published_all more.1)
          (unpublished more.0) order order' in
      (
        c.inv.ends (omega (arith, none_left)),
        ap (λ u. u ++ queued_ever) (sym at_first)
            ∙ whole
            ∙ ap (λ u. published_ever ++ u) nothing
            ∙ append-nil published_ever,
      )
