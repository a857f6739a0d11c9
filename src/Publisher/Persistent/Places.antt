-- ===== src/Publisher/Persistent/Places.antt =====
-- Where the loop of the task buffer stands after a step, in a termination that is graceful.
use pubsubplus_go_client.Prelude.{
  ℕ, ◌≡◌, refl, Bool, true, false, not, ◌||◌, List, [], ◌∷◌, Option, none, some, arith,
}
use pubsubplus_go_client.Publisher.Direct
use pubsubplus_go_client.Publisher.Direct.{
  Direct, Loop, ready, holding, sending, waiting, finished, looked, ended, publish_write,
  publish_interrupted, submit, interrupt_waits, close_graceful, close_task, close_ungraceful,
  close_buffer, drain_queue, moves, writes, gives_up, submits, drains, closes_task, terminates_core,
  terminate_core, moved, Move, takes, pops, publishes, accepted, would_block, error, run_loop,
}

-- Whether a task can have begun there, and must have.
abbrev pub stage_ok : Loop ℕ → Bool → Bool
stage_ok ready begun = not begun
stage_ok (holding m) begun = not begun
stage_ok (sending m) begun = true
stage_ok (waiting m) begun = begun
stage_ok (finished m is_failed) begun = begun
stage_ok (looked m is_failed is_full) begun = begun
stage_ok ended begun = not begun

abbrev pub is_ended : Loop ℕ → Bool
is_ended ended = true
is_ended _ = false

-- Whether a wait of a task has been interrupted, by this publisher or by the core's.
abbrev pub is_cut : Direct ℕ → Bool
is_cut d = d.task_interrupted || d.core_terminated

abbrev pub IsMove : Direct.Op ℕ → Type 0
IsMove (moves m) = Unit
IsMove _ = ⊥

-- Steps of others leave the loop where it is.
pub record Aside (op : Direct.Op ℕ) (d d' : Direct ℕ) : Type 0 where
  pub loop : d'.loop ≡ d.loop
  pub complete : d'.complete ≡ d.complete

write-Aside :
    (o : Option ℕ) (m : ℕ) (d : Direct ℕ)
    → d.submitting ≡ o
    → Aside (writes m) d (publish_write m d).0
unfolding publish_write
write-Aside none m d h = ground arith
write-Aside (some other) m d h = ground arith

interrupted-Aside :
    (o : Option ℕ) (m : ℕ) (d : Direct ℕ)
    → d.submitting ≡ o
    → Aside (gives_up m) d (publish_interrupted m d).0
unfolding publish_interrupted
interrupted-Aside none m d h = ground arith
interrupted-Aside (some other) m d h = ground arith

submit-Aside : (o : Option ℕ) (d : Direct ℕ) → d.submitting ≡ o → Aside submits d (submit d).0
unfolding submit
submit-Aside none d h = ground arith
submit-Aside (some m) d h = ground arith

drain-Aside : (b : List ℕ) (d : Direct ℕ) → d.buffer ≡ b → Aside drains d (drain_queue d).0
unfolding drain_queue
drain-Aside [] d h = ground arith
drain-Aside (p ∷ rest) d h = ground arith

pub step-Aside :
    (op : Direct.Op ℕ) (d : Direct ℕ) → (IsMove op → ⊥) → Aside op d (Direct.step op d).0
unfolding Direct.step terminate_core interrupt_waits close_graceful close_task close_ungraceful
    close_buffer
step-Aside (writes m) d other = write-Aside d.submitting m d refl
step-Aside (gives_up m) d other = interrupted-Aside d.submitting m d refl
step-Aside submits d other = submit-Aside d.submitting d refl
step-Aside (moves m) d other = absurd (other tt)
step-Aside drains d other = drain-Aside d.buffer d refl
step-Aside _ d other = ground arith

-- Everything but the steps that cut the tasks short.
abbrev pub Spares : Direct.Op ℕ → Type 0
Spares closes_task = ⊥
Spares terminates_core = ⊥
Spares _ = Unit

write-interrupted :
    (o : Option ℕ) (m : ℕ) (d : Direct ℕ)
    → d.submitting ≡ o
    → (is_cut (publish_write m d).0 ≡ is_cut d) × (is_cut (publish_interrupted m d).0 ≡ is_cut d)
unfolding publish_write publish_interrupted
write-interrupted none m d h = ground arith
write-interrupted (some other) m d h = ground arith

submit-interrupted :
    (o : Option ℕ) (d : Direct ℕ) → d.submitting ≡ o → is_cut (submit d).0 ≡ is_cut d
unfolding submit
submit-interrupted none d h = ground arith
submit-interrupted (some m) d h = ground arith

drain-interrupted : (b : List ℕ) (d : Direct ℕ) → d.buffer ≡ b → is_cut (drain_queue d).0 ≡ is_cut d
unfolding drain_queue
drain-interrupted [] d h = ground arith
drain-interrupted (p ∷ rest) d h = ground arith

moved-interrupted :
    (l : Loop ℕ) (move : Move) (tasks buffer : List ℕ) (d : Direct ℕ)
    → d.tasks ≡ tasks
    → d.buffer ≡ buffer
    → is_cut (moved l move d).0 ≡ is_cut d
moved-interrupted ready takes [] b d ht hb = ground arith
moved-interrupted ready takes (t ∷ ts) b d ht hb = ground arith
moved-interrupted (looked m f u) pops t [] d ht hb = ground arith
moved-interrupted (looked m f u) pops t (p ∷ rest) d ht hb = ground arith
moved-interrupted (sending m) (publishes accepted) t b d ht hb = refl
moved-interrupted (sending m) (publishes would_block) t b d ht hb = refl
moved-interrupted (sending m) (publishes error) t b d ht hb = refl
moved-interrupted _ _ t b d ht hb = ground arith

pub step-interrupted :
    (op : Direct.Op ℕ) (d : Direct ℕ) → Spares op → is_cut (Direct.step op d).0 ≡ is_cut d
unfolding Direct.step run_loop interrupt_waits close_graceful close_ungraceful close_buffer
step-interrupted (writes m) d spares = (write-interrupted d.submitting m d refl).0
step-interrupted (gives_up m) d spares = (write-interrupted d.submitting m d refl).1
step-interrupted submits d spares = submit-interrupted d.submitting d refl
step-interrupted (moves m) d spares = moved-interrupted d.loop m d.tasks d.buffer d refl refl
step-interrupted drains d spares = drain-interrupted d.buffer d refl
step-interrupted closes_task d spares = absurd spares
step-interrupted terminates_core d spares = absurd spares
step-interrupted _ d spares = ground arith
