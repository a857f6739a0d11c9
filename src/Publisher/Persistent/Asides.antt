-- ===== src/Publisher/Persistent/Asides.antt =====
-- What is resolved in the steps of the buffers that the loop does not make: `drainQueue` alone resolves.
use pubsubplus_go_client.Prelude.{ℕ, ◌+◌, ◌≡◌, refl, sym, List, [], ◌∷◌, Option, none, some, arith}
use mathlib.Core.Path.{subst}
use pubsubplus_go_client.Prelude.Dict.{occurrences}
use pubsubplus_go_client.Publisher.Direct
use pubsubplus_go_client.Publisher.Direct.{
  Direct, Event, Loop, publish_write, publish_interrupted, submit, interrupt_waits, close_graceful,
  close_task, close_ungraceful, close_buffer, drain_queue, terminate_core, moves, writes, gives_up,
  submits, drains, interrupts_waits, closes_graceful, closes_task, closes_ungraceful, closes_buffer,
}
use pubsubplus_go_client.Publisher.Direct.Accounting.{taken_of}
use pubsubplus_go_client.Publisher.Persistent.{Persistent, Resolved, after}
use pubsubplus_go_client.Publisher.Persistent.Contexts.{Counted, count, stepped, aside-Counted}
use pubsubplus_go_client.Publisher.Persistent.Places.{IsMove, Spares}

-- What follows the step of the buffers.
abbrev pub later : Direct.Op ℕ → Persistent → Persistent × Resolved
later op s = after op s.direct.loop (Direct.step op s.direct).1 (stepped op s)

abbrev taken : ℕ → Direct.Op ℕ → Direct ℕ → ℕ
taken k op d = count k (taken_of (Direct.step op d).1)

write-taken :
    (o : Option ℕ) (k m : ℕ) (d : Direct ℕ)
    → d.submitting ≡ o
    → (count k (taken_of (publish_write m d).1) ≡ 0)
      × (count k (taken_of (publish_interrupted m d).1) ≡ 0)
unfolding publish_write publish_interrupted
write-taken none k m d h = ground arith
write-taken (some other) k m d h = ground arith

submit-taken :
    (o : Option ℕ) (k : ℕ) (d : Direct ℕ) → d.submitting ≡ o → count k (taken_of (submit d).1) ≡ 0
unfolding submit
submit-taken none k d h = ground arith
submit-taken (some m) k d h = ground arith

record Told (k : ℕ) (op : Direct.Op ℕ) (s : Persistent) : Type 0 where
  same : (later op s).0 ≡ stepped op s
  count_told : occurrences k (later op s).1 ≡ taken k op s.direct

drained-Told : (b : List ℕ) (k : ℕ) (s : Persistent) → s.direct.buffer ≡ b → Told k drains s
unfolding Direct.step drain_queue occurrences
drained-Told [] k s h = ground arith
drained-Told (p ∷ rest) k s h = ground arith

later-Told : (op : Direct.Op ℕ) (k : ℕ) (s : Persistent) → (IsMove op → ⊥) → Told k op s
unfolding Direct.step terminate_core interrupt_waits close_graceful close_task close_ungraceful
    close_buffer occurrences
later-Told (writes m) k s other = record {
  same = refl;
  count_told = sym (write-taken s.direct.submitting k m s.direct refl).0;
}
later-Told (gives_up m) k s other = record {
  same = refl;
  count_told = sym (write-taken s.direct.submitting k m s.direct refl).1;
}
later-Told submits k s other = record {
  same = refl;
  count_told = sym (submit-taken s.direct.submitting k s.direct refl);
}
later-Told (moves m) k s other = absurd (other tt)
later-Told drains k s other = drained-Told s.direct.buffer k s refl
later-Told _ k s other = ground arith

pub later-Counted :
    (op : Direct.Op ℕ) (k r : ℕ) (s : Persistent)
    → Spares op
    → (IsMove op → ⊥)
    → Counted k r s
    → Counted k (r + occurrences k (later op s).1) (later op s).0
later-Counted op k r s spares other v =
    let t = later-Told op k s other in
    subst (Counted k (r + occurrences k (later op s).1)) (sym t.same)
      (aside-Counted op k r (occurrences k (later op s).1) s spares other t.count_told v)
