-- ===== src/Core/Writability/Waiting.antt =====
-- A task never waits for an event that does not come.
use pubsubplus_go_client.Prelude.{
  ◌≡◌, ◌||◌, refl, Bool, true, false, List, [], ◌∷◌, Option, none, some, arith,
}
use pubsubplus_go_client.Core.Writability.{
  Loop, Writability, Op, top, taking, publishing, awaiting, tests, takes, receives, signals,
  sends_again, starts, interrupts, closes, publishes, accepted, would_block, error, idle_publisher,
  on_can_send, start, interrupt, close_termination, loop_step, publish_loop, await_writable, step,
  run,
}

abbrev pub is_awaiting : Loop → Bool
is_awaiting awaiting = true
is_awaiting _ = false

abbrev pub is_filled : Option Bool → Bool
is_filled none = false
is_filled (some b) = true

-- A task that waits has something to come.
record Inv (s : Writability) : Type 0 where
  comes : is_awaiting s.loop ≡ true → (s.owed || is_filled s.can_send) ≡ true

loop-Inv :
    (l : Loop) (t : Option Bool) (op : Op) (s : Writability)
    → s.loop ≡ l
    → s.can_send ≡ t
    → Inv s
    → Inv (loop_step l op s)
unfolding await_writable
loop-Inv top t tests s h k v = ground arith
loop-Inv taking t takes s h k v = ground arith
loop-Inv taking t tests s h k v = ground arith
loop-Inv publishing t (publishes accepted) s h k v = ground arith
loop-Inv publishing t (publishes would_block) s h k v = ground arith
loop-Inv publishing t (publishes error) s h k v = ground arith
loop-Inv awaiting none receives s h k v = ground arith
loop-Inv awaiting (some true) receives s h k v = ground arith
loop-Inv awaiting (some false) receives s h k v = ground arith
loop-Inv awaiting t signals s h k v = ground arith
loop-Inv _ t _ s h k v = v

step-Inv : (op : Op) (s : Writability) → Inv s → Inv (step op s)
unfolding step publish_loop on_can_send start interrupt close_termination
step-Inv sends_again s v = ground arith
step-Inv starts s v = ground arith
step-Inv interrupts s v = ground arith
step-Inv closes s v = ground arith
step-Inv tests s v = loop-Inv s.loop s.can_send tests s refl refl v
step-Inv takes s v = loop-Inv s.loop s.can_send takes s refl refl v
step-Inv receives s v = loop-Inv s.loop s.can_send receives s refl refl v
step-Inv signals s v = loop-Inv s.loop s.can_send signals s refl refl v
step-Inv (publishes a) s v = loop-Inv s.loop s.can_send (publishes a) s refl refl v

run-Inv : (ops : List Op) (s : Writability) → Inv s → Inv (run ops s)
unfolding run
run-Inv [] s v = v
run-Inv (op ∷ ops) s v = run-Inv ops (step op s) (step-Inv op s v)

-- Whenever a task waits for room in the C library, the channel that it waits on holds something, or
-- the library owes the event that fills it; no event is lost, whenever it comes.
pub run-awaits :
    (ops : List Op)
    → let s = run ops idle_publisher in
      is_awaiting s.loop ≡ true → (s.owed || is_filled s.can_send) ≡ true
unfolding idle_publisher
run-awaits ops h = (run-Inv ops idle_publisher (record { comes = λ e. ground arith })).comes h
