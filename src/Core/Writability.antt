-- ===== src/Core/Writability.antt =====
-- internal/impl/core/publisher.go: the loop that publishes for the whole session, and its wait for room
-- in the C library.
--
-- A step is one channel operation or one call. After `would_block` the C library owes an event that
-- says that it can send again, which is its documented behaviour; it may send more of them.
pub mod Waiting
mod Tests
use pubsubplus_go_client.Prelude.{
  Bool, true, false, List, [], ◌∷◌, Option, none, some, if◌then◌else◌,
}

-- Where `publishLoop` stands: at the test of `termination`, in the wait for a task, in the call of
-- Publish of a task, in its AwaitWritable, at the end.
pub data Loop : Type 0 where
  top taking publishing awaiting over : Loop

-- `isRunning`
pub data Phase : Type 0 where
  not_running running terminated : Phase

pub data Answer : Type 0 where
  accepted would_block error : Answer

-- `can_send` is what the channel of one place holds, `termination` whether that channel is closed,
-- `owed` whether the C library owes an event.
pub record Writability : Type 0 where
  pub phase : Phase
  pub loop : Loop
  pub can_send : Option Bool
  pub termination : Bool
  pub owed : Bool

-- What may happen: a test of `termination`, a task that comes, what Publish gives, a receive from
-- `canSend`, the terminate signal of the task's own publisher, an event of the C library, the parts of
-- `terminate`.
pub data Op : Type 0 where
  tests takes receives signals sends_again starts interrupts closes : Op
  publishes : Answer → Op

unfoldable pub idle_publisher : Writability
idle_publisher = record {
  phase = not_running;
  loop = over;
  can_send = none;
  termination = false;
  owed = false;
}

abbrev offer : Bool → Option Bool → Option Bool
offer b none = some b
offer b (some c) = some c

unfoldable pub on_can_send : Writability → Writability
on_can_send s = record s { can_send = offer true s.can_send; owed = false }

abbrev is_not_running : Phase → Bool
is_not_running not_running = true
is_not_running _ = false

abbrev is_running_phase : Phase → Bool
is_running_phase running = true
is_running_phase _ = false

unfoldable pub start : Writability → Writability
start s = if is_not_running s.phase then record s { phase = running; loop = top } else s

-- `terminate` up to the interrupt of the wait.
unfoldable pub interrupt : Writability → Writability
interrupt s =
    if is_running_phase s.phase
    then record s { phase = terminated; can_send = offer false s.can_send }
    else s

-- The close of `termination`, by the call that interrupted.
unfoldable pub close_termination : Writability → Writability
close_termination s = elim s.phase [ terminated ↦ record s { termination = true } | _ ↦ s ]

abbrev published : Answer → Writability → Writability
published would_block s = record s { loop = awaiting; owed = true }
published _ s = record s { loop = top }

abbrev written : Option Bool → Writability → Writability
written none s = s
written (some true) s = record s { loop = publishing; can_send = none }
written (some false) s = record s { loop = top; can_send = none }

-- `AwaitWritable` with the loop of `sendTask` around it: a result true tries the publish again.
unfoldable pub await_writable : Writability → Writability
await_writable s = written s.can_send s

abbrev test_termination : Writability → Writability
test_termination s = record s { loop = if s.termination then over else taking }

-- A step of `publishLoop`, of a task that it runs, or of the select that both wait in.
abbrev loop_step : Loop → Op → Writability → Writability
loop_step top tests s = test_termination s
loop_step taking takes s = record s { loop = publishing }
loop_step taking tests s = if s.termination then record s { loop = over } else s
loop_step publishing (publishes a) s = published a s
loop_step awaiting receives s = await_writable s
loop_step awaiting signals s = record s { loop = top }
loop_step _ _ s = s

unfoldable pub publish_loop : Op → Writability → Writability
unfolding await_writable
publish_loop op s = loop_step s.loop op s

unfoldable pub step : Op → Writability → Writability
unfolding publish_loop on_can_send start interrupt close_termination
step sends_again s = on_can_send s
step starts s = start s
step interrupts s = interrupt s
step closes s = close_termination s
step tests s = publish_loop tests s
step takes s = publish_loop takes s
step receives s = publish_loop receives s
step signals s = publish_loop signals s
step (publishes a) s = publish_loop (publishes a) s

unfoldable pub run : List Op → Writability → Writability
run [] s = s
run (op ∷ ops) s = run ops (step op s)
