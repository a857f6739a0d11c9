-- ===== src/Publisher/Persistent.antt =====
-- internal/impl/publisher/persistent_message_publisher_impl.go with backpressure by buffer: the way of a
-- message through the buffers, which is that of `Publisher.Direct`, together with the table of the
-- contexts that wait for an acknowledgement, which is that of `Publisher.Receipts`.
--
-- A message is known by its message id, and so is its context.
pub mod Places
pub mod Contexts
mod Asides
pub mod Once
mod Steps
mod Moves
mod Receiving
mod Tests
use pubsubplus_go_client.Prelude.{
  ℕ, Bool, true, false, not, ◌&&◌, ◌||◌, List, [], ◌∷◌, ◌++◌, ◌==◌, if◌then◌else◌,
}
use pubsubplus_go_client.Prelude.Dict.{Dict}
use pubsubplus_go_client.Publisher.Backpressure.{Backpressure}
use pubsubplus_go_client.Publisher.Direct
use pubsubplus_go_client.Publisher.Direct.{
  Direct, Loop, sending, waiting, finished, looked, Move, moves, drained, popped, interrupted,
  publishes,
}
use pubsubplus_go_client.Publisher.Direct.Accounting.{written_of}
use pubsubplus_go_client.Publisher.Receipts
use pubsubplus_go_client.Publisher.Receipts.{
  Receipts, no_receipts, add_correlation_context, remove_correlation_context,
}

-- `begun` is whether the task that runs has put its context into the table; `accepted` are the messages
-- that the buffer took.
pub record Persistent : Type 0 where
  pub direct : Direct ℕ
  pub receipts : Receipts (Unit {0})
  pub begun : Bool
  pub accepted : List ℕ

-- A step of the buffers; the start of the task that `sendTask` makes; an acknowledgement up to its call
-- of `resolve` and after it; the change of the state to Terminating; the request of Terminate for the
-- completion.
pub data Op : Type 0 where
  buffers : Direct.Op ℕ → Op
  begins : Op
  acknowledges : ℕ → Op
  finishes terminates requests : Op

abbrev pub Resolved : Type 0
Resolved = Dict (Unit {0})

abbrev pub resolved : ℕ → Resolved
resolved id = (id, tt) ∷ []

-- Whether Publish has not accepted the message of the task that runs.
abbrev pub holds_back : ℕ → Loop ℕ → Bool
holds_back id (sending m) = id == m
holds_back id (waiting m) = id == m
holds_back id (finished m is_failed) = is_failed && id == m
holds_back id (looked m is_failed is_full) = is_failed && id == m
holds_back id _ = false

unfoldable pub construct : Backpressure → ℕ → Persistent
unfolding Direct.construct no_receipts
construct b n = record {
  direct = Direct.construct b n false;
  receipts = no_receipts;
  begun = false;
  accepted = [];
}

-- `sendTask` before its loop.
abbrev pub begin_task : Loop ℕ → Persistent → Persistent
begin_task (sending m) s =
    if s.begun
    then s
    else record s { receipts = add_correlation_context m tt s.receipts; begun = true }
begin_task _ s = s

-- `sendTask` after Publish: a failed message is taken out of the table and resolved.
abbrev pub settle : Bool → ℕ → Persistent → Persistent × Resolved
settle true m s =
    (record s { receipts = remove_correlation_context m s.receipts; begun = false }, resolved m)
settle false m s = (record s { begun = false }, [])

abbrev pub after_pop : Loop ℕ → Direct.Event ℕ → Persistent → Persistent × Resolved
after_pop (looked m is_failed is_full) (popped p told ready) s = settle is_failed m s
after_pop (looked m is_failed is_full) _ s = (record s { begun = false }, [])
after_pop _ _ s = (s, [])

-- A wait for room that is interrupted takes the context out of the table.
abbrev pub after_interrupt : Loop ℕ → Bool → Persistent → Persistent × Resolved
after_interrupt (waiting m) true s =
    (record s { receipts = remove_correlation_context m s.receipts; begun = false }, [])
after_interrupt _ _ s = (s, [])

-- `drainQueue` resolves the context of each message that it takes out.
abbrev pub after_drain : Direct.Event ℕ → Persistent → Persistent × Resolved
after_drain (drained p) s = (s, resolved p)
after_drain _ s = (s, [])

-- What the step of the buffers, made from `l` with the event `e`, comes to for the contexts.
abbrev pub after : Direct.Op ℕ → Loop ℕ → Direct.Event ℕ → Persistent → Persistent × Resolved
after (moves Direct.pops) l e s = after_pop l e s
after (moves interrupted) l e s =
    after_interrupt l (s.direct.task_interrupted || s.direct.core_terminated) s
after Direct.drains l e s = after_drain e s
after _ l e s = (s, [])

-- A task calls Publish only after its context is in the table.
abbrev pub waits_to_begin : Direct.Op ℕ → Bool → Bool
waits_to_begin (moves (publishes r)) begun = not begun
waits_to_begin _ begun = false

abbrev pub receive : Persistent → Receipts (Unit {0}) × Resolved → Persistent × Resolved
receive s (receipts, told) = (record s { receipts = receipts }, told)

-- The contexts that a step resolves come with it. The broker acknowledges only what Publish accepted.
unfoldable pub step : Op → Persistent → Persistent × Resolved
unfolding Direct.step Receipts.step
step (buffers op) s =
    if waits_to_begin op s.begun
    then (s, [])
    else after op s.direct.loop (Direct.step op s.direct).1 (record s {
      direct = (Direct.step op s.direct).0;
      accepted = s.accepted ++ written_of (Direct.step op s.direct).1;
    })
step begins s = (begin_task s.direct.loop s, [])
step (acknowledges id) s =
    if holds_back id s.direct.loop
    then (s, [])
    else receive s (Receipts.step (Receipts.acknowledges id) s.receipts)
step finishes s = receive s (Receipts.step Receipts.finishes s.receipts)
step terminates s = receive s (Receipts.step Receipts.terminates s.receipts)
step requests s = receive s (Receipts.step Receipts.requests s.receipts)

unfoldable pub run : List Op → Persistent → Persistent × Resolved
run [] s = (s, [])
run (op ∷ ops) s = let (s', told) = step op s in let (s'', more) = run ops s' in (s'', told ++ more)
