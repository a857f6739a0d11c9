-- ===== src/Publisher/Direct.antt =====
-- internal/impl/publisher/direct_message_publisher_impl.go with backpressure by buffer, and the task
-- buffer of internal/impl/publisher/buffer/publisher_task_buffer.go that it hands its messages to.
--
-- A step is what happens between two points where another thread may come in: a channel operation,
-- a call of the C library. `M` is the type of the messages. The checks of the life cycle that come
-- before a publish are those of `Publisher.Basic`; a schedule may publish at any time.
pub mod Accounting
pub mod Order
pub mod Tasks
pub mod Graceful
mod Tests
use pubsubplus_go_client.Prelude.{
  ℕ, ◌&&◌, ◌||◌, ◌==◌, Bool, true, false, List, [], ◌∷◌, ◌++◌, Option, none, some, length, ltb,
  if◌then◌else◌,
}
use pubsubplus_go_client.Publisher.Backpressure.{Backpressure}

-- Where the run loop of the task buffer stands, with the task that it runs, which stands as its message.
pub data Loop (M : Type 0) : Type 0 where
  -- before the loop's selects
  ready : Loop M
  -- before the send to the shared task queue
  holding : M → Loop M
  -- in `sendTask`: before the call of Publish, in AwaitWritable
  sending waiting : M → Loop M
  -- after Publish, with whether it failed; after `isFull` is read
  finished : M → Bool → Loop M
  looked : M → Bool → Bool → Loop M
  ended : Loop M

-- `directMessagePublisherImpl` with `channelBasedPublisherTaskBuffer`. Both channels have the
-- capacity `buffer_size`. `submitting` is the message of the publish that holds `bufferPublishLock`
-- between its two channels. The last five are the channels that are closed as signals.
-- `core_terminated` is whether `terminate` of internal/impl/core/publisher.go has sent its false on
-- canSend, which ends a wait of AwaitWritable; the model lets it end any later wait as well.
pub record Direct (M : Type 0) : Type 0 where
  pub backpressure : Backpressure
  pub buffer_size : ℕ
  pub has_failure_listener : Bool
  pub buffer : List M
  pub buffer_closed : Bool
  pub submitting : Option M
  pub tasks : List M
  pub loop : Loop M
  pub core_terminated : Bool
  pub wait_interrupted : Bool
  pub graceful : Bool
  pub task_interrupted : Bool
  pub ungraceful : Bool
  pub complete : Bool

-- `popped` has the message taken, what the failure listener is told, and whether the readiness
-- listener is called; `refused` is the error of a terminated publisher, `overflow` that of a full one.
pub data Event (M : Type 0) : Type 0 where
  written queued unqueued overflow refused sent failed drained : M → Event M
  popped : M → Option M → Bool → Event M
  blocked done missed unexpected : Event M

-- What `core.Publisher.Publish` returns.
pub data Sending : Type 0 where
  accepted would_block error : Sending

abbrev pub is_reject : Backpressure → Bool
is_reject Backpressure.reject = true
is_reject _ = false

abbrev pub is_wait : Backpressure → Bool
is_wait Backpressure.wait = true
is_wait _ = false

module _ {M : Type 0} where
  unfoldable pub construct : Backpressure → ℕ → Bool → Direct M
  construct b n listens = record {
    backpressure = b;
    buffer_size = n;
    has_failure_listener = listens;
    buffer = [];
    buffer_closed = false;
    submitting = none;
    tasks = [];
    loop = ready;
    core_terminated = false;
    wait_interrupted = false;
    graceful = false;
    task_interrupted = false;
    ungraceful = false;
    complete = false;
  }

  -- The write to the message buffer. One that waits for room is `blocked`, and so is one that waits
  -- for the lock: which of them comes next is up to the schedule.
  abbrev write_locked : M → Direct M → Direct M × Event M
  write_locked m s =
      if s.buffer_closed
      then (s, refused m)
      else if ltb (length s.buffer) s.buffer_size
      then (record s { buffer = s.buffer ++ (m ∷ []); submitting = some m }, written m)
      else if is_reject s.backpressure
      then (s, overflow m)
      else (s, blocked)

  abbrev write_when : Option M → M → Direct M → Direct M × Event M
  write_when none m s = write_locked m s
  write_when (some other) m s = (s, blocked)

  unfoldable pub publish_write : M → Direct M → Direct M × Event M
  publish_write m s = write_when s.submitting m s

  -- The other case of the select that waits.
  abbrev interrupt_when : Option M → M → Direct M → Direct M × Event M
  interrupt_when none m s =
      if is_wait s.backpressure && s.wait_interrupted then (s, refused m) else (s, blocked)
  interrupt_when (some other) m s = (s, blocked)

  unfoldable pub publish_interrupted : M → Direct M → Direct M × Event M
  publish_interrupted m s = interrupt_when s.submitting m s

  -- `taskBuffer.Submit`, with the end of `publish`.
  abbrev submit_when : Option M → Direct M → Direct M × Event M
  submit_when none s = (s, blocked)
  submit_when (some m) s =
      if s.complete
      then (record s { submitting = none }, unqueued m)
      else if ltb (length s.tasks) s.buffer_size
      then (record s { submitting = none; tasks = s.tasks ++ (m ∷ []) }, queued m)
      else (record s { submitting = none }, unqueued m)

  unfoldable pub submit : Direct M → Direct M × Event M
  submit s = submit_when s.submitting s

  abbrev end_loop : Direct M → Direct M × Event M
  end_loop s = (record s { loop = ended; complete = true }, done)

  abbrev take_task : List M → Direct M → Direct M × Event M
  take_task [] s = if s.graceful then end_loop s else (s, blocked)
  take_task (m ∷ tasks) s = (record s { loop = holding m; tasks = tasks }, done)

  abbrev attempt : M → Sending → Direct M → Direct M × Event M
  attempt m accepted s = (record s { loop = finished m false }, sent m)
  attempt m would_block s = (record s { loop = waiting m }, blocked)
  attempt m error s = (record s { loop = finished m true }, failed m)

  abbrev pop : List M → M → Bool → Bool → Direct M → Direct M × Event M
  pop [] m is_failed is_full s =
      (record s { loop = ready }, if s.buffer_closed then missed else unexpected)
  pop (p ∷ rest) m is_failed is_full s = (
    record s { loop = ready; buffer = rest },
    popped p (if is_failed && s.has_failure_listener then some m else none)
        (is_full && is_reject s.backpressure),
  )

-- What moves the run loop on: the loop itself, the shared task queue, the C library, and the signals.
pub data Move : Type 0 where
  takes hands_over abandons : Move
  publishes : Sending → Move
  writable interrupted looks pops : Move

module _ {M : Type 0} where
  -- `Run`, with the task that `sendTask` makes.
  abbrev pub moved : Loop M → Move → Direct M → Direct M × Event M
  moved ready takes s = if s.ungraceful then end_loop s else take_task s.tasks s
  moved (holding m) hands_over s = (record s { loop = sending m }, done)
  moved (holding m) abandons s = if s.ungraceful then end_loop s else (s, blocked)
  moved (sending m) (publishes r) s = attempt m r s
  moved (waiting m) writable s = (record s { loop = sending m }, done)
  moved (waiting m) interrupted s =
      if s.task_interrupted || s.core_terminated
      then (record s { loop = ready }, done)
      else (s, blocked)
  moved (finished m is_failed) looks s =
      (record s { loop = looked m is_failed (length s.buffer == s.buffer_size) }, done)
  moved (looked m is_failed is_full) pops s = pop s.buffer m is_failed is_full s
  moved _ _ s = (s, blocked)

  unfoldable pub run_loop : Move → Direct M → Direct M × Event M
  run_loop move s = moved s.loop move s

  -- The termination of the core's publisher, at any time.
  unfoldable pub terminate_core : Direct M → Direct M × Event M
  terminate_core s = (record s { core_terminated = true }, done)

  -- The steps of `Terminate` and `unsolicitedTermination`, and of the `Terminate` and `TerminateNow`
  -- of the task buffer that they call, each where the one before it has been made.
  unfoldable pub interrupt_waits : Direct M → Direct M × Event M
  interrupt_waits s = (record s { wait_interrupted = true }, done)

  unfoldable pub close_graceful : Direct M → Direct M × Event M
  close_graceful s =
      if s.wait_interrupted then (record s { graceful = true }, done) else (s, blocked)

  unfoldable pub close_task : Direct M → Direct M × Event M
  close_task s = if s.graceful then (record s { task_interrupted = true }, done) else (s, blocked)

  unfoldable pub close_ungraceful : Direct M → Direct M × Event M
  close_ungraceful s =
      if s.task_interrupted then (record s { ungraceful = true }, done) else (s, blocked)

  -- `drainQueue`: the close, after the task buffer is complete or need not be waited for, and a round
  -- of the loop, which counts the message.
  unfoldable pub close_buffer : Direct M → Direct M × Event M
  close_buffer s =
      if s.complete || s.ungraceful then (record s { buffer_closed = true }, done) else (s, blocked)

  abbrev drain_first : List M → Direct M → Direct M × Event M
  drain_first [] s = (s, done)
  drain_first (p ∷ rest) s = (record s { buffer = rest }, drained p)

  unfoldable pub drain_queue : Direct M → Direct M × Event M
  drain_queue s = if s.buffer_closed then drain_first s.buffer s else (s, blocked)

pub data Op (M : Type 0) : Type 0 where
  writes gives_up : M → Op M
  submits : Op M
  moves : Move → Op M
  terminates_core : Op M
  interrupts_waits closes_graceful closes_task closes_ungraceful closes_buffer drains : Op M

module _ {M : Type 0} where
  unfoldable pub step : Op M → Direct M → Direct M × Event M
  step (writes m) s = publish_write m s
  step (gives_up m) s = publish_interrupted m s
  step submits s = submit s
  step (moves move) s = run_loop move s
  step terminates_core s = terminate_core s
  step interrupts_waits s = interrupt_waits s
  step closes_graceful s = close_graceful s
  step closes_task s = close_task s
  step closes_ungraceful s = close_ungraceful s
  step closes_buffer s = close_buffer s
  step drains s = drain_queue s

  unfoldable pub run : List (Op M) → Direct M → Direct M × List (Event M)
  unfolding step
  run [] s = (s, [])
  run (op ∷ ops) s =
      let (s', event) = step op s in let (s'', events) = run ops s' in (s'', event ∷ events)
