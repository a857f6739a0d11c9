-- ===== src/Executor.antt =====
-- internal/impl/executor/executor.go: tasks from any threads, run one after the other by `Run`. The
-- queue is a channel that is replaced by a larger one when it is full.
--
-- A step is what happens between two points where another thread may come in. `Submit` is one step,
-- or two where its first attempt finds the channel full: it then gives up the read lock, and `Run`
-- and other submitters may move before it has the write lock. It holds `stateLock` all the while, so
-- `Terminate` waits for it.
pub mod Fifo
mod Tests
use pubsubplus_go_client.Prelude.{
  ℕ, ◌+◌, ◌*◌, ◌<◌, Bool, true, false, List, [], ◌∷◌, ◌++◌, Option, none, some, length, ltb,
  if◌then◌else◌,
}

abbrev pub default_size : ℕ
default_size = 1024

abbrev pub scaling_factor : ℕ
scaling_factor = 2

-- A buffered Go channel.
pub record Channel (T : Type 0) : Type 0 where
  pub capacity : ℕ
  pub items : List T
  pub closed : Bool

-- `scale` is an int64; a channel of 2^62 tasks, beyond which it would wrap, has no room in memory.
-- `waiting` holds the tasks of the submitters between their two attempts.
pub record Executor (T : Type 0) : Type 0 where
  pub channel : Channel T
  pub closed : Bool
  pub scale : ℕ
  pub terminate_complete : Bool
  pub waiting : List T

-- `panicked` is a send on a closed channel, `stuck` a send that waits with all locks held.
pub data Event (T : Type 0) : Type 0 where
  accepted rejected full ran : T → Event T
  finished blocked done panicked stuck : Event T

module _ {T : Type 0} where
  unfoldable pub new_executor : Executor T
  new_executor = record {
    channel = record { capacity = default_size; items = []; closed = false };
    closed = false;
    scale = default_size;
    terminate_complete = false;
    waiting = [];
  }

  abbrev pub has_room : Channel T → Bool
  has_room c = ltb (length c.items) c.capacity

  abbrev pub send : T → Channel T → Channel T
  send t c = record c { items = c.items ++ (t ∷ []) }

  -- `for t := range oldChannel { newChannel <- t }`; `none` is a send that waits for ever.
  unfoldable pub transfer : List T → Channel T → Option (Channel T)
  transfer [] to = some to
  transfer (t ∷ old) to = let rest = transfer old (send t to) in if has_room to then rest else none

  abbrev resized : Executor T → ℕ → Option (Channel T) → Option (Executor T)
  resized e new_scale none = none
  resized e new_scale (some c) = some (record e { channel = c; scale = new_scale })

  unfoldable pub resize : Executor T → Option (Executor T)
  unfolding transfer
  resize e =
      let new_scale = scaling_factor * e.scale in
      resized e new_scale
        (transfer e.channel.items (record { capacity = new_scale; items = []; closed = false }))

  -- The first attempt of `Submit`, under the read locks.
  unfoldable pub submit : T → Executor T → Executor T × Event T
  submit t e =
      if e.closed
      then (e, rejected t)
      else if e.channel.closed
      then (e, panicked)
      else if has_room e.channel
      then (record e { channel = send t e.channel }, accepted t)
      else (record e { waiting = e.waiting ++ (t ∷ []) }, full t)

  abbrev sent_after_resize : T → Executor T → Option (Executor T) → Executor T × Event T
  sent_after_resize t e none = (e, stuck)
  sent_after_resize t e (some r) =
      if has_room r.channel
      then (record r { channel = send t r.channel }, accepted t)
      else (e, stuck)

  abbrev second_attempt : T → Executor T → Executor T × Event T
  second_attempt t e =
      if e.channel.closed
      then (e, panicked)
      else if has_room e.channel
      then (record e { channel = send t e.channel }, accepted t)
      else sent_after_resize t e (resize e)

  -- The second attempt, under the write lock, of the submitter that gets it next.
  abbrev resubmit_first : List T → Executor T → Executor T × Event T
  resubmit_first [] e = (e, blocked)
  resubmit_first (t ∷ rest) e = second_attempt t (record e { waiting = rest })

  unfoldable pub resubmit : Executor T → Executor T × Event T
  resubmit e = resubmit_first e.waiting e

  abbrev receive : List T → Executor T → Executor T × Event T
  receive [] e =
      if e.channel.closed then (record e { terminate_complete = true }, finished) else (e, blocked)
  receive (t ∷ rest) e = (record e { channel = record e.channel { items = rest } }, ran t)

  -- One round of the loop of `Run`, with the task that it receives run to its end.
  unfoldable pub run_round : Executor T → Executor T × Event T
  run_round e = if e.terminate_complete then (e, done) else receive e.channel.items e

  abbrev terminate_when : List T → Executor T → Executor T × Event T
  terminate_when [] e =
      if e.closed
      then (e, done)
      else (record e { closed = true; channel = record e.channel { closed = true } }, done)
  terminate_when (t ∷ rest) e = (e, blocked)

  -- `Terminate` waits until no submitter holds `stateLock`.
  unfoldable pub terminate : Executor T → Executor T × Event T
  terminate e = terminate_when e.waiting e

  -- `AwaitTermination`, after its call of `Terminate`: whether the wait is over.
  unfoldable pub is_terminated : Executor T → Bool
  is_terminated e = e.terminate_complete

-- The steps that threads make.
pub data Op (T : Type 0) : Type 0 where
  submits : T → Op T
  resubmits runs terminates : Op T

module _ {T : Type 0} where
  unfoldable pub step : Op T → Executor T → Executor T × Event T
  step (submits t) e = submit t e
  step resubmits e = resubmit e
  step runs e = run_round e
  step terminates e = terminate e

  -- The events of a schedule, in order.
  unfoldable pub run : List (Op T) → Executor T → Executor T × List (Event T)
  unfolding step
  run [] e = (e, [])
  run (op ∷ ops) e =
      let (e', event) = step op e in let (e'', events) = run ops e' in (e'', event ∷ events)
