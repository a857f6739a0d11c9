-- ===== src/Lifecycle/Threads.antt =====
-- `Start` and `Terminate` of message_publisher_impl.go and message_receiver_impl.go as sequences of
-- atomic accesses: a load or compare-and-swap of the state, a store of it, a future's completion.
use pubsubplus_go_client.Prelude.{ℕ, Bool, not, Option, none, some, List, [], ◌∷◌, if◌then◌else◌}
use pubsubplus_go_client.Prelude.Family.{put}
use pubsubplus_go_client.Future.{complete, get}
use pubsubplus_go_client.Errors.{Error}
use pubsubplus_go_client.Lifecycle.{
  State, is_not_started, is_started, is_ending, Errors, Basic, construct,
}

-- Where a thread stands: before which access of which function.
pub data Pc : Type 0 where
  idle : Pc
  -- `starting`: the first load, the test of the parent, the compare-and-swap, the second load
  start_load start_parent start_swap start_reload : Pc
  -- `startFuture.Get()`
  start_wait : Pc
  -- the work of `Start` after `starting` returned true
  start_body : Pc
  -- `started(nil)`: the store, the completion
  start_store start_complete : Pc
  -- the deferred function of `Start` on an error: `terminated(nil)`, `startFuture.Complete(err)`
  fail_store fail_complete fail_start_complete : Error → Pc
  -- `terminate`: the first compare-and-swap, the load, the second compare-and-swap, the completion
  end_swap end_load end_swap_not_started end_complete_now : Pc
  -- `terminateFuture.Get()`
  end_wait : Pc
  -- the work of `Terminate` after `terminate` returned true
  end_body : Pc
  -- `terminated(err)`: the store, the completion
  end_store end_complete : Option Error → Pc
  -- the call has returned
  returned : Option Error → Pc

-- What a thread's next step may depend on: the call it makes, the parent service, the outcome of the
-- work between.
pub record Input : Type 0 where
  pub calls_start : Bool
  pub parent_is_running : Bool
  pub outcome : Option Error

abbrev waited : Pc → Option (Option Error) → Pc
waited here none = here
waited here (some e) = returned e

abbrev body_done : Option Error → Pc
body_done none = start_store
body_done (some e) = fail_store e

module _ (errors : Errors) where
  -- `checkStartupStateAndWait` and `checkTerminateStateAndWait` up to the wait.
  abbrev startup_check : State → Pc
  startup_check s = if not (is_ending s) then start_wait else returned (some errors.unable_to_start)

  abbrev terminate_check : State → Pc
  terminate_check s = if is_ending s then end_wait else returned (some errors.unable_to_terminate)

  -- One atomic step of one thread.
  unfoldable pub step : Input → Pc → Basic → Basic × Pc
  unfolding get complete
  step i idle b = (b, if i.calls_start then start_load else end_swap)
  step i start_load b = (b, if is_not_started b.state then start_parent else startup_check b.state)
  step i start_parent b =
      (b, if i.parent_is_running then start_swap else returned (some errors.parent_not_started))
  step i start_swap b =
      if is_not_started b.state
      then (record b { state = State.starting }, start_body)
      else (b, start_reload)
  step i start_reload b = (b, startup_check b.state)
  step i start_wait b = (b, waited start_wait (get b.start_future))
  step i start_body b = (b, body_done i.outcome)
  step i start_store b = (record b { state = State.started }, start_complete)
  step i start_complete b =
      (record b { start_future = complete none b.start_future }, returned none)
  step i (fail_store e) b = (record b { state = State.terminated }, fail_complete e)
  step i (fail_complete e) b =
      (record b { terminate_future = complete none b.terminate_future }, fail_start_complete e)
  step i (fail_start_complete e) b =
      (record b { start_future = complete (some e) b.start_future }, returned (some e))
  step i end_swap b =
      if is_started b.state
      then (record b { state = State.terminating }, end_body)
      else (b, end_load)
  step i end_load b =
      (b, if is_not_started b.state then end_swap_not_started else terminate_check b.state)
  step i end_swap_not_started b =
      if is_not_started b.state
      then (record b { state = State.terminated }, end_complete_now)
      else (b, terminate_check State.not_started)
  step i end_complete_now b =
      (record b { terminate_future = complete none b.terminate_future }, returned none)
  step i end_wait b = (b, waited end_wait (get b.terminate_future))
  step i end_body b = (b, end_store i.outcome)
  step i (end_store e) b = (record b { state = State.terminated }, end_complete e)
  step i (end_complete e) b =
      (record b { terminate_future = complete e b.terminate_future }, returned e)
  step i (returned e) b = (b, idle)

-- Any number of threads over one service.
pub record System : Type 0 where
  pub shared : Basic
  pub pcs : ℕ → Pc

abbrev pub init : System
init = record { shared = construct; pcs = λ _. idle }

-- One thread makes one step.
unfoldable pub step_thread : Errors → ℕ → Input → System → System
unfolding step
step_thread errors t i s =
    let (b, pc) = step errors i (s.pcs t) s.shared in record { shared = b; pcs = put t pc s.pcs }

-- A schedule picks a thread, and what its step depends on, for each step.
unfoldable pub run : Errors → List (ℕ × Input) → System → System
unfolding step_thread
run errors [] s = s
run errors ((t, i) ∷ picks) s = run errors picks (step_thread errors t i s)
