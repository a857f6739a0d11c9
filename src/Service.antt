-- ===== src/Service.antt =====
-- internal/impl/messaging_service_impl.go: the life of the messaging service, Connect, Disconnect and
-- the handler of a session that goes down, as sequences of atomic accesses and calls.
pub mod Rights
pub mod Totals
pub mod Connection
pub mod Properties
mod Tests
use pubsubplus_go_client.Prelude.{
  ℕ, ◌+◌, ◌&&◌, ◌||◌, Bool, true, false, not, Option, none, some, if◌then◌else◌, ltb, ◌-◌,
}
use pubsubplus_go_client.Future.{Future, new_future_error, complete, get}

-- `messagingServiceState`
pub data State : Type 0 where
  not_connected connecting connected disconnecting disconnected : State

abbrev pub is_not_connected : State → Bool
is_not_connected not_connected = true
is_not_connected _ = false

abbrev pub is_connecting : State → Bool
is_connecting connecting = true
is_connecting _ = false

abbrev pub is_connected_state : State → Bool
is_connected_state connected = true
is_connected_state _ = false

abbrev pub is_disconnecting : State → Bool
is_disconnecting disconnecting = true
is_disconnecting _ = false

abbrev pub is_disconnected : State → Bool
is_disconnected disconnected = true
is_disconnected _ = false

-- `messagingServiceImpl`. `is_up` is whether the sub state is Up; the other value that is ever stored
-- is Down. `has_handlers` is whether the three event handlers are registered with the session,
-- `notifiers` the number of started goroutines of `notifyInterruptionListeners`. `transport_connected`
-- is whether Connect of the transport has succeeded; `connects`, `disconnects` and `closes` count the
-- calls of the transport.
pub record Service (E : Type 0) : Type 0 where
  pub state : State
  pub is_up : Bool
  pub connect_future : Future E
  pub disconnect_future : Future E
  pub has_handlers : Bool
  pub executor_terminated : Bool
  pub notifiers : ℕ
  pub transport_connected : Bool
  pub connects : ℕ
  pub disconnects : ℕ
  pub closes : ℕ

-- Why a call returns before its work: the errors of the state.
pub data Failure (E : Type 0) : Type 0 where
  already_disconnected unstarted : Failure E
  native : E → Failure E

-- Where a thread stands: before which access or call of which function.
pub data Pc (E : Type 0) : Type 0 where
  idle : Pc E
  -- `Connect`: the compare-and-swap, the load, the wait for the future, the call of the transport
  connect_swap connect_load connect_wait connect_transport : Pc E
  -- after a failure: the two stores, the completion
  connect_down connect_fail_store connect_fail_complete : E → Pc E
  -- after a success: the three handlers, the store, the completion
  connect_register connect_store connect_complete : Pc E
  -- `Disconnect`: the compare-and-swap, the load, the wait, the removal of the handlers and of the
  -- listeners, the call of the transport
  disconnect_swap disconnect_load disconnect_wait disconnect_unregister disconnect_transport : Pc E
  -- the close, the executor, the store, the completion
  disconnect_close disconnect_terminate disconnect_store disconnect_complete : Option E → Pc E
  -- `downEventHandler`: the compare-and-swap, the store, the executor, the start of the goroutines
  down_swap down_store down_terminate down_go : Pc E
  -- its first goroutine
  down_unregister down_close down_complete : Pc E
  -- `notifyInterruptionListeners`
  notify : Pc E
  returned : Option (Failure E) → Pc E

-- The call that an idle thread makes.
pub data Call : Type 0 where
  connects disconnects goes_down notifies : Call

-- What a step may depend on: the call, and what a call of the transport gives.
pub record Input (E : Type 0) : Type 0 where
  pub call : Call
  pub outcome : Option E

module _ {E : Type 0} where
  unfoldable pub new_messaging_service : Service E
  unfolding new_future_error
  new_messaging_service = record {
    state = not_connected;
    is_up = true;
    connect_future = new_future_error;
    disconnect_future = new_future_error;
    has_handlers = false;
    executor_terminated = false;
    notifiers = 0;
    transport_connected = false;
    connects = 0;
    disconnects = 0;
    closes = 0;
  }

  unfoldable pub is_connected : Service E → Bool
  is_connected s = is_connected_state s.state && s.is_up

  abbrev pub as_failure : Option E → Option (Failure E)
  as_failure none = none
  as_failure (some e) = some (native e)

  abbrev waited : Pc E → Option (Option E) → Pc E
  waited here none = here
  waited here (some e) = returned (as_failure e)

  abbrev transport_done : Option E → Pc E
  transport_done none = connect_register
  transport_done (some e) = connect_down e

  abbrev is_ok : Option E → Bool
  is_ok none = true
  is_ok (some e) = false

  -- The session reports an event to a registered handler only.
  abbrev call_of : Call → Service E → Service E × Pc E
  call_of Call.connects s = (s, connect_swap)
  call_of Call.disconnects s = (s, disconnect_swap)
  call_of goes_down s = (s, if s.has_handlers then down_swap else idle)
  call_of notifies s =
      if ltb 0 s.notifiers then (record s { notifiers = s.notifiers - 1 }, notify) else (s, idle)

  -- A step of `Connect`, from the compare-and-swap on.
  unfoldable pub connect_step : Input E → Pc E → Service E → Service E × Pc E
  unfolding get complete
  connect_step i connect_swap s =
      if is_not_connected s.state
      then (record s { state = connecting }, connect_transport)
      else (s, connect_load)
  connect_step i connect_load s = (
    s,
    if is_disconnecting s.state || is_disconnected s.state
        then returned (some already_disconnected)
        else connect_wait,
  )
  connect_step i connect_wait s = (s, waited connect_wait (get s.connect_future))
  connect_step i connect_transport s = (
    record s { connects = s.connects + 1; transport_connected = is_ok i.outcome },
    transport_done i.outcome,
  )
  connect_step i (connect_down e) s = (record s { is_up = false }, connect_fail_store e)
  connect_step i (connect_fail_store e) s =
      (record s { state = connected }, connect_fail_complete e)
  connect_step i (connect_fail_complete e) s =
      (record s { connect_future = complete (some e) s.connect_future }, returned (some (native e)))
  connect_step i connect_register s = (record s { has_handlers = true }, connect_store)
  connect_step i connect_store s = (record s { state = connected }, connect_complete)
  connect_step i connect_complete s =
      (record s { connect_future = complete none s.connect_future }, returned none)
  connect_step i pc s = (s, pc)

  -- A step of `Disconnect`, from the compare-and-swap on.
  unfoldable pub disconnect_step : Input E → Pc E → Service E → Service E × Pc E
  unfolding get complete
  disconnect_step i disconnect_swap s =
      if is_connected_state s.state
      then (record s { state = disconnecting }, disconnect_unregister)
      else (s, disconnect_load)
  disconnect_step i disconnect_load s = (
    s,
    if is_not_connected s.state || is_connecting s.state
        then returned (some unstarted)
        else disconnect_wait,
  )
  disconnect_step i disconnect_wait s = (s, waited disconnect_wait (get s.disconnect_future))
  disconnect_step i disconnect_unregister s =
      (record s { has_handlers = false }, disconnect_transport)
  disconnect_step i disconnect_transport s =
      (record s { disconnects = s.disconnects + 1 }, disconnect_close i.outcome)
  disconnect_step i (disconnect_close e) s =
      (record s { closes = s.closes + 1 }, disconnect_terminate e)
  disconnect_step i (disconnect_terminate e) s =
      (record s { executor_terminated = true }, disconnect_store e)
  disconnect_step i (disconnect_store e) s =
      (record s { state = disconnected }, disconnect_complete e)
  disconnect_step i (disconnect_complete e) s =
      (record s { disconnect_future = complete e s.disconnect_future }, returned (as_failure e))
  disconnect_step i pc s = (s, pc)

  -- A step of `downEventHandler` or a goroutine that it starts.
  unfoldable pub down_step : Pc E → Service E → Service E × Pc E
  unfolding complete
  down_step down_swap s =
      if is_connected_state s.state
      then (record s { state = disconnected }, down_store)
      else (s, returned none)
  down_step down_store s = (record s { is_up = false }, down_terminate)
  down_step down_terminate s = (record s { executor_terminated = true }, down_go)
  down_step down_go s = (record s { notifiers = s.notifiers + 1 }, down_unregister)
  down_step down_unregister s = (record s { has_handlers = false }, down_close)
  down_step down_close s = (record s { closes = s.closes + 1 }, down_complete)
  down_step down_complete s =
      (record s { disconnect_future = complete none s.disconnect_future }, returned none)
  down_step notify s = (s, returned none)
  down_step pc s = (s, pc)

  -- One atomic step of one thread.
  unfoldable pub step : Input E → Pc E → Service E → Service E × Pc E
  unfolding connect_step disconnect_step down_step
  step i idle s = call_of i.call s
  step i connect_swap s = connect_step i connect_swap s
  step i connect_load s = connect_step i connect_load s
  step i connect_wait s = connect_step i connect_wait s
  step i connect_transport s = connect_step i connect_transport s
  step i (connect_down e) s = connect_step i (connect_down e) s
  step i (connect_fail_store e) s = connect_step i (connect_fail_store e) s
  step i (connect_fail_complete e) s = connect_step i (connect_fail_complete e) s
  step i connect_register s = connect_step i connect_register s
  step i connect_store s = connect_step i connect_store s
  step i connect_complete s = connect_step i connect_complete s
  step i disconnect_swap s = disconnect_step i disconnect_swap s
  step i disconnect_load s = disconnect_step i disconnect_load s
  step i disconnect_wait s = disconnect_step i disconnect_wait s
  step i disconnect_unregister s = disconnect_step i disconnect_unregister s
  step i disconnect_transport s = disconnect_step i disconnect_transport s
  step i (disconnect_close e) s = disconnect_step i (disconnect_close e) s
  step i (disconnect_terminate e) s = disconnect_step i (disconnect_terminate e) s
  step i (disconnect_store e) s = disconnect_step i (disconnect_store e) s
  step i (disconnect_complete e) s = disconnect_step i (disconnect_complete e) s
  step i down_swap s = down_step down_swap s
  step i down_store s = down_step down_store s
  step i down_terminate s = down_step down_terminate s
  step i down_go s = down_step down_go s
  step i down_unregister s = down_step down_unregister s
  step i down_close s = down_step down_close s
  step i down_complete s = down_step down_complete s
  step i notify s = down_step notify s
  step i (returned e) s = (s, idle)
