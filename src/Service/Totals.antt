-- ===== src/Service/Totals.antt =====
-- What each step of a thread does to the calls of the transport and to the futures of the messaging
-- service, counted with the calls that are still to come.
use pubsubplus_go_client.Prelude.{
  ℕ, ◌+◌, ◌≤◌, ◌≡◌, ◌⊎◌, Bool, true, false, not, leb, if◌then◌else◌, arith,
}
use pubsubplus_go_client.Future.{Future, complete, get, new_future_error}
use pubsubplus_go_client.Service.{
  State, is_not_connected, Service, Pc, Input, idle, connect_transport, connect_down,
  connect_fail_store, connect_fail_complete, connect_register, connect_store, connect_complete,
  disconnect_unregister, disconnect_transport, disconnect_close, disconnect_terminate,
  disconnect_store, disconnect_complete, down_store, down_terminate, down_go, down_unregister,
  down_close, down_complete, new_messaging_service, is_connected, step, connect_step,
  disconnect_step, down_step,
}
use pubsubplus_go_client.Service.Rights.{rank, allowed}

abbrev pub one_if : Bool → ℕ
one_if b = if b then 1 else 0

-- The service has not begun to end.
abbrev pub ready : State → ℕ
ready s = one_if (leb (rank s) 2)

module _ {E : Type 0} where
  -- Where the call of Connect of the transport, of its Disconnect, of its Close, is still to come.
  abbrev pub before_connect : Pc E → ℕ
  before_connect connect_transport = 1
  before_connect _ = 0

  abbrev pub before_disconnect : Pc E → ℕ
  before_disconnect disconnect_unregister = 1
  before_disconnect disconnect_transport = 1
  before_disconnect _ = 0

  abbrev pub before_close : Pc E → ℕ
  before_close disconnect_unregister = 1
  before_close disconnect_transport = 1
  before_close (disconnect_close _) = 1
  before_close down_store = 1
  before_close down_terminate = 1
  before_close down_go = 1
  before_close down_unregister = 1
  before_close down_close = 1
  before_close _ = 0

  -- The places between the compare-and-swap of a connection or an end and the completion of its future.
  abbrev pub connects_at : Pc E → Bool
  connects_at connect_transport = true
  connects_at (connect_down _) = true
  connects_at (connect_fail_store _) = true
  connects_at (connect_fail_complete _) = true
  connects_at connect_register = true
  connects_at connect_store = true
  connects_at connect_complete = true
  connects_at _ = false

  abbrev pub ends_at : Pc E → Bool
  ends_at disconnect_unregister = true
  ends_at disconnect_transport = true
  ends_at (disconnect_close _) = true
  ends_at (disconnect_terminate _) = true
  ends_at (disconnect_store _) = true
  ends_at (disconnect_complete _) = true
  ends_at down_store = true
  ends_at down_terminate = true
  ends_at down_go = true
  ends_at down_unregister = true
  ends_at down_close = true
  ends_at down_complete = true
  ends_at _ = false

  pub connects-step :
      (i : Input E) (pc : Pc E) (s : Service E)
      → allowed s pc ≡ true
      → ((step i pc s).0.connects
          + one_if (is_not_connected (step i pc s).0.state)
          + before_connect (step i pc s).1)
        ≡ s.connects + one_if (is_not_connected s.state) + before_connect pc
  unfolding step connect_step disconnect_step down_step get
  connects-step i idle s h = ground arith
  connects-step i _ s h = ground arith

  pub closes-step :
      (i : Input E) (pc : Pc E) (s : Service E)
      → allowed s pc ≡ true
      → (step i pc s).0.closes + ready (step i pc s).0.state + before_close (step i pc s).1
        ≡ s.closes + ready s.state + before_close pc
  unfolding step connect_step disconnect_step down_step get
  closes-step i idle s h = ground arith
  closes-step i _ s h = ground arith

  pub disconnects-step :
      (i : Input E) (pc : Pc E) (s : Service E)
      → allowed s pc ≡ true
      → (step i pc s).0.disconnects
          + ready (step i pc s).0.state
          + before_disconnect (step i pc s).1
        ≤ s.disconnects + ready s.state + before_disconnect pc
  unfolding step connect_step disconnect_step down_step get
  disconnects-step i idle s h = ground arith
  disconnects-step i _ s h = ground arith

  abbrev pub owed : Future E → ℕ
  owed f = one_if (not f.resolved)

  pub connect_future-step :
      (i : Input E) (pc : Pc E) (s : Service E)
      → allowed s pc ≡ true
      → (owed (step i pc s).0.connect_future ≡ 0)
        ⊎ ((owed (step i pc s).0.connect_future ≤ owed s.connect_future)
            × (one_if (is_not_connected s.state) + one_if (connects_at pc)
                ≤ one_if (is_not_connected (step i pc s).0.state)
                  + one_if (connects_at (step i pc s).1)))
  unfolding step connect_step disconnect_step down_step get complete
  connect_future-step i idle s h = ground arith
  connect_future-step i _ s h = ground arith

  pub disconnect_future-step :
      (i : Input E) (pc : Pc E) (s : Service E)
      → allowed s pc ≡ true
      → (owed (step i pc s).0.disconnect_future ≡ 0)
        ⊎ ((owed (step i pc s).0.disconnect_future ≤ owed s.disconnect_future)
            × (ready s.state + one_if (ends_at pc)
                ≤ ready (step i pc s).0.state + one_if (ends_at (step i pc s).1)))
  unfolding step connect_step disconnect_step down_step get complete
  disconnect_future-step i idle s h = ground arith
  disconnect_future-step i _ s h = ground arith

  -- While the service counts as connected, its transport is; and a future tells only what is over.
  pub record Sound (s : Service E) : Type 0 where
    pub live : is_connected s ≡ true → s.transport_connected ≡ true
    pub begun : s.connect_future.resolved ≡ true → 2 ≤ rank s.state
    pub ended : s.disconnect_future.resolved ≡ true → rank s.state ≡ 4

  pub step-Sound :
      (i : Input E) (pc : Pc E) (s : Service E)
      → allowed s pc ≡ true
      → Sound s
      → Sound (step i pc s).0
  unfolding step connect_step disconnect_step down_step get complete is_connected
  step-Sound i idle s h v = ground arith
  step-Sound i _ s h v = ground arith

  pub new_messaging_service-Sound : Sound (new_messaging_service {E = E})
  unfolding new_messaging_service new_future_error is_connected
  new_messaging_service-Sound = ground arith
