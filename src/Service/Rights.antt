-- ===== src/Service/Rights.antt =====
-- Which thread may move the messaging service on, and what each thread knows from its place.
use pubsubplus_go_client.Prelude.{
  ℕ, ◌+◌, ◌≤◌, ◌≡◌, ◌⊎◌, inl, inr, refl, Bool, true, false, not, ◌&&◌, ltb, arith,
}
use pubsubplus_go_client.Prelude.Family.{sum_below-zero}
use pubsubplus_go_client.Prelude.Interleaving.{System, Discipline, Inv}
use pubsubplus_go_client.Future.{complete, get}
use pubsubplus_go_client.Service.{
  State, is_connecting, is_disconnecting, is_disconnected, Service, Pc, Input, idle,
  connect_transport, connect_down, connect_fail_store, connect_fail_complete, connect_register,
  connect_store, connect_complete, disconnect_unregister, disconnect_transport, disconnect_close,
  disconnect_terminate, disconnect_store, disconnect_complete, down_store, down_terminate, down_go,
  down_unregister, down_close, down_complete, new_messaging_service, step, connect_step,
  disconnect_step, down_step,
}

-- The order in which the service passes through its states.
abbrev pub rank : State → ℕ
rank State.not_connected = 0
rank State.connecting = 1
rank State.connected = 2
rank State.disconnecting = 3
rank State.disconnected = 4

abbrev pub is_begun : State → Bool
is_begun s = ltb 1 (rank s)

abbrev free_state : State → ℕ
free_state State.connecting = 0
free_state State.disconnecting = 0
free_state _ = 1

module _ {E : Type 0} where
  -- The right to move the service on lies with a thread while the service is connecting or
  -- disconnecting.
  abbrev pub owns : Pc E → ℕ
  owns connect_transport = 1
  owns (connect_down _) = 1
  owns (connect_fail_store _) = 1
  owns connect_register = 1
  owns connect_store = 1
  owns disconnect_unregister = 1
  owns disconnect_transport = 1
  owns (disconnect_close _) = 1
  owns (disconnect_terminate _) = 1
  owns (disconnect_store _) = 1
  owns _ = 0

  -- What a thread's place says about the service.
  abbrev pub allowed : Service E → Pc E → Bool
  allowed s connect_transport = is_connecting s.state
  allowed s (connect_down _) = is_connecting s.state
  allowed s (connect_fail_store _) = is_connecting s.state && not s.is_up
  allowed s (connect_fail_complete _) = is_begun s.state
  allowed s connect_register = is_connecting s.state && s.transport_connected
  allowed s connect_store = is_connecting s.state && s.transport_connected
  allowed s connect_complete = is_begun s.state
  allowed s disconnect_unregister = is_disconnecting s.state
  allowed s disconnect_transport = is_disconnecting s.state
  allowed s (disconnect_close _) = is_disconnecting s.state
  allowed s (disconnect_terminate _) = is_disconnecting s.state
  allowed s (disconnect_store _) = is_disconnecting s.state
  allowed s (disconnect_complete _) = is_disconnected s.state
  allowed s down_store = is_disconnected s.state
  allowed s down_terminate = is_disconnected s.state
  allowed s down_go = is_disconnected s.state
  allowed s down_unregister = is_disconnected s.state
  allowed s down_close = is_disconnected s.state
  allowed s down_complete = is_disconnected s.state
  allowed s _ = true

  pub owns-step :
      (i : Input E) (pc : Pc E) (s : Service E)
      → allowed s pc ≡ true
      → free_state (step i pc s).0.state + owns (step i pc s).1 ≡ free_state s.state + owns pc
  unfolding step connect_step disconnect_step down_step get complete
  owns-step i idle s h = ground arith
  owns-step i _ s h = ground arith

  pub allowed-step :
      (i : Input E) (pc : Pc E) (s : Service E)
      → allowed s pc ≡ true
      → allowed (step i pc s).0 (step i pc s).1 ≡ true
  unfolding step connect_step disconnect_step down_step get complete
  allowed-step i idle s h = ground arith
  allowed-step i _ s h = ground arith

  rank-step :
      (i : Input E) (pc : Pc E) (s : Service E)
      → allowed s pc ≡ true
      → rank s.state ≤ rank (step i pc s).0.state
  unfolding step connect_step disconnect_step down_step get complete
  rank-step i idle s h = ground arith
  rank-step i _ s h = ground arith

  -- A step of one that does not own the right leaves a service that is connecting or disconnecting in
  -- its state, and no step takes back what an owner knows.
  still-step :
      (i : Input E) (pc : Pc E) (s : Service E)
      → owns pc ≡ 0
      → free_state s.state ≡ 0
      → ((step i pc s).0.state ≡ s.state)
        × ((step i pc s).0.transport_connected ≡ s.transport_connected)
        × (s.is_up ≡ false → (step i pc s).0.is_up ≡ false)
  unfolding step connect_step disconnect_step down_step get complete
  still-step i idle s h f = ground arith
  still-step i _ s h f = ground arith

  owner_knows :
      (pc : Pc E) (s s' : Service E)
      → s'.state ≡ s.state
      → s'.transport_connected ≡ s.transport_connected
      → (s.is_up ≡ false → s'.is_up ≡ false)
      → allowed s pc ≡ true
      → allowed s' pc ≡ true
  owner_knows idle s s' e f g h = refl
  owner_knows _ s s' e f g h = ground arith

  allowed_mono :
      (pc : Pc E) (s s' : Service E)
      → owns pc ≡ 0
      → rank s.state ≤ rank s'.state
      → allowed s pc ≡ true
      → allowed s' pc ≡ true
  allowed_mono idle s s' h r a = refl
  allowed_mono _ s s' h r a = ground arith

  owns_cases : (pc : Pc E) → (owns pc ≡ 0) ⊎ (owns pc ≡ 1)
  owns_cases idle = inl refl
  owns_cases _ = ground arith

  pub allowed-other :
      (i : Input E) (pc other : Pc E) (s : Service E)
      → allowed s pc ≡ true
      → allowed s other ≡ true
      → free_state s.state + owns pc + owns other ≤ 1
      → allowed (step i pc s).0 other ≡ true
  allowed-other i pc other s h k right = elim (owns_cases other) [
    | inl none' ↦ allowed_mono other s (step i pc s).0 none' (rank-step i pc s h) k
    | inr one ↦
        let (same, kept, down) = still-step i pc s (omega arith) (omega arith) in
        owner_knows other s (step i pc s).0 same kept down k
  ]

  abbrev pub discipline : Discipline (Service E) (Pc E) (Input E)
  discipline = record {
    step = step;
    owns = owns;
    free = λ s. free_state s.state;
    allowed = allowed;
    owns-step = owns-step;
    allowed-step = allowed-step;
    allowed-other = allowed-other;
  }

  abbrev pub init : System (Service E) (Pc E)
  init = record { shared = new_messaging_service; pcs = λ _. idle }

  pub init-Inv : (n : ℕ) → Inv discipline n init
  unfolding new_messaging_service
  init-Inv n = record {
    one_right = omega (arith, sum_below-zero owns n (λ _. idle) (λ i h. refl));
    knows = λ t h. refl;
  }
