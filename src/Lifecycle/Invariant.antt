-- ===== src/Lifecycle/Invariant.antt =====
-- What one atomic step of one thread keeps, whatever the thread and the step.
use pubsubplus_go_client.Prelude.{ℕ, ◌+◌, ◌≤◌, ◌≡◌, refl, Bool, true, false, arith}
use pubsubplus_go_client.Future.{complete}
use pubsubplus_go_client.Lifecycle.{
  State, is_starting, is_terminating, is_terminated, Errors, Basic,
}
use pubsubplus_go_client.Lifecycle.Threads.{
  Pc, idle, start_body, start_store, start_complete, fail_store, fail_complete, fail_start_complete,
  end_complete_now, end_body, end_store, end_complete, Input, step,
}

-- The order in which a service passes through its states.
abbrev pub rank : State → ℕ
rank State.not_started = 0
rank State.starting = 1
rank State.started = 2
rank State.terminating = 3
rank State.terminated = 4

-- The right to move the service on lies with a thread while the service is starting or terminating,
-- and with nobody in the other states.
abbrev pub owns : Pc → ℕ
owns start_body = 1
owns start_store = 1
owns (fail_store _) = 1
owns end_body = 1
owns (end_store _) = 1
owns _ = 0

abbrev pub free : State → ℕ
free State.starting = 0
free State.terminating = 0
free _ = 1

-- The start is over.
abbrev pub is_begun : State → Bool
is_begun State.not_started = false
is_begun State.starting = false
is_begun _ = true

-- What a thread's place says about the state.
abbrev pub allowed : State → Pc → Bool
allowed s start_body = is_starting s
allowed s start_store = is_starting s
allowed s (fail_store _) = is_starting s
allowed s start_complete = is_begun s
allowed s (fail_complete _) = is_terminated s
allowed s (fail_start_complete _) = is_terminated s
allowed s end_complete_now = is_terminated s
allowed s end_body = is_terminating s
allowed s (end_store _) = is_terminating s
allowed s (end_complete _) = is_terminated s
allowed s _ = true

-- A future is resolved only when what it stands for is over.
abbrev pub FuturesInOrder : Basic → Type 0
FuturesInOrder b =
    (b.start_future.resolved ≡ true → is_begun b.state ≡ true)
    × (b.terminate_future.resolved ≡ true → is_terminated b.state ≡ true)

module _ (errors : Errors) (i : Input) where
  pub rank-step :
      (pc : Pc) (b : Basic)
      → allowed b.state pc ≡ true
      → rank b.state ≤ rank (step errors i pc b).0.state
  unfolding step
  rank-step idle b h = ground arith
  rank-step _ b h = ground arith

  pub allowed-step :
      (pc : Pc) (b : Basic)
      → allowed b.state pc ≡ true
      → allowed (step errors i pc b).0.state (step errors i pc b).1 ≡ true
  unfolding step
  allowed-step idle b h = ground arith
  allowed-step _ b h = ground arith

  pub owns-step :
      (pc : Pc) (b : Basic)
      → allowed b.state pc ≡ true
      → free (step errors i pc b).0.state + owns (step errors i pc b).1 ≡ free b.state + owns pc
  unfolding step
  owns-step idle b h = ground arith
  owns-step _ b h = ground arith

  -- A thread without the right does not move a service that is starting or terminating.
  pub state-step :
      (pc : Pc) (b : Basic)
      → owns pc ≡ 0
      → free b.state ≡ 0
      → (step errors i pc b).0.state ≡ b.state
  unfolding step
  state-step idle b h f = ground arith
  state-step _ b h f = ground arith

  pub step-FuturesInOrder :
      (pc : Pc) (b : Basic)
      → allowed b.state pc ≡ true
      → FuturesInOrder b
      → FuturesInOrder (step errors i pc b).0
  unfolding step complete
  step-FuturesInOrder idle b h f = ground arith
  step-FuturesInOrder _ b h f = ground arith

-- What a thread without the right knows stays true as the service moves on.
pub allowed_mono :
    (s s' : State) (pc : Pc)
    → owns pc ≡ 0
    → rank s ≤ rank s'
    → allowed s pc ≡ true
    → allowed s' pc ≡ true
allowed_mono s s' idle h r a = refl
allowed_mono s s' _ h r a = ground arith
