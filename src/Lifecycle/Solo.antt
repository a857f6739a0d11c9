-- ===== src/Lifecycle/Solo.antt =====
-- The calls of `Lifecycle.Calls` are what a thread does by the steps of `Lifecycle.Threads` while no
-- other thread moves.
use pubsubplus_go_client.Prelude.{
  ℕ, zero, suc, ◌≡◌, Bool, true, false, Option, none, arith, if◌then◌else◌,
}
use pubsubplus_go_client.Errors.{Error}
use pubsubplus_go_client.Lifecycle.{Errors, Basic, Verdict, proceed, over, waits}
use pubsubplus_go_client.Lifecycle.Calls.{starting, started, terminate, terminated}
use pubsubplus_go_client.Lifecycle.Threads.{
  Pc, idle, start_load, start_wait, start_body, start_store, end_swap, end_wait, end_body,
  end_store, returned, Input, step,
}

-- The thread is not inside one of the calls.
abbrev is_outside : Pc → Bool
is_outside idle = true
is_outside start_body = true
is_outside end_body = true
is_outside (returned _) = true
is_outside _ = false

-- At most `n` steps of one thread, with the same input to each, up to the end of the call.
unfoldable pub alone : Errors → Input → ℕ → Pc → Basic → Basic × Pc
unfolding step
alone errors i zero pc b = (b, pc)
alone errors i (suc n) pc b =
    let rest = alone errors i n (step errors i pc b).1 (step errors i pc b).0 in
    if is_outside pc then (b, pc) else rest

abbrev pub place : Pc → Pc → Verdict → Pc
place body wait proceed = body
place body wait (over e) = returned e
place body wait waits = wait

module _ (errors : Errors) (i : Input) (b : Basic) where
  -- Undisturbed, `starting` is its four or fewer accesses: the same state, and the thread in the
  -- work of `Start`, returned with the same error, or at the same wait.
  starting-alone :
      let (b', v) = starting errors i.parent_is_running b in
      alone errors i 4 start_load b ≡ (b', place start_body start_wait v)
  unfolding starting alone
  starting-alone = ground arith

  -- So is `terminate`.
  terminate-alone :
      let (b', v) = terminate errors b in
      alone errors i 4 end_swap b ≡ (b', place end_body end_wait v)
  unfolding terminate alone
  terminate-alone = ground arith

  pub started-alone : alone errors i 2 start_store b ≡ (started none b, returned none)
  unfolding started alone
  started-alone = ground arith

  pub terminated-alone :
      (e : Option Error) → alone errors i 2 (end_store e) b ≡ (terminated e b, returned e)
  unfolding terminated alone
  terminated-alone e = ground arith
