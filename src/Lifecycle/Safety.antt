-- ===== src/Lifecycle/Safety.antt =====
-- What holds of a publisher or receiver after any schedule of n threads that start and terminate it.
use pubsubplus_go_client.Prelude.{
  ℕ, zero, suc, ◌+◌, ◌≤◌, ◌<◌, ◌≡◌, ◌≢◌, ◌⊎◌, inl, inr, refl, true, List, [], ◌∷◌, ◌==◌, leb,
  if◌then◌else◌, arith, All, Bool-cases,
}
use pubsubplus_go_client.Prelude.Family.{sum_below, sum_below-put, two-le-sum_below}
use pubsubplus_go_client.Future.{new_future_error}
use pubsubplus_go_client.Lifecycle.{State, Errors, Basic, construct}
use pubsubplus_go_client.Lifecycle.Threads.{
  Pc, idle, start_swap, start_body, end_swap, end_body, Input, step, System, init, step_thread, run,
}
use pubsubplus_go_client.Lifecycle.Invariant.{
  rank, owns, free, allowed, FuturesInOrder, rank-step, allowed-step, owns-step, state-step,
  step-FuturesInOrder, allowed_mono,
}

abbrev pub Picks : ℕ → List (ℕ × Input) → Type 0
Picks n = All (λ p. p.0 < n)

pub record Inv (n : ℕ) (s : System) : Type 0 where
  pub one_right : free s.shared.state + sum_below owns n s.pcs ≡ 1
  pub knows : (t : ℕ) → t < n → allowed s.shared.state (s.pcs t) ≡ true
  pub futures : FuturesInOrder s.shared

sum_below-idle : (n : ℕ) → sum_below owns n (λ _. idle) ≡ 0
unfolding sum_below
sum_below-idle zero = refl
sum_below-idle (suc n) = omega (arith, sum_below-idle n)

init-Inv : (n : ℕ) → Inv n init
unfolding construct new_future_error
init-Inv n = record {
  one_right = omega (arith, sum_below-idle n);
  knows = λ t h. refl;
  futures = ground arith;
}

module _ (errors : Errors) (n t : ℕ) (i : Input) (s : System) (here : t < n) (v : Inv n s) where
  abbrev b : Basic
  b = s.shared

  abbrev next : System
  next = step_thread errors t i s

  one_right-next : free next.shared.state + sum_below owns n next.pcs ≡ 1
  unfolding step_thread
  one_right-next = omega (
    arith,
    v.one_right,
    owns-step errors i (s.pcs t) b (v.knows t here),
    sum_below-put owns n t (step errors i (s.pcs t) b).1 s.pcs here,
  )

  owns_cases : (pc : Pc) → (owns pc ≡ 0) ⊎ (owns pc ≡ 1)
  owns_cases idle = inl refl
  owns_cases _ = ground arith

  -- Another thread: either it has the right, and the service stays as it is, or it knows only what
  -- stays true.
  knows_other :
      (j : ℕ) → j < n → t ≢ j → allowed (step errors i (s.pcs t) b).0.state (s.pcs j) ≡ true
  knows_other j hj ne = elim (owns_cases (s.pcs j)) [
    | inl none' ↦
        allowed_mono b.state _ (s.pcs j) none' (rank-step errors i (s.pcs t) b (v.knows t here))
          (v.knows j hj)
    | inr right ↦
        let both = two-le-sum_below owns n t j s.pcs here hj ne in
        let total = v.one_right in
        rw (state-step errors i (s.pcs t) b (omega arith) (omega arith)) (v.knows j hj)
  ]

  knows-next : (j : ℕ) → j < n → allowed next.shared.state (next.pcs j) ≡ true
  unfolding step_thread
  knows-next j hj = elim (Bool-cases (t == j)) [
    | inl same ↦ rw same (allowed-step errors i (s.pcs t) b (v.knows t here))
    | inr other ↦ rw other (knows_other j hj (λ e. ground arith))
  ]

  step_thread-Inv : Inv n next
  unfolding step_thread
  step_thread-Inv = record {
    one_right = one_right-next;
    knows = knows-next;
    futures = step-FuturesInOrder errors i (s.pcs t) b (v.knows t here) v.futures;
  }

run-Inv :
    (errors : Errors) (n : ℕ) (picks : List (ℕ × Input)) (s : System)
    → Picks n picks
    → Inv n s
    → Inv n (run errors picks s)
unfolding run
run-Inv errors n [] s h v = v
run-Inv errors n ((t, i) ∷ picks) s h v =
    run-Inv errors n picks (step_thread errors t i s) h.1 (step_thread-Inv errors n t i s h.0 v)

run-init-Inv :
    (errors : Errors) (n : ℕ) (picks : List (ℕ × Input))
    → Picks n picks
    → Inv n (run errors picks init)
run-init-Inv errors n picks h = run-Inv errors n picks init h (init-Inv n)

-- At no time are two threads at once between the `true` of `starting` or `terminate` and the store
-- that ends the work it admits them to.
owns_exclusive :
    (errors : Errors) (n t u : ℕ) (picks : List (ℕ × Input))
    → Picks n picks
    → t < n
    → u < n
    → t ≢ u
    → owns ((run errors picks init).pcs t) + owns ((run errors picks init).pcs u) ≤ 1
owns_exclusive errors n t u picks h ht hu ne = omega (
  arith,
  (run-init-Inv errors n picks h).one_right,
  two-le-sum_below owns n t u (run errors picks init).pcs ht hu ne,
)

-- Nobody gets a start's result before the service has left `Starting`, nor a termination's result
-- before it is `Terminated`.
run-FuturesInOrder :
    (errors : Errors) (n : ℕ) (picks : List (ℕ × Input))
    → Picks n picks
    → FuturesInOrder (run errors picks init).shared
run-FuturesInOrder errors n picks h = (run-init-Inv errors n picks h).futures

rank-run :
    (errors : Errors) (n : ℕ) (picks : List (ℕ × Input)) (s : System)
    → Picks n picks
    → Inv n s
    → rank s.shared.state ≤ rank (run errors picks s).shared.state
unfolding run step_thread
rank-run errors n [] s h v = omega arith
rank-run errors n ((t, i) ∷ picks) s h v = omega (
  arith,
  rank-step errors i (s.pcs t) s.shared (v.knows t h.0),
  rank-run errors n picks (step_thread errors t i s) h.1 (step_thread-Inv errors n t i s h.0 v),
)

-- The state only moves on: what threads do later leaves it where it is or later in the order of the
-- constants. So a terminated service stays terminated.
rank-run_later :
    (errors : Errors) (n : ℕ) (before later : List (ℕ × Input))
    → Picks n before
    → Picks n later
    → let s = run errors before init in rank s.shared.state ≤ rank (run errors later s).shared.state
rank-run_later errors n before later hb hl =
    rank-run errors n later (run errors before init) hl (run-init-Inv errors n before hb)

-- A thread is let into the work of `Start`, or of `Terminate`, by this step.
abbrev pub admits_start : Pc → Pc → ℕ
admits_start start_swap start_body = 1
admits_start _ _ = 0

abbrev pub admits_end : Pc → Pc → ℕ
admits_end end_swap end_body = 1
admits_end _ _ = 0

-- How often that happens along a schedule, for a measure of one step of a thread.
abbrev pub admissions : (Pc → Pc → ℕ) → Errors → List (ℕ × Input) → System → ℕ
admissions admits errors [] s = 0
admissions admits errors ((t, i) ∷ picks) s =
    admits (s.pcs t) (step errors i (s.pcs t) s.shared).1
    + admissions admits errors picks (step_thread errors t i s)

-- What is left of a right that is used up once the state's rank has passed `limit`.
abbrev left : ℕ → State → ℕ
left limit s = if leb (rank s) limit then 1 else 0

admits_start-step :
    (errors : Errors) (i : Input) (pc : Pc) (b : Basic)
    → allowed b.state pc ≡ true
    → admits_start pc (step errors i pc b).1 + left 0 (step errors i pc b).0.state ≤ left 0 b.state
unfolding step
admits_start-step errors i idle b h = ground (arith, rank-step errors i idle b)
admits_start-step errors i pc b h = ground (arith, rank-step errors i pc b)

admits_end-step :
    (errors : Errors) (i : Input) (pc : Pc) (b : Basic)
    → allowed b.state pc ≡ true
    → admits_end pc (step errors i pc b).1 + left 2 (step errors i pc b).0.state ≤ left 2 b.state
unfolding step
admits_end-step errors i idle b h = ground (arith, rank-step errors i idle b)
admits_end-step errors i pc b h = ground (arith, rank-step errors i pc b)

admissions-le :
    (admits : Pc → Pc → ℕ) (limit : ℕ) (errors : Errors) (n : ℕ)
    → ((i : Input) (pc : Pc) (b : Basic)
        → allowed b.state pc ≡ true
        → admits pc (step errors i pc b).1 + left limit (step errors i pc b).0.state
          ≤ left limit b.state)
    → (picks : List (ℕ × Input)) (s : System) → Picks n picks
    → Inv n s
    → admissions admits errors picks s ≤ left limit s.shared.state
unfolding step_thread
admissions-le admits limit errors n one [] s h v = omega arith
admissions-le admits limit errors n one ((t, i) ∷ picks) s h v = omega (
  arith,
  one i (s.pcs t) s.shared (v.knows t h.0),
  admissions-le admits limit errors n one picks (step_thread errors t i s) h.1
      (step_thread-Inv errors n t i s h.0 v),
)

-- Over the whole life of a service, whatever threads call, `starting` admits at most one of them to
-- the work of a start, and `terminate` at most one to the work of a termination.
pub admissions_once :
    (errors : Errors) (n : ℕ) (picks : List (ℕ × Input))
    → Picks n picks
    → (admissions admits_start errors picks init ≤ 1)
      × (admissions admits_end errors picks init ≤ 1)
unfolding construct
admissions_once errors n picks h = (
  admissions-le admits_start 0 errors n (admits_start-step errors) picks init h (init-Inv n),
  admissions-le admits_end 2 errors n (admits_end-step errors) picks init h (init-Inv n),
)
