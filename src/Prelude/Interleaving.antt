-- ===== src/Prelude/Interleaving.antt =====
-- Any number of threads over shared data: schedules of their atomic steps, a right that one thread has
-- at a time, and what each thread knows from its place.
use mathlib.Core.Path.{◌≡◌}
use native.Mathlib.Omega.{arith}
use pubsubplus_go_client.Prelude.{
  ℕ, ◌+◌, ◌≤◌, ◌<◌, ◌≢◌, ◌⊎◌, Bool, true, List, [], ◌∷◌, inl, inr, ◌==◌, Bool-cases, All, refl,
}
use pubsubplus_go_client.Prelude.Family.{
  put, sum_below, sum_below-put, measure-le-sum_below, two-le-sum_below,
}

pub record System (S Pc : Type 0) : Type 0 where
  pub shared : S
  pub pcs : ℕ → Pc

-- Every step is one of the first n threads'.
abbrev pub Picks : {I : Type 0} → ℕ → List (ℕ × I) → Type 0
Picks n = All (λ p. p.0 < n)

-- `owns` is the part of the right that lies with a thread at a place, `free` what lies with nobody.
pub record Discipline (S Pc I : Type 0) : Type 0 where
  pub step : I → Pc → S → S × Pc
  pub owns : Pc → ℕ
  pub free : S → ℕ
  pub allowed : S → Pc → Bool
  pub owns-step :
      (i : I) (pc : Pc) (s : S)
      → allowed s pc ≡ true
      → free (step i pc s).0 + owns (step i pc s).1 ≡ free s + owns pc
  pub allowed-step :
      (i : I) (pc : Pc) (s : S)
      → allowed s pc ≡ true
      → allowed (step i pc s).0 (step i pc s).1 ≡ true
  -- What another thread knows outlives a step, where the right is one thread's at most.
  pub allowed-other :
      (i : I) (pc other : Pc) (s : S)
      → allowed s pc ≡ true
      → allowed s other ≡ true
      → free s + owns pc + owns other ≤ 1
      → allowed (step i pc s).0 other ≡ true

module _ {S Pc I : Type 0} (d : Discipline S Pc I) where
  unfoldable pub step_thread : ℕ → I → System S Pc → System S Pc
  step_thread t i s =
      let (s', pc) = d.step i (s.pcs t) s.shared in record { shared = s'; pcs = put t pc s.pcs }

  unfoldable pub run : List (ℕ × I) → System S Pc → System S Pc
  run [] s = s
  run ((t, i) ∷ picks) s = run picks (step_thread t i s)

  pub record Inv (n : ℕ) (s : System S Pc) : Type 0 where
    pub one_right : d.free s.shared + sum_below d.owns n s.pcs ≡ 1
    pub knows : (t : ℕ) → t < n → d.allowed s.shared (s.pcs t) ≡ true

  knows-next :
      (n t j : ℕ) (i : I) (s : System S Pc)
      → t < n
      → j < n
      → Inv n s
      → d.allowed (step_thread t i s).shared ((step_thread t i s).pcs j) ≡ true
  unfolding step_thread
  knows-next n t j i s ht hj v = elim (Bool-cases (t == j)) [
    | inl same ↦ rw same (d.allowed-step i (s.pcs t) s.shared (v.knows t ht))
    | inr other ↦
        let ne : t ≢ j = λ e. ground arith in
        rw other (
          d.allowed-other i (s.pcs t) (s.pcs j) s.shared (v.knows t ht) (v.knows j hj)
            (omega (arith, v.one_right, two-le-sum_below d.owns n t j s.pcs ht hj ne)))
  ]

  pub step_thread-Inv :
      (n t : ℕ) (i : I) (s : System S Pc) → t < n → Inv n s → Inv n (step_thread t i s)
  unfolding step_thread
  step_thread-Inv n t i s ht v = record {
    one_right = omega (
      arith,
      v.one_right,
      d.owns-step i (s.pcs t) s.shared (v.knows t ht),
      sum_below-put d.owns n t (d.step i (s.pcs t) s.shared).1 s.pcs ht,
    );
    knows = λ j hj. knows-next n t j i s ht hj v;
  }

  pub run-Inv :
      (n : ℕ) (picks : List (ℕ × I)) (s : System S Pc)
      → Picks n picks
      → Inv n s
      → Inv n (run picks s)
  unfolding run
  run-Inv n [] s h v = v
  run-Inv n ((t, i) ∷ picks) s h v =
      run-Inv n picks (step_thread t i s) h.1 (step_thread-Inv n t i s h.0 v)

  -- What every step keeps in total, every schedule keeps.
  pub run-total :
      (total : S → ℕ) (part : Pc → ℕ)
      → ((i : I) (pc : Pc) (s : S)
          → d.allowed s pc ≡ true
          → total (d.step i pc s).0 + part (d.step i pc s).1 ≡ total s + part pc)
      → (n : ℕ) (picks : List (ℕ × I)) (s : System S Pc) → Picks n picks
      → Inv n s
      → total (run picks s).shared + sum_below part n (run picks s).pcs
        ≡ total s.shared + sum_below part n s.pcs
  unfolding run step_thread
  run-total total part law n [] s h v = refl
  run-total total part law n ((t, i) ∷ picks) s h v = omega (
    arith,
    run-total total part law n picks (step_thread t i s) h.1 (step_thread-Inv n t i s h.0 v),
    law i (s.pcs t) s.shared (v.knows t h.0),
    sum_below-put part n t (d.step i (s.pcs t) s.shared).1 s.pcs h.0,
  )

  -- What every step keeps of the shared data, every schedule keeps.
  pub run-keeps :
      (Holds : S → Type 0)
      → ((i : I) (pc : Pc) (s : S) → d.allowed s pc ≡ true → Holds s → Holds (d.step i pc s).0)
      → (n : ℕ) (picks : List (ℕ × I)) (s : System S Pc) → Picks n picks
      → Inv n s
      → Holds s.shared
      → Holds (run picks s).shared
  unfolding run step_thread
  run-keeps Holds law n [] s h v k = k
  run-keeps Holds law n ((t, i) ∷ picks) s h v k =
      run-keeps Holds law n picks (step_thread t i s) h.1 (step_thread-Inv n t i s h.0 v)
        (law i (s.pcs t) s.shared (v.knows t h.0) k)

  -- The same, for what no step increases.
  pub run-bounded :
      (total : S → ℕ) (part : Pc → ℕ)
      → ((i : I) (pc : Pc) (s : S)
          → d.allowed s pc ≡ true
          → total (d.step i pc s).0 + part (d.step i pc s).1 ≤ total s + part pc)
      → (n : ℕ) (picks : List (ℕ × I)) (s : System S Pc) → Picks n picks
      → Inv n s
      → total (run picks s).shared + sum_below part n (run picks s).pcs
        ≤ total s.shared + sum_below part n s.pcs
  unfolding run step_thread
  run-bounded total part law n [] s h v = omega arith
  run-bounded total part law n ((t, i) ∷ picks) s h v = omega (
    arith,
    run-bounded total part law n picks (step_thread t i s) h.1 (step_thread-Inv n t i s h.0 v),
    law i (s.pcs t) s.shared (v.knows t h.0),
    sum_below-put part n t (d.step i (s.pcs t) s.shared).1 s.pcs h.0,
  )

  -- What is still owed is in somebody's hands: `owed` is at most 1, no step raises it, and as long as
  -- it stands no step lets go of what covers it.
  pub run-covered :
      (owed cover : S → ℕ) (part : Pc → ℕ)
      → ((i : I) (pc : Pc) (s : S)
          → d.allowed s pc ≡ true
          → (owed (d.step i pc s).0 ≡ 0)
            ⊎ ((owed (d.step i pc s).0 ≤ owed s)
                × (cover s + part pc ≤ cover (d.step i pc s).0 + part (d.step i pc s).1)))
      → (n : ℕ) (picks : List (ℕ × I)) (s : System S Pc) → Picks n picks
      → Inv n s
      → owed s.shared ≤ cover s.shared + sum_below part n s.pcs
      → owed (run picks s).shared ≤ cover (run picks s).shared + sum_below part n (run picks s).pcs
  unfolding run step_thread
  run-covered owed cover part law n [] s h v c = c
  run-covered owed cover part law n ((t, i) ∷ picks) s h v c =
      let put' = sum_below-put part n t (d.step i (s.pcs t) s.shared).1 s.pcs h.0 in
      run-covered owed cover part law n picks (step_thread t i s) h.1
        (step_thread-Inv n t i s h.0 v)
        (elim (law i (s.pcs t) s.shared (v.knows t h.0)) [
          | inl paid ↦ omega arith
          | inr both ↦ omega (arith, both.0, both.1)
        ])

  -- The same, where the thread that makes the debt is the one that covers it.
  pub run-tended :
      (owed : S → ℕ) (part : Pc → ℕ)
      → ((i : I) (pc : Pc) (s : S)
          → d.allowed s pc ≡ true
          → (owed (d.step i pc s).0 ≤ part (d.step i pc s).1)
            ⊎ ((owed (d.step i pc s).0 ≤ owed s) × (part pc ≤ part (d.step i pc s).1)))
      → (n : ℕ) (picks : List (ℕ × I)) (s : System S Pc) → Picks n picks
      → Inv n s
      → owed s.shared ≤ sum_below part n s.pcs
      → owed (run picks s).shared ≤ sum_below part n (run picks s).pcs
  unfolding run step_thread
  run-tended owed part law n [] s h v c = c
  run-tended owed part law n ((t, i) ∷ picks) s h v c =
      let put' = sum_below-put part n t (d.step i (s.pcs t) s.shared).1 s.pcs h.0 in
      let own = measure-le-sum_below part n t s.pcs h.0 in
      run-tended owed part law n picks (step_thread t i s) h.1 (step_thread-Inv n t i s h.0 v)
        (elim (law i (s.pcs t) s.shared (v.knows t h.0)) [
          | inl new ↦ omega arith
          | inr both ↦ omega (arith, both.0, both.1)
        ])
