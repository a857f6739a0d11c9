-- ===== src/Core/Pending/Silence.antt =====
-- A request that is taken out of the table gets no answer any more.
use pubsubplus_go_client.Prelude.{
  ℕ, ◌+◌, ◌≤◌, ◌<◌, ◌^◌, ◌≡◌, refl, false, List, [], ◌∷◌, some, ◌==◌, length, All, arith, inl, inr,
  Bool-cases, Option-cases, ◌∙◌,
}
use pubsubplus_go_client.Prelude.Dict.{
  Dict, fetch, occurrences, occurrences-assign_other, occurrences-discard, fetch-one-le-occurrences,
}
use pubsubplus_go_client.Core.Pending.{
  Pending, Answer, Op, reserves, stores, clears, resolves, interrupts, send, reserve, store, clear,
  resolve, interrupt_from, interrupt, step, run,
}
use pubsubplus_go_client.Core.Pending.Answers.{IsOwn, fetch-IsOwn, Inv, step-Kept}

module _ {E : Type 0} where
  -- The id has been handed out, and nobody holds it.
  pub record Gone (id : ℕ) (s : Pending E) : Type 0 where
    pub inv : Inv s
    pub absent : occurrences id s.correlation ≡ 0
    pub unreserved : s.reserved id ≡ false
    pub old : id ≤ s.correlation_id

  interrupt_from-absent :
      (e : E) (d : Dict ℕ) (f : ℕ → List (Answer E)) (k : ℕ)
      → All IsOwn d
      → occurrences k d ≡ 0
      → interrupt_from e d f k ≡ f k
  unfolding interrupt_from occurrences
  interrupt_from-absent e [] f k h none_there = refl
  interrupt_from-absent e ((id, c) ∷ d) f k h none_there =
      let own : c ≡ id = h.0 in
      let rest = interrupt_from-absent e d (send c (id, some e) f) k h.1 in ground arith

  -- What concerns an id in a step.
  abbrev Untouched : ℕ → Pending E → Pending E → Type 0
  Untouched id s s' =
      (occurrences id s'.correlation ≡ 0)
      × (s'.reserved id ≡ false)
      × (s'.channels id ≡ s.channels id)

  step-Untouched :
      (op : Op E) (s : Pending E) (id : ℕ)
      → s.correlation_id + 1 < 2 ^ 64
      → Gone id s
      → Untouched id s (step op s)
  unfolding step reserve store clear resolve interrupt occurrences
  step-Untouched reserves s id small g = ground (arith, g.absent, g.unreserved, g.old)
  step-Untouched (stores i) s id small g = elim (Bool-cases (s.reserved i)) [
    | inl mine ↦
        let other : (id == i) ≡ false = ground arith in
        rw mine (ground (arith, occurrences-assign_other s.correlation i id i other))
    | inr not_mine ↦ rw not_mine (g.absent, g.unreserved, refl)
  ]
  step-Untouched (clears i) s id small g = ground (arith, occurrences-discard s.correlation i id)
  step-Untouched (resolves p err) s id small g = elim (Option-cases (fetch s.correlation p)) [
    | inl h ↦ rw h (g.absent, g.unreserved, refl)
    | inr (c, h) ↦
        let own = fetch-IsOwn s.correlation p c g.inv.own h in
        let there = fetch-one-le-occurrences s.correlation p c h in
        rw h (ground (arith, occurrences-discard s.correlation p id))
  ]
  step-Untouched (interrupts e) s id small g =
      (refl, g.unreserved, interrupt_from-absent e s.correlation s.channels id g.inv.own g.absent)

  step-Gone :
      (op : Op E) (s : Pending E) (id : ℕ)
      → s.correlation_id + 1 < 2 ^ 64
      → Gone id s
      → Gone id (step op s)
  step-Gone op s id small g =
      let k = step-Kept op s small g.inv in
      let u = step-Untouched op s id small g in
      record { inv = k.inv; absent = u.0; unreserved = u.1; old = omega (arith, k.grows, g.old) }

  pub run-Gone :
      (ops : List (Op E)) (s : Pending E) (id : ℕ)
      → length ops + s.correlation_id < 2 ^ 64
      → Gone id s
      → Gone id (run ops s) × ((run ops s).channels id ≡ s.channels id)
  unfolding run
  run-Gone [] s id small g = (g, refl)
  run-Gone (op ∷ ops) s id small g =
      let k = step-Kept op s (omega arith) g.inv in
      let rest =
        run-Gone ops (step op s) id (omega (arith, k.slowly)) (step-Gone op s id (omega arith) g) in
      (rest.0, rest.1 ∙ (step-Untouched op s id (omega arith) g).2)

  pub clear-Gone :
      (s : Pending E) (id : ℕ)
      → s.correlation_id + 1 < 2 ^ 64
      → Inv s
      → s.reserved id ≡ false
      → id ≤ s.correlation_id
      → Gone id (step (clears id) s)
  unfolding step clear
  clear-Gone s id small v free old = record {
    inv = (step-Kept (clears id) s small v).inv;
    absent = ground (arith, occurrences-discard s.correlation id id);
    unreserved = free;
    old = old;
  }
