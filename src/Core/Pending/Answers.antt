-- ===== src/Core/Pending/Answers.antt =====
-- Every request that waits gets one answer.
use pubsubplus_go_client.Prelude.{
  ℕ, ◌+◌, ◌≤◌, ◌<◌, ◌^◌, ◌≡◌, refl, true, false, List, [], ◌∷◌, Option, none, some, ◌==◌, ◌&&◌, leb,
  if◌then◌else◌, arith, length, length-append, All, inl, inr, Bool-cases, sym, ap, ◌∙◌,
}
use pubsubplus_go_client.Prelude.Dict.{
  Dict, fetch, discard, occurrences, occurrences-assign, occurrences-discard,
  fetch-one-le-occurrences, All-assign, All-discard,
}
use pubsubplus_go_client.Core.Pending.{
  Pending, Answer, Op, reserves, stores, clears, resolves, interrupts, no_pending, send, reserve,
  store, clear, resolve, interrupt_from, interrupt, step, run,
}

abbrev pub IsOwn : ℕ × ℕ → Type 0
IsOwn p = p.1 ≡ p.0

pub fetch-IsOwn : (d : Dict ℕ) (key c : ℕ) → All IsOwn d → fetch d key ≡ some c → c ≡ key
unfolding fetch
fetch-IsOwn [] key c h e = ground arith
fetch-IsOwn ((q, x) ∷ d) key c h e =
    let own : x ≡ q = h.0 in ground (arith, fetch-IsOwn d key c h.1)

abbrev pub one_to : ℕ → ℕ → ℕ
one_to n id = if leb 1 id && leb id n then 1 else 0

module _ {E : Type 0} where
  abbrev pub handed_out : ℕ → Pending E → ℕ
  handed_out id s = one_to s.correlation_id id

  -- How often an id is about to be stored, in the map, or answered.
  abbrev pub weight : ℕ → Pending E → ℕ
  weight id s =
      (if s.reserved id then 1 else 0) + occurrences id s.correlation + length (s.channels id)

  pub record Inv (s : Pending E) : Type 0 where
    pub own : All IsOwn s.correlation
    pub light : (id : ℕ) → weight id s ≤ handed_out id s

  -- The step does not clear the id.
  abbrev pub Keeps : ℕ → Op E → Type 0
  Keeps id (clears i) = (i == id) ≡ false
  Keeps id _ = Unit

  -- Each channel gets as many answers as the map has entries with its id.
  length-interrupt_from :
      (e : E) (d : Dict ℕ) (f : ℕ → List (Answer E)) (k : ℕ)
      → All IsOwn d
      → length (interrupt_from e d f k) ≡ length (f k) + occurrences k d
  unfolding interrupt_from occurrences
  length-interrupt_from e [] f k h = omega arith
  length-interrupt_from e ((id, c) ∷ d) f k h =
      let own : c ≡ id = h.0 in
      let rest = length-interrupt_from e d (send c (id, some e) f) k h.1 in
      let more = length-append (f c) ((id, some e) ∷ []) in ground arith

  resolve-weight :
      (c p : ℕ) (err : Option E) (s : Pending E) (id : ℕ)
      → fetch s.correlation p ≡ some c
      → Inv s
      → occurrences id (discard s.correlation p) + length (send c (p, err) s.channels id)
        ≡ occurrences id s.correlation + length (s.channels id)
  resolve-weight c p err s id h v =
      let own = fetch-IsOwn s.correlation p c v.own h in
      let there = fetch-one-le-occurrences s.correlation p c h in
      let gone = occurrences-discard s.correlation p id in
      let more = length-append (s.channels c) ((p, err) ∷ []) in
      let light = v.light p in ground arith

  -- What a step keeps: the invariant, and the weight of an id that is not cleared.
  pub record Kept (op : Op E) (s s' : Pending E) : Type 0 where
    pub inv : Inv s'
    pub grows : s.correlation_id ≤ s'.correlation_id
    pub slowly : s'.correlation_id ≤ s.correlation_id + 1
    pub waits :
        (id : ℕ) → Keeps id op → weight id s ≡ handed_out id s → weight id s' ≡ handed_out id s'

  balanced :
      (op : Op E) (s s' : Pending E)
      → Inv s
      → All IsOwn s'.correlation
      → s'.correlation_id ≡ s.correlation_id
      → ((id : ℕ) → weight id s' ≡ weight id s)
      → Kept op s s'
  balanced op s s' v own same w = record {
    inv = record {
      own = own;
      light = λ id. omega (arith, w id, v.light id, ap (λ n. one_to n id) same);
    };
    grows = omega arith;
    slowly = omega arith;
    waits = λ id keeps h. w id ∙ h ∙ sym (ap (λ n. one_to n id) same);
  }

  reserve-Kept :
      (s : Pending E) → s.correlation_id + 1 < 2 ^ 64 → Inv s → Kept reserves s (reserve s).0
  unfolding reserve
  reserve-Kept s small v = record {
    inv = record { own = v.own; light = λ id. let light = v.light id in ground arith };
    grows = omega arith;
    slowly = omega arith;
    waits = λ id keeps h. let light = v.light id in ground arith;
  }

  store-Kept :
      (id : ℕ) (s : Pending E) → s.reserved id ≡ true → Inv s → Kept (stores id) s (store id s)
  unfolding store
  store-Kept id s h v =
      balanced (stores id) s _ v
        (All-assign IsOwn s.correlation id id (λ q e. ground arith) refl v.own) refl
        (λ other.
          let light = v.light id in
          let fresh : occurrences id s.correlation ≡ 0 = ground arith in
          let new = occurrences-assign s.correlation id other id fresh in ground arith)

  clear-Kept : (id : ℕ) (s : Pending E) → Inv s → Kept (clears id) s (clear id s)
  unfolding clear
  clear-Kept id s v =
      let gone = occurrences-discard s.correlation id in
      record {
        inv = record {
          own = All-discard IsOwn s.correlation id v.own;
          light = λ other. ground (arith, gone other, v.light other);
        };
        grows = omega arith;
        slowly = omega arith;
        waits = λ other keeps h. ground (arith, gone other);
      }

  resolve-Kept :
      (o : Option ℕ) (p : ℕ) (err : Option E) (s : Pending E)
      → fetch s.correlation p ≡ o
      → Inv s
      → Kept (resolves p err) s (resolve p err s)
  unfolding resolve
  resolve-Kept none p err s h v = rw h (balanced (resolves p err) s s v v.own refl (λ id. refl))
  resolve-Kept (some c) p err s h v = rw h (
      balanced (resolves p err) s _ v (All-discard IsOwn s.correlation p v.own) refl
        (λ id. omega (arith, resolve-weight c p err s id h v)))

  interrupt-Kept : (e : E) (s : Pending E) → Inv s → Kept (interrupts e) s (interrupt e s)
  unfolding interrupt occurrences
  interrupt-Kept e s v =
      balanced (interrupts e) s _ v tt refl
        (λ id. ground (arith, length-interrupt_from e s.correlation s.channels id v.own))

  pub step-Kept :
      (op : Op E) (s : Pending E) → s.correlation_id + 1 < 2 ^ 64 → Inv s → Kept op s (step op s)
  unfolding step
  step-Kept reserves s small v = reserve-Kept s small v
  step-Kept (stores i) s small v = elim (Bool-cases (s.reserved i)) [
    | inl mine ↦ rw mine (store-Kept i s mine v)
    | inr not_mine ↦ rw not_mine (balanced (stores i) s s v v.own refl (λ id. refl))
  ]
  step-Kept (clears i) s small v = clear-Kept i s v
  step-Kept (resolves p err) s small v = resolve-Kept (fetch s.correlation p) p err s refl v
  step-Kept (interrupts e) s small v = interrupt-Kept e s v

  pub run-Inv :
      (ops : List (Op E)) (s : Pending E)
      → length ops + s.correlation_id < 2 ^ 64
      → Inv s
      → Inv (run ops s)
  unfolding run
  run-Inv [] s small v = v
  run-Inv (op ∷ ops) s small v =
      let k = step-Kept op s (omega arith) v in
      run-Inv ops (step op s) (omega (arith, k.slowly)) k.inv

  run-waits :
      (ops : List (Op E)) (s : Pending E) (id : ℕ)
      → length ops + s.correlation_id < 2 ^ 64
      → Inv s
      → All (Keeps id) ops
      → weight id s ≡ handed_out id s
      → weight id (run ops s) ≡ handed_out id (run ops s)
  unfolding run
  run-waits [] s id small v keeps h = h
  run-waits (op ∷ ops) s id small v keeps h =
      let k = step-Kept op s (omega arith) v in
      run-waits ops (step op s) id (omega (arith, k.slowly)) k.inv keeps.1 (k.waits id keeps.0 h)

  pub no_pending-Inv : Inv no_pending
  unfolding no_pending occurrences
  no_pending-Inv = record { own = tt; light = λ id. ground arith }

  -- No send on a channel, which has one place, finds it full: over any run of the table with fewer
  -- than 2^64 steps, at most one answer is sent on each channel.
  pub run-one_answer :
      (ops : List (Op E)) (c : ℕ)
      → length ops < 2 ^ 64
      → length ((run ops no_pending).channels c) ≤ 1
  unfolding no_pending
  run-one_answer ops c small =
      let v = run-Inv ops no_pending (omega arith) no_pending-Inv in
      let light = v.light c in ground arith

  -- After a termination each request that was in the map or had its answer has one answer, and no
  -- more, unless it was cleared.
  pub run-interrupt :
      (ops : List (Op E)) (e : E) (id : ℕ)
      → length ops < 2 ^ 64
      → All (Keeps id) ops
      → let s = run ops no_pending in
        1 ≤ id
        → id ≤ s.correlation_id
        → s.reserved id ≡ false
        → length ((interrupt e s).channels id) ≡ 1
  unfolding no_pending interrupt occurrences
  run-interrupt ops e id small keeps low high stored =
      let s = run ops no_pending in
      let v = run-Inv ops no_pending (omega arith) no_pending-Inv in
      let w = run-waits ops no_pending id (omega arith) no_pending-Inv keeps (ground arith) in
      let n = length-interrupt_from e s.correlation s.channels id v.own in ground arith
