-- ===== src/Publisher/Receipts/Once.antt =====
-- Each context is resolved once.
use pubsubplus_go_client.Prelude.{
  ℕ, ◌+◌, ◌≤◌, ◌≡◌, refl, sym, ap, Bool, true, false, List, [], ◌∷◌, ◌++◌, Option, none, some, ◌==◌,
  if◌then◌else◌, arith, All, Bool-cases, inl, inr,
}
use mathlib.Core.Path.{subst}
use pubsubplus_go_client.Prelude.Dict.{
  Dict, fetch, occurrences, occurrences-assign, occurrences-assign_other, occurrences-discard,
  occurrences-append, fetch-one-le-occurrences,
}
use pubsubplus_go_client.Publisher.Receipts.{
  Receipts, Op, adds, removes, acknowledges, finishes, terminates, requests, drains, no_receipts,
  found, acknowledged, ack_handler, finish_ack, drain_ack_table, add_correlation_context,
  remove_correlation_context, request_complete, step, run,
}

abbrev pub acks : ℕ → Option ℕ → Bool
acks id none = false
acks id (some i) = id == i

module _ {C : Type 0} where
  -- How often a context is added under the id.
  abbrev adds_of : ℕ → Op C → ℕ
  adds_of id (adds i c) = if id == i then 1 else 0
  adds_of id _ = 0

  abbrev pub added : ℕ → List (Op C) → ℕ
  added id [] = 0
  added id (op ∷ ops) = adds_of id op + added id ops

  -- The context is not taken out by a publish that failed, and the table is not drained.
  abbrev pub Leaves : ℕ → Op C → Type 0
  Leaves id (removes i) = (id == i) ≡ false
  Leaves id drains = true ≡ false
  Leaves id _ = Unit

  -- Whether the context of the id is still to be resolved.
  abbrev pub open' : ℕ → Receipts C → ℕ
  open' id s = if acks id s.acking then 0 else occurrences id s.correlation_map

  -- `n` contexts were added under the id, of which `t` were resolved.
  record Inv (id n t : ℕ) (s : Receipts C) : Type 0 where
    balance : t + open' id s ≡ n
    one : occurrences id s.correlation_map ≤ n
    told : acks id s.acking ≡ true → 1 ≤ n

  add-Inv :
      (id i n t : ℕ) (c : C) (s : Receipts C)
      → adds_of id (adds i c) + n ≤ 1
      → Inv id n t s
      → Inv id (adds_of id (adds i c) + n) t (add_correlation_context i c s)
  unfolding add_correlation_context
  add-Inv id i n t c s few v = elim (Bool-cases (id == i)) [
    | inl same ↦
        let e : id ≡ i = ground arith in ground (arith, occurrences-assign s.correlation_map i id c)
    | inr other ↦ ground (arith, occurrences-assign_other s.correlation_map i id c other)
  ]

  found-Inv :
      (o : Option C) (id i n t : ℕ) (s : Receipts C)
      → fetch s.correlation_map i ≡ o
      → s.acking ≡ none
      → n ≤ 1
      → Inv id n t s
      → Inv id n (t + occurrences id (found i o s).1) (found i o s).0
  unfolding occurrences
  found-Inv none id i n t s h k few v = ground arith
  found-Inv (some c) id i n t s h k few v =
      ground (arith, fetch-one-le-occurrences s.correlation_map i c h)

  ack-Inv :
      (o : Option ℕ) (id i n t : ℕ) (s : Receipts C)
      → s.acking ≡ o
      → n ≤ 1
      → Inv id n t s
      → Inv id n (t + occurrences id (ack_handler i s).1) (ack_handler i s).0
  unfolding ack_handler occurrences
  ack-Inv none id i n t s h few v =
      subst (λ r. Inv id n (t + occurrences id r.1) r.0) (ap (λ a. acknowledged a i s) (sym h))
        (found-Inv (fetch s.correlation_map i) id i n t s refl h few v)
  ack-Inv (some other) id i n t s h few v = ground arith

  finish-Inv :
      (o : Option ℕ) (id n t : ℕ) (s : Receipts C)
      → s.acking ≡ o
      → Inv id n t s
      → Inv id n t (finish_ack s)
  unfolding finish_ack
  finish-Inv none id n t s h v = ground arith
  finish-Inv (some i) id n t s h v = ground (arith, occurrences-discard s.correlation_map i id)

  remove-Inv :
      (id i n t : ℕ) (s : Receipts C)
      → (id == i) ≡ false
      → Inv id n t s
      → Inv id n t (remove_correlation_context i s)
  unfolding remove_correlation_context
  remove-Inv id i n t s h v = ground (arith, occurrences-discard s.correlation_map i id)

  at : (id n n' t t' : ℕ) (s : Receipts C) → n' ≡ n → t' ≡ t → Inv id n t s → Inv id n' t' s
  at id n n' t t' s e f v = ground arith

  step-Inv :
      (op : Op C) (id n t : ℕ) (s : Receipts C)
      → adds_of id op + n ≤ 1
      → Leaves id op
      → Inv id n t s
      → Inv id (adds_of id op + n) (t + occurrences id (step op s).1) (step op s).0
  unfolding step occurrences request_complete
  step-Inv (adds i c) id n t s few l v =
      at id _ _ t (t + 0) _ refl (omega arith) (add-Inv id i n t c s few v)
  step-Inv (removes i) id n t s few l v =
      at id n (0 + n) t (t + 0) _ (omega arith) (omega arith) (remove-Inv id i n t s l v)
  step-Inv (acknowledges i) id n t s few l v =
      at id n (0 + n) _ _ _ (omega arith) refl (ack-Inv s.acking id i n t s refl (omega arith) v)
  step-Inv finishes id n t s few l v =
      at id n (0 + n) t (t + 0) _ (omega arith) (omega arith) (finish-Inv s.acking id n t s refl v)
  step-Inv terminates id n t s few l v = ground arith
  step-Inv requests id n t s few l v = ground arith
  step-Inv drains id n t s few l v = cc

  run-Inv :
      (ops : List (Op C)) (id n t : ℕ) (s : Receipts C)
      → added id ops + n ≤ 1
      → All (Leaves id) ops
      → Inv id n t s
      → Inv id (added id ops + n) (t + occurrences id (run ops s).1) (run ops s).0
  unfolding run
  run-Inv [] id n t s few l v =
      let nothing : Dict C = [] in
      let e : t + occurrences id nothing ≡ t = unfold occurrences in omega arith in
      at id n (0 + n) t (t + occurrences id nothing) s (omega arith) e v
  run-Inv (op ∷ ops) id n t s few l v =
      let v' = step-Inv op id n t s (omega arith) l.0 v in
      let rest =
        run-Inv ops id (adds_of id op + n) (t + occurrences id (step op s).1) (step op s).0
          (omega arith) l.1 v' in
      at id _ (added id (op ∷ ops) + n) _
        (t + occurrences id ((step op s).1 ++ (run ops (step op s).0).1)) _ (omega arith)
        (omega (arith, occurrences-append (step op s).1 (run ops (step op s).0).1 id)) rest

  -- Up to a drain with no acknowledgement in between, as many contexts are resolved under an id as were
  -- added under it, by the drain included, whatever other messages do: each context once. The id is
  -- not used twice and its message not given up by publish.
  pub run_resolves :
      (ops : List (Op C)) (id : ℕ)
      → added id ops ≤ 1
      → All (Leaves id) ops
      → let (s, resolved) = run ops no_receipts in
        s.acking ≡ none → occurrences id (resolved ++ (drain_ack_table s).1) ≡ added id ops
  unfolding no_receipts drain_ack_table
  run_resolves ops id few l quiet =
      let s = (run ops no_receipts).0 in
      let told = (run ops no_receipts).1 in
      let start : Inv id 0 0 no_receipts = unfold occurrences in ground arith in
      let v = run-Inv ops id 0 0 no_receipts (omega arith) l start in
      let balance = v.balance in
      let total = occurrences-append told s.correlation_map id in ground arith
