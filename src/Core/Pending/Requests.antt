-- ===== src/Core/Pending/Requests.antt =====
-- A request of the API as steps of the table.
use pubsubplus_go_client.Prelude.{
  ℕ, ◌+◌, ◌%◌, ◌^◌, ◌≤◌, ◌≡◌, refl, true, List, [], ◌∷◌, ◌++◌, Option, none, some, arith, sym, ap,
  ◌∙◌, length,
}
use pubsubplus_go_client.Core.Pending.{
  Pending, Op, reserves, stores, clears, request, requested, reserve, store, new_correlation, step,
  run,
}

module _ {E : Type 0} where
  abbrev pub after_call : ℕ → Option E → List (Op E)
  after_call id none = []
  after_call id (some e) = clears id ∷ []

  -- The steps of a request.
  abbrev pub request_steps : (ℕ → Option E) → Pending E → List (Op E)
  request_steps native s =
      let id = (s.correlation_id + 1) % 2 ^ 64 in reserves ∷ stores id ∷ after_call id (native id)

  requested-run :
      (o : Option E) (id : ℕ) (s : Pending E) → (requested o id s).0 ≡ run (after_call id o) s
  unfolding run step
  requested-run none id s = refl
  requested-run (some e) id s = refl

  step-stores : (id : ℕ) (s : Pending E) → s.reserved id ≡ true → step (stores id) s ≡ store id s
  unfolding step
  step-stores id s h = rw h refl

  pub request-run :
      (native : ℕ → Option E) (s : Pending E)
      → (request native s).0 ≡ run (request_steps native s) s
  unfolding request new_correlation run step reserve
  request-run native s =
      let id = (s.correlation_id + 1) % 2 ^ 64 in
      let held : (reserve s).0.reserved id ≡ true = ground arith in
      requested-run (native id) id (store id (reserve s).0)
      ∙ ap (run (after_call id (native id))) (sym (step-stores id (reserve s).0 held))

  pub run-append :
      (front back : List (Op E)) (s : Pending E) → run (front ++ back) s ≡ run back (run front s)
  unfolding run
  run-append [] back s = refl
  run-append (op ∷ front) back s = run-append front back (step op s)

  pub request_steps-short :
      (native : ℕ → Option E) (s : Pending E) → length (request_steps native s) ≤ 3
  request_steps-short native s = ground arith
