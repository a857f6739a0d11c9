-- ===== src/Core/Provisioner/Answers.antt =====
-- The provisioner as a user of the table of those that wait.
use pubsubplus_go_client.Prelude.{
  ℕ, ◌*◌, ◌^◌, ◌≤◌, ◌<◌, ◌≡◌, refl, List, [], ◌∷◌, ◌++◌, Option, none, some, arith, sym, ap, ◌∙◌,
  length, length-append, inl, inr, Bool-cases, if◌then◌else◌,
}
use pubsubplus_go_client.Core.Events.{Events}
use pubsubplus_go_client.Core.Pending.Requests.{
  request_steps, request-run, run-append, request_steps-short,
}
use pubsubplus_go_client.Core.Pending.{
  Pending, Answer, no_pending, request, reserve, store, new_correlation, clear,
}
use pubsubplus_go_client.Core.Pending
use pubsubplus_go_client.Core.Pending.Answers.{run-one_answer}
use pubsubplus_go_client.Core.Provisioner.{
  Provisioner, asked, Op, starts, terminates, provisions, deprovisions, clears, confirms, fails,
  new_ccsmp_endpoint_provisioner, start, terminate, provision, deprovision,
  clear_provision_correlation, handle_event, handle_ok, handle_err, step, run,
}

module _ {H E : Type 0} where
  abbrev steps_of : Op E → Provisioner H E → List (Pending.Op E)
  steps_of starts s = []
  steps_of (terminates e) s = if s.is_running then Pending.interrupts e ∷ [] else []
  steps_of (provisions native properties ignores) s =
      request_steps (λ id. native properties id ignores) s.provisions
  steps_of (deprovisions native properties ignores) s =
      request_steps (λ id. native properties id ignores) s.provisions
  steps_of (clears id) s = Pending.clears id ∷ []
  steps_of (confirms event) s = Pending.resolves event.correlation_p none ∷ []
  steps_of (fails event) s = Pending.resolves event.correlation_p event.error ∷ []

  -- A call of the provisioner is these steps of the table, of which there are at most three.
  asked-provisions :
      (s : Provisioner H E) (r : Pending E × (ℕ × Option E)) → (asked s r).0.provisions ≡ r.0
  asked-provisions s (p, (id, none)) = refl
  asked-provisions s (p, (id, some e)) = refl

  step-refines :
      (ok failed : H) (op : Op E) (s : Provisioner H E)
      → (step ok failed op s).provisions ≡ Pending.run (steps_of op s) s.provisions
  unfolding step start terminate provision deprovision clear_provision_correlation handle_ok
      handle_err handle_event Pending.run Pending.step
  step-refines ok failed starts s = ground arith
  step-refines ok failed (terminates e) s = elim (Bool-cases s.is_running) [
    | inl up ↦ rw up refl
    | inr down ↦ rw down refl
  ]
  step-refines ok failed (provisions native properties ignores) s =
      asked-provisions s _ ∙ request-run (λ id. native properties id ignores) s.provisions
  step-refines ok failed (deprovisions native properties ignores) s =
      asked-provisions s _ ∙ request-run (λ id. native properties id ignores) s.provisions
  step-refines ok failed (clears id) s = refl
  step-refines ok failed (confirms event) s = refl
  step-refines ok failed (fails event) s = refl

  steps_of-short : (op : Op E) (s : Provisioner H E) → length (steps_of op s) ≤ 3
  steps_of-short starts s = ground arith
  steps_of-short (terminates e) s = ground arith
  steps_of-short (provisions native properties ignores) s =
      request_steps-short (λ id. native properties id ignores) s.provisions
  steps_of-short (deprovisions native properties ignores) s =
      request_steps-short (λ id. native properties id ignores) s.provisions
  steps_of-short (clears id) s = ground arith
  steps_of-short (confirms event) s = ground arith
  steps_of-short (fails event) s = ground arith

  abbrev trace : H → H → List (Op E) → Provisioner H E → List (Pending.Op E)
  trace ok failed [] s = []
  trace ok failed (op ∷ ops) s = steps_of op s ++ trace ok failed ops (step ok failed op s)

  run-refines :
      (ok failed : H) (ops : List (Op E)) (s : Provisioner H E)
      → (run ok failed ops s).provisions ≡ Pending.run (trace ok failed ops s) s.provisions
  unfolding run Pending.run
  run-refines ok failed [] s = refl
  run-refines ok failed (op ∷ ops) s =
      run-refines ok failed ops (step ok failed op s)
      ∙ ap (Pending.run (trace ok failed ops (step ok failed op s))) (step-refines ok failed op s)
      ∙ sym (run-append (steps_of op s) (trace ok failed ops (step ok failed op s)) s.provisions)

  trace-short :
      (ok failed : H) (ops : List (Op E)) (s : Provisioner H E)
      → length (trace ok failed ops s) ≤ 3 * length ops
  trace-short ok failed [] s = omega arith
  trace-short ok failed (op ∷ ops) s = omega (
    arith,
    length-append (steps_of op s) (trace ok failed ops (step ok failed op s)),
    steps_of-short op s,
    trace-short ok failed ops (step ok failed op s),
  )

  -- Over any calls of the provisioner, in any order, with terminations among them, each request gets
  -- at most one answer, as long as there are fewer than 2^64 / 3 calls; so no answer is sent to a
  -- channel that has no room.
  run-answers_once :
      (ok failed : H) (events : Events H) (ops : List (Op E)) (id : ℕ)
      → 3 * length ops < 2 ^ 64
      → length ((run ok failed ops (new_ccsmp_endpoint_provisioner events)).provisions.channels id)
        ≤ 1
  unfolding new_ccsmp_endpoint_provisioner
  run-answers_once ok failed events ops id small =
      let s = new_ccsmp_endpoint_provisioner events in
      let short = trace-short ok failed ops s in
      rw (run-refines ok failed ops s) (run-one_answer (trace ok failed ops s) id (omega arith))
