-- ===== src/Publisher/Receipts/Completion.antt =====
-- The wait of Terminate for the last acknowledgement.
use pubsubplus_go_client.Prelude.{
  ℕ, ◌≡◌, refl, true, false, List, [], ◌∷◌, Option, none, some, if◌then◌else◌, arith, All,
}
use pubsubplus_go_client.Prelude.Dict.{Dict, fetch}
use pubsubplus_go_client.Publisher.Receipts.{
  Receipts, Op, adds, removes, acknowledges, finishes, terminates, requests, drains, no_receipts,
  is_empty, found, acknowledged, ack_handler, finished, finish_ack, drain_ack_table,
  add_correlation_context, remove_correlation_context, request_complete, step, run,
}

module _ {C : Type 0} where
  -- An acknowledgement or the end of its handling.
  abbrev pub IsAck : Op C → Type 0
  IsAck (acknowledges id) = Unit
  IsAck finishes = Unit
  IsAck _ = true ≡ false

  -- The completion is not asked for.
  abbrev pub IsBefore : Op C → Type 0
  IsBefore requests = true ≡ false
  IsBefore _ = Unit

  fetch-is_empty : (d : Dict C) (id : ℕ) (c : C) → fetch d id ≡ some c → is_empty d ≡ false
  unfolding fetch
  fetch-is_empty [] id c h = cc
  fetch-is_empty (x ∷ d) id c h = refl

  -- The table is complete when it is empty, and then signalled once.
  record Waits (s : Receipts C) : Type 0 where
    asked : s.requested ≡ true
    ending : s.terminating ≡ true
    signalled : s.completes ≡ (if is_empty s.correlation_map then 1 else 0)
    over : is_empty s.correlation_map ≡ true → s.acking ≡ none

  found-Waits :
      (o : Option C) (id : ℕ) (s : Receipts C)
      → fetch s.correlation_map id ≡ o
      → Waits s
      → Waits (found id o s).0
  found-Waits none id s h v = v
  found-Waits (some c) id s h v =
      let there = fetch-is_empty s.correlation_map id c h in
      record {
        asked = v.asked;
        ending = v.ending;
        signalled = v.signalled;
        over = λ e. absurd (ground arith);
      }

  ack-Waits : (o : Option ℕ) (id : ℕ) (s : Receipts C) → Waits s → Waits (acknowledged o id s).0
  ack-Waits none id s v = found-Waits (fetch s.correlation_map id) id s refl v
  ack-Waits (some other) id s v = v

  finish-Waits : (o : Option ℕ) (s : Receipts C) → s.acking ≡ o → Waits s → Waits (finished o s)
  finish-Waits none s h v = v
  finish-Waits (some id) s h v = ground arith

  step-Waits : (op : Op C) (s : Receipts C) → IsAck op → Waits s → Waits (step op s).0
  unfolding step ack_handler finish_ack
  step-Waits (acknowledges id) s i v = ack-Waits s.acking id s v
  step-Waits finishes s i v = finish-Waits s.acking s refl v
  step-Waits (adds id c) s i v = cc
  step-Waits (removes id) s i v = cc
  step-Waits terminates s i v = cc
  step-Waits requests s i v = cc
  step-Waits drains s i v = cc

  run-Waits : (ops : List (Op C)) (s : Receipts C) → All IsAck ops → Waits s → Waits (run ops s).0
  unfolding run
  run-Waits [] s i v = v
  run-Waits (op ∷ ops) s i v = run-Waits ops (step op s).0 i.1 (step-Waits op s i.0 v)

  record Unasked (s : Receipts C) : Type 0 where
    unasked : s.requested ≡ false
    silent : s.completes ≡ 0

  acknowledged-Unasked :
      (o : Option ℕ) (f : Option C) (id : ℕ) (s : Receipts C)
      → fetch s.correlation_map id ≡ f
      → Unasked s
      → Unasked (acknowledged o id s).0
  acknowledged-Unasked none none id s h v = rw h v
  acknowledged-Unasked none (some c) id s h v =
      rw h (record { unasked = v.unasked; silent = v.silent })
  acknowledged-Unasked (some other) f id s h v = v

  finish-Unasked :
      (o : Option ℕ) (s : Receipts C) → s.acking ≡ o → Unasked s → Unasked (finished o s)
  finish-Unasked none s h v = v
  finish-Unasked (some id) s h v = ground arith

  step-Unasked : (op : Op C) (s : Receipts C) → IsBefore op → Unasked s → Unasked (step op s).0
  unfolding step ack_handler finish_ack drain_ack_table add_correlation_context
      remove_correlation_context
  step-Unasked (adds id c) s b v = ground arith
  step-Unasked (removes id) s b v = ground arith
  step-Unasked (acknowledges id) s b v =
      acknowledged-Unasked s.acking (fetch s.correlation_map id) id s refl v
  step-Unasked finishes s b v = finish-Unasked s.acking s refl v
  step-Unasked terminates s b v = ground arith
  step-Unasked requests s b v = cc
  step-Unasked drains s b v = ground arith

  run-Unasked :
      (ops : List (Op C)) (s : Receipts C) → All IsBefore ops → Unasked s → Unasked (run ops s).0
  unfolding run
  run-Unasked [] s b v = v
  run-Unasked (op ∷ ops) s b v = run-Unasked ops (step op s).0 b.1 (step-Unasked op s b.0 v)

  -- Once Terminate, with contexts in the table, has asked for the completion, acknowledgements signal
  -- it as soon as the table is empty, not before, and once; no publish adds or gives up a message
  -- after that.
  pub run_signals :
      (before ops : List (Op C))
      → All IsBefore before
      → All IsAck ops
      → let s = (run before no_receipts).0 in
        s.terminating ≡ true
        → is_empty s.correlation_map ≡ false
        → let s' = (run ops (request_complete s).0).0 in
          s'.completes ≡ (if is_empty s'.correlation_map then 1 else 0)
  unfolding no_receipts request_complete
  run_signals before ops b a ending waiting =
      let s = (run before no_receipts).0 in
      let u = run-Unasked before no_receipts b (record { unasked = refl; silent = refl }) in
      let silent = u.silent in
      let start : Waits (request_complete s).0 = ground arith in
      (run-Waits ops (request_complete s).0 a start).signalled
