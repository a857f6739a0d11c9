-- ===== src/Publisher/Receipts.antt =====
-- internal/impl/publisher/persistent_message_publisher_impl.go: the contexts of published messages that
-- wait for an acknowledgement, and the wait of Terminate for the last of them.
--
-- A step is one stretch under `correlationLock` with the call of `resolve` that goes with it. The
-- acknowledgements come on the context thread of the C library, one at a time. `C` is the type of the
-- contexts.
pub mod Once
pub mod Completion
mod Tests
use pubsubplus_go_client.Prelude.{
  ℕ, suc, ◌&&◌, Bool, true, false, List, [], ◌∷◌, ◌++◌, Option, none, some, length, if◌then◌else◌,
}
use pubsubplus_go_client.Prelude.Dict.{Dict, fetch, assign, discard}

-- `correlationMap`; `acking` is the message id whose context `ackHandler` has resolved and not yet
-- deleted. `terminating` is whether the state is Terminating, `requested` whether
-- `requestCorrelateComplete` is closed, `completes` how often `correlationComplete` was closed: a
-- second time panics.
pub record Receipts (C : Type 0) : Type 0 where
  pub correlation_map : Dict C
  pub acking : Option ℕ
  pub terminating : Bool
  pub requested : Bool
  pub completes : ℕ

pub data Op (C : Type 0) : Type 0 where
  adds : ℕ → C → Op C
  removes acknowledges : ℕ → Op C
  finishes terminates requests drains : Op C

module _ {C : Type 0} where
  unfoldable pub no_receipts : Receipts C
  no_receipts = record {
    correlation_map = [];
    acking = none;
    terminating = false;
    requested = false;
    completes = 0;
  }

  abbrev pub is_empty : Dict C → Bool
  is_empty [] = true
  is_empty (x ∷ d) = false

  unfoldable pub add_correlation_context : ℕ → C → Receipts C → Receipts C
  add_correlation_context id c s = record s { correlation_map = assign s.correlation_map id c }

  unfoldable pub remove_correlation_context : ℕ → Receipts C → Receipts C
  remove_correlation_context id s = record s { correlation_map = discard s.correlation_map id }

  abbrev pub found : ℕ → Option C → Receipts C → Receipts C × Dict C
  found id none s = (s, [])
  found id (some c) s = (record s { acking = some id }, (id, c) ∷ [])

  -- `ackHandler` up to the call of `resolve`: the contexts that are resolved come with their ids.
  abbrev pub acknowledged : Option ℕ → ℕ → Receipts C → Receipts C × Dict C
  acknowledged none id s = found id (fetch s.correlation_map id) s
  acknowledged (some other) id s = (s, [])

  unfoldable pub ack_handler : ℕ → Receipts C → Receipts C × Dict C
  ack_handler id s = acknowledged s.acking id s

  abbrev finished : Option ℕ → Receipts C → Receipts C
  finished none s = s
  finished (some id) s =
      let rest = discard s.correlation_map id in
      record s {
        correlation_map = rest;
        acking = none;
        completes =
            if s.terminating && (s.requested && is_empty rest)
            then suc s.completes
            else s.completes;
      }

  -- `ackHandler` after the call of `resolve`.
  unfoldable pub finish_ack : Receipts C → Receipts C
  finish_ack s = finished s.acking s

  -- The stretch of Terminate under the lock, and the number of contexts that it finds.
  unfoldable pub request_complete : Receipts C → Receipts C × ℕ
  request_complete s = (record s { requested = true }, length s.correlation_map)

  unfoldable pub drain_ack_table : Receipts C → Receipts C × Dict C
  drain_ack_table s = (record s { correlation_map = [] }, s.correlation_map)

  unfoldable pub step : Op C → Receipts C → Receipts C × Dict C
  unfolding add_correlation_context remove_correlation_context ack_handler finish_ack
      request_complete drain_ack_table
  step (adds id c) s = (add_correlation_context id c s, [])
  step (removes id) s = (remove_correlation_context id s, [])
  step (acknowledges id) s = ack_handler id s
  step finishes s = (finish_ack s, [])
  step terminates s = (record s { terminating = true }, [])
  step requests s = ((request_complete s).0, [])
  step drains s = drain_ack_table s

  -- The state, and the contexts that were resolved.
  unfoldable pub run : List (Op C) → Receipts C → Receipts C × Dict C
  run [] s = (s, [])
  run (op ∷ ops) s =
      let (s', told) = step op s in let (s'', more) = run ops s' in (s'', told ++ more)
