-- ===== src/Publisher/Persistent/Moves.antt =====
-- The contexts in a step of the loop.
use pubsubplus_go_client.Prelude.{ℕ, ◌+◌, ◌≡◌, Bool, true, false, List, [], ◌∷◌, ◌++◌, arith}
use mathlib.Core.List.{append-nil}
use pubsubplus_go_client.Prelude.Dict.{occurrences, occurrences-discard}
use pubsubplus_go_client.Publisher.Direct.{
  Loop, ready, sending, waiting, looked, Move, moves, takes, publishes, interrupted, pops, moved,
  accepted, would_block, error,
}
use pubsubplus_go_client.Publisher.Direct.Accounting.{written_of}
use pubsubplus_go_client.Publisher.Direct.Order.{running, queue_behind, IsUncut}
use pubsubplus_go_client.Publisher.Receipts.{remove_correlation_context}
use pubsubplus_go_client.Publisher.Persistent.{Persistent, Resolved, after, waits_to_begin}
use pubsubplus_go_client.Publisher.Persistent.Contexts.{Counted}

-- The step of the loop from `l`, with what follows.
abbrev pub moved_on : Loop ℕ → Move → Persistent → Persistent × Resolved
moved_on l move s = after (moves move) l (moved l move s.direct).1 (record s {
  direct = (moved l move s.direct).0;
  accepted = s.accepted ++ written_of (moved l move s.direct).1;
})

pops-Counted :
    (m k r : ℕ) (f u : Bool) (p : ℕ) (rest : List ℕ) (s : Persistent)
    → s.direct.loop ≡ looked m f u
    → s.direct.buffer ≡ p ∷ rest
    → p ≡ m
    → Counted k r s
    → let (s', told) = moved_on (looked m f u) pops s in Counted k (r + occurrences k told) s'
unfolding remove_correlation_context occurrences
pops-Counted m k r true u p rest s hl hb e v = ground (
  arith,
  append-nil s.accepted,
  occurrences-discard s.receipts.correlation_map m k,
  v.balance,
  v.held,
  v.light,
  e,
  hb,
  hl,
)
pops-Counted m k r false u p rest s hl hb e v =
    ground (arith, append-nil s.accepted, v.balance, e, hb, hl)

pub moved-Counted :
    (l : Loop ℕ) (move : Move) (tasks buffer : List ℕ) (k r : ℕ) (s : Persistent)
    → s.direct.loop ≡ l
    → s.direct.tasks ≡ tasks
    → s.direct.buffer ≡ buffer
    → (IsUncut s.direct → s.direct.buffer ≡ running s.direct.loop ++ queue_behind s.direct)
    → waits_to_begin (moves move) s.begun ≡ false
    → Counted k r s
    → let (s', told) = moved_on l move s in Counted k (r + occurrences k told) s'
unfolding occurrences
moved-Counted ready takes [] b k r s hl ht hb al w v = ground (arith, append-nil s.accepted)
moved-Counted ready takes (t ∷ ts) b k r s hl ht hb al w v = ground (arith, append-nil s.accepted)
moved-Counted (looked m f u) pops t [] k r s hl ht hb al w v = ground (arith, append-nil s.accepted)
moved-Counted (looked m f u) pops t (p ∷ rest) k r s hl ht hb al w v =
    pops-Counted m k r f u p rest s hl hb (ground arith) v
moved-Counted (sending m) (publishes accepted) t b k r s hl ht hb al w v =
    ground (arith, append-nil s.accepted)
moved-Counted (sending m) (publishes would_block) t b k r s hl ht hb al w v =
    ground (arith, append-nil s.accepted)
moved-Counted (sending m) (publishes error) t b k r s hl ht hb al w v =
    ground (arith, append-nil s.accepted)
moved-Counted (waiting m) interrupted t b k r s hl ht hb al w v =
    ground (arith, append-nil s.accepted)
moved-Counted _ _ t b k r s hl ht hb al w v = ground (arith, append-nil s.accepted)
