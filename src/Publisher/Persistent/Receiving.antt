-- ===== src/Publisher/Persistent/Receiving.antt =====
-- The contexts in the steps of the table: the start of a task and the acknowledgements.
use pubsubplus_go_client.Prelude.{
  ℕ, ◌+◌, ◌≤◌, ◌≡◌, refl, false, List, [], ◌∷◌, ◌++◌, Option, none, some, ◌==◌, arith, inl, inr,
  Bool-cases,
}
use pubsubplus_go_client.Prelude.Dict.{
  fetch, occurrences, occurrences-assign, occurrences-assign_other, occurrences-discard,
  fetch-one-le-occurrences,
}
use pubsubplus_go_client.Publisher.Direct.{
  Loop, ready, holding, sending, waiting, finished, looked, ended,
}
use pubsubplus_go_client.Publisher.Direct.Order.{running, queue_behind, IsUncut}
use pubsubplus_go_client.Publisher.Receipts.{
  found, acknowledged, finish_ack, add_correlation_context,
}
use pubsubplus_go_client.Publisher.Persistent.{Persistent, holds_back, begin_task, receive}
use pubsubplus_go_client.Publisher.Persistent.Contexts.{Counted, count}
use pubsubplus_go_client.Publisher.Persistent.Places.{is_cut}

-- The context of a task that begins is not in the table: its message is still in the buffer.
starts-Counted :
    (m k r : ℕ) (rest : List ℕ) (s : Persistent)
    → s.direct.loop ≡ sending m
    → s.begun ≡ false
    → s.direct.buffer ≡ m ∷ rest
    → count k s.accepted ≤ 1
    → Counted k r s
    → Counted k r (begin_task (sending m) s)
unfolding add_correlation_context
starts-Counted m k r rest s hl hg hb few v = elim (Bool-cases (k == m)) [
  | inl same ↦
      let e : k ≡ m = ground arith in
      let b = v.balance in
      let none_there : occurrences m s.receipts.correlation_map ≡ 0 =
        ground (arith, v.balance, v.told) in
      ground
        (arith, occurrences-assign s.receipts.correlation_map m k tt none_there, v.balance, v.told)
  | inr other ↦
      ground (arith, occurrences-assign_other s.receipts.correlation_map m k tt other, v.balance)
]

both_of : (s : Persistent) → is_cut s.direct ≡ false → s.direct.complete ≡ false → IsUncut s.direct
both_of s h c = ground arith

pub begins-Counted :
    (l : Loop ℕ) (k r : ℕ) (s : Persistent)
    → s.direct.loop ≡ l
    → (IsUncut s.direct → s.direct.buffer ≡ running s.direct.loop ++ queue_behind s.direct)
    → count k s.accepted ≤ 1
    → Counted k r s
    → Counted k r (begin_task l s)
begins-Counted (sending m) k r s hl al few v = elim (Bool-cases s.begun) [
  | inl begun ↦ ground arith
  | inr fresh ↦
      let not_complete : s.direct.complete ≡ false = ground (arith, v.alive) in
      let aligned = rw hl at al (both_of s v.graceful not_complete) in
      starts-Counted m k r (queue_behind s.direct) s hl fresh aligned few v
]
begins-Counted ready k r s hl al few v = v
begins-Counted (holding m) k r s hl al few v = v
begins-Counted (waiting m) k r s hl al few v = v
begins-Counted (finished m f) k r s hl al few v = v
begins-Counted (looked m f u) k r s hl al few v = v
begins-Counted ended k r s hl al few v = v

found-Counted :
    (o : Option (Unit {0})) (id k r : ℕ) (s : Persistent)
    → fetch s.receipts.correlation_map id ≡ o
    → s.receipts.acking ≡ none
    → holds_back id s.direct.loop ≡ false
    → Counted k r s
    → let (s', told) = receive s (found id o s.receipts) in Counted k (r + occurrences k told) s'
unfolding occurrences
found-Counted none id k r s hf ha hb v = ground arith
found-Counted (some c) id k r s hf ha hb v = elim (Bool-cases (k == id)) [
  | inl same ↦
      let e : k ≡ id = ground arith in
      ground
        (arith, fetch-one-le-occurrences s.receipts.correlation_map id c hf, v.light, v.balance)
  | inr other ↦ ground (arith, v.balance)
]

pub acknowledged-Counted :
    (o : Option ℕ) (id k r : ℕ) (s : Persistent)
    → s.receipts.acking ≡ o
    → holds_back id s.direct.loop ≡ false
    → Counted k r s
    → let (s', told) = receive s (acknowledged o id s.receipts) in
      Counted k (r + occurrences k told) s'
unfolding occurrences
acknowledged-Counted none id k r s ha hb v =
    found-Counted (fetch s.receipts.correlation_map id) id k r s refl ha hb v
acknowledged-Counted (some other) id k r s ha hb v = ground arith

pub finish-Counted :
    (o : Option ℕ) (k r : ℕ) (s : Persistent)
    → s.receipts.acking ≡ o
    → Counted k r s
    → Counted k r (receive s (finish_ack s.receipts, [])).0
unfolding finish_ack
finish-Counted none k r s h v = ground arith
finish-Counted (some i) k r s h v =
    ground (arith, occurrences-discard s.receipts.correlation_map i k, v.balance, v.light, v.held)
