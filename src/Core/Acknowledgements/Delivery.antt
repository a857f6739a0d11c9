-- ===== src/Core/Acknowledgements/Delivery.antt =====
-- An acknowledgement reaches the handler that was registered for its message.
use pubsubplus_go_client.Prelude.{
  ℕ, zero, suc, ◌+◌, ◌^◌, ◌≤◌, ◌<◌, ◌≡◌, ◌≢◌, refl, Bool, List, [], ◌∷◌, Option, none, some, arith,
}
use pubsubplus_go_client.Prelude.Dict.{fetch, assign, discard, fetch-assign, fetch-discard}
use pubsubplus_go_client.Core.Correlation.{
  to_correlation_tag, from_correlation_tag-to_correlation_tag,
}
use pubsubplus_go_client.Core.Acknowledgements.{
  Registry, TagSource, next_u64, next_tag, add_acknowledgement_handler,
  remove_acknowledgement_handler, on_acknowledgement, Op, add, remove, apply, run,
}

module _ {H : Type 0} where
  abbrev pub adds : List (Op H) → ℕ
  adds [] = 0
  adds (add h ∷ ops) = suc (adds ops)
  adds (remove i ∷ ops) = adds ops

  -- No operation removes the handler `p`.
  abbrev pub Keeps : ℕ → List (Op H) → Type 0
  Keeps p [] = Unit
  Keeps p (add h ∷ ops) = Keeps p ops
  Keeps p (remove i ∷ ops) = (i ≢ p) × Keeps p ops

  -- An id that has been handed out is looked up alike until it is removed: later ids are larger.
  fetch-run :
      (p : ℕ) (ops : List (Op H)) (s : Registry H)
      → p ≤ s.handler_id
      → s.handler_id + adds ops < 2 ^ 64
      → Keeps p ops
      → fetch (run ops s).handlers p ≡ fetch s.handlers p
  unfolding run apply add_acknowledgement_handler remove_acknowledgement_handler
  fetch-run p [] s old room keeps = refl
  fetch-run p (add h ∷ ops) s old room keeps =
      ground
        (arith, fetch-run p ops (apply (add h) s), fetch-assign s.handlers (s.handler_id + 1) p h)
  fetch-run p (remove i ∷ ops) s old room keeps =
      ground (arith, fetch-run p ops (apply (remove i) s), fetch-discard s.handlers i p)

-- The source of a handler's tags after n calls.
abbrev pub after_calls : ℕ → TagSource → TagSource
after_calls zero t = t
after_calls (suc n) t = (next_tag (after_calls n t)).0

after_calls_fields :
    (n : ℕ) (t : TagSource)
    → t.message_id + n < 2 ^ 64
    → (record { pub_id = t.pub_id; message_id = t.message_id + n }) ≡ after_calls n t
unfolding next_tag
after_calls_fields zero t h = ground arith
after_calls_fields (suc n) t h = ground (arith, after_calls_fields n t)

module _ {H E : Type 0} where
  -- The n-th tag of a handler is acknowledged to that handler, with message id n and the broker's
  -- verdict, whatever other publishers have registered or removed since, as long as the handler
  -- has not been removed and no 64-bit counter has wrapped.
  pub on_acknowledgement-add :
      (h : H) (s : Registry H) (ops : List (Op H)) (n : ℕ) (persisted : Bool) (e : Option E)
      → s.handler_id + 1 + adds ops < 2 ^ 64
      → n + 1 < 2 ^ 64
      → Keeps (s.handler_id + 1) ops
      → let (s', p, t) = add_acknowledgement_handler h s in
        on_acknowledgement (run ops s') (some (next_tag (after_calls n t)).2) persisted e
        ≡ some (record { handler = h; message_id = n + 1; persisted = persisted; error = e })
  unfolding add_acknowledgement_handler next_tag on_acknowledgement
  on_acknowledgement-add h s ops n persisted e room few keeps =
      let q = s.handler_id + 1 in
      let s' : Registry H = record { handler_id = q; handlers = assign s.handlers q h } in
      let t : TagSource = record { pub_id = q; message_id = 0 } in
      let small : next_u64 s.handler_id ≡ q = omega arith in
      rw small (
        ground (
          arith,
          after_calls_fields n t (omega arith),
          from_correlation_tag-to_correlation_tag q (n + 1),
          fetch-run q ops s' (omega arith) room keeps,
          fetch-assign s.handlers q q h,
        ))

  -- Once a handler is removed, no acknowledgement of its messages calls anything.
  on_acknowledgement-remove :
      (p m : ℕ) (s : Registry H) (ops : List (Op H)) (persisted : Bool) (e : Option E)
      → p ≤ s.handler_id
      → s.handler_id + adds ops < 2 ^ 64
      → m < 2 ^ 64
      → Keeps p ops
      → on_acknowledgement
          (run ops (remove_acknowledgement_handler p s))
          (some (to_correlation_tag p m))
          persisted
          e
        ≡ none
  unfolding remove_acknowledgement_handler on_acknowledgement
  on_acknowledgement-remove p m s ops persisted e old room few keeps = ground (
    arith,
    from_correlation_tag-to_correlation_tag p m,
    fetch-run p ops (record s { handlers = discard s.handlers p }) old room keeps,
    fetch-discard s.handlers p p,
  )
