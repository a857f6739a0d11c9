-- ===== src/Core/Events/Refinement.antt =====
-- The maps of handlers by event are one book of registrations by id.
use pubsubplus_go_client.Prelude.{
  ℕ, zero, suc, ◌+◌, ◌%◌, ◌^◌, ◌≤◌, ◌<◌, ◌≡◌, refl, ap, ◌∙◌, List, [], ◌∷◌, map, Option, none, some,
  Option-cases, inl, inr, length, ltb, ◌==◌, ◌&&◌, if◌then◌else◌, arith,
}
use pubsubplus_go_client.Prelude.Dict.{Dict, fetch, fetch-assign, fetch-discard}
use pubsubplus_go_client.Prelude.Family.{put}
use pubsubplus_go_client.Core.Events.{
  Event, SessionEvent, LastError, Events, index, event_count, new_ccsmp_events, start, terminate,
  add_event_handler, remove_below, remove_event_handler, emit_event, event_callback,
  session_event_mapping, Op, adds, removes, starts, terminates, apply, run,
}

-- What a client may rely on: under each id, the event and the handler that were registered.
abbrev pub Book : Type 0 → Type 0
Book H = ℕ → Option (ℕ × H)

index-lt : (e : Event) → index e < event_count
unfolding index
index-lt Event.up = omega arith
index-lt _ = omega arith

module _ {H : Type 0} where
  abbrev pub at_event : ℕ → Option (ℕ × H) → Option H
  at_event e none = none
  at_event e (some (e', h)) = if e == e' then some h else none

  -- The book after an operation, in which an addition takes the next id.
  abbrev pub book_apply : Op H → ℕ → Book H → Book H
  book_apply (adds event h) next book = put next (some (index event, h)) book
  book_apply (removes id) next book = put id none book
  book_apply starts next book = book
  book_apply terminates next book = λ _. none

  abbrev pub next_after : Op H → ℕ → ℕ
  next_after (adds event h) next = suc next
  next_after _ next = next

  abbrev pub book_run : List (Op H) → ℕ → Book H → Book H
  book_run [] next book = book
  book_run (op ∷ ops) next book = book_run ops (next_after op next) (book_apply op next book)

  record Inv (book : Book H) (s : Events H) : Type 0 where
    agrees : (e id : ℕ) → fetch (s.event_handlers e) id ≡ at_event e (book id)
    fresh : (id : ℕ) → s.handler_id < id → book id ≡ none
    known : (e id : ℕ) → event_count ≤ e → at_event e (book id) ≡ none

  fetch-remove_below :
      (k id : ℕ) (m : ℕ → Dict H) (o : Option (ℕ × H))
      → ((e : ℕ) → fetch (m e) id ≡ at_event e o)
      → (e j : ℕ)
      → fetch (remove_below k id m e) j ≡ (if ltb e k && (j == id) then none else fetch (m e) j)
  unfolding remove_below
  fetch-remove_below zero id m o h e j = ground arith
  fetch-remove_below (suc k) id m none h e j =
      ground (arith, h k, h e, fetch-discard (m k) id j, fetch-remove_below k id m none h e j)
  fetch-remove_below (suc k) id m (some (e', x)) h e j =
      ground
        (arith, h k, h e, fetch-discard (m k) id j, fetch-remove_below k id m (some (e', x)) h e j)

  apply-Inv :
      (op : Op H) (book : Book H) (s : Events H)
      → Inv book s
      → s.handler_id + 1 < 2 ^ 64
      → Inv (book_apply op (s.handler_id + 1) book) (apply op s)
  unfolding apply add_event_handler remove_event_handler start terminate
  apply-Inv (adds event h) book s v small = record {
    agrees = λ e id. ground (
      arith,
      v.agrees e id,
      v.fresh (s.handler_id + 1),
      fetch-assign (s.event_handlers (index event)) ((s.handler_id + 1) % 2 ^ 64) id h,
    );
    fresh = λ id lt. ground (arith, v.fresh id);
    known = λ e id le. ground (arith, v.known e id, index-lt event);
  }
  apply-Inv (removes id) book s v small = record {
    agrees = λ e j. ground (
      arith,
      v.agrees e j,
      v.known e j,
      fetch-remove_below event_count id s.event_handlers (book id) (λ e. v.agrees e id) e j,
    );
    fresh = λ j lt. ground (arith, v.fresh j);
    known = λ e j le. ground (arith, v.known e j);
  }
  apply-Inv starts book s v small = record { agrees = v.agrees; fresh = v.fresh; known = v.known }
  apply-Inv terminates book s v small = record {
    agrees = λ e id. unfold fetch in refl;
    fresh = λ id lt. refl;
    known = λ e id le. refl;
  }

  handler_id-apply :
      (op : Op H) (s : Events H)
      → s.handler_id + 1 < 2 ^ 64
      → next_after op (s.handler_id + 1) ≡ (apply op s).handler_id + 1
  unfolding apply add_event_handler remove_event_handler start terminate
  handler_id-apply (adds event h) s small = omega arith
  handler_id-apply _ s small = refl

  handler_id-le : (op : Op H) (s : Events H) → (apply op s).handler_id ≤ s.handler_id + 1
  unfolding apply add_event_handler remove_event_handler start terminate
  handler_id-le (adds event h) s = omega arith
  handler_id-le _ s = omega arith

  run-Inv :
      (ops : List (Op H)) (book : Book H) (s : Events H)
      → Inv book s
      → s.handler_id + length ops < 2 ^ 64
      → Inv (book_run ops (s.handler_id + 1) book) (run ops s)
  unfolding run
  run-Inv [] book s v small = v
  run-Inv (op ∷ ops) book s v small = rw (handler_id-apply op s (omega arith)) (
      run-Inv ops (book_apply op (s.handler_id + 1) book) (apply op s)
        (apply-Inv op book s v (omega arith)) (omega (arith, handler_id-le op s)))

  new-Inv : Inv (λ _. none) new_ccsmp_events
  unfolding new_ccsmp_events
  new-Inv = record {
    agrees = λ e id. unfold fetch in refl;
    fresh = λ id lt. refl;
    known = λ e id le. refl;
  }

  abbrev pub book_of : List (Op H) → Book H
  book_of ops = book_run ops 1 (λ _. none)

  -- What is told to the handler of an id, if it has one.
  abbrev pub with_info : {I : Type 0} → I → Option H → Option (H × I)
  with_info info none = none
  with_info info (some h) = some (h, info)

  fetch-map :
      {I : Type 0} (info : I) (d : Dict H) (id : ℕ)
      → fetch (map (λ p. (p.0, (p.1, info))) d) id ≡ with_info info (fetch d id)
  unfolding fetch
  fetch-map info [] id = refl
  fetch-map info ((q, h) ∷ d) id = ground (arith, fetch-map info d id)

  -- After any operations, fewer than 2^64, an event goes to exactly the handlers that the book has for
  -- it: to each under the id that it was registered with, and with the same information.
  pub fetch-emit_event :
      {I : Type 0} (ops : List (Op H)) (event : Event) (info : I) (id : ℕ)
      → length ops < 2 ^ 64
      → fetch (emit_event event info (run ops new_ccsmp_events)) id
        ≡ with_info info (at_event (index event) (book_of ops id))
  unfolding emit_event new_ccsmp_events
  fetch-emit_event ops event info id small =
      let s : Events H = run ops new_ccsmp_events in
      let v = run-Inv ops (λ _. none) new_ccsmp_events new-Inv (omega (arith, small)) in
      fetch-map info (s.event_handlers (index event)) id
      ∙ ap (with_info info) (v.agrees (index event) id)

  -- After any operations, fewer than 2^64, the callback calls exactly the handlers that the book has
  -- for the event that the C library reports, with what it reports, and nobody for one that is not
  -- in the mapping.
  pub fetch-event_callback :
      {E : Type 0} (ops : List (Op H)) (last : LastError E) (session_event : SessionEvent)
      (text : List ℕ) (correlation user id : ℕ)
      → length ops < 2 ^ 64
      → fetch
          (event_callback last session_event text correlation user (run ops new_ccsmp_events))
          id
        ≡ elim (session_event_mapping session_event) [
          | none ↦ none
          | some event ↦
              with_info
                (record {
                  error = if last.is_ok then none else some last.native;
                  info_string = text;
                  correlation_p = correlation;
                  user_p = user;
                })
                (at_event (index event) (book_of ops id))
        ]
  unfolding event_callback
  fetch-event_callback ops last session_event text correlation user id small =
      elim (Option-cases (session_event_mapping session_event)) [
        | inl none' ↦ rw none' (unfold fetch in refl)
        | inr (event, e) ↦ rw e (fetch-emit_event ops event _ id small)
      ]
