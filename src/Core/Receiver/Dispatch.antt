-- ===== src/Core/Receiver/Dispatch.antt =====
-- The callback that a message is handed to.
use pubsubplus_go_client.Prelude.{
  ℕ, ◌+◌, ◌%◌, ◌≤◌, ◌<◌, ◌^◌, ◌≡◌, ◌≢◌, refl, Bool, List, [], ◌∷◌, some, arith, length, All, ◌∙◌,
}
use pubsubplus_go_client.Prelude.Dict.{fetch, fetch-assign, fetch-discard}
use pubsubplus_go_client.Core.Receiver.{
  Receiver, rx_callback, register_rx_callback, unregister_rx_callback,
}

pub data Op (C : Type 0) : Type 0 where
  registers : C → Op C
  unregisters : ℕ → Op C

abbrev pub Keeps : {C : Type 0} → ℕ → Op C → Type 0
Keeps ptr (registers c) = Unit
Keeps ptr (unregisters p) = p ≢ ptr

module _ {C E : Type 0} where
  unfoldable pub step : Op C → Receiver C E → Receiver C E
  step (registers c) s = (register_rx_callback c s).0
  step (unregisters ptr) s = unregister_rx_callback ptr s

  unfoldable pub run : List (Op C) → Receiver C E → Receiver C E
  run [] s = s
  run (op ∷ ops) s = run ops (step op s)

  fetch-step :
      (op : Op C) (s : Receiver C E) (ptr : ℕ)
      → ptr ≤ s.dispatch_id
      → s.dispatch_id + 1 < 2 ^ 64
      → Keeps ptr op
      → (fetch (step op s).rx_map ptr ≡ fetch s.rx_map ptr)
        × (s.dispatch_id ≤ (step op s).dispatch_id)
        × ((step op s).dispatch_id ≤ s.dispatch_id + 1)
  unfolding step register_rx_callback unregister_rx_callback
  fetch-step (registers c) s ptr old small keeps =
      let m : (s.dispatch_id + 1) % 2 ^ 64 ≡ s.dispatch_id + 1 = omega arith in
      let f = fetch-assign s.rx_map ((s.dispatch_id + 1) % 2 ^ 64) ptr c in ground arith
  fetch-step (unregisters p) s ptr old small keeps =
      let f = fetch-discard s.rx_map p ptr in ground arith

  fetch-run :
      (ops : List (Op C)) (s : Receiver C E) (ptr : ℕ)
      → ptr ≤ s.dispatch_id
      → length ops + s.dispatch_id < 2 ^ 64
      → All (Keeps ptr) ops
      → fetch (run ops s).rx_map ptr ≡ fetch s.rx_map ptr
  unfolding run
  fetch-run [] s ptr old small keeps = refl
  fetch-run (op ∷ ops) s ptr old small keeps =
      let (same, grows, slowly) = fetch-step op s ptr old (omega arith) keeps.0 in
      fetch-run ops (step op s) ptr (omega arith) (omega arith) keeps.1 ∙ same

  -- A message with the pointer that RegisterRXCallback gave goes to that callback, whatever is
  -- registered and removed in between, as long as the callback itself is not removed and the
  -- pointers do not wrap.
  rx_callback-register :
      {M : Type 0} (call : C → M → Bool) (msg : M) (c : C) (ops : List (Op C)) (s : Receiver C E)
      → length ops + s.dispatch_id + 1 < 2 ^ 64
      → let (s', ptr) = register_rx_callback c s in
        All (Keeps ptr) ops → rx_callback call msg ptr (run ops s') ≡ call c msg
  unfolding rx_callback register_rx_callback
  rx_callback-register call msg c ops s small keeps =
      let id = (s.dispatch_id + 1) % 2 ^ 64 in
      let s' = (register_rx_callback c s).0 in
      let same = fetch-run ops s' id (omega arith) (omega arith) keeps in
      let here : fetch s'.rx_map id ≡ some c = ground (arith, fetch-assign s.rx_map id id c) in
      rw (same, here) refl
