-- ===== src/Receiver/Direct/Indication.antt =====
-- The discard indications of the messages that a receiver with drop latest pushes.
use pubsubplus_go_client.Prelude.{
  ℕ, ◌≡◌, refl, Bool, true, false, not, List, [], ◌∷◌, Option, none, some, length, arith, ltb,
  Bool-cases, inl, inr,
}
use pubsubplus_go_client.Receiver.Direct.{
  Direct, Event, Strategy, Callback, idle, pushing, pushed, dropped, construct, step, run,
  message_callback, receive_message, hand_on, Op, calls_back, continues, receives, hands_on, ends,
  closes, continued, arrive_when, take, mark,
}

module _ {M : Type 0} where
  -- Whether a message was dropped since the last push.
  abbrev pub dropped_since : Bool → Event M → Bool
  dropped_since b (pushed m f) = false
  dropped_since b (dropped m) = true
  dropped_since b _ = b

  abbrev pub IsIndicated : Bool → Event M → Type 0
  IsIndicated b (pushed m f) = f ≡ b
  IsIndicated b _ = Unit

  -- Each push along the events, from a time when `b` says whether a message was dropped before.
  abbrev pub AllIndicated : Bool → List (Event M) → Type 0
  AllIndicated b [] = Unit
  AllIndicated b (e ∷ es) = IsIndicated b e × AllIndicated (dropped_since b e) es

  -- The flag that the next push is to carry.
  abbrev owed : Callback M → Bool → Bool
  owed (pushing m f) is_discard = f
  owed _ is_discard = is_discard

  abbrev is_first : Callback M → Bool
  is_first idle = true
  is_first (pushing m f) = true
  is_first _ = false

  -- A push that carries the flag has cleared it.
  abbrev is_cleared : Callback M → Bool → Bool
  is_cleared (pushing m f) is_discard = not is_discard
  is_cleared _ is_discard = true

  record Inv (b : Bool) (s : Direct M) : Type 0 where
    latest : s.strategy ≡ Strategy.drop_latest
    first : is_first s.callback ≡ true
    cleared : is_cleared s.callback s.is_discard ≡ true
    owes : s.buffer_closed ≡ false → owed s.callback s.is_discard ≡ b

  record Kept (b : Bool) (r : Direct M × Event M) : Type 0 where
    inv : Inv (dropped_since b r.1) r.0
    indicated : IsIndicated b r.1

  continued-Kept :
      (c : Callback M) (b : Bool) (s : Direct M) → s.callback ≡ c → Inv b s → Kept b (continued c s)
  continued-Kept idle b s hc v = ground arith
  continued-Kept (pushing m f) b s hc v = elim (Bool-cases s.buffer_closed) [
    | inl closed ↦ rw closed (ground arith)
    | inr open' ↦ elim (Bool-cases (ltb (length s.buffer) s.buffer_size)) [
      | inl room ↦ rw (open', room) (ground arith)
      | inr none' ↦ let l = v.latest in rw (open', none', l) (ground arith)
    ]
  ]
  continued-Kept _ b s hc v = ground arith

  called-Kept :
      (c : Callback M) (b : Bool) (m : M) (s : Direct M)
      → s.callback ≡ c
      → Inv b s
      → Kept b (arrive_when c m s)
  called-Kept idle b m s hc v = let l = v.latest in rw l (ground arith)
  called-Kept _ b m s hc v = ground arith

  take-Kept :
      (t : Option (M × Bool)) (items : List (M × Bool)) (b : Bool) (s : Direct M)
      → Inv b s
      → Kept b (take t items s)
  take-Kept none [] b s v = ground arith
  take-Kept none (p ∷ rest) b s v = ground arith
  take-Kept (some p) items b s v = ground arith

  mark-Kept :
      (k : Strategy) (t : Option (M × Bool)) (b : Bool) (s : Direct M)
      → s.strategy ≡ k
      → Inv b s
      → Kept b (mark k t s)
  mark-Kept k none b s hk v = ground arith
  mark-Kept Strategy.drop_oldest (some (m, f)) b s hk v = ground arith
  mark-Kept Strategy.drop_latest (some (m, f)) b s hk v = ground arith

  step-Kept : (op : Op M) (b : Bool) (s : Direct M) → Inv b s → Kept b (step op s)
  unfolding step message_callback receive_message hand_on
  step-Kept (calls_back m) b s v = called-Kept s.callback b m s refl v
  step-Kept continues b s v = continued-Kept s.callback b s refl v
  step-Kept receives b s v = take-Kept s.taken s.buffer b s v
  step-Kept hands_on b s v = mark-Kept s.strategy s.taken b s refl v
  step-Kept ends b s v = ground arith
  step-Kept closes b s v = ground arith

  run-AllIndicated :
      (ops : List (Op M)) (b : Bool) (s : Direct M) → Inv b s → AllIndicated b (run ops s).1
  unfolding run
  run-AllIndicated [] b s v = tt
  run-AllIndicated (op ∷ ops) b s v =
      let k = step-Kept op b s v in (k.indicated, run-AllIndicated ops _ (step op s).0 k.inv)

  -- With drop latest, over any schedule, a message is pushed with the discard indication exactly if a
  -- message was dropped since the push before it, or since the start.
  pub run_indicates :
      (n : ℕ) (ops : List (Op M))
      → AllIndicated false (run ops (construct Strategy.drop_latest n)).1
  unfolding construct
  run_indicates n ops = run-AllIndicated ops false (construct Strategy.drop_latest n) (ground arith)
