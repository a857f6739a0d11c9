-- ===== src/Receiver/Direct/Backpressure.antt =====
-- What the two backpressure strategies do to the messages and to their discard indications.
use pubsubplus_go_client.Prelude.{
  ℕ, ◌≤◌, ◌<◌, ◌≡◌, ◌≢◌, refl, ◌∙◌, Bool, List, [], ◌∷◌, ◌++◌, Option, none, some, length,
  length-append, queue_twice, arith,
}
use mathlib.Core.List.{append-nil}
use pubsubplus_go_client.Receiver.Direct.{
  Direct, Event, Strategy, Callback, idle, pushing, full, removed, repushing, pushed, popped,
  evicted, blocked, construct, step, run, message_callback, receive_message, hand_on, Op,
  calls_back, continues, receives, hands_on, ends, closes, continued, arrive_when, take, mark,
}

module _ {M : Type 0} where
  abbrev pub pushed_of : Event M → List (M × Bool)
  pushed_of (pushed m f) = (m, f) ∷ []
  pushed_of _ = []

  abbrev pub out_of : Event M → List (M × Bool)
  out_of (popped m f) = (m, f) ∷ []
  out_of (evicted m f) = (m, f) ∷ []
  out_of _ = []

  abbrev pub pushed_all : List (Event M) → List (M × Bool)
  pushed_all [] = []
  pushed_all (e ∷ es) = pushed_of e ++ pushed_all es

  abbrev pub out_all : List (Event M) → List (M × Bool)
  out_all [] = []
  out_all (e ∷ es) = out_of e ++ out_all es

  -- Room for the second push.
  abbrev HasRoom : Callback M → ℕ → ℕ → Type 0
  HasRoom (removed m f) used size = used < size
  HasRoom (repushing m f d) used size = used < size
  HasRoom _ used size = Unit

  record Inv (s : Direct M) : Type 0 where
    positive : 0 < s.buffer_size
    within : length s.buffer ≤ s.buffer_size
    room : HasRoom s.callback (length s.buffer) s.buffer_size

  record Kept (s : Direct M) (r : Direct M × Event M) : Type 0 where
    inv : Inv r.0
    size : r.0.buffer_size ≡ s.buffer_size
    order : s.buffer ++ pushed_of r.1 ≡ out_of r.1 ++ r.0.buffer

  continued-Kept :
      (c : Callback M) (k : Strategy) (buffer : List (M × Bool)) (s : Direct M)
      → s.callback ≡ c
      → s.strategy ≡ k
      → s.buffer ≡ buffer
      → Inv s
      → Kept s (continued c s)
  continued-Kept idle k b s hc hk hb v = ground (arith, append-nil s.buffer)
  continued-Kept (pushing m f) k b s hc hk hb v =
      ground (arith, append-nil s.buffer, length-append s.buffer ((m, f) ∷ []))
  continued-Kept (full m f) k [] s hc hk hb v = ground arith
  continued-Kept (full m f) k ((p, q) ∷ rest) s hc hk hb v = ground (arith, append-nil rest)
  continued-Kept (removed m f) k b s hc hk hb v = ground (arith, append-nil s.buffer)
  continued-Kept (repushing m f d) k b s hc hk hb v =
      ground (arith, append-nil s.buffer, length-append s.buffer ((m, f) ∷ []))

  called-Kept :
      (c : Callback M) (k : Strategy) (m : M) (s : Direct M)
      → s.callback ≡ c
      → s.strategy ≡ k
      → Inv s
      → Kept s (arrive_when c m s)
  called-Kept idle Strategy.drop_oldest m s hc hk v = ground (arith, append-nil s.buffer)
  called-Kept idle Strategy.drop_latest m s hc hk v = ground (arith, append-nil s.buffer)
  called-Kept _ k m s hc hk v = ground (arith, append-nil s.buffer)

  take-Kept :
      (t : Option (M × Bool)) (b : List (M × Bool)) (c : Callback M) (s : Direct M)
      → s.buffer ≡ b
      → s.callback ≡ c
      → Inv s
      → Kept s (take t b s)
  take-Kept none [] c s hb hc v = ground (arith, append-nil s.buffer)
  take-Kept (some p) b c s hb hc v = ground (arith, append-nil s.buffer)
  take-Kept none ((p, q) ∷ rest) (removed m f) s hb hc v = ground (arith, append-nil rest)
  take-Kept none ((p, q) ∷ rest) (repushing m f d) s hb hc v = ground (arith, append-nil rest)
  take-Kept none ((p, q) ∷ rest) _ s hb hc v = ground (arith, append-nil rest)

  mark-Kept : (k : Strategy) (t : Option (M × Bool)) (s : Direct M) → Inv s → Kept s (mark k t s)
  mark-Kept k none s v = ground (arith, append-nil s.buffer)
  mark-Kept Strategy.drop_oldest (some (m, f)) s v = ground (arith, append-nil s.buffer)
  mark-Kept Strategy.drop_latest (some (m, f)) s v = ground (arith, append-nil s.buffer)

  step-Kept : (op : Op M) (s : Direct M) → Inv s → Kept s (step op s)
  unfolding step message_callback receive_message hand_on
  step-Kept (calls_back m) s v = called-Kept s.callback s.strategy m s refl refl v
  step-Kept continues s v = continued-Kept s.callback s.strategy s.buffer s refl refl refl v
  step-Kept receives s v = take-Kept s.taken s.buffer s.callback s refl refl v
  step-Kept hands_on s v = mark-Kept s.strategy s.taken s v
  step-Kept ends s v = ground (arith, append-nil s.buffer)
  step-Kept closes s v = ground (arith, append-nil s.buffer)

  run-Kept :
      (ops : List (Op M)) (s : Direct M)
      → Inv s
      → let (s', events) = run ops s in
        Inv s'
        × (s'.buffer_size ≡ s.buffer_size)
        × (s.buffer ++ pushed_all events ≡ out_all events ++ s'.buffer)
  unfolding run
  run-Kept [] s v = (v, refl, append-nil s.buffer)
  run-Kept (op ∷ ops) s v =
      let k = step-Kept op s v in
      let (inv, size, order) = run-Kept ops (step op s).0 k.inv in
      (
        inv,
        size ∙ k.size,
        queue_twice s.buffer (pushed_of (step op s).1) _ (out_of (step op s).1) (step op s).0.buffer
            _ _ k.order order,
      )

  going :
      (c : Callback M) (k : Strategy) (b : List (M × Bool)) (s : Direct M)
      → s.callback ≡ c
      → s.strategy ≡ k
      → s.buffer ≡ b
      → Inv s
      → s.callback ≢ idle
      → (step continues s).1 ≢ blocked
  unfolding step message_callback
  going idle k b s hc hk hb v ne = absurd (ne hc)
  going (pushing m f) Strategy.drop_oldest b s hc hk hb v ne = ground arith
  going (pushing m f) Strategy.drop_latest b s hc hk hb v ne = ground arith
  going (full m f) k [] s hc hk hb v ne = ground arith
  going (full m f) k (p ∷ rest) s hc hk hb v ne = ground arith
  going (removed m f) k b s hc hk hb v ne = ground arith
  going (repushing m f d) k b s hc hk hb v ne = ground arith

  construct-Inv : (k : Strategy) (n : ℕ) → 0 < n → Inv (construct k n)
  unfolding construct
  construct-Inv k n h = ground arith

  -- With a buffer of some size, over any schedule of the callback, the consumer and a termination:
  -- the messages that were pushed come out of the buffer in their order, to the consumer or because
  -- they are the oldest, or are in it, and it never holds more than its size.
  pub run_fifo_bounded :
      (k : Strategy) (n : ℕ) (ops : List (Op M))
      → 0 < n
      → let (s, events) = run ops (construct k n) in
        (pushed_all events ≡ out_all events ++ s.buffer) × (length s.buffer ≤ n)
  unfolding construct
  run_fifo_bounded k n ops h =
      let (inv, size, order) = run-Kept ops (construct k n) (construct-Inv k n h) in
      let bound = inv.within in (order, omega (arith, size, bound))

  -- The callback then never waits: each of its steps goes through, the second push included.
  pub continues-goes_on :
      (k : Strategy) (n : ℕ) (ops : List (Op M))
      → 0 < n
      → let s = (run ops (construct k n)).0 in s.callback ≢ idle → (step continues s).1 ≢ blocked
  continues-goes_on k n ops h =
      let s : Direct M = (run ops (construct k n)).0 in
      let (inv, size, order) = run-Kept ops (construct k n) (construct-Inv k n h) in
      going s.callback s.strategy s.buffer s refl refl refl inv
