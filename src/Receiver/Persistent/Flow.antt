-- ===== src/Receiver/Persistent/Flow.antt =====
-- The flow of a persistent receiver is never left stopped with nothing to start it again.
use pubsubplus_go_client.Prelude.{
  ℕ, ◌<◌, ◌≡◌, refl, Bool, true, false, ◌||◌, List, [], ◌∷◌, ◌++◌, length, All, arith,
}
use pubsubplus_go_client.Receiver.Persistent.{
  FlowState, stopped, terminating, is_stopped, swap, call, restore, Callback, Consumer, Persistent,
  construct, step, run, Op, message_callback, continue_callback, receive, continue_consumer,
  after_push, after_take, arrive, take, calls_back, continues_callback, continues_consumer,
  receives, ends, stores_terminating, stops, closes,
}

-- A side that is going to look at the buffer and to start the flow if there is nothing left in it.
abbrev pub looks_after : Callback → Bool
looks_after Callback.rechecking = true
looks_after Callback.confirming = true
looks_after (Callback.starts swap) = true
looks_after _ = false

abbrev pub takes_care : Consumer → Bool
takes_care Consumer.taken = true
takes_care Consumer.confirming = true
takes_care (Consumer.starts swap) = true
takes_care _ = false

-- A side between the call that stops the flow and the store, or before the call that starts it.
abbrev pub is_marking : Callback → Bool
is_marking Callback.marking = true
is_marking (Callback.starts call) = true
is_marking _ = false

abbrev pub is_calling : Consumer → Bool
is_calling (Consumer.starts call) = true
is_calling _ = false

-- No side is past a call of Start that failed.
abbrev pub is_restoring : Callback → Consumer → Bool
is_restoring (Callback.starts restore) k = true
is_restoring c (Consumer.starts restore) = true
is_restoring c k = false

module _ {M : Type 0} where
  abbrev is_empty : List M → Bool
  is_empty [] = true
  is_empty (m ∷ rest) = false

  record Inv (s : Persistent M) : Type 0 where
    low : 0 < s.lowwater
    unfailed : is_restoring s.callback s.consumer ≡ false
    watched :
        s.ending ≡ false
        → s.flow_stopped ≡ stopped
        → is_empty s.buffer ≡ true
        → (looks_after s.callback || takes_care s.consumer) ≡ true
    marked :
        s.ending ≡ false
        → s.is_running ≡ false
        → (is_stopped s.flow_stopped || is_marking s.callback || is_calling s.consumer) ≡ true
    unterminated : s.ending ≡ false → s.flow_stopped ≡ terminating → ⊥

  -- No call of Start or Stop fails.
  abbrev pub Succeeds : Op M → Type 0
  Succeeds (continues_callback ok) = ok ≡ true
  Succeeds (continues_consumer ok) = ok ≡ true
  Succeeds _ = Unit

  after_push-Inv :
      (c : Callback) (k : Consumer) (b : List M) (f : FlowState) (s : Persistent M)
      → s.callback ≡ c
      → s.consumer ≡ k
      → s.buffer ≡ b
      → s.flow_stopped ≡ f
      → Inv s
      → Inv (after_push c true s)
  after_push-Inv Callback.idle k b f s hc hk hb hf v = v
  after_push-Inv (Callback.starts p) (Consumer.starts q) b stopped s hc hk hb hf v = ground arith
  after_push-Inv (Callback.starts p) (Consumer.starts q) b f s hc hk hb hf v = ground arith
  after_push-Inv Callback.rechecking k [] f s hc hk hb hf v = ground arith
  after_push-Inv Callback.rechecking k (m ∷ rest) f s hc hk hb hf v = ground arith
  after_push-Inv _ k b f s hc hk hb hf v = ground arith

  after_take-Inv :
      (k : Consumer) (c : Callback) (b : List M) (f : FlowState) (s : Persistent M)
      → s.consumer ≡ k
      → s.callback ≡ c
      → s.buffer ≡ b
      → s.flow_stopped ≡ f
      → Inv s
      → Inv (after_take k true s)
  after_take-Inv Consumer.idle c b f s hk hc hb hf v = v
  after_take-Inv (Consumer.starts p) (Callback.starts q) b f s hk hc hb hf v = ground arith
  after_take-Inv (Consumer.starts p) c b f s hk hc hb hf v = ground arith
  after_take-Inv Consumer.taken c [] f s hk hc hb hf v = ground arith
  after_take-Inv Consumer.taken c (m ∷ rest) f s hk hc hb hf v = ground arith
  after_take-Inv _ c b f s hk hc hb hf v = ground arith

  is_empty-append : (b : List M) (m : M) → is_empty (b ++ (m ∷ [])) ≡ false
  is_empty-append [] m = refl
  is_empty-append (x ∷ b) m = refl

  arrive-Inv :
      (c : Callback) (m : M) (s : Persistent M) → s.callback ≡ c → Inv s → Inv (arrive c m s).0
  arrive-Inv Callback.idle m s hc v = ground (arith, is_empty-append s.buffer m)
  arrive-Inv _ m s hc v = v

  take-Inv :
      (k : Consumer) (b : List M) (s : Persistent M)
      → s.consumer ≡ k
      → s.buffer ≡ b
      → Inv s
      → Inv (take k b s).0
  take-Inv Consumer.idle [] s hk hb v = v
  take-Inv Consumer.idle (m ∷ rest) s hk hb v = ground arith
  take-Inv _ b s hk hb v = v

  step-Inv : (op : Op M) (s : Persistent M) → Succeeds op → Inv s → Inv (step op s).0
  unfolding step message_callback continue_callback receive continue_consumer
  step-Inv (calls_back m) s ok v = arrive-Inv s.callback m s refl v
  step-Inv (continues_callback r) s ok v =
      rw ok (after_push-Inv s.callback s.consumer s.buffer s.flow_stopped s refl refl refl refl v)
  step-Inv (continues_consumer r) s ok v =
      rw ok (after_take-Inv s.consumer s.callback s.buffer s.flow_stopped s refl refl refl refl v)
  step-Inv receives s ok v = take-Inv s.consumer s.buffer s refl refl v
  step-Inv ends s ok v = ground arith
  step-Inv stores_terminating s ok v = ground arith
  step-Inv stops s ok v = ground arith
  step-Inv closes s ok v = ground arith

  run-Inv : (ops : List (Op M)) (s : Persistent M) → All Succeeds ops → Inv s → Inv (run ops s).0
  unfolding run
  run-Inv [] s ok v = v
  run-Inv (op ∷ ops) s ok v = run-Inv ops (step op s).0 ok.1 (step-Inv op s ok.0 v)

  nonempty :
      (f : FlowState) (b : List M) (s : Persistent M)
      → s.flow_stopped ≡ f
      → s.buffer ≡ b
      → Inv s
      → s.ending ≡ false
      → s.callback ≡ Callback.idle
      → s.consumer ≡ Consumer.idle
      → s.is_running ≡ false
      → 0 < length s.buffer
  nonempty f [] s hf hb v going hc hk off = ground arith
  nonempty f (m ∷ rest) s hf hb v going hc hk off = ground arith

  marked-stopped :
      (f : FlowState) (s : Persistent M)
      → s.flow_stopped ≡ f
      → Inv s
      → s.ending ≡ false
      → s.callback ≡ Callback.idle
      → s.consumer ≡ Consumer.idle
      → s.is_running ≡ false
      → s.flow_stopped ≡ stopped
  marked-stopped stopped s hf v going hc hk off = hf
  marked-stopped FlowState.flowing s hf v going hc hk off =
      let m = v.marked going off in absurd (ground arith)
  marked-stopped terminating s hf v going hc hk off = absurd (v.unterminated going hf)

  -- Over any schedule in which no call of Start or Stop fails, of a receiver with a low mark above 0:
  -- before the termination, at a time when neither side is in the midst of its steps, a flow that the
  -- receiver has stopped leaves a message in the buffer, and the receiver knows that it is stopped.
  pub run-leaves_message :
      (high low : ℕ) (ops : List (Op M))
      → 0 < low
      → All Succeeds ops
      → let s = (run ops (construct high low)).0 in
        s.ending ≡ false
        → s.callback ≡ Callback.idle
        → s.consumer ≡ Consumer.idle
        → s.is_running ≡ false
        → (0 < length s.buffer) × (s.flow_stopped ≡ stopped)
  unfolding construct
  run-leaves_message high low ops positive ok going hc hk off =
      let s : Persistent M = (run ops (construct high low)).0 in
      let v = run-Inv ops (construct high low) ok (ground arith) in
      (
        nonempty s.flow_stopped s.buffer s refl refl v going hc hk off,
        marked-stopped s.flow_stopped s refl v going hc hk off,
      )
