-- ===== src/Receiver/Termination/Knowledge.antt =====
-- What each thread of a receiver's termination knows from its place, and that it stays true.
use pubsubplus_go_client.Prelude.{
  ℕ, ◌≤◌, ◌≡◌, Bool, true, not, ◌&&◌, ◌||◌, none, some, ◌==◌, ltb, leb,
}
use pubsubplus_go_client.Receiver.Termination.{
  Shared, Check, Consumer, Dispatch, Terminator, Place, callback, registrar, consumer, dispatch,
  terminator, is_nil,
}

-- Terminate and unsolicitedTermination: the life cycle lets one of them through, once.
abbrev pub ends : Place → ℕ
ends (terminator t) = 1
ends _ = 0

abbrev pub implies : Bool → Bool → Bool
implies a b = not a || b

module _ {M : Type 0} where
  -- Nothing is in the buffer and nothing comes in.
  abbrev pub is_over : Shared M → Bool
  is_over s = s.is_closed && is_nil s.buffer

  -- What holds at any time.
  abbrev pub sound : Shared M → Bool
  sound s =
      implies s.buffer_closed s.is_closed
      && implies s.empty_flag (is_over s)
      && implies (leb 1 s.empty_closes) s.empty_flag

  abbrev pub knows_check : Check → Shared M → Bool
  knows_check Check.loads s = true
  knows_check Check.lengths s = s.is_closed
  knows_check Check.swaps s = is_over s
  knows_check Check.closes s = s.empty_flag

  abbrev pub knows_consumer : Consumer → Shared M → Bool
  knows_consumer (Consumer.checks c) s = knows_check c s
  knows_consumer _ s = true

  abbrev pub knows_dispatch : Dispatch → Shared M → Bool
  knows_dispatch (Dispatch.checks c) s = knows_check c s
  knows_dispatch Dispatch.swaps s = is_over s
  knows_dispatch Dispatch.closes s = s.empty_flag
  knows_dispatch _ s = true

  -- Nothing has been drained so far.
  abbrev pub fresh : Shared M → Bool
  fresh s = s.undelivered == 0

  abbrev pub knows_terminator : Terminator → Shared M → Bool
  knows_terminator Terminator.sends s = fresh s
  knows_terminator Terminator.closes_buffer s = fresh s
  knows_terminator Terminator.stores s = fresh s && s.is_closed
  knows_terminator Terminator.lengths s = fresh s && s.is_closed
  knows_terminator Terminator.swaps s = fresh s && is_over s
  knows_terminator Terminator.closes s = fresh s && s.empty_flag
  knows_terminator Terminator.waits s = fresh s && s.is_closed
  knows_terminator Terminator.notifies s = fresh s && s.is_closed
  knows_terminator Terminator.joins_late s = fresh s && s.is_closed && s.notified
  knows_terminator Terminator.drains s = s.is_closed && s.notified
  knows_terminator Terminator.swaps_late s = is_over s
  knows_terminator Terminator.closes_late s = s.empty_flag
  knows_terminator Terminator.counts s = is_over s
  knows_terminator Terminator.joins_early s = fresh s && is_over s
  knows_terminator Terminator.un_closes s = fresh s
  knows_terminator Terminator.un_stores s = fresh s && s.is_closed
  knows_terminator Terminator.un_sends s = fresh s && s.is_closed
  knows_terminator Terminator.un_notifies s = fresh s && s.is_closed
  knows_terminator (Terminator.finished none) s = fresh s && is_over s
  knows_terminator (Terminator.finished (some n)) s =
      is_over s && n == s.undelivered && ltb 0 n && leb n s.discarded

  abbrev pub knows : Place → Shared M → Bool
  knows callback s = true
  knows (registrar r) s = true
  knows (consumer c) s = knows_consumer c s
  knows (dispatch d) s = knows_dispatch d s
  knows (terminator t) s = knows_terminator t s

  abbrev pub allowed : Shared M → Place → Bool
  allowed s p = sound s && knows p s

  -- What no step takes back. The tally is the terminator's alone.
  pub record Grows (p : Place) (s s' : Shared M) : Type 0 where
    pub sound' : sound s' ≡ true
    pub closed : s.is_closed ≡ true → s'.is_closed ≡ true
    pub over' : is_over s ≡ true → is_over s' ≡ true
    pub flag : s.empty_flag ≡ true → s'.empty_flag ≡ true
    pub told : s.notified ≡ true → s'.notified ≡ true
    pub tally : ends p ≡ 0 → s'.undelivered ≡ s.undelivered
    pub metric : s.discarded ≤ s'.discarded

  -- A step keeps what holds, and the thread knows what its new place says.
  pub record Good (p : Place) (s : Shared M) (r : Shared M × Place) : Type 0 where
    pub grows : Grows p s r.0
    pub knows' : knows r.1 r.0 ≡ true
