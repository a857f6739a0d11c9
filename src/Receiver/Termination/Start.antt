-- ===== src/Receiver/Termination/Start.antt =====
-- Where the threads of a receiver's termination start.
use pubsubplus_go_client.Prelude.{ℕ, ◌<◌, ◌≡◌, refl, true, false, [], none, arith, ◌⊎◌, inl, inr}
use pubsubplus_go_client.Prelude.Family.{sum_below}
use pubsubplus_go_client.Prelude.Interleaving.{System, Inv}
use pubsubplus_go_client.Receiver.Termination.{
  Shared, Consumer, Dispatch, Terminator, Place, callback, registrar, consumer, dispatch,
  terminator, Registrar,
}
use pubsubplus_go_client.Receiver.Termination.Knowledge.{ends, allowed}
use pubsubplus_go_client.Receiver.Termination.Steps.{discipline}

module _ {M : Type 0} where
  -- A receiver that runs, with nothing received so far.
  abbrev pub running : Shared M
  running = record {
    buffer = [];
    is_closed = false;
    buffer_closed = false;
    empty_flag = false;
    empty_closes = 0;
    notified = false;
    complete = false;
    callback_set = none;
    has_callback = false;
    accepted = 0;
    delivered = 0;
    evicted = 0;
    undelivered = 0;
    discarded = 0;
  }

-- Before its first step a thread stands here.
abbrev pub Starts : Place → Type 0
Starts callback = Unit
Starts (registrar r) = r ≡ Registrar.registers
Starts (consumer c) = c ≡ Consumer.receives
Starts (dispatch d) = d ≡ Dispatch.awaits
Starts (terminator t) = (t ≡ Terminator.sends) ⊎ (t ≡ Terminator.un_closes)

module _ (M : Type 0) where
  start-allowed : (p : Place) → Starts p → allowed (running {M = M}) p ≡ true
  start-allowed callback h = refl
  start-allowed (registrar r) h = refl
  start-allowed (consumer c) h = rw h refl
  start-allowed (dispatch d) h = rw h refl
  start-allowed (terminator t) (inl h) = rw h refl
  start-allowed (terminator t) (inr h) = rw h refl

  pub start-Inv :
      (n : ℕ) (places : ℕ → Place)
      → ((t : ℕ) → t < n → Starts (places t))
      → sum_below ends n places ≡ 1
      → Inv (discipline {M = M}) n (record { shared = running; pcs = places })
  start-Inv n places starts one = record {
    one_right = omega (arith, one);
    knows = λ t h. start-allowed (places t) (starts t h);
  }

-- The threads of a receiver: n of them at their starts, of which one terminates it.
pub record Threads (n : ℕ) (places : ℕ → Place) : Type 0 where
  pub start : (t : ℕ) → t < n → Starts (places t)
  pub one_end : sum_below ends n places ≡ 1

abbrev pub at_start : {M : Type 0} → (ℕ → Place) → System (Shared M) Place
at_start places = record { shared = running; pcs = places }
