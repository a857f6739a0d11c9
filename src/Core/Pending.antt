-- ===== src/Core/Pending.antt =====
-- internal/impl/core/receiver.go: the requests to the broker that wait for an answer, each under an id
-- of its own with a channel of one place. endpoint_provisioner.go keeps such a table too.
--
-- A step is one atomic access or one stretch under the lock of the map. A channel is known by the id
-- that it was made with; `E` is the type of errors.
pub mod Answers
pub mod Requests
pub mod Silence
mod Tests
use pubsubplus_go_client.Prelude.{
  ℕ, ◌+◌, ◌%◌, ◌^◌, Bool, true, false, List, [], ◌∷◌, ◌++◌, Option, none, some, ◌==◌, if◌then◌else◌,
}
use pubsubplus_go_client.Prelude.Dict.{Dict, fetch, assign, discard}
use pubsubplus_go_client.Prelude.Family.{put}

-- `subscriptionEvent`: the id and the error.
abbrev pub Answer : Type 0 → Type 0
Answer E = ℕ × Option E

-- The ids that a thread has taken and not put into the map stand in `reserved`; what was sent on a
-- channel stands in `channels`.
pub record Pending (E : Type 0) : Type 0 where
  pub correlation : Dict ℕ
  pub correlation_id : ℕ  -- uintptr
  pub reserved : ℕ → Bool
  pub channels : ℕ → List (Answer E)

pub data Op (E : Type 0) : Type 0 where
  reserves : Op E
  stores clears : ℕ → Op E
  resolves : ℕ → Option E → Op E
  interrupts : E → Op E

module _ {E : Type 0} where
  unfoldable pub no_pending : Pending E
  no_pending = record {
    correlation = [];
    correlation_id = 0;
    reserved = λ _. false;
    channels = λ _. [];
  }

  abbrev pub send : ℕ → Answer E → (ℕ → List (Answer E)) → ℕ → List (Answer E)
  send c a channels = put c (channels c ++ (a ∷ [])) channels

  -- `atomic.AddUintptr`
  unfoldable pub reserve : Pending E → Pending E × ℕ
  reserve s =
      let id = (s.correlation_id + 1) % 2 ^ 64 in
      (record s { correlation_id = id; reserved = put id true s.reserved }, id)

  -- The new channel goes into the map.
  unfoldable pub store : ℕ → Pending E → Pending E
  store id s = record s {
    correlation = assign s.correlation id id;
    reserved = put id false s.reserved;
  }

  unfoldable pub new_correlation : Pending E → Pending E × ℕ
  unfolding reserve store
  new_correlation s = let (s', id) = reserve s in (store id s', id)

  unfoldable pub clear : ℕ → Pending E → Pending E
  clear id s = record s { correlation = discard s.correlation id }

  abbrev answered : ℕ → Option E → Option ℕ → Pending E → Pending E
  answered p err none s = s
  answered p err (some c) s = record s {
    correlation = discard s.correlation p;
    channels = send c (p, err) s.channels;
  }

  -- An event with the pointer `p`.
  unfoldable pub resolve : ℕ → Option E → Pending E → Pending E
  resolve p err s = answered p err (fetch s.correlation p) s

  unfoldable pub interrupt_from : E → Dict ℕ → (ℕ → List (Answer E)) → ℕ → List (Answer E)
  interrupt_from e [] channels = channels
  interrupt_from e ((id, c) ∷ d) channels = interrupt_from e d (send c (id, some e) channels)

  -- The loop of a termination, which answers all that wait. Go visits them in any order.
  unfoldable pub interrupt : E → Pending E → Pending E
  unfolding interrupt_from
  interrupt e s = record s {
    correlation = [];
    channels = interrupt_from e s.correlation s.channels;
  }

  -- A request: `native` is the call of the C library with the id.
  abbrev pub requested : Option E → ℕ → Pending E → Pending E × Option E
  requested none id s = (s, none)
  requested (some e) id s = (clear id s, some e)

  unfoldable pub request : (ℕ → Option E) → Pending E → Pending E × (ℕ × Option E)
  unfolding new_correlation clear
  request native s =
      let (s', id) = new_correlation s in
      let (s'', err) = requested (native id) id s' in (s'', (id, err))

  -- A thread stores only an id that it has reserved.
  unfoldable pub step : Op E → Pending E → Pending E
  step reserves s = (reserve s).0
  step (stores id) s = if s.reserved id then store id s else s
  step (clears id) s = clear id s
  step (resolves p err) s = resolve p err s
  step (interrupts e) s = interrupt e s

  unfoldable pub run : List (Op E) → Pending E → Pending E
  run [] s = s
  run (op ∷ ops) s = run ops (step op s)
