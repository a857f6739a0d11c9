-- ===== src/Receiver/Persistent/Restart.antt =====
-- A consumer that takes what is left starts the flow of a persistent receiver again.
use pubsubplus_go_client.Prelude.{ℕ, zero, suc, true, List, [], ◌∷◌}
use pubsubplus_go_client.Receiver.Persistent.{
  Persistent, Op, after_take, take, continues_consumer, receives,
}

module _ {M : Type 0} where
  -- The consumer takes n messages, each with the steps that follow its receive; no call fails.
  unfoldable pub rounds : ℕ → List (Op M)
  rounds zero = []
  rounds (suc n) =
      receives
      ∷ continues_consumer true
      ∷ continues_consumer true
      ∷ continues_consumer true
      ∷ continues_consumer true
      ∷ rounds n

  -- A round of the consumer.
  abbrev round : Persistent M → Persistent M
  round s =
      let s0 = (take s.consumer s.buffer s).0 in
      let s1 = after_take s0.consumer true s0 in
      let s2 = after_take s1.consumer true s1 in
      let s3 = after_take s2.consumer true s2 in after_take s3.consumer true s3
