-- ===== src/Core/Acknowledgements.antt =====
-- internal/impl/core/publisher.go: the registry of acknowledgement handlers, and the dispatch of an
-- acknowledgement from the broker to the handler of the publisher that sent the message.
pub mod Delivery
use pubsubplus_go_client.Prelude.{ℕ, ◌+◌, ◌%◌, ◌^◌, Bool, List, [], ◌∷◌, Option, none, some}
use pubsubplus_go_client.Prelude.Dict.{Dict, fetch, assign, discard}
use pubsubplus_go_client.Core.Correlation.{Bytes, to_correlation_tag, from_correlation_tag}

-- `acknowledgementHandlerID` and `acknowledgementMap`; `H` is the type of the handlers.
pub record Registry (H : Type 0) : Type 0 where
  pub handler_id : ℕ  -- uint64
  pub handlers : Dict H

-- `atomic.AddUint64(&x, 1)`
abbrev pub next_u64 : ℕ → ℕ
next_u64 n = (n + 1) % 2 ^ 64

-- The closure that `AddAcknowledgementHandler` returns, over its variable `messageID`.
pub record TagSource : Type 0 where
  pub pub_id : ℕ
  pub message_id : ℕ  -- uint64

-- One call of the closure: the new state, the message id and the tag.
unfoldable pub next_tag : TagSource → TagSource × ℕ × Bytes
next_tag t =
    let next = next_u64 t.message_id in
    (record t { message_id = next }, next, to_correlation_tag t.pub_id next)

-- A call `callback(msgID, persisted, err)`.
pub record Call (H E : Type 0) : Type 0 where
  pub handler : H
  pub message_id : ℕ
  pub persisted : Bool
  pub error : Option E

module _ {H : Type 0} where
  unfoldable pub add_acknowledgement_handler : H → Registry H → Registry H × ℕ × TagSource
  add_acknowledgement_handler h s =
      let pub_id = next_u64 s.handler_id in
      (
        record s { handler_id = pub_id; handlers = assign s.handlers pub_id h },
        pub_id,
        record { pub_id = pub_id; message_id = 0 },
      )

  unfoldable pub remove_acknowledgement_handler : ℕ → Registry H → Registry H
  remove_acknowledgement_handler pub_id s = record s { handlers = discard s.handlers pub_id }

  abbrev called : {E : Type 0} → Option H → ℕ → Bool → Option E → Option (Call H E)
  called none m persisted e = none
  called (some h) m persisted e =
      some (record { handler = h; message_id = m; persisted = persisted; error = e })

  abbrev dispatched :
      {E : Type 0} → Registry H → Option (ℕ × ℕ) → Bool → Option E → Option (Call H E)
  dispatched s none persisted e = none
  dispatched s (some (pub_id, m)) persisted e = called (fetch s.handlers pub_id) m persisted e

  -- `onAcknowledgement`: the handler call that it makes, if any. The correlation pointer is `none`,
  -- or points to the bytes of a tag.
  unfoldable pub on_acknowledgement :
      {E : Type 0} → Registry H → Option Bytes → Bool → Option E → Option (Call H E)
  on_acknowledgement s none persisted e = none
  on_acknowledgement s (some bytes) persisted e =
      dispatched s (from_correlation_tag bytes) persisted e

-- What any publishers of the session do to the registry.
pub data Op (H : Type 0) : Type 0 where
  add : H → Op H
  remove : ℕ → Op H

module _ {H : Type 0} where
  unfoldable pub apply : Op H → Registry H → Registry H
  apply (add h) s = (add_acknowledgement_handler h s).0
  apply (remove i) s = remove_acknowledgement_handler i s

  unfoldable pub run : List (Op H) → Registry H → Registry H
  run [] s = s
  run (op ∷ ops) s = run ops (apply op s)
