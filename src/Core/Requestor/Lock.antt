-- ===== src/Core/Requestor/Lock.antt =====
-- The lock `rxLock` over any sequence of operations: a reply with no handler leaves it held.
use pubsubplus_go_client.Prelude.{ℕ, ◌≤◌, ◌<◌, ◌≡◌, List, [], ◌∷◌, Option, none, some, arith}
use pubsubplus_go_client.Prelude.Dict.{fetch, fetch-assign}
use pubsubplus_go_client.Core.Acknowledgements.{next_u64}
use pubsubplus_go_client.Core.Requestor.Topics.{entry_of, add_accepted}
use pubsubplus_go_client.Core.Requestor.{
  Bytes, Requestor, Outcome, blocked, replied, parse_hex, last_part, add_requestor_reply_handler,
  remove_requestor_reply_handler, on_reply_message, terminate_requestor,
}

-- A call of an operation, with the C library's answer to it where it asks for one.
pub data Call (H E : Type 0) : Type 0 where
  add : (Bytes → ℕ → Option E) → H → Call H E
  remove : (Bytes → ℕ → Option E) → Bytes → Call H E
  reply : ℕ → Call H E
  terminate : Call H E

module _ {H E : Type 0} where
  unfoldable pub perform : Call H E → Requestor H → Requestor H × Outcome H E
  perform (add subscribe h) s = add_requestor_reply_handler subscribe h s
  perform (remove unsubscribe topic) s = remove_requestor_reply_handler unsubscribe topic s
  perform (reply user_p) s = on_reply_message user_p s
  perform terminate s = terminate_requestor s

  unfoldable pub run : List (Call H E) → Requestor H → Requestor H
  unfolding perform
  run [] s = s
  run (c ∷ cs) s = run cs (perform c s).0

  readers-perform : (c : Call H E) (s : Requestor H) → s.readers ≤ (perform c s).0.readers
  unfolding perform add_requestor_reply_handler remove_requestor_reply_handler on_reply_message
      terminate_requestor
  readers-perform (add subscribe h) s = ground arith
  readers-perform (remove unsubscribe topic) s = ground arith
  readers-perform (reply user_p) s = ground arith
  readers-perform terminate s = ground arith

  readers-run : (cs : List (Call H E)) (s : Requestor H) → s.readers ≤ (run cs s).readers
  unfolding run
  readers-run [] s = omega arith
  readers-run (c ∷ cs) s = omega (arith, readers-perform c s, readers-run cs (perform c s).0)

  -- After a reply whose user pointer has no handler, and any calls after it, the write lock is never
  -- free again: adding a handler blocks, removing one whose topic the broker lets go blocks, and so
  -- does termination.
  pub blocked-run :
      (user_p : ℕ) (s : Requestor H) (cs : List (Call H E))
      (subscribe unsubscribe : Bytes → ℕ → Option E) (h : H) (topic : Bytes) (id : ℕ)
      → fetch s.rx_reply_map user_p ≡ none
      → parse_hex (last_part [] topic) ≡ some id
      → unsubscribe topic id ≡ none
      → let s' = run cs (perform (reply user_p) s).0 in
        ((perform (add subscribe h) s').1 ≡ blocked)
        × ((perform (remove unsubscribe topic) s').1 ≡ blocked)
        × ((perform terminate s').1 ≡ blocked)
  unfolding perform add_requestor_reply_handler remove_requestor_reply_handler on_reply_message
      terminate_requestor
  blocked-run user_p s cs subscribe unsubscribe h topic id unknown parse gone =
      let s' : Requestor H = run cs (perform (reply user_p) s).0 in
      let held : 0 < s'.readers = ground (arith, readers-run cs (perform (reply user_p) s).0) in
      (ground arith, ground arith, ground arith)

  -- A reply to a handler that was added with the lock free and the broker's consent is handed to it,
  -- and leaves the registry as it is, lock included.
  reply-add :
      (subscribe : Bytes → ℕ → Option E) (h : H) (s : Requestor H)
      → s.readers ≡ 0
      → ((t : Bytes) (i : ℕ) → subscribe t i ≡ none)
      → let (s', o) = perform (add subscribe h) s in
        perform (reply (next_u64 s.reply_dispatch_id)) s' ≡ (s', replied h)
  unfolding perform on_reply_message
  reply-add subscribe h s free sub = rw (add_accepted subscribe h s free sub) (
      ground (
        arith,
        fetch-assign s.rx_reply_map (next_u64 s.reply_dispatch_id) (next_u64 s.reply_dispatch_id)
            (entry_of h s),
      ))
