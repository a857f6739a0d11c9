-- ===== src/Core/Requestor.antt =====
-- internal/impl/core/publisher.go: reply topics and the registry of reply handlers, with its lock
-- `rxLock`. Between two operations the lock can be held by readers only, `readers` of them. The
-- calls into the C library are arguments, which give `none` or an error.
pub mod Topics
pub mod Lock
use pubsubplus_go_client.Prelude.{
  ℕ, zero, suc, ◌+◌, ◌-◌, ◌*◌, ◌/◌, ◌%◌, ◌^◌, Bool, true, false, ◌&&◌, List, [], ◌∷◌, ◌++◌, Option,
  none, some, ltb, leb, ◌==◌, if◌then◌else◌, map,
}
use pubsubplus_go_client.Prelude.Dict.{Dict, fetch, assign, discard}
use pubsubplus_go_client.Core.Acknowledgements.{next_u64}

abbrev pub Bytes : Type 0
Bytes = List ℕ

-- `fmt.Sprintf("%016X", id)` of a uint64: sixteen digits, the highest first.
abbrev pub hex_digit : ℕ → ℕ
hex_digit d = if ltb d 10 then b'0' + d else b'A' + (d - 10)

unfoldable pub hex_digits : ℕ → ℕ → Bytes
hex_digits zero n = []
hex_digits (suc k) n = hex_digits k (n / 16) ++ (hex_digit (n % 16) ∷ [])

abbrev pub hex16 : ℕ → Bytes
hex16 n = hex_digits 16 n

-- `strconv.ParseUint(s, 16, 64)`
abbrev pub hex_value : ℕ → Option ℕ
hex_value c =
    if leb b'0' c && leb c b'9'
    then some (c - b'0')
    else if leb b'a' c && leb c b'f'
    then some (c - b'a' + 10)
    else if leb b'A' c && leb c b'F'
    then some (c - b'A' + 10)
    else none

abbrev pub shift_in : ℕ → Option ℕ → Option ℕ
shift_in n none = none
shift_in n (some d) = if ltb (n * 16 + d) (2 ^ 64) then some (n * 16 + d) else none

unfoldable pub hex_loop : Bytes → Option ℕ → Option ℕ
hex_loop [] n = n
hex_loop (c ∷ s) none = none
hex_loop (c ∷ s) (some n) = hex_loop s (shift_in n (hex_value c))

unfoldable pub parse_hex : Bytes → Option ℕ
unfolding hex_loop
parse_hex [] = none
parse_hex (c ∷ s) = hex_loop (c ∷ s) (some 0)

-- The last part of `strings.Split(topic, "/")`; `part` is what stands before in this part.
unfoldable pub last_part : Bytes → Bytes → Bytes
last_part part [] = part
last_part part (c ∷ s) = last_part (if c == b'/' then [] else part ++ (c ∷ [])) s

-- `ccsmpReplyCorrelation`
pub record Entry (H : Type 0) : Type 0 where
  pub handler : H
  pub reply_to_topic : Bytes

pub record Requestor (H : Type 0) : Type 0 where
  pub reply_dispatch_id : ℕ  -- uint64
  pub reply_to_prefix : Bytes
  pub rx_reply_map : Dict (Entry H)
  pub readers : ℕ

-- What a call of an operation comes to. `blocked` is a call that waits for the write lock.
pub data Outcome (H E : Type 0) : Type 0 where
  blocked : Outcome H E
  failed : E → Outcome H E
  added : Bytes → Outcome H E
  removed : Outcome H E
  replied : H → Outcome H E
  unhandled : Outcome H E
  terminated : List Bytes → Outcome H E

unfoldable pub create_reply_to_topic : {H : Type 0} → Bytes → Requestor H → Bytes
create_reply_to_topic pub_id s = s.reply_to_prefix ++ pub_id

module _ {H E : Type 0} where
  abbrev subscribed : Requestor H → ℕ → Bytes → Option E → Requestor H × Outcome H E
  subscribed s id topic none = (s, added topic)
  subscribed s id topic (some e) = (record s { rx_reply_map = discard s.rx_reply_map id }, failed e)

  -- The topic of a handler is the prefix with the handler's id in hexadecimal. The id is also the
  -- user pointer by which a reply finds its handler.
  unfoldable pub add_requestor_reply_handler :
      (Bytes → ℕ → Option E) → H → Requestor H → Requestor H × Outcome H E
  add_requestor_reply_handler subscribe h s =
      let id = next_u64 s.reply_dispatch_id in
      let topic = s.reply_to_prefix ++ hex16 id in
      let s' = record s { reply_dispatch_id = id } in
      let entry : Entry H = record { handler = h; reply_to_topic = topic } in
      if s.readers == 0
      then subscribed (record s' { rx_reply_map = assign s.rx_reply_map id entry }) id topic
          (subscribe topic id)
      else (s', blocked)

  abbrev unsubscribed : Requestor H → ℕ → Option E → Requestor H × Outcome H E
  unsubscribed s id none =
      if s.readers == 0
      then (record s { rx_reply_map = discard s.rx_reply_map id }, removed)
      else (s, blocked)
  unsubscribed s id (some e) = (s, failed e)

  abbrev parsed :
      (Bytes → ℕ → Option E) → Bytes → Requestor H → Option ℕ → Requestor H × Outcome H E
  parsed unsubscribe topic s none = (s, removed)
  parsed unsubscribe topic s (some id) = unsubscribed s id (unsubscribe topic id)

  -- A topic whose last part is no number is ignored, and nil is returned.
  unfoldable pub remove_requestor_reply_handler :
      (Bytes → ℕ → Option E) → Bytes → Requestor H → Requestor H × Outcome H E
  remove_requestor_reply_handler unsubscribe topic s =
      parsed unsubscribe topic s (parse_hex (last_part [] topic))

  abbrev handed : Requestor H → Option (Entry H) → Requestor H × Outcome H E
  handed s none = (record s { readers = s.readers + 1 }, unhandled)
  handed s (some entry) = (s, replied entry.handler)

  -- `onReplyMessage`: the read lock is taken, and given back where a handler is found. Where none is,
  -- the function returns with the lock held.
  unfoldable pub on_reply_message : ℕ → Requestor H → Requestor H × Outcome H E
  on_reply_message user_p s = handed s (fetch s.rx_reply_map user_p)

  -- `terminateRequestor`: the topics that it unsubscribes from.
  unfoldable pub terminate_requestor : Requestor H → Requestor H × Outcome H E
  terminate_requestor s =
      if s.readers == 0
      then (
        record s { rx_reply_map = [] },
        terminated (map (λ e. e.1.reply_to_topic) s.rx_reply_map),
      )
      else (s, blocked)
