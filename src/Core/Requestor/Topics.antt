-- ===== src/Core/Requestor/Topics.antt =====
-- The id of a reply handler is read back from its topic.
use pubsubplus_go_client.Prelude.{
  ℕ, zero, suc, ◌/◌, ◌%◌, ◌^◌, ◌<◌, ◌≡◌, ◌≢◌, refl, ◌∙◌, sym, [], ◌∷◌, ◌++◌, Option, none, some,
  false, ◌==◌, if◌then◌else◌, arith, All, All-append,
}
use mathlib.Core.List.{append-nil, append_assoc}
use pubsubplus_go_client.Prelude.Dict.{fetch, assign, discard, fetch-assign, fetch-discard}
use pubsubplus_go_client.Core.Acknowledgements.{next_u64}
use pubsubplus_go_client.Core.Requestor.{
  Bytes, hex_digit, hex_digits, hex16, hex_value, shift_in, hex_loop, parse_hex, last_part,
  Requestor, Entry, added, removed, add_requestor_reply_handler, remove_requestor_reply_handler,
}

hex_loop-none : (s : Bytes) → hex_loop s none ≡ none
unfolding hex_loop
hex_loop-none [] = refl
hex_loop-none (c ∷ s) = refl

hex_loop-append : (s t : Bytes) (n : Option ℕ) → hex_loop (s ++ t) n ≡ hex_loop t (hex_loop s n)
unfolding hex_loop
hex_loop-append [] t n = refl
hex_loop-append (c ∷ s) t none = sym (hex_loop-none t)
hex_loop-append (c ∷ s) t (some n) = hex_loop-append s t (shift_in n (hex_value c))

hex_value-hex_digit : (d : ℕ) → d < 16 → hex_value (hex_digit d) ≡ some d
hex_value-hex_digit d h = ground arith

-- `k` hexadecimal digits are enough for `n`.
abbrev Fits : ℕ → ℕ → Type 0
Fits zero n = n ≡ 0
Fits (suc k) n = Fits k (n / 16)

hex_loop-hex_digits :
    (k n : ℕ) → Fits k n → n < 2 ^ 64 → hex_loop (hex_digits k n) (some 0) ≡ some n
unfolding hex_loop hex_digits
hex_loop-hex_digits zero n h small = cc
hex_loop-hex_digits (suc k) n h small =
    rw
      (
        hex_loop-append (hex_digits k (n / 16)) (hex_digit (n % 16) ∷ []) (some 0),
        hex_loop-hex_digits k (n / 16) h (omega arith),
        hex_value-hex_digit (n % 16) (omega arith),
      )
      (ground arith)

abbrev IsPlain : Bytes → Type 0
IsPlain = All (λ c. c ≢ b'/')

hex_digit-ne-slash : (d : ℕ) → d < 16 → hex_digit d ≢ b'/'
hex_digit-ne-slash d h = ground arith

hex_digits-IsPlain : (k n : ℕ) → IsPlain (hex_digits k n)
unfolding hex_digits
hex_digits-IsPlain zero n = tt
hex_digits-IsPlain (suc k) n =
    All-append (λ c. c ≢ b'/') (hex_digits k (n / 16)) _
      (hex_digits-IsPlain k (n / 16), (hex_digit-ne-slash (n % 16) (omega arith), tt))

-- The last part of a text that ends in a plain part.
last_part-append : (part s t : Bytes) → last_part part (s ++ t) ≡ last_part (last_part part s) t
unfolding last_part
last_part-append part [] t = refl
last_part-append part (c ∷ s) t = last_part-append (if c == b'/' then [] else part ++ (c ∷ [])) s t

last_part_plain : (part t : Bytes) → IsPlain t → last_part part t ≡ part ++ t
unfolding last_part
last_part_plain part [] h = sym (append-nil part)
last_part_plain part (c ∷ t) h =
    let e : (c == b'/') ≡ false = ground (arith, h.0) in
    rw (last_part_plain (if c == b'/' then [] else part ++ (c ∷ [])) t h.1)
      (rw e (append_assoc part (c ∷ []) t))

parse_hex-append :
    (s : Bytes) (c : ℕ) → parse_hex (s ++ (c ∷ [])) ≡ hex_loop (s ++ (c ∷ [])) (some 0)
unfolding parse_hex
parse_hex-append [] c = refl
parse_hex-append (d ∷ s) c = refl

parse_hex-hex_digits :
    (k n : ℕ) → parse_hex (hex_digits (suc k) n) ≡ hex_loop (hex_digits (suc k) n) (some 0)
unfolding hex_digits
parse_hex-hex_digits k n = parse_hex-append (hex_digits k (n / 16)) (hex_digit (n % 16))

parse_hex-hex16 : (id : ℕ) → id < 2 ^ 64 → parse_hex (hex16 id) ≡ some id
parse_hex-hex16 id h = parse_hex-hex_digits 15 id ∙ hex_loop-hex_digits 16 id (omega arith) h

-- The id of a topic under a prefix that ends in a slash.
pub parse_hex-topic :
    (q : Bytes) (id : ℕ)
    → id < 2 ^ 64
    → parse_hex (last_part [] ((q ++ (b'/' ∷ [])) ++ hex16 id)) ≡ some id
parse_hex-topic q id h =
    let slash : last_part [] (q ++ (b'/' ∷ [])) ≡ [] =
      last_part-append [] q (b'/' ∷ []) ∙ (unfold last_part in refl) in
    rw
      (
        last_part-append [] (q ++ (b'/' ∷ [])) (hex16 id),
        slash,
        last_part_plain [] (hex16 id) (hex_digits-IsPlain 16 id),
      )
      (parse_hex-hex16 id h)

module _ {H : Type 0} where
  abbrev pub entry_of : H → Requestor H → Entry H
  entry_of h s = record {
    handler = h;
    reply_to_topic = s.reply_to_prefix ++ hex16 (next_u64 s.reply_dispatch_id);
  }

  -- The registry after a handler is added.
  abbrev pub with_handler : H → Requestor H → Requestor H
  with_handler h s =
      let id = next_u64 s.reply_dispatch_id in
      record s { reply_dispatch_id = id; rx_reply_map = assign s.rx_reply_map id (entry_of h s) }

module _ {H E : Type 0} where
  pub add_accepted :
      (subscribe : Bytes → ℕ → Option E) (h : H) (s : Requestor H)
      → s.readers ≡ 0
      → ((t : Bytes) (i : ℕ) → subscribe t i ≡ none)
      → add_requestor_reply_handler subscribe h s
        ≡ (with_handler h s, added (s.reply_to_prefix ++ hex16 (next_u64 s.reply_dispatch_id)))
  unfolding add_requestor_reply_handler
  add_accepted subscribe h s free sub =
      let id : ℕ = next_u64 s.reply_dispatch_id in
      ground (arith, sub (s.reply_to_prefix ++ hex16 id) id)

  remove_accepted :
      (unsubscribe : Bytes → ℕ → Option E) (topic : Bytes) (id : ℕ) (s : Requestor H)
      → s.readers ≡ 0
      → parse_hex (last_part [] topic) ≡ some id
      → ((t : Bytes) (i : ℕ) → unsubscribe t i ≡ none)
      → remove_requestor_reply_handler unsubscribe topic s
        ≡ (record s { rx_reply_map = discard s.rx_reply_map id }, removed)
  unfolding remove_requestor_reply_handler
  remove_accepted unsubscribe topic id s free parse unsub = ground (arith, unsub topic id)

  -- With the lock free, a prefix that ends in a slash and the broker accepting both calls, adding a
  -- handler gives a topic by which removing it takes out that handler's entry, and no other.
  remove-add :
      (subscribe unsubscribe : Bytes → ℕ → Option E) (h : H) (s : Requestor H) (q : Bytes) (j : ℕ)
      → s.readers ≡ 0
      → s.reply_to_prefix ≡ q ++ (b'/' ∷ [])
      → ((t : Bytes) (i : ℕ) → subscribe t i ≡ none)
      → ((t : Bytes) (i : ℕ) → unsubscribe t i ≡ none)
      → let id = next_u64 s.reply_dispatch_id in
        let topic = s.reply_to_prefix ++ hex16 id in
        let (s', o) = add_requestor_reply_handler subscribe h s in
        let (s'', o') = remove_requestor_reply_handler unsubscribe topic s' in
        (o ≡ added topic)
        × (o' ≡ removed)
        × (fetch s''.rx_reply_map j ≡ (if id == j then none else fetch s.rx_reply_map j))
  remove-add subscribe unsubscribe h s q j free prefix sub unsub =
      let id : ℕ = next_u64 s.reply_dispatch_id in
      let topic : Bytes = s.reply_to_prefix ++ hex16 id in
      let parse : parse_hex (last_part [] topic) ≡ some id =
        rw prefix (parse_hex-topic q id (omega arith)) in
      let m : Requestor H = with_handler h s in
      rw
        (
          add_accepted subscribe h s free sub,
          remove_accepted unsubscribe topic id m free parse unsub,
        )
        (
          refl,
          refl,
          ground (
            arith,
            fetch-discard m.rx_reply_map id j,
            fetch-assign s.rx_reply_map id j (entry_of h s),
          ),
        )
