-- ===== src/Core/Correlation.antt =====
-- internal/impl/core/publisher.go: the 16 bytes by which a publisher finds its acknowledgement
-- again: publisher id, then message id, eight bytes each with the low byte first.
use pubsubplus_go_client.Prelude.{
  ℕ, zero, suc, ◌+◌, ◌*◌, ◌/◌, ◌%◌, ◌^◌, ◌<◌, ◌≡◌, List, [], ◌∷◌, ◌++◌, Option, none, some, ◌==◌,
  if◌then◌else◌, arith, length, ap,
}

abbrev pub Bytes : Type 0
Bytes = List ℕ

abbrev pub correlation_id_length : ℕ
correlation_id_length = 8

abbrev pub correlation_tag_length : ℕ
correlation_tag_length = correlation_id_length * 2

-- `uint8(x & mask >> shift)` with `mask` the byte at `shift`; in Go `&` and `>>` bind alike and
-- to the left, so the mask is applied first.
abbrev byte_at : ℕ → ℕ → ℕ
byte_at x shift = x / 2 ^ shift % 256

-- The loop of `toCorrelationTag` for one of the two ids, from `shift` on.
to_bytes : ℕ → ℕ → ℕ → Bytes
to_bytes zero shift x = []
to_bytes (suc n) shift x = byte_at x shift ∷ to_bytes n (shift + 8) x

unfoldable pub to_correlation_tag : ℕ → ℕ → Bytes
unfolding to_bytes
to_correlation_tag pub_id message_id =
    to_bytes correlation_id_length 0 pub_id ++ to_bytes correlation_id_length 0 message_id

-- The loop of `fromCorrelationTag` for one id. `id |= uint64(b) << shift` adds `b * 2^shift`: what
-- was read before lies below 2^shift.
from_bytes : ℕ → ℕ → Bytes → ℕ → ℕ
from_bytes zero shift bytes id = id
from_bytes (suc n) shift [] id = id
from_bytes (suc n) shift (b ∷ bytes) id = from_bytes n (shift + 8) bytes (id + b * 2 ^ shift)

abbrev drop : ℕ → Bytes → Bytes
drop zero bytes = bytes
drop (suc n) [] = []
drop (suc n) (b ∷ bytes) = drop n bytes

unfoldable pub from_correlation_tag : Bytes → Option (ℕ × ℕ)
unfolding from_bytes
from_correlation_tag bytes =
    if length bytes == correlation_tag_length
    then some (
      from_bytes correlation_id_length 0 bytes 0,
      from_bytes correlation_id_length 0 (drop correlation_id_length bytes) 0,
    )
    else none

read_back : (x : ℕ) → x < 2 ^ 64 → from_bytes 8 0 (to_bytes 8 0 x) 0 ≡ x
unfolding from_bytes to_bytes
read_back x h = omega arith

-- Every pair of 64-bit ids is read back from its tag.
pub from_correlation_tag-to_correlation_tag :
    (p m : ℕ)
    → p < 2 ^ 64
    → m < 2 ^ 64
    → from_correlation_tag (to_correlation_tag p m) ≡ some (p, m)
unfolding from_correlation_tag to_correlation_tag
from_correlation_tag-to_correlation_tag p m hp hm =
    let e : from_bytes 8 0 (to_bytes 8 0 p) 0 ≡ p = read_back p hp in
    let f : from_bytes 8 0 (to_bytes 8 0 m) 0 ≡ m = read_back m hm in ap some (λ i. (e i, f i))
