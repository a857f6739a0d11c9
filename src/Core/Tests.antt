-- ===== src/Core/Tests.antt =====
-- The core publisher: tests, and the theorems at concrete inputs.
use pubsubplus_go_client.Prelude.{
  ℕ, ◌≡◌, refl, Bool, true, false, List, [], ◌∷◌, Option, none, some, arith,
}
use pubsubplus_go_client.Prelude.Dict.{fetch}
use pubsubplus_go_client.Core.Correlation.{
  to_correlation_tag, from_correlation_tag, from_correlation_tag-to_correlation_tag,
}
use pubsubplus_go_client.Core.Acknowledgements.{
  Registry, Op, next_tag, add_acknowledgement_handler, on_acknowledgement, run,
}
use pubsubplus_go_client.Core.Acknowledgements.Delivery.{after_calls, on_acknowledgement-add}
use pubsubplus_go_client.Core.Requestor.{
  Bytes, Requestor, blocked, hex16, hex_digits, parse_hex, last_part,
}
use pubsubplus_go_client.Core.Requestor.Lock
use pubsubplus_go_client.Core.Requestor.Lock.{perform, blocked-run}

abbrev two_ids : List ℕ
two_ids = 0x02 ∷ 0x01 ∷ 0 ∷ 0 ∷ 0 ∷ 0 ∷ 0 ∷ 0 ∷ 7 ∷ 0 ∷ 0 ∷ 0 ∷ 0 ∷ 0 ∷ 0 ∷ 0 ∷ []

low_byte_first : to_correlation_tag 0x102 7 ≡ two_ids
unfolding to_correlation_tag
low_byte_first = refl

from_correlation_tag-to_correlation_tag_example :
    from_correlation_tag (to_correlation_tag 0x102 7) ≡ some (0x102, 7)
from_correlation_tag-to_correlation_tag_example =
    from_correlation_tag-to_correlation_tag 0x102 7 (omega arith) (omega arith)

abbrev empty : Registry Bool
empty = record { handler_id = 4; handlers = [] }

abbrev others : List (Op Bool)
others = Op.add false ∷ Op.remove 6 ∷ Op.add false ∷ []

on_acknowledgement-add_example :
    let (s, p, t) = add_acknowledgement_handler true empty in
    on_acknowledgement {E = ℕ} (run others s) (some (next_tag (after_calls 2 t)).2) false (some 9)
    ≡ some (record { handler = true; message_id = 3; persisted = false; error = some 9 })
on_acknowledgement-add_example =
    on_acknowledgement-add true empty others 2 false (some 9) (omega arith) (omega arith)
      (omega arith)

abbrev inbox : Bytes
inbox = b'#' ∷ b'P' ∷ b'/' ∷ []

abbrev requestor : Requestor Bool
requestor = record {
  reply_dispatch_id = 0;
  reply_to_prefix = inbox;
  rx_reply_map = [];
  readers = 0;
}

abbrev accepts : Bytes → ℕ → Option ℕ
accepts topic id = none

abbrev later : List (Lock.Call Bool ℕ)
later = Lock.add accepts true ∷ Lock.reply 1 ∷ []

blocked-run_example :
    let s' = Lock.run later (perform {E = ℕ} (Lock.reply 5) requestor).0 in
    ((perform (Lock.add accepts true) s').1 ≡ blocked)
    × ((perform (Lock.remove accepts (hex16 1)) s').1 ≡ blocked)
    × ((perform {E = ℕ} Lock.terminate s').1 ≡ blocked)
blocked-run_example =
    blocked-run 5 requestor later accepts accepts true (hex16 1) 1 (unfold fetch in refl)
      (unfold last_part parse_hex hex_digits in refl) refl
