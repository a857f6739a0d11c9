-- ===== src/Receiver/Persistent/Subscriptions/Held.antt =====
-- The list of topics after any calls.
use pubsubplus_go_client.Prelude.{◌≤◌, Bool, true, false, List, [], ◌∷◌, if◌then◌else◌}
use pubsubplus_go_client.Sdt.Strconv.{Bytes}
use pubsubplus_go_client.Sdt.Convert.{same_text}
use pubsubplus_go_client.Core.Receiver.{Receiver}
use pubsubplus_go_client.Receiver.Topics.{enlist, delist, count}
use pubsubplus_go_client.Receiver.Persistent.Subscriptions.{Outcome, added, removed, unchanged}

-- No topic stands in the list twice.
abbrev pub Distinct : List Bytes → Type 0
Distinct xs = (u : Bytes) → count u xs ≤ 1

-- The set of topics as the calls make it.
abbrev after : Outcome → (Bytes → Bool) → Bytes → Bool
after (added t) held u = if same_text t u then true else held u
after (removed t) held u = if same_text t u then false else held u
after unchanged held u = held u

abbrev pub after_all : List Outcome → (Bytes → Bool) → Bytes → Bool
after_all [] held = held
after_all (o ∷ os) held = after_all os (after o held)

abbrev changed : Outcome → List Bytes → List Bytes
changed (added t) xs = enlist t xs
changed (removed t) xs = delist t xs
changed unchanged xs = xs
