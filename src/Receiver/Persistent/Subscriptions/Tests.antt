-- ===== src/Receiver/Persistent/Subscriptions/Tests.antt =====
-- Subscriptions of a persistent receiver: tests, and the theorems at concrete inputs.
use pubsubplus_go_client.Prelude.{
  ℕ, ◌≡◌, refl, true, List, [], ◌∷◌, none, some, ok, arith, if◌then◌else◌,
}
use pubsubplus_go_client.Prelude.Dict.{fetch, assign}
use pubsubplus_go_client.Sdt.Strconv.{Bytes}
use pubsubplus_go_client.Sdt.Convert.{same_text}
use pubsubplus_go_client.Lifecycle.{State}
use pubsubplus_go_client.Core.Pending
use pubsubplus_go_client.Core.Pending.{
  no_pending, request, requested, new_correlation, reserve, store,
}
use pubsubplus_go_client.Core.Events.{new_ccsmp_events}
use pubsubplus_go_client.Core.Receiver.{Receiver, new_ccsmp_receiver}
use pubsubplus_go_client.Receiver.Topics.{is_subscribed, enlist, delist, splice_index, without}
use pubsubplus_go_client.Receiver.Persistent.Subscriptions.{
  Subscriber, Native, Op, adds, removes, turns, run, add_subscription, remove_subscription, give_up,
  clear_all, keys,
}
use pubsubplus_go_client.Receiver.Persistent.Subscriptions.Unanswered.{
  give_up-fetch, give_up-unanswered,
}

abbrev a : Bytes
a = b'a' ∷ []

abbrev b : Bytes
b = b'b' ∷ []

-- The flow of a queue that is durable; the broker takes every request but those for `b`.
abbrev queue : Native ℕ
queue = record {
  subscribe = λ t id. if same_text t b then some 7 else none;
  unsubscribe = λ t id. none;
  endpoint_unsubscribe = λ name t id. none;
  destination = ok (b'q' ∷ [], true);
}

abbrev session : Receiver ℕ ℕ
session = new_ccsmp_receiver new_ccsmp_events

abbrev subscriber : Subscriber ℕ ℕ
subscriber = record {
  state = State.started;
  subscriptions = a ∷ [];
  outstanding = [];
  session = session;
}

abbrev calls : List (Op ℕ)
calls =
    adds queue (some b)
    ∷ removes queue (some a)
    ∷ adds queue (some a)
    ∷ turns State.terminating
    ∷ removes queue (some a)
    ∷ []

one_left : (run calls subscriber).0.subscriptions ≡ a ∷ []
unfolding run add_subscription remove_subscription enlist delist is_subscribed splice_index without
one_left = refl

-- Two requests of the receiver and one of another.
abbrev asking : List (Pending.Op ℕ)
asking = Pending.reserves ∷ Pending.stores 1 ∷ Pending.reserves ∷ Pending.stores 2 ∷ []

abbrev waiting : Subscriber ℕ ℕ
waiting = record subscriber {
  outstanding = (1, tt) ∷ [];
  session = record session { subscriptions = Pending.run asking no_pending };
}

give_up-fetch_example : fetch (give_up waiting).session.subscriptions.correlation 2 ≡ some 2
unfolding give_up clear_all keys fetch Pending.run Pending.step reserve store assign no_pending
give_up-fetch_example = give_up-fetch waiting 2

abbrev too_late : List (Pending.Op ℕ)
too_late = Pending.resolves 1 none ∷ Pending.interrupts 5 ∷ []

give_up-unanswered_example :
    (Pending.run too_late (give_up waiting).session.subscriptions).channels 1 ≡ []
unfolding Pending.run Pending.step reserve store assign no_pending fetch
give_up-unanswered_example =
    give_up-unanswered asking too_late waiting 1 refl (omega arith) refl (omega arith) refl
