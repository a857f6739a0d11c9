-- ===== src/Receiver/Direct/Subscriptions/Tests.antt =====
-- The subscriptions of a direct receiver: tests, and the theorems at concrete inputs.
use pubsubplus_go_client.Prelude.{
  ℕ, ◌≡◌, refl, true, false, List, [], ◌∷◌, Option, none, some, ◌==◌, if◌then◌else◌,
}
use pubsubplus_go_client.Sdt.Strconv.{Bytes}
use pubsubplus_go_client.Receiver.Topics.{
  is_subscribed, enlist, splice_index, without, delist, count,
}
use pubsubplus_go_client.Receiver.Direct.Subscriptions.{
  Op, asks_to_add, asks_to_remove, lists, delists, leaves_started, locks, cleans, ask_to_add,
  ask_to_remove, list_topic, delist_topic, lock_cleanup, clean, step, run,
}
use pubsubplus_go_client.Receiver.Direct.Subscriptions.Start.{
  start, ask_all, await_all, take_back, Settled, start-Settled, subscriber_of,
}
use pubsubplus_go_client.Receiver.Direct.Subscriptions.Cleanup.{run_cleans}

abbrev topic_a : Bytes
topic_a = b'a' ∷ []

abbrev topic_b : Bytes
topic_b = b'b' ∷ []

abbrev two_topics : List Bytes
two_topics = topic_a ∷ topic_b ∷ []

abbrev accepts : ℕ → Option ℕ
accepts i = none

-- The broker refuses the second topic.
abbrev refuses_second : ℕ → Option ℕ
refuses_second i = if i == 1 then some 5 else none

start-Settled_example :
    Settled accepts refuses_second
      (λ i. true)
      two_topics
      (start accepts refuses_second (λ i. true) two_topics)
      (some 5)
unfolding start ask_all await_all take_back enlist is_subscribed delist splice_index without
start-Settled_example = start-Settled accepts refuses_second (λ i. true) two_topics (λ j. refl)

-- One topic is removed while another is added, and the receiver terminates.
abbrev in_turn : List Op
in_turn =
    asks_to_add (b'c' ∷ []) true
    ∷ asks_to_remove topic_a true
    ∷ lists (b'c' ∷ [])
    ∷ delists topic_a
    ∷ leaves_started
    ∷ asks_to_add topic_a true
    ∷ locks
    ∷ cleans true
    ∷ cleans true
    ∷ []

run_cleans_example :
    count topic_b (run in_turn (start accepts accepts (λ i. true) two_topics).subscriber).subscribed
    ≡ 0
unfolding start ask_all await_all enlist is_subscribed delist splice_index without run step
    ask_to_add ask_to_remove list_topic delist_topic lock_cleanup clean
run_cleans_example =
    run_cleans accepts accepts (λ i. true) two_topics in_turn refl
      (refl, (refl, (tt, (tt, (tt, (refl, (tt, (tt, (tt, tt)))))))))
      (tt, (tt, (tt, (tt, (tt, (tt, (tt, (refl, (refl, tt))))))))) refl topic_b

-- An addition of a topic that is listed, and a removal of it, overlap: the removal asks first and
-- changes the list last. The topic is then held by the C library and not listed, and stays held after
-- the termination.
abbrev overlapping : List Op
overlapping =
    asks_to_remove topic_a true
    ∷ asks_to_add topic_a true
    ∷ lists topic_a
    ∷ delists topic_a
    ∷ leaves_started
    ∷ locks
    ∷ []

left_behind :
    run overlapping (subscriber_of true (topic_a ∷ []) (topic_a ∷ []))
    ≡ record (subscriber_of false [] (topic_a ∷ [])) { cleaning = some [] }
unfolding enlist is_subscribed delist splice_index without run step ask_to_add ask_to_remove
    list_topic delist_topic lock_cleanup
left_behind = refl
