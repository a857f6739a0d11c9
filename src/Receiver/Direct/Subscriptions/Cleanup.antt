-- ===== src/Receiver/Direct/Subscriptions/Cleanup.antt =====
-- What the C library holds for the receiver when cleanupSubscriptions is through.
use pubsubplus_go_client.Prelude.{
  ℕ, ◌+◌, ◌≤◌, ◌≡◌, refl, sym, Bool, true, false, List, [], ◌∷◌, Option, none, some, if◌then◌else◌,
  leb, arith, inl, inr, Bool-cases, All,
}
use mathlib.Core.Path.{subst}
use pubsubplus_go_client.Sdt.Strconv.{Bytes}
use pubsubplus_go_client.Sdt.Convert.{same_text}
use pubsubplus_go_client.Receiver.Topics.{
  is_subscribed, count, count-enlist, count-delist, is_subscribed-count, eq_of_same_text,
}
use pubsubplus_go_client.Receiver.Direct.Subscriptions.Start.{start, started, subscriber_of}
use pubsubplus_go_client.Receiver.Direct.Subscriptions.{
  Subscriber, Op, asks_to_add, asks_to_remove, lists, delists, leaves_started, locks, cleans,
  ask_to_add, ask_to_remove, list_topic, delist_topic, lock_cleanup, clean, is_empty, step, run,
}

-- No addition and removal of one topic overlap.
abbrev pub IsApart : Op → Subscriber → Type 0
IsApart (asks_to_add topic is_taken) s = is_subscribed topic s.removing ≡ false
IsApart (asks_to_remove topic is_taken) s = is_subscribed topic s.adding ≡ false
IsApart _ s = Unit

abbrev pub AllApart : List Op → Subscriber → Type 0
AllApart [] s = Unit
AllApart (op ∷ ops) s = IsApart op s × AllApart ops (step op s).0

-- The C library takes the requests of cleanupSubscriptions.
abbrev pub Takes : Op → Type 0
Takes (cleans is_taken) = is_taken ≡ true
Takes _ = Unit

abbrev listed_in : Bytes → Option (List Bytes) → Subscriber → ℕ
listed_in u none s = count u s.subscriptions + count u s.adding
listed_in u (some rest) s = count u rest

abbrev in_lock : Option (List Bytes) → ℕ → Bool
in_lock none n = true
in_lock (some rest) n = leb n 0

-- For the topic `u`.
record Inv (u : Bytes) (s : Subscriber) : Type 0 where
  listed : 1 ≤ count u s.subscribed → 1 ≤ listed_in u s.cleaning s
  gone : 1 ≤ count u s.removing → (count u s.subscribed ≡ 0) × (count u s.adding ≡ 0)
  single : count u s.subscribed ≤ 1
  alone : in_lock s.cleaning (count u s.adding + count u s.removing) ≡ true
  ended : in_lock s.cleaning (if s.is_started then 1 else 0) ≡ true

add-Inv :
    (c : Option (List Bytes)) (t u : Bytes) (b : Bool) (s : Subscriber)
    → s.cleaning ≡ c
    → is_subscribed t s.removing ≡ false
    → Inv u s
    → Inv u (ask_to_add t b s).0
unfolding ask_to_add count
add-Inv (some (x ∷ rest)) t u b s h apart v = ground arith
add-Inv (some []) t u b s h apart v = ground arith
add-Inv none t u false s h apart v = ground arith
add-Inv none t u true s h apart v = elim (Bool-cases (same_text t u)) [
  | inl same ↦
      let e = eq_of_same_text t u same in
      ground (
        arith,
        count-enlist t u s.subscribed,
        is_subscribed-count u s.removing,
        is_subscribed-count u s.subscribed,
      )
  | inr other ↦ ground (arith, count-enlist t u s.subscribed)
]

remove-Inv :
    (c : Option (List Bytes)) (t u : Bytes) (b : Bool) (s : Subscriber)
    → s.cleaning ≡ c
    → is_subscribed t s.adding ≡ false
    → Inv u s
    → Inv u (ask_to_remove t b s).0
unfolding ask_to_remove count
remove-Inv (some (x ∷ rest)) t u b s h apart v = ground arith
remove-Inv (some []) t u b s h apart v = ground arith
remove-Inv none t u false s h apart v = ground arith
remove-Inv none t u true s h apart v = elim (Bool-cases (same_text t u)) [
  | inl same ↦
      let e = eq_of_same_text t u same in
      ground (arith, count-delist t u s.subscribed, is_subscribed-count u s.adding)
  | inr other ↦ ground (arith, count-delist t u s.subscribed)
]

list-Inv :
    (c : Option (List Bytes)) (t u : Bytes) (s : Subscriber)
    → s.cleaning ≡ c
    → Inv u s
    → Inv u (list_topic t s).0
unfolding list_topic
list-Inv c t u s h v = elim (Bool-cases (same_text t u)) [
  | inl same ↦
      let e = eq_of_same_text t u same in
      ground (
        arith,
        count-enlist t u s.subscriptions,
        count-delist t u s.adding,
        is_subscribed-count u s.adding,
        is_subscribed-count u s.subscriptions,
      )
  | inr other ↦ ground (arith, count-enlist t u s.subscriptions, count-delist t u s.adding)
]

delist-Inv :
    (c : Option (List Bytes)) (t u : Bytes) (s : Subscriber)
    → s.cleaning ≡ c
    → Inv u s
    → Inv u (delist_topic t s).0
unfolding delist_topic
delist-Inv c t u s h v = elim (Bool-cases (same_text t u)) [
  | inl same ↦
      let e = eq_of_same_text t u same in
      ground (
        arith,
        count-delist t u s.subscriptions,
        count-delist t u s.removing,
        is_subscribed-count u s.removing,
      )
  | inr other ↦ ground (arith, count-delist t u s.subscriptions, count-delist t u s.removing)
]

empty-count : (u : Bytes) (xs : List Bytes) → is_empty xs ≡ true → count u xs ≡ 0
unfolding count
empty-count u [] h = refl
empty-count u (x ∷ xs) h = cc

lock-Inv :
    (c : Option (List Bytes)) (u : Bytes) (s : Subscriber)
    → s.cleaning ≡ c
    → Inv u s
    → Inv u (lock_cleanup s).0
unfolding lock_cleanup
lock-Inv none u s h v = ground (arith, empty-count u s.adding, empty-count u s.removing)
lock-Inv (some rest) u s h v = ground arith

clean-Inv :
    (c : Option (List Bytes)) (u : Bytes) (s : Subscriber)
    → s.cleaning ≡ c
    → Inv u s
    → Inv u (clean true s).0
unfolding clean count
clean-Inv none u s h v = ground arith
clean-Inv (some []) u s h v = ground arith
clean-Inv (some (t ∷ rest)) u s h v = ground (arith, count-delist t u s.subscribed)

step-Inv :
    (op : Op) (u : Bytes) (s : Subscriber) → IsApart op s → Takes op → Inv u s → Inv u (step op s).0
unfolding step
step-Inv (asks_to_add topic b) u s apart t v = add-Inv s.cleaning topic u b s refl apart v
step-Inv (asks_to_remove topic b) u s apart t v = remove-Inv s.cleaning topic u b s refl apart v
step-Inv (lists topic) u s apart t v = list-Inv s.cleaning topic u s refl v
step-Inv (delists topic) u s apart t v = delist-Inv s.cleaning topic u s refl v
step-Inv leaves_started u s apart t v = ground arith
step-Inv locks u s apart t v = lock-Inv s.cleaning u s refl v
step-Inv (cleans true) u s apart t v = clean-Inv s.cleaning u s refl v
step-Inv (cleans false) u s apart t v = cc

run-Inv :
    (ops : List Op) (u : Bytes) (s : Subscriber)
    → AllApart ops s
    → All Takes ops
    → Inv u s
    → Inv u (run ops s)
unfolding run
run-Inv [] u s apart t v = v
run-Inv (op ∷ ops) u s apart t v =
    run-Inv ops u (step op s).0 apart.1 t.1 (step-Inv op u s apart.0 t.0 v)

started-Inv :
    (u : Bytes) (topics subscribed : List Bytes)
    → count u subscribed ≡ (if leb 1 (count u topics) then 1 else 0)
    → Inv u (subscriber_of true topics subscribed)
unfolding count
started-Inv u topics subscribed h = ground arith

cleaned :
    (c : Option (List Bytes)) (u : Bytes) (s : Subscriber)
    → s.cleaning ≡ c
    → c ≡ some []
    → Inv u s
    → count u s.subscribed ≡ 0
unfolding count
cleaned none u s h e v = cc
cleaned (some []) u s h e v = ground arith
cleaned (some (x ∷ rest)) u s h e v = cc

module _ {E : Type 0} (refuse answer : ℕ → Option E) (takes_back : ℕ → Bool) where
  -- A receiver is started without an error; topics are added and removed by any number of calls, where
  -- no addition and removal of one topic overlap; then it terminates, and the C library takes the
  -- requests of cleanupSubscriptions. Once that is through, the C library holds no topic for the
  -- receiver.
  pub run_cleans :
      (topics : List Bytes) (ops : List Op)
      → let s = (start refuse answer takes_back topics).subscriber in
        (start refuse answer takes_back topics).error ≡ none
        → AllApart ops s
        → All Takes ops
        → (run ops s).cleaning ≡ some []
        → (u : Bytes) → count u (run ops s).subscribed ≡ 0
  run_cleans topics ops ok apart taken through u =
      let s = (start refuse answer takes_back topics).subscriber in
      let (same, few) = started refuse answer takes_back topics u ok in
      let v : Inv u s = subst (Inv u) (sym same) (started-Inv u topics _ few) in
      cleaned (run ops s).cleaning u (run ops s) refl through (run-Inv ops u s apart taken v)
