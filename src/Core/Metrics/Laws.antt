-- ===== src/Core/Metrics/Laws.antt =====
-- What a metric reads before and after the service ends, after a reset and after an increment.
use pubsubplus_go_client.Prelude.{
  ℕ, ◌+◌, ◌%◌, ◌^◌, ◌≡◌, ◌≢◌, refl, ap, Bool, true, false, List, [], ◌∷◌, Option, none, some,
  Option-cases, inl, inr, arith, if◌then◌else◌,
}
use pubsubplus_go_client.Core.Metrics.{
  Metric, Rx, Tx, Own, Rx-discrete, Tx-discrete, Session, Metrics, rx_metrics, tx_metrics,
  client_metrics, aggregated_metrics, every_metric, capture_rx, capture_tx, terminate, get_tx_stat,
  get_rx_stat, get_next_gen_stat, get_aggregate_stat, get_stat, reset_stats, increment_metric,
}

-- Nothing has been captured yet.
abbrev pub IsLive : Metrics → Type 0
IsLive b = (b.captured_tx_metrics ≡ none) × (b.captured_rx_metrics ≡ none)

-- The statistics that stand in the table of received statistics: all but those of the aggregate.
abbrev pub is_tabled : Rx → Bool
is_tabled Rx.cache_request_ok_response = false
is_tabled Rx.cache_request_fulfill_data = false
is_tabled _ = true

captured_rx :
    (session : Session) (s : Rx)
    → capture_rx session every_metric (λ _. 0) s ≡ (if is_tabled s then session.rx_stat s else 0)
unfolding capture_rx rx_metrics Rx-discrete
captured_rx session Rx.direct_bytes = refl
captured_rx session _ = refl

captured_tx :
    (session : Session) (s : Tx) → capture_tx session every_metric (λ _. 0) s ≡ session.tx_stat s
unfolding capture_tx tx_metrics Tx-discrete
captured_tx session Tx.direct_bytes = refl
captured_tx session _ = refl

rx_metrics-is_tabled : (m : Metric) (s : Rx) → rx_metrics m ≡ some s → is_tabled s ≡ true
unfolding rx_metrics
rx_metrics-is_tabled Metric.direct_bytes_received s h = ground arith
rx_metrics-is_tabled _ s h = ground arith

aggregated_metrics-eq-none :
    (m : Metric) → m ≢ Metric.cache_requests_succeeded → aggregated_metrics m ≡ none
unfolding aggregated_metrics
aggregated_metrics-eq-none Metric.cache_requests_succeeded ne = absurd (ne refl)
aggregated_metrics-eq-none _ ne = refl

module _ (session later : Session) (b : Metrics) (live : IsLive b) where
  get_rx_stat-terminate :
      (s : Rx)
      → get_rx_stat later (terminate session b) s
        ≡ (if is_tabled s then get_rx_stat session b s else 0)
  unfolding get_rx_stat terminate
  get_rx_stat-terminate s = rw (live.1, captured_rx session s)

  get_tx_stat-terminate :
      (s : Tx) → get_tx_stat later (terminate session b) s ≡ get_tx_stat session b s
  unfolding get_tx_stat terminate
  get_tx_stat-terminate s = rw (live.0, captured_tx session s)

  -- When a service with nothing captured yet ends, every metric but CacheRequestsSucceeded goes on
  -- reading what it read, whatever becomes of the library's counters.
  get_stat-terminate :
      (m : Metric)
      → m ≢ Metric.cache_requests_succeeded
      → get_stat later (terminate session b) m ≡ get_stat session b m
  unfolding get_stat get_next_gen_stat
  get_stat-terminate m ne = elim (Option-cases (rx_metrics m)) [
    | inr (s, e) ↦
        rw (e, get_rx_stat-terminate s, rx_metrics-is_tabled m s e) (unfold terminate in refl)
    | inl none' ↦ elim (Option-cases (tx_metrics m)) [
      | inr (s, e) ↦ rw (none', e) (get_tx_stat-terminate s)
      | inl none'' ↦ elim (Option-cases (client_metrics m)) [
        | inr (o, e) ↦ rw (none', none'', e) (unfold terminate in refl)
        | inl none''' ↦ rw (none', none'', none''', aggregated_metrics-eq-none m ne)
      ]
    ]
  ]

  -- CacheRequestsSucceeded then reads 0, whatever it read before: its two statistics are not captured.
  pub get_stat-terminate_succeeded :
      get_stat later (terminate session b) Metric.cache_requests_succeeded ≡ 0
  unfolding get_stat rx_metrics tx_metrics client_metrics aggregated_metrics get_aggregate_stat
  get_stat-terminate_succeeded = rw (
    get_rx_stat-terminate Rx.cache_request_ok_response,
    get_rx_stat-terminate Rx.cache_request_fulfill_data,
  )

-- The session obeys the order to clear its counters, if a reset gives one.
abbrev pub Cleared : Session → Bool → Type 0
Cleared session false = Unit
Cleared session true = ((s : Rx) → session.rx_stat s ≡ 0) × ((s : Tx) → session.tx_stat s ≡ 0)

-- Both maps are captured, or none is.
abbrev pub CapturedTogether : Option (Tx → ℕ) → Option (Rx → ℕ) → Type 0
CapturedTogether none none = Unit
CapturedTogether (some m) (some m') = Unit
CapturedTogether _ _ = ⊥

stats-reset_stats :
    (session : Session) (b : Metrics) (ct : Option (Tx → ℕ)) (cr : Option (Rx → ℕ))
    → b.captured_tx_metrics ≡ ct
    → b.captured_rx_metrics ≡ cr
    → CapturedTogether ct cr
    → Cleared session (reset_stats b).1
    → ((s : Rx) → get_rx_stat session (reset_stats b).0 s ≡ 0)
      × ((s : Tx) → get_tx_stat session (reset_stats b).0 s ≡ 0)
      × ((reset_stats b).0.duplicate_acks ≡ 0)
      × ((reset_stats b).0.metrics ≡ λ _. 0)
unfolding reset_stats get_rx_stat get_tx_stat
stats-reset_stats session b none none et er t c =
    let clear = rw er at c in rw (et, er) ((clear.0, clear.1, refl, refl))
stats-reset_stats session b (some m) (some m') et er t c =
    rw (et, er) ((λ s. refl, λ s. refl, refl, refl))
stats-reset_stats session b none (some m') et er t c = absurd t
stats-reset_stats session b (some m) none et er t c = absurd t

get_aggregate_stat-zero :
    (session : Session) (b : Metrics)
    → ((s : Rx) → get_rx_stat session b s ≡ 0)
    → (stats : List Rx) → get_aggregate_stat session b stats 0 ≡ 0
unfolding get_aggregate_stat
get_aggregate_stat-zero session b zeros [] = refl
get_aggregate_stat-zero session b zeros (s ∷ stats) =
    rw (zeros s) (get_aggregate_stat-zero session b zeros stats)

-- After a reset every metric reads 0, if the library obeys where it is told to clear its counters.
get_stat-reset_stats :
    (session : Session) (b : Metrics) (m : Metric)
    → CapturedTogether b.captured_tx_metrics b.captured_rx_metrics
    → Cleared session (reset_stats b).1
    → get_stat session (reset_stats b).0 m ≡ 0
unfolding get_stat get_next_gen_stat
get_stat-reset_stats session b m t c =
    let (rx, tx, dup, own) = stats-reset_stats session b _ _ refl refl t c in
    elim (Option-cases (rx_metrics m)) [
      | inr (s, e) ↦ rw (e, rx s, dup)
      | inl none' ↦ elim (Option-cases (tx_metrics m)) [
        | inr (s, e) ↦ rw (none', e) (tx s)
        | inl none'' ↦ elim (Option-cases (client_metrics m)) [
          | inr (o, e) ↦ rw (none', none'', e) (ap (λ f. f o) own)
          | inl none''' ↦ elim (Option-cases (aggregated_metrics m)) [
            | inr (stats, e) ↦
                rw (none', none'', none''', e)
                  (get_aggregate_stat-zero session (reset_stats b).0 rx stats)
            | inl none4 ↦ rw (none', none'', none''', none4)
          ]
        ]
      ]
    ]

-- An increment adds to the metric that it is for, in uint64, and leaves every other as it was.
get_stat-increment_metric :
    (session : Session) (b : Metrics) (o : Own) (amount : ℕ) (m : Metric)
    → (client_metrics m ≡ some o
        → get_stat session (increment_metric o amount b) m
          ≡ (get_stat session b m + amount) % 2 ^ 64)
      × (client_metrics m ≢ some o
          → get_stat session (increment_metric o amount b) m ≡ get_stat session b m)
unfolding get_stat rx_metrics tx_metrics client_metrics aggregated_metrics get_aggregate_stat
    get_rx_stat get_tx_stat get_next_gen_stat increment_metric
get_stat-increment_metric session b o amount Metric.direct_bytes_received =
    (λ h. ground arith, λ h. ground arith)
get_stat-increment_metric session b o amount _ = (λ h. ground arith, λ h. ground arith)
