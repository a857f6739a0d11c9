-- ===== src/Core/Metrics.antt =====
-- internal/impl/core/metrics.go: the counters of a service, of which most are the C library's, and
-- some the API's own. When the service ends, the library's counters are captured.
--
-- What the library counts is an argument of each operation that reads it.
pub mod Laws
mod Tests
use mathlib.Core.Logic.{ite}
use pubsubplus_go_client.Prelude.{
  ℕ, zero, suc, ◌+◌, ◌-◌, ◌%◌, ◌^◌, ◌&&◌, Bool, true, false, List, [], ◌∷◌, Option, none, some, ltb,
  ◌==◌, if◌then◌else◌,
}

-- `metrics.Metric`, of the tables rxMetrics, txMetrics, clientMetrics and aggregatedMetrics.
pub data Metric : Type 0 where
  direct_bytes_received direct_messages_received broker_discard_notifications_received : Metric
  unknown_parameter_messages_discarded too_big_messages_discarded : Metric
  persistent_acknowledge_sent persistent_duplicate_messages_discarded : Metric
  persistent_no_matching_flow_messages_discarded persistent_out_of_order_messages_discarded : Metric
  persistent_bytes_received persistent_messages_received control_messages_received : Metric
  control_bytes_received total_bytes_received total_messages_received : Metric
  compressed_bytes_received cache_requests_failed persistent_messages_accepted : Metric
  persistent_messages_failed persistent_messages_rejected : Metric
  total_bytes_sent total_messages_sent direct_bytes_sent direct_messages_sent : Metric
  persistent_bytes_sent persistent_messages_sent persistent_bytes_redelivered : Metric
  persistent_messages_redelivered publisher_acknowledgement_received publisher_window_closed :
      Metric
  publisher_acknowledgement_timeouts control_messages_sent control_bytes_sent : Metric
  connection_attempts published_messages_acknowledged publish_messages_discarded : Metric
  publisher_would_block cache_requests_sent : Metric
  received_messages_termination_discarded received_messages_backpressure_discarded : Metric
  publish_messages_termination_discarded publish_messages_backpressure_discarded : Metric
  internal_discard_notifications cache_requests_succeeded : Metric

-- `ccsmp.SolClientStatsRX` and `ccsmp.SolClientStatsTX`, by the name after the prefix.
pub data Rx : Type 0 where
  direct_bytes direct_msgs discard_ind discard_smf_unknown_element discard_msg_too_big acked : Rx
  discard_duplicate discard_no_matching_flow discard_out_of_order persistent_bytes : Rx
  persistent_msgs ctl_msgs ctl_bytes total_data_bytes total_data_msgs compressed_bytes : Rx
  cache_request_error_response settle_accepted settle_failed settle_rejected : Rx
  cache_request_ok_response cache_request_fulfill_data : Rx

pub data Tx : Type 0 where
  total_data_bytes total_data_msgs direct_bytes direct_msgs persistent_bytes persistent_msgs : Tx
  persistent_bytes_redelivered persistent_redelivered acks_rxed window_close ack_timeout : Tx
  ctl_msgs ctl_bytes total_connection_attempts guaranteed_msgs_sent_confirmed : Tx
  discard_channel_error would_block cache_request_sent : Tx

-- `NextGenMetric`
pub data Own : Type 0 where
  received_messages_termination_discarded received_messages_backpressure_discarded : Own
  publish_messages_termination_discarded publish_messages_backpressure_discarded : Own
  internal_discard_notifications : Own

-- `rxMetrics`
unfoldable pub rx_metrics : Metric → Option Rx
rx_metrics Metric.direct_bytes_received = some Rx.direct_bytes
rx_metrics Metric.direct_messages_received = some Rx.direct_msgs
rx_metrics Metric.broker_discard_notifications_received = some Rx.discard_ind
rx_metrics Metric.unknown_parameter_messages_discarded = some Rx.discard_smf_unknown_element
rx_metrics Metric.too_big_messages_discarded = some Rx.discard_msg_too_big
rx_metrics Metric.persistent_acknowledge_sent = some Rx.acked
rx_metrics Metric.persistent_duplicate_messages_discarded = some Rx.discard_duplicate
rx_metrics Metric.persistent_no_matching_flow_messages_discarded = some Rx.discard_no_matching_flow
rx_metrics Metric.persistent_out_of_order_messages_discarded = some Rx.discard_out_of_order
rx_metrics Metric.persistent_bytes_received = some Rx.persistent_bytes
rx_metrics Metric.persistent_messages_received = some Rx.persistent_msgs
rx_metrics Metric.control_messages_received = some Rx.ctl_msgs
rx_metrics Metric.control_bytes_received = some Rx.ctl_bytes
rx_metrics Metric.total_bytes_received = some Rx.total_data_bytes
rx_metrics Metric.total_messages_received = some Rx.total_data_msgs
rx_metrics Metric.compressed_bytes_received = some Rx.compressed_bytes
rx_metrics Metric.cache_requests_failed = some Rx.cache_request_error_response
rx_metrics Metric.persistent_messages_accepted = some Rx.settle_accepted
rx_metrics Metric.persistent_messages_failed = some Rx.settle_failed
rx_metrics Metric.persistent_messages_rejected = some Rx.settle_rejected
rx_metrics _ = none

-- `txMetrics`
unfoldable pub tx_metrics : Metric → Option Tx
tx_metrics Metric.total_bytes_sent = some Tx.total_data_bytes
tx_metrics Metric.total_messages_sent = some Tx.total_data_msgs
tx_metrics Metric.direct_bytes_sent = some Tx.direct_bytes
tx_metrics Metric.direct_messages_sent = some Tx.direct_msgs
tx_metrics Metric.persistent_bytes_sent = some Tx.persistent_bytes
tx_metrics Metric.persistent_messages_sent = some Tx.persistent_msgs
tx_metrics Metric.persistent_bytes_redelivered = some Tx.persistent_bytes_redelivered
tx_metrics Metric.persistent_messages_redelivered = some Tx.persistent_redelivered
tx_metrics Metric.publisher_acknowledgement_received = some Tx.acks_rxed
tx_metrics Metric.publisher_window_closed = some Tx.window_close
tx_metrics Metric.publisher_acknowledgement_timeouts = some Tx.ack_timeout
tx_metrics Metric.control_messages_sent = some Tx.ctl_msgs
tx_metrics Metric.control_bytes_sent = some Tx.ctl_bytes
tx_metrics Metric.connection_attempts = some Tx.total_connection_attempts
tx_metrics Metric.published_messages_acknowledged = some Tx.guaranteed_msgs_sent_confirmed
tx_metrics Metric.publish_messages_discarded = some Tx.discard_channel_error
tx_metrics Metric.publisher_would_block = some Tx.would_block
tx_metrics Metric.cache_requests_sent = some Tx.cache_request_sent
tx_metrics _ = none

-- `clientMetrics`
unfoldable pub client_metrics : Metric → Option Own
client_metrics Metric.received_messages_termination_discarded =
    some Own.received_messages_termination_discarded
client_metrics Metric.received_messages_backpressure_discarded =
    some Own.received_messages_backpressure_discarded
client_metrics Metric.publish_messages_termination_discarded =
    some Own.publish_messages_termination_discarded
client_metrics Metric.publish_messages_backpressure_discarded =
    some Own.publish_messages_backpressure_discarded
client_metrics Metric.internal_discard_notifications = some Own.internal_discard_notifications
client_metrics _ = none

-- `aggregatedMetrics`, whose entries are statistics of received messages.
unfoldable pub aggregated_metrics : Metric → Option (List Rx)
aggregated_metrics Metric.cache_requests_succeeded =
    some (Rx.cache_request_ok_response ∷ Rx.cache_request_fulfill_data ∷ [])
aggregated_metrics _ = none

-- The keys of the four tables.
abbrev pub every_metric : List Metric
every_metric =
    Metric.direct_bytes_received ∷ Metric.direct_messages_received
    ∷ Metric.broker_discard_notifications_received ∷ Metric.unknown_parameter_messages_discarded
    ∷ Metric.too_big_messages_discarded ∷ Metric.persistent_acknowledge_sent
    ∷ Metric.persistent_duplicate_messages_discarded
    ∷ Metric.persistent_no_matching_flow_messages_discarded
    ∷ Metric.persistent_out_of_order_messages_discarded ∷ Metric.persistent_bytes_received
    ∷ Metric.persistent_messages_received ∷ Metric.control_messages_received
    ∷ Metric.control_bytes_received ∷ Metric.total_bytes_received ∷ Metric.total_messages_received
    ∷ Metric.compressed_bytes_received ∷ Metric.cache_requests_failed
    ∷ Metric.persistent_messages_accepted ∷ Metric.persistent_messages_failed
    ∷ Metric.persistent_messages_rejected ∷ Metric.total_bytes_sent ∷ Metric.total_messages_sent
    ∷ Metric.direct_bytes_sent ∷ Metric.direct_messages_sent ∷ Metric.persistent_bytes_sent
    ∷ Metric.persistent_messages_sent ∷ Metric.persistent_bytes_redelivered
    ∷ Metric.persistent_messages_redelivered ∷ Metric.publisher_acknowledgement_received
    ∷ Metric.publisher_window_closed ∷ Metric.publisher_acknowledgement_timeouts
    ∷ Metric.control_messages_sent ∷ Metric.control_bytes_sent ∷ Metric.connection_attempts
    ∷ Metric.published_messages_acknowledged ∷ Metric.publish_messages_discarded
    ∷ Metric.publisher_would_block ∷ Metric.cache_requests_sent
    ∷ Metric.received_messages_termination_discarded
    ∷ Metric.received_messages_backpressure_discarded
    ∷ Metric.publish_messages_termination_discarded ∷ Metric.publish_messages_backpressure_discarded
    ∷ Metric.internal_discard_notifications ∷ Metric.cache_requests_succeeded ∷ []

unfoldable pub Rx-discrete : Discrete Rx
Rx-discrete = hlevel

unfoldable pub Tx-discrete : Discrete Tx
Tx-discrete = hlevel

unfoldable pub Own-discrete : Discrete Own
Own-discrete = hlevel

-- `SolClientSessionGetRXStat` and `SolClientSessionGetTXStat` at the time of a call.
pub record Session : Type 0 where
  pub rx_stat : Rx → ℕ
  pub tx_stat : Tx → ℕ

-- `ccsmpBackedMetrics`. A captured map is `none` for nil, and reads 0 at a key that it lacks.
pub record Metrics : Type 0 where
  pub metrics : Own → ℕ  -- uint64
  pub duplicate_acks : ℕ  -- uint64
  pub captured_tx_metrics : Option (Tx → ℕ)
  pub captured_rx_metrics : Option (Rx → ℕ)

unfoldable pub new_ccsmp_metrics : Metrics
new_ccsmp_metrics = record {
  metrics = λ _. 0;
  duplicate_acks = 0;
  captured_tx_metrics = none;
  captured_rx_metrics = none;
}

abbrev u64 : ℕ → ℕ
u64 n = n % 2 ^ 64

-- `m[key] = v`
abbrev write {ℓ} : {K : Type ℓ} → Discrete K → K → ℕ → (K → ℕ) → K → ℕ
write same key v m k = ite (same key k) v (m k)

-- The loops over the values of a table, one metric after the other.
unfoldable pub capture_rx : Session → List Metric → (Rx → ℕ) → Rx → ℕ
capture_rx session [] m = m
capture_rx session (metric ∷ rest) m =
    capture_rx session rest
      (elim (rx_metrics metric) [ none ↦ m | some s ↦ write Rx-discrete s (session.rx_stat s) m ])

unfoldable pub capture_tx : Session → List Metric → (Tx → ℕ) → Tx → ℕ
capture_tx session [] m = m
capture_tx session (metric ∷ rest) m =
    capture_tx session rest
      (elim (tx_metrics metric) [ none ↦ m | some s ↦ write Tx-discrete s (session.tx_stat s) m ])

abbrev or_capture {ℓ} : {K : Type ℓ} → (K → ℕ) → Option (K → ℕ) → Option (K → ℕ)
or_capture fresh none = some fresh
or_capture fresh (some m) = some m

-- `terminate`, with `captureTXStats` and `captureRXStats`: what is captured already is kept.
unfoldable pub terminate : Session → Metrics → Metrics
terminate session b = record b {
  captured_tx_metrics = or_capture (capture_tx session every_metric (λ _. 0)) b.captured_tx_metrics;
  captured_rx_metrics = or_capture (capture_rx session every_metric (λ _. 0)) b.captured_rx_metrics;
}

abbrev read_captured {ℓ} : {K : Type ℓ} → (K → ℕ) → Option (K → ℕ) → K → ℕ
read_captured live none k = live k
read_captured live (some m) k = m k

unfoldable pub get_tx_stat : Session → Metrics → Tx → ℕ
get_tx_stat session b = read_captured session.tx_stat b.captured_tx_metrics

unfoldable pub get_rx_stat : Session → Metrics → Rx → ℕ
get_rx_stat session b = read_captured session.rx_stat b.captured_rx_metrics

unfoldable pub get_next_gen_stat : Metrics → Own → ℕ
get_next_gen_stat b m = b.metrics m

-- The loop of `getAggregateStat`.
unfoldable pub get_aggregate_stat : Session → Metrics → List Rx → ℕ → ℕ
get_aggregate_stat session b [] total = total
get_aggregate_stat session b (s ∷ stats) total =
    get_aggregate_stat session b stats (u64 (total + get_rx_stat session b s))

abbrev is_accepted : Metric → Bool
is_accepted Metric.persistent_messages_accepted = true
is_accepted _ = false

-- Acknowledgements that the API sent twice are taken off, in uint64.
abbrev without_duplicates : Metrics → Metric → ℕ → ℕ
without_duplicates b metric n =
    if ltb 0 b.duplicate_acks && is_accepted metric then u64 (n + 2 ^ 64 - b.duplicate_acks) else n

abbrev aggregate_or_zero : Session → Metrics → Option (List Rx) → ℕ
aggregate_or_zero session b (some stats) = get_aggregate_stat session b stats 0
aggregate_or_zero session b none = 0

abbrev client_or : Session → Metrics → Metric → Option Own → ℕ
client_or session b metric (some m) = get_next_gen_stat b m
client_or session b metric none = aggregate_or_zero session b (aggregated_metrics metric)

abbrev tx_or : Session → Metrics → Metric → Option Tx → ℕ
tx_or session b metric (some s) = get_tx_stat session b s
tx_or session b metric none = client_or session b metric (client_metrics metric)

abbrev rx_or : Session → Metrics → Metric → Option Rx → ℕ
rx_or session b metric (some s) = without_duplicates b metric (get_rx_stat session b s)
rx_or session b metric none = tx_or session b metric (tx_metrics metric)

-- The tables are tried in turn.
unfoldable pub get_stat : Session → Metrics → Metric → ℕ
get_stat session b metric = rx_or session b metric (rx_metrics metric)

abbrev zeroed {ℓ} : {K : Type ℓ} → Option (K → ℕ) → Option (K → ℕ)
zeroed none = none
zeroed (some m) = some (λ _. 0)

-- With nothing captured the library is told to clear its counters, which is an effect on the
-- session: the second part of the result says whether it is told.
unfoldable pub reset_native_stats : Metrics → Metrics × Bool
reset_native_stats b = elim b.captured_rx_metrics [
  | none ↦ (b, true)
  | some m ↦ (
    record b {
      captured_rx_metrics = zeroed b.captured_rx_metrics;
      captured_tx_metrics = zeroed b.captured_tx_metrics;
    },
    false,
  )
]

unfoldable pub reset_stats : Metrics → Metrics × Bool
unfolding reset_native_stats
reset_stats b = reset_native_stats (record b { metrics = λ _. 0; duplicate_acks = 0 })

unfoldable pub increment_metric : Own → ℕ → Metrics → Metrics
increment_metric m amount b = record b {
  metrics = write Own-discrete m (u64 (b.metrics m + amount)) b.metrics;
}

unfoldable pub increment_duplicate_ack_count : Metrics → Metrics
increment_duplicate_ack_count b = record b { duplicate_acks = u64 (b.duplicate_acks + 1) }
