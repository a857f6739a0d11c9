-- ===== src/Core/Metrics/Tests.antt =====
-- The counters of a service: tests, and the theorems at concrete inputs.
use pubsubplus_go_client.Prelude.{ℕ, ◌≡◌, refl, none}
use pubsubplus_go_client.Core.Metrics.{
  Metric, Rx, Own, Session, Metrics, new_ccsmp_metrics, terminate, get_stat, increment_metric,
  increment_duplicate_ack_count, client_metrics, aggregated_metrics, rx_metrics, tx_metrics,
  get_aggregate_stat, get_rx_stat,
}
use pubsubplus_go_client.Core.Metrics.Laws.{get_stat-terminate_succeeded}

abbrev counted : Rx → ℕ
counted Rx.cache_request_ok_response = 3
counted Rx.cache_request_fulfill_data = 4
counted Rx.settle_accepted = 20
counted _ = 5

abbrev busy : Session
busy = record { rx_stat = counted; tx_stat = λ s. 7 }

abbrev gone : Session
gone = record { rx_stat = λ s. 0; tx_stat = λ s. 0 }

abbrev used : Metrics
used =
    increment_metric Own.internal_discard_notifications 2
      (increment_duplicate_ack_count new_ccsmp_metrics)

live : (used.captured_tx_metrics ≡ none) × (used.captured_rx_metrics ≡ none)
unfolding increment_metric increment_duplicate_ack_count new_ccsmp_metrics
live = (refl, refl)

succeeded_live : get_stat busy used Metric.cache_requests_succeeded ≡ 7
unfolding get_stat rx_metrics tx_metrics client_metrics aggregated_metrics get_aggregate_stat
    get_rx_stat increment_metric increment_duplicate_ack_count new_ccsmp_metrics
succeeded_live = refl

without_duplicate : get_stat busy used Metric.persistent_messages_accepted ≡ 19
unfolding get_stat rx_metrics get_rx_stat increment_metric increment_duplicate_ack_count
    new_ccsmp_metrics
without_duplicate = refl

get_stat-terminate_succeeded_example :
    get_stat busy (terminate busy used) Metric.cache_requests_succeeded ≡ 0
get_stat-terminate_succeeded_example = get_stat-terminate_succeeded busy busy used live
