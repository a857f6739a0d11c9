-- ===== src/Receiver/Basic.antt =====
-- internal/impl/receiver/message_receiver_impl.go: the calls of basicMessageReceiver, which are
-- those of `Lifecycle.Calls` with a receiver's errors.
use pubsubplus_go_client.Prelude.{Bool}
use pubsubplus_go_client.Errors.{
  illegal_state, unable_to_start_receiver, unable_to_start_receiver_parent_service_not_started,
  unable_to_terminate_receiver,
}
use pubsubplus_go_client.Lifecycle.{Errors, Basic, Verdict}
use pubsubplus_go_client.Lifecycle.Calls

abbrev pub receiver_errors : Errors
receiver_errors = record {
  unable_to_start = illegal_state unable_to_start_receiver;
  parent_not_started = illegal_state unable_to_start_receiver_parent_service_not_started;
  unable_to_terminate = illegal_state unable_to_terminate_receiver;
}

unfoldable pub starting : Bool → Basic → Basic × Verdict
unfolding Calls.starting
starting = Calls.starting receiver_errors

unfoldable pub terminate : Basic → Basic × Verdict
unfolding Calls.terminate
terminate = Calls.terminate receiver_errors
