-- ===== src/Publisher/Basic.antt =====
-- internal/impl/publisher/message_publisher_impl.go: the calls of basicMessagePublisher, which are
-- those of `Lifecycle.Calls` with a publisher's errors.
use pubsubplus_go_client.Prelude.{Bool, Option, none, some, if◌then◌else◌}
use pubsubplus_go_client.Errors.{
  Error, illegal_state, unable_to_publish_already_terminated, unable_to_publish_not_started,
  unable_to_start_publisher, unable_to_start_publisher_parent_service_not_started,
  unable_to_terminate_publisher,
}
use pubsubplus_go_client.Lifecycle.{Errors, Basic, Verdict, is_started, is_ending}
use pubsubplus_go_client.Lifecycle.Calls

abbrev pub publisher_errors : Errors
publisher_errors = record {
  unable_to_start = illegal_state unable_to_start_publisher;
  parent_not_started = illegal_state unable_to_start_publisher_parent_service_not_started;
  unable_to_terminate = illegal_state unable_to_terminate_publisher;
}

unfoldable pub starting : Bool → Basic → Basic × Verdict
unfolding Calls.starting
starting = Calls.starting publisher_errors

unfoldable pub terminate : Basic → Basic × Verdict
unfolding Calls.terminate
terminate = Calls.terminate publisher_errors

-- The name of the state that the second message ends with is not modelled.
unfoldable pub check_started_state_for_publish : Basic → Option Error
check_started_state_for_publish b =
    if is_started b.state
    then none
    else if is_ending b.state
    then some (illegal_state unable_to_publish_already_terminated)
    else some (illegal_state unable_to_publish_not_started)
