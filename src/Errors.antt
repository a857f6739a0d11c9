-- ===== src/Errors.antt =====
-- pkg/solace/errors.go and internal/impl/constants/error_strings.go: the errors that the modelled
-- code returns, by their type, with the constant of the message where the type has several.
use pubsubplus_go_client.Prelude.{ℕ}

-- The constants of error_strings.go, in its spelling.
pub data Message : Type 0 where
  unable_to_publish_already_terminated unable_to_publish_not_started : Message
  unable_to_terminate_publisher unable_to_start_publisher : Message
  unable_to_start_publisher_parent_service_not_started : Message
  unable_to_terminate_receiver unable_to_start_receiver : Message
  unable_to_start_receiver_parent_service_not_started : Message
  would_block : Message

-- `incomplete_message_delivery` has the count that its message is formatted with; `native` is an
-- error of the C library, by its sub code.
pub data Error : Type 0 where
  illegal_state : Message → Error
  publisher_overflow : Message → Error
  incomplete_message_delivery : ℕ → Error
  native : ℕ → Error
