-- ===== src/Endpoint/Property.antt =====
-- pkg/solace/config/endpoint_properties.go: the numbers of the properties.
use pubsubplus_go_client.Prelude.{ℕ}

abbrev pub durable : ℕ
durable = 0

abbrev pub exclusive : ℕ
exclusive = 1

abbrev pub notify_sender : ℕ
notify_sender = 2

abbrev pub max_message_redelivery : ℕ
max_message_redelivery = 3

abbrev pub max_message_size : ℕ
max_message_size = 4

abbrev pub permission : ℕ
permission = 5

abbrev pub quota_mb : ℕ
quota_mb = 6

abbrev pub respects_ttl : ℕ
respects_ttl = 7
