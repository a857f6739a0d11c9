-- ===== src/Lib.antt =====
-- The PubSub+ messaging API for Go: a client library over a C library (CCSMP) that holds the connection
-- to a broker. A messaging service makes publishers and receivers; each has a life cycle, a queue of
-- callbacks and, for guaranteed messages, acknowledgements that come back over the session.
--
-- How the parts interact. `Start` and `Terminate` of every publisher and receiver go through a small
-- state machine with compare-and-swap and two futures. A publisher or receiver runs the application's
-- callbacks on an executor of its own. A direct publisher with a buffer keeps each message in it until
-- a task, run by the loop of the task buffer, has published it; a direct receiver keeps what the C
-- library calls it with in a bounded buffer until the application takes it, and a persistent receiver
-- stops its flow when that buffer is full. A request-reply publisher waits for each reply under a
-- correlation of its own. The core publisher of the session is
-- shared by all publishers: it gives each persistent publisher the tags of its messages and hands an
-- acknowledgement back by the tag, and it gives each request-reply publisher a reply topic and hands a
-- reply back by the topic's number. The core events hand what happens to the session to whoever
-- registered for it; the core metrics count for the whole session. Messages carry structured data.
--
--   Errors, Future   internal/impl/future/future_error.go: a value that is set once. An error stands as
--                    the name of its text in internal/impl/constants/error_strings.go.
--   Lifecycle        internal/impl/publisher/message_publisher_impl.go and
--                    internal/impl/receiver/message_receiver_impl.go: Calls has each function as one
--                    step, Threads each atomic access of any number of threads; Solo ties the two.
--                    Invariant and Safety are about the threads. Publisher/Basic and Receiver/Basic
--                    fill in the errors of the two sides.
--   Executor         internal/impl/executor/executor.go: submission in two attempts, the run loop,
--                    termination, the growth of the channel; Fifo is about any schedule of them.
--   Service          internal/impl/messaging_service_impl.go: Connect, Disconnect and the handler of a
--                    session that goes down, with each atomic access a step of any number of threads;
--                    Rights, Totals and Connection are about schedules of them. Properties is UpdateProperty.
--   Core             internal/impl/core/publisher.go: Correlation has the tags, Acknowledgements the
--                    registry of handlers, Requestor the reply topics and the lock of their registry.
--                    Events is internal/impl/core/events.go, Metrics internal/impl/core/metrics.go.
--                    Writability is the publish loop of core/publisher.go and its wait for room.
--                    Cache is ProcessCacheEvent of internal/impl/core/cache_response.go.
--                    Pending is the table of requests to the broker that wait for an answer; Receiver,
--                    internal/impl/core/receiver.go, and Provisioner,
--                    internal/impl/core/endpoint_provisioner.go, keep such a table and register the
--                    handlers of Events that answer from it.
--   Publisher        Backpressure: validateBackpressureConfig of message_publisher_impl.go, with the
--                    builder methods of internal/impl/publisher/direct_message_publisher_impl.go.
--                    Direct: the way of a message through that publisher's buffer and
--                    internal/impl/publisher/buffer/publisher_task_buffer.go, in steps; its modules
--                    Order, Tasks, Graceful and Accounting are about schedules of the steps, with the
--                    termination of the core's publisher among them. Request: one
--                    request of internal/impl/publisher/request_reply_message_publisher_impl.go, from
--                    its correlation entry to the outcome; Replies, Outcome and Wait are about it.
--                    Receipts: the contexts that wait for an acknowledgement in
--                    internal/impl/publisher/persistent_message_publisher_impl.go; Once and Completion
--                    are about schedules of its steps. Persistent: that publisher with backpressure by
--                    buffer, its steps those of Direct with what each does to the contexts; Once is
--                    about schedules that end in a graceful termination.
--   Receiver         Direct: the buffer of internal/impl/receiver/direct_message_receiver_impl.go between
--                    the message callback and the consumer, in steps; Backpressure, Fate and Indication
--                    are about schedules of them; Build is its builder, with the share names;
--                    Subscriptions are its topics from Start to the cleanup; Cache its cache requests,
--                    with the polling loop and teardownCache. Persistent: the buffer of
--                    internal/impl/receiver/persistent_message_receiver_impl.go with the marks at which
--                    the flow is stopped and started; Flow and Restart are about schedules of its
--                    steps, Pausing is Pause and Resume, Settlement Ack and Settle, Subscriptions the calls that add and
--                    remove topics, with their requests in the table of the core receiver (Topics has
--                    the list). Termination: Terminate, unsolicitedTermination, ReceiveMessage,
--                    ReceiveAsync and the loop of run, which both receivers have in common, as any
--                    number of threads; Knowledge and Steps have what each place knows, and Delivery,
--                    Once and Notice are about their schedules.
--   Endpoint         internal/impl/provisioner/endpoint_provisioner_impl.go: the properties of a queue
--                    (Order is about the order in which they are visited), Outcome Provision and
--                    Deprovision over the core provisioner, and Branches what they come to.
--   Validation       internal/impl/validation/validator.go.
--   Sdt              pkg/solace/message/sdt/structured_data_types.go: Data has the element types,
--                    Strconv the functions of the Go library that they are read with, Convert the
--                    conversions, MapAccess and StreamAccess the getters.
--   Prelude          lists, dictionaries, families of states by thread, integers and results;
--                    Interleaving has schedules of threads and what a discipline of rights gives.
--
-- State is a record with the fields of the Go struct, an operation a function from the old state to the
-- new one and its result. Where threads interleave, a schedule is a list of steps, and a step is what
-- the code does between two points where another thread may come in. Go maps are association lists
-- (Prelude/Dict), channels are lists with a capacity, machine integers wrap by a remainder that is
-- written out.
--
-- Bounds and fuel. The decimal digits of n are made with fuel n + 1, which is more than n has digits;
-- a hexadecimal topic number has 16 digits, as many as the format asks for; four accesses are enough
-- for an undisturbed call of the life cycle. A channel of the executor would need 2^62 tasks before its
-- size wraps, so that size is a number without bound.
--
-- What is not modelled. The C library, the broker, ParseFloat, float64 to int and the subscriptions
-- of the requestor are arguments of the definitions that use them. The texts of errors, logging,
-- and the names of properties in errors are left out. The unbuffered path of the direct publisher,
-- the buffered path of the request-reply publisher, the request-reply receiver, most builders and
-- the listeners of the messaging service are not modelled. What the C library and the broker answer
-- to the requests of a direct receiver is chosen by the schedule or given as a function. In
-- Termination a message that an automatic acknowledgement fails for is not told from others; the timer may go off at any time.
mod Prelude
pub mod Errors
pub mod Validation
pub mod Future
pub mod Executor
pub mod Lifecycle
pub mod Core
pub mod Publisher
pub mod Receiver
pub mod Endpoint
pub mod Service
pub mod Sdt
