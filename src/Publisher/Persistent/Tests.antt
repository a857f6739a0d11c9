-- ===== src/Publisher/Persistent/Tests.antt =====
-- The buffered persistent publisher: tests, and the theorem at concrete inputs.
use pubsubplus_go_client.Prelude.{ℕ, ◌≡◌, refl, List, [], ◌∷◌, ◌++◌, arith}
use pubsubplus_go_client.Prelude.Dict.{fetch, assign, discard, occurrences}
use pubsubplus_go_client.Publisher.Backpressure.{Backpressure}
use pubsubplus_go_client.Publisher.Direct
use pubsubplus_go_client.Publisher.Direct.{
  publish_write, submit, run_loop, close_graceful, interrupt_waits, close_task, close_ungraceful,
  close_buffer, drain_queue, accepted, would_block, error, takes, hands_over, publishes, looks,
  pops, writes, submits, moves, interrupts_waits, closes_graceful, closes_task, closes_ungraceful,
  closes_buffer, drains,
}
use pubsubplus_go_client.Publisher.Receipts
use pubsubplus_go_client.Publisher.Receipts.{
  add_correlation_context, remove_correlation_context, ack_handler, finish_ack, drain_ack_table,
  request_complete, no_receipts,
}
use pubsubplus_go_client.Publisher.Persistent.{
  Op, buffers, begins, acknowledges, finishes, terminates, requests, resolved, construct, step, run,
}
use pubsubplus_go_client.Publisher.Persistent.Contexts.{count}
use pubsubplus_go_client.Publisher.Persistent.Once.{told_of, reached, run_resolves_each}

-- A publish with its task, up to the result of Publish, and what the task does after it.
abbrev sends : ℕ → Direct.Sending → List Op
sends m r =
    buffers (writes m)
    ∷ buffers submits
    ∷ buffers (moves takes)
    ∷ buffers (moves hands_over)
    ∷ begins
    ∷ buffers (moves (publishes r))
    ∷ []

abbrev ends : List Op
ends = buffers (moves looks) ∷ buffers (moves pops) ∷ []

-- A message is acknowledged before its task has taken it out of the buffer; one fails; one is not
-- acknowledged before the termination, and one is written after the run loop has ended.
abbrev four_messages : List Op
four_messages =
    sends 1 accepted
    ++ (acknowledges 1 ∷ finishes ∷ [])
    ++ ends
    ++ sends 2 error
    ++ ends
    ++ sends 3 accepted
    ++ ends
    ++ (terminates
        ∷ buffers interrupts_waits
        ∷ buffers closes_graceful
        ∷ buffers (moves takes)
        ∷ buffers (writes 4)
        ∷ buffers submits
        ∷ requests
        ∷ buffers closes_buffer
        ∷ buffers drains
        ∷ [])

told_in_order :
    told_of Backpressure.reject 2 four_messages
      ++ (drain_ack_table (reached Backpressure.reject 2 four_messages).receipts).1
    ≡ resolved 1 ++ resolved 2 ++ resolved 4 ++ resolved 3
unfolding run step construct Direct.construct Direct.step publish_write submit run_loop
    close_graceful interrupt_waits close_buffer drain_queue Receipts.step add_correlation_context
    remove_correlation_context ack_handler finish_ack drain_ack_table request_complete no_receipts
    fetch assign discard
told_in_order = refl

run_resolves_each_example :
    occurrences 3 (
      told_of Backpressure.reject 2 four_messages
      ++ (drain_ack_table (reached Backpressure.reject 2 four_messages).receipts).1)
    ≡ count 3 (reached Backpressure.reject 2 four_messages).accepted
unfolding run step construct Direct.construct Direct.step publish_write submit run_loop
    close_graceful interrupt_waits close_buffer drain_queue Receipts.step add_correlation_context
    remove_correlation_context ack_handler finish_ack drain_ack_table request_complete no_receipts
    fetch assign discard
run_resolves_each_example =
    run_resolves_each Backpressure.reject 2 four_messages 3 (omega arith) (ground arith) refl refl
      refl

-- An unsolicited termination does not wait for the task that runs: the context of its message is
-- resolved with the buffer and again with the table.
abbrev cut_short : List Op
cut_short =
    sends 1 would_block
    ++ (terminates
        ∷ buffers interrupts_waits
        ∷ buffers closes_graceful
        ∷ buffers closes_task
        ∷ buffers closes_ungraceful
        ∷ buffers closes_buffer
        ∷ buffers drains
        ∷ [])

resolved_with_both :
    told_of Backpressure.reject 2 cut_short
      ++ (drain_ack_table (reached Backpressure.reject 2 cut_short).receipts).1
    ≡ resolved 1 ++ resolved 1
unfolding run step construct Direct.construct Direct.step publish_write submit run_loop
    close_graceful interrupt_waits close_task close_ungraceful close_buffer drain_queue
    Receipts.step add_correlation_context drain_ack_table no_receipts assign
resolved_with_both = refl
