-- ===== src/Publisher/Direct/Tests.antt =====
-- The direct publisher: tests, and the theorems at concrete inputs.
use pubsubplus_go_client.Prelude.{ℕ, ◌≡◌, refl, true, false, List, [], ◌∷◌, ◌++◌, none}
use pubsubplus_go_client.Publisher.Backpressure.{Backpressure}
use pubsubplus_go_client.Publisher.Direct.{
  Direct, Op, written, queued, overflow, sent, popped, done, construct, step, run, publish_write,
  submit, run_loop, close_graceful, interrupt_waits, close_task, close_ungraceful, close_buffer,
  drain_queue, terminate_core, terminates_core, interrupted, would_block, accepted, takes,
  hands_over, publishes, looks, pops, writes, submits, moves, interrupts_waits, closes_graceful,
  closes_task, closes_ungraceful, closes_buffer, drains,
}
use pubsubplus_go_client.Publisher.Direct.Accounting.{written_all, taken_all}
use pubsubplus_go_client.Publisher.Direct.Order.{
  unsent, published_all, reached, run_publishes, submit-queued,
}
use pubsubplus_go_client.Publisher.Direct.Tasks.{queued_all, remaining}
use pubsubplus_go_client.Publisher.Direct.Graceful.{own_moves, own_moves-reached}

abbrev small : Direct ℕ
small = construct Backpressure.reject 2 true

-- The first task reads that the buffer is not full; the buffer is filled and a publish refused
-- before the task takes its message out. No readiness is told then, and none by the second task.
abbrev overtaken : List (Op ℕ)
overtaken =
    writes 1
    ∷ submits
    ∷ moves takes
    ∷ moves hands_over
    ∷ moves (publishes accepted)
    ∷ moves looks
    ∷ writes 2
    ∷ submits
    ∷ writes 3
    ∷ moves pops
    ∷ moves takes
    ∷ moves hands_over
    ∷ moves (publishes accepted)
    ∷ moves looks
    ∷ moves pops
    ∷ []

readiness_untold : run overtaken small ≡ (
  small,
  written 1
      ∷ queued 1
      ∷ done
      ∷ done
      ∷ sent 1
      ∷ done
      ∷ written 2
      ∷ queued 2
      ∷ overflow 3
      ∷ popped 1 none false
      ∷ done
      ∷ done
      ∷ sent 2
      ∷ done
      ∷ popped 2 none false
      ∷ [],
)
unfolding run step construct publish_write submit run_loop
readiness_untold = refl

abbrev two_written : List (Op ℕ)
two_written = writes 1 ∷ submits ∷ writes 2 ∷ []

-- A termination that cuts the run loop short, with both messages left in the buffer.
abbrev cut_short : List (Op ℕ)
cut_short =
    two_written
    ++ (interrupts_waits
        ∷ closes_graceful
        ∷ closes_task
        ∷ closes_ungraceful
        ∷ moves takes
        ∷ closes_buffer
        ∷ drains
        ∷ submits
        ∷ [])

one_drained : taken_all (run cut_short (construct Backpressure.wait 2 true)).1 ≡ 1 ∷ []
unfolding run step construct publish_write submit run_loop interrupt_waits close_graceful close_task
    close_ungraceful close_buffer drain_queue
one_drained = refl

run_publishes_example :
    let (s, events) = run two_written (construct Backpressure.wait 2 true) in
    written_all events ≡ published_all events ++ unsent s
run_publishes_example =
    run_publishes Backpressure.wait 2 true two_written
      (unfold run step construct publish_write submit in ((refl, refl), refl))

submit-queued_example : (step submits (reached Backpressure.wait 2 true two_written)).1 ≡ queued 2
submit-queued_example =
    submit-queued Backpressure.wait 2 true two_written 2
      (unfold run step construct publish_write submit in (refl, refl))
      (unfold run step construct publish_write submit in refl)

-- A termination begins while the first task waits for room and the second message has no task yet.
abbrev ending : List (Op ℕ)
ending =
    writes 1
    ∷ submits
    ∷ moves takes
    ∷ moves hands_over
    ∷ moves (publishes would_block)
    ∷ writes 2
    ∷ interrupts_waits
    ∷ closes_graceful
    ∷ submits
    ∷ []

own_moves-reached_example :
    let s = reached Backpressure.wait 2 true ending in
    let (s', more) = run (own_moves (remaining s) s) s in
    (s'.complete ≡ true)
    × (queued_all (run ending (construct Backpressure.wait 2 true)).1 ++ queued_all more
        ≡ published_all (run ending (construct Backpressure.wait 2 true)).1 ++ published_all more)
own_moves-reached_example =
    own_moves-reached Backpressure.wait 2 true ending
      (unfold run step construct publish_write submit run_loop interrupt_waits close_graceful in
        (refl, refl))
      (unfold run step construct publish_write submit run_loop interrupt_waits close_graceful in
        refl)

-- The core's termination ends the wait of a task: its message stays in the buffer, and the next task
-- takes it out for its own.
abbrev given_up : List (Op ℕ)
given_up =
    writes 1
    ∷ submits
    ∷ moves takes
    ∷ moves hands_over
    ∷ moves (publishes would_block)
    ∷ terminates_core
    ∷ moves interrupted
    ∷ writes 2
    ∷ submits
    ∷ moves takes
    ∷ moves hands_over
    ∷ moves (publishes accepted)
    ∷ moves looks
    ∷ moves pops
    ∷ []

other_taken :
    let (s, events) = run given_up (construct Backpressure.wait 2 true) in
    (published_all events ≡ 2 ∷ []) × (taken_all events ≡ 1 ∷ []) × (s.buffer ≡ 2 ∷ [])
unfolding run step construct publish_write submit run_loop terminate_core
other_taken = (refl, refl, refl)
