-- ===== src/Receiver/Direct/Tests.antt =====
-- The direct receiver: tests, and the theorems at concrete inputs.
use pubsubplus_go_client.Prelude.{ℕ, ◌≡◌, refl, true, false, List, [], ◌∷◌}
use pubsubplus_go_client.Receiver.Direct.{
  Strategy, Op, construct, calls_back, continues, receives, hands_on, step, run, pushed, popped,
  dropped, delivered, evicted, done, message_callback, receive_message, hand_on,
}
use pubsubplus_go_client.Receiver.Direct.Indication.{AllIndicated, run_indicates}

-- Two messages for a buffer of one, a receive, and a third message.
abbrev crowded : List (Op ℕ)
crowded =
    calls_back 1
    ∷ continues
    ∷ calls_back 2
    ∷ continues
    ∷ receives
    ∷ hands_on
    ∷ calls_back 3
    ∷ continues
    ∷ []

latest_dropped :
    (run crowded (construct Strategy.drop_latest 1)).1
    ≡ done
      ∷ pushed 1 false
      ∷ done
      ∷ dropped 2
      ∷ popped 1 false
      ∷ delivered 1 false
      ∷ done
      ∷ pushed 3 true
      ∷ []
unfolding run step construct message_callback receive_message hand_on
latest_dropped = refl

-- The oldest is taken out of the buffer for the latest, and goes nowhere.
abbrev evicting : List (Op ℕ)
evicting =
    calls_back 1
    ∷ continues
    ∷ calls_back 2
    ∷ continues
    ∷ continues
    ∷ continues
    ∷ continues
    ∷ receives
    ∷ hands_on
    ∷ []

oldest_dropped :
    (run evicting (construct Strategy.drop_oldest 1)).1
    ≡ done
      ∷ pushed 1 false
      ∷ done
      ∷ done
      ∷ evicted 1 false
      ∷ done
      ∷ pushed 2 false
      ∷ popped 2 false
      ∷ delivered 2 true
      ∷ []
unfolding run step construct message_callback receive_message hand_on
oldest_dropped = refl

abbrev half_way : List (Op ℕ)
half_way = calls_back 1 ∷ continues ∷ calls_back 2 ∷ continues ∷ continues ∷ continues ∷ []

run_indicates_example : AllIndicated false (run crowded (construct Strategy.drop_latest 1)).1
run_indicates_example = run_indicates 1 crowded
