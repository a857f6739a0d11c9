-- ===== src/Service/Connection.antt =====
-- What holds of the messaging service after any schedule of threads that connect it, disconnect it
-- and report that its session went down.
use pubsubplus_go_client.Prelude.{ℕ, ◌+◌, ◌≤◌, ◌<◌, ◌≡◌, refl, true, false, not, List, ltb, arith}
use pubsubplus_go_client.Prelude.Family.{sum_below, sum_below-zero}
use pubsubplus_go_client.Prelude.Interleaving.{
  System, Picks, run, run-total, run-keeps, run-bounded, run-covered,
}
use pubsubplus_go_client.Service.{
  is_not_connected, Service, Pc, Input, idle, new_messaging_service, is_connected,
}
use pubsubplus_go_client.Service.Rights.{rank, discipline, init, init-Inv}
use pubsubplus_go_client.Service.Totals.{
  one_if, ready, before_connect, before_disconnect, before_close, connects_at, ends_at,
  connects-step, closes-step, disconnects-step, owed, connect_future-step, disconnect_future-step,
  Sound, step-Sound, new_messaging_service-Sound,
}

module _ {E : Type 0} where
  module _ (n : ℕ) (picks : List (ℕ × Input E)) (h : Picks n picks) where
    abbrev end' : System (Service E) (Pc E)
    end' = run discipline picks init

    run-connects :
        end'.shared.connects
          + one_if (is_not_connected end'.shared.state)
          + sum_below before_connect n end'.pcs
        ≡ 1
    unfolding new_messaging_service
    run-connects =
        let total =
          run-total discipline (λ s. s.connects + one_if (is_not_connected s.state)) before_connect
            connects-step n picks init h (init-Inv n) in
        omega (arith, total, sum_below-zero before_connect n (λ _. idle) (λ i b. refl))

    run-closes :
        end'.shared.closes + ready end'.shared.state + sum_below before_close n end'.pcs ≡ 1
    unfolding new_messaging_service
    run-closes =
        let total =
          run-total discipline (λ s. s.closes + ready s.state) before_close closes-step n picks init
            h (init-Inv n) in
        omega (arith, total, sum_below-zero before_close n (λ _. idle) (λ i b. refl))

    run-disconnects :
        end'.shared.disconnects + ready end'.shared.state + sum_below before_disconnect n end'.pcs
        ≤ 1
    unfolding new_messaging_service
    run-disconnects =
        let total =
          run-bounded discipline (λ s. s.disconnects + ready s.state) before_disconnect
            disconnects-step n picks init h (init-Inv n) in
        omega (arith, total, sum_below-zero before_disconnect n (λ _. idle) (λ i b. refl))

    run-Sound : Sound end'.shared
    run-Sound =
        run-keeps discipline Sound step-Sound n picks init h (init-Inv n)
          new_messaging_service-Sound

    -- Whatever the schedule of calls of Connect and Disconnect and of sessions that go down, the
    -- transport is connected, disconnected and closed at most once each.
    pub run-once :
        (end'.shared.connects ≤ 1) × (end'.shared.disconnects ≤ 1) × (end'.shared.closes ≤ 1)
    run-once =
        (omega (arith, run-connects), omega (arith, run-disconnects), omega (arith, run-closes))

    -- When IsConnected is true, Connect of the transport has succeeded, the transport was neither
    -- disconnected nor closed, and the end of the service is told to nobody.
    is_connected-run :
        is_connected end'.shared ≡ true
        → (end'.shared.transport_connected ≡ true)
          × (end'.shared.disconnects ≡ 0)
          × (end'.shared.closes ≡ 0)
          × (end'.shared.disconnect_future.resolved ≡ false)
    unfolding is_connected
    is_connected-run c =
        let v = run-Sound in
        let live = v.live c in
        let ended = v.ended in let once = run-closes in let once' = run-disconnects in ground arith

    -- Once no thread is at the work of Connect, Disconnect or the handler of the session, nobody that
    -- waits is forgotten and nobody is told too early: the result of Connect is there exactly if the
    -- service is no longer not connected, that of Disconnect exactly if the service has begun to end.
    pub run-answers :
        ((t : ℕ) → t < n → (connects_at (end'.pcs t) ≡ false) × (ends_at (end'.pcs t) ≡ false))
        → (end'.shared.connect_future.resolved ≡ not (is_not_connected end'.shared.state))
          × (end'.shared.disconnect_future.resolved ≡ ltb 2 (rank end'.shared.state))
    unfolding new_messaging_service
    run-answers quiet =
        let c0 =
          sum_below-zero (λ pc. one_if (connects_at pc)) n end'.pcs
            (λ i b. ground (arith, quiet i b)) in
        let d0 =
          sum_below-zero (λ pc. one_if (ends_at pc)) n end'.pcs
            (λ i b. ground (arith, quiet i b)) in
        let c =
          run-covered discipline (λ s. owed s.connect_future)
            (λ s. one_if (is_not_connected s.state)) (λ pc. one_if (connects_at pc))
            connect_future-step n picks init h (init-Inv n) (ground arith) in
        let d =
          run-covered discipline (λ s. owed s.disconnect_future) (λ s. ready s.state)
            (λ pc. one_if (ends_at pc)) disconnect_future-step n picks init h (init-Inv n)
            (ground arith) in
        let v = run-Sound in
        let begun = v.begun in let ended = v.ended in (ground arith, ground arith)
