-- ===== src/Core/Provisioner/Tests.antt =====
-- The provisioner: tests, and the theorems at concrete inputs.
use pubsubplus_go_client.Prelude.{ℕ, true, false, List, [], ◌∷◌, none, some}
use pubsubplus_go_client.Core.Events.{Info}
use pubsubplus_go_client.Core.Provisioner.{
  Op, starts, terminates, provisions, deprovisions, confirms,
}

abbrev ok_for : ℕ → Info ℕ
ok_for p = record { error = none; info_string = []; correlation_p = p; user_p = 0 }

-- The second request is refused by the C library; the first is answered, and the session ends.
abbrev calls : List (Op ℕ)
calls =
    starts
    ∷ provisions (λ properties id ignores. none) [] false
    ∷ deprovisions (λ properties id ignores. some 4) [] true
    ∷ confirms (ok_for 1)
    ∷ terminates 9
    ∷ []
