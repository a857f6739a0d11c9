-- ===== src/Future.antt =====
-- internal/impl/future/future_error.go: a result that is waited for. The mutex makes each call one
-- atomic step; a `Get` that would wait on the condition is `none`.
use pubsubplus_go_client.Prelude.{Bool, true, false, Option, none, some, if◌then◌else◌}

-- A Go `error` is `Option E`, with `none` for nil.
pub record Future (E : Type 0) : Type 0 where
  pub resolved : Bool
  pub result : Option E

module _ {E : Type 0} where
  unfoldable pub new_future_error : Future E
  new_future_error = record { resolved = false; result = none }

  unfoldable pub complete : Option E → Future E → Future E
  complete e f = record { resolved = true; result = e }

  unfoldable pub get : Future E → Option (Option E)
  get f = if f.resolved then some f.result else none
