-- ===== src/Idempotency/Tests.antt =====
-- A request that fails once, is tried again and repeated, and the theorem at it.
use nexusapi_enterprise.Prelude.{suc, ◌≤◌, none, [], ◌∷◌, List}
use nexusapi_enterprise.Idempotency.Law.{
  IdempotencyCall, begins, drops, finishes, executions, given_up, executions-at_most,
}

abbrev retried : List IdempotencyCall
retried = begins ∷ begins ∷ drops ∷ begins ∷ finishes 200 (123 ∷ []) ∷ begins ∷ drops ∷ []

executions-at_most_example : executions retried none ≤ suc (given_up retried none)
executions-at_most_example = executions-at_most retried
