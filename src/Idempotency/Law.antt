-- ===== src/Idempotency/Law.antt =====
-- How often a request with one key is executed.
use nexusapi_enterprise.Prelude.{
  ℕ, suc, ◌+◌, ◌≤◌, Option, none, some, List, [], ◌∷◌, arith, Result, ok,
}
use nexusapi_enterprise.Idempotency.{
  RecordState, in_progress, finished, IdempotencyError, Begun, first_call, begin_idempotent,
  finish_idempotent, drop_idempotent,
}

-- A call of one of the three statements.
pub data IdempotencyCall : Type 0 where
  begins drops : IdempotencyCall
  finishes : ℕ → List ℕ → IdempotencyCall

abbrev pub row_after : IdempotencyCall → Option RecordState → Option RecordState
row_after begins row = (begin_idempotent row).1
row_after drops row = drop_idempotent row
row_after (finishes status response) row = finish_idempotent status response row

abbrev pub is_first : Result IdempotencyError Begun → ℕ
is_first (ok first_call) = 1
is_first _ = 0

-- The executions that a call starts, and the running executions that it gives up.
abbrev pub executes : IdempotencyCall → Option RecordState → ℕ
executes begins row = is_first (begin_idempotent row).0
executes _ row = 0

abbrev pub gives_up : IdempotencyCall → Option RecordState → ℕ
gives_up drops (some in_progress) = 1
gives_up _ _ = 0

unfoldable pub executions : List IdempotencyCall → Option RecordState → ℕ
executions [] row = 0
executions (c ∷ cs) row = executes c row + executions cs (row_after c row)

unfoldable pub given_up : List IdempotencyCall → Option RecordState → ℕ
given_up [] row = 0
given_up (c ∷ cs) row = gives_up c row + given_up cs (row_after c row)

-- 1 while there is a row.
abbrev present : Option RecordState → ℕ
present none = 0
present (some _) = 1

executions_bound :
    (cs : List IdempotencyCall) (row : Option RecordState)
    → executions cs row + present row ≤ suc (given_up cs row)
unfolding executions given_up begin_idempotent finish_idempotent drop_idempotent
executions_bound [] none = omega arith
executions_bound [] (some st) = omega arith
executions_bound (begins ∷ cs) none = omega (arith, executions_bound cs (some in_progress))
executions_bound (begins ∷ cs) (some in_progress) =
    omega (arith, executions_bound cs (some in_progress))
executions_bound (begins ∷ cs) (some (finished status response)) =
    omega (arith, executions_bound cs (some (finished status response)))
executions_bound (drops ∷ cs) none = omega (arith, executions_bound cs none)
executions_bound (drops ∷ cs) (some in_progress) = omega (arith, executions_bound cs none)
executions_bound (drops ∷ cs) (some (finished status response)) =
    omega (arith, executions_bound cs (some (finished status response)))
executions_bound (finishes status response ∷ cs) none = omega (arith, executions_bound cs none)
executions_bound (finishes status response ∷ cs) (some in_progress) =
    omega (arith, executions_bound cs (some (finished status response)))
executions_bound (finishes status response ∷ cs) (some (finished status' response')) =
    omega (arith, executions_bound cs (some (finished status response)))

-- Whatever calls come in whatever order, from a key that is not used yet: a request is executed
-- once, and once more for each execution that was given up while it was in progress, at most. Giving
-- up a request that has finished allows no further execution.
pub executions-at_most : (cs : List IdempotencyCall) → executions cs none ≤ suc (given_up cs none)
executions-at_most cs = omega (arith, executions_bound cs none)
