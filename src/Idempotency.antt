-- ===== src/Idempotency.antt =====
-- repo/idemp.go: the record of one idempotency key of one organization and endpoint. The three
-- statements are each one step on the row; a response is the list of its bytes.
pub mod Law
mod Tests
use nexusapi_enterprise.Prelude.{ℕ, Option, none, some, List, [], ◌∷◌, Result, ok, err}

pub data RecordState : Type 0 where
  in_progress : RecordState
  finished : ℕ → List ℕ → RecordState

pub data IdempotencyError : Type 0 where
  idempotent_in_progress : IdempotencyError

-- What BeginIdempotent answers: the caller goes on, or replays a status and a response.
pub data Begun : Type 0 where
  first_call : Begun
  replay : ℕ → List ℕ → Begun

-- BeginIdempotent
unfoldable pub begin_idempotent :
    Option RecordState → Result IdempotencyError Begun × Option RecordState
begin_idempotent none = (ok first_call, some in_progress)
begin_idempotent (some in_progress) = (err idempotent_in_progress, some in_progress)
begin_idempotent (some (finished status response)) =
    (ok (replay status response), some (finished status response))

-- FinishIdempotent
unfoldable pub finish_idempotent : ℕ → List ℕ → Option RecordState → Option RecordState
finish_idempotent status response none = none
finish_idempotent status response (some _) = some (finished status response)

-- DropIdempotent, which deletes a row in progress only.
unfoldable pub drop_idempotent : Option RecordState → Option RecordState
drop_idempotent (some in_progress) = none
drop_idempotent row = row
