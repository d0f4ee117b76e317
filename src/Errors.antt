-- ===== src/Errors.antt =====
-- The errors of repo and of pkg/apperr. An application error is its code and its HTTP status;
-- the message shown to the user and the cause kept for the log are left out.
use nexusapi_enterprise.Prelude.{ℕ, ◌==◌, if◌then◌else◌}

-- repo.ErrNotFound, ErrConflict, ErrOptimisticLock, ErrInsufficientBalance, and any other error of
-- the database: a duplicate key that is not handled, a value out of a column's range, a lost
-- connection.
pub data RepoError : Type 0 where
  not_found conflict optimistic_lock insufficient_balance database : RepoError

pub record AppError : Type 0 where
  pub code : ℕ
  pub http_status : ℕ

abbrev pub unauthenticated : AppError
unauthenticated = record { code = 10001; http_status = 401 }

abbrev pub session_expired : AppError
session_expired = record { code = 10003; http_status = 401 }

abbrev pub forbidden : AppError
forbidden = record { code = 10401; http_status = 403 }

abbrev pub readonly_blocked : AppError
readonly_blocked = record { code = 10402; http_status = 403 }

abbrev pub invalid_param : AppError
invalid_param = record { code = 20001; http_status = 422 }

-- apperr.New(CodeInvalidParam, 409, ...)
abbrev pub invalid_state : AppError
invalid_state = record { code = 20001; http_status = 409 }

abbrev pub approval_handled : AppError
approval_handled = record { code = 20902; http_status = 409 }

abbrev pub not_found_error : AppError
not_found_error = record { code = 30001; http_status = 404 }

abbrev pub conflict_error : AppError
conflict_error = record { code = 30003; http_status = 409 }

abbrev pub optimistic_lock_error : AppError
optimistic_lock_error = record { code = 20904; http_status = 409 }

abbrev pub internal : AppError
internal = record { code = 50000; http_status = 500 }

-- The HTTP status that FromUpstream gives to a code of the adapter.
unfoldable pub upstream_status : ℕ → ℕ
upstream_status code =
    if code == 50500
    then 502
    else if code == 50503
    then 503
    else if code == 50504
    then 504
    else if code == 50301
    then 502
    else if code == 50000
    then 500
    else 200

unfoldable pub from_upstream : ℕ → AppError
unfolding upstream_status
from_upstream code = record { code = code; http_status = upstream_status code }
