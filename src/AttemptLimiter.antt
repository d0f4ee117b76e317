-- ===== src/AttemptLimiter.antt =====
-- handler/authlimit.go: attemptLimiter, the lock on an account or an address after failed logins.
-- Each method runs under the mutex. The map is a function of the key; times and durations are in
-- nanoseconds, and a shift that passes 64 bits wraps around.
pub mod Law
mod Tests
use nexusapi_enterprise.Prelude.{
  ℕ, suc, ◌+◌, ◌-◌, ◌*◌, ◌^◌, Bool, true, false, ◌||◌, Option, none, some, ltb, leb, ◌==◌,
  if◌then◌else◌,
}
use nexusapi_enterprise.Prelude.Int.{ℤ, pos, ◌+ℤ◌, ◌-ℤ◌, ltb_ℤ, leb_ℤ}
use nexusapi_enterprise.Prelude.Int64.{i64}

pub record AttemptState : Type 0 where
  pub fails : ℕ
  pub locked_until : ℤ

abbrev pub Attempts : Type 0
Attempts = ℕ → Option AttemptState

-- newAttemptLimiter: five failures, 30 s, 15 min.
abbrev pub threshold : ℕ
threshold = 5

abbrev pub base_lock : ℕ
base_lock = 30000000000

abbrev pub max_lock : ℤ
max_lock = pos 900000000000

-- retryAfter
unfoldable pub retry_after : ℤ → ℕ → Attempts → ℤ
retry_after now key st = elim (st key) [
  | none ↦ pos 0
  | some s ↦ if ltb_ℤ (pos 0) (s.locked_until -ℤ now) then s.locked_until -ℤ now else pos 0
]

-- d := a.baseLock << uint(s.fails-a.threshold); if d <= 0 || d > a.maxLock { d = a.maxLock }
unfoldable pub lock_time : ℕ → ℤ
lock_time k =
    let d = i64 (pos (base_lock * 2 ^ k)) in
    if leb_ℤ d (pos 0) || ltb_ℤ max_lock d then max_lock else d

abbrev pub fails_before : Option AttemptState → ℕ
fails_before none = 0
fails_before (some s) = s.fails

abbrev pub locked_before : Option AttemptState → ℤ
locked_before none = pos 0
locked_before (some s) = s.locked_until

abbrev pub failed_state : ℤ → Option AttemptState → AttemptState
failed_state now old = record {
  fails = suc (fails_before old);
  locked_until =
      if leb threshold (suc (fails_before old))
      then now +ℤ lock_time (suc (fails_before old) - threshold)
      else locked_before old;
}

-- fail
unfoldable pub fail : ℤ → ℕ → Attempts → Attempts
fail now key st k = if k == key then some (failed_state now (st key)) else st k

-- reset
unfoldable pub reset : ℕ → Attempts → Attempts
reset key st k = if k == key then none else st k

-- gate: the time after which to try again, nothing if neither key is locked.
unfoldable pub gate : ℤ → ℕ → ℕ → Attempts → Option ℤ
gate now account address st =
    let d = retry_after now account st in
    let di = retry_after now address st in
    let longest = if ltb_ℤ d di then di else d in
    if leb_ℤ longest (pos 0) then none else some longest
