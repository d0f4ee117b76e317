-- ===== src/AttemptLimiter/Tests.antt =====
-- The sixth failure of an account, and the theorem at it.
use nexusapi_enterprise.Prelude.{
  ℕ, suc, ◌-◌, ◌*◌, ◌^◌, ◌≡◌, ◌≢◌, some, none, leb, ltb, ◌==◌, if◌then◌else◌, arith,
}
use nexusapi_enterprise.Prelude.Int.{pos}
use nexusapi_enterprise.AttemptLimiter.{
  Attempts, threshold, base_lock, max_lock, retry_after, lock_time, fails_before, fail, reset,
}
use nexusapi_enterprise.AttemptLimiter.Law.{fail-locks, lock_time-doubles, reset-clears}

abbrev five_failures : Attempts
five_failures k =
    if k == 3 then some (record { fails = 5; locked_until = pos 31000000000 }) else none

fail-locks_example :
    (fails_before (fail (pos 40000000000) 3 five_failures 3) ≡ suc (fails_before (five_failures 3)))
    × (retry_after (pos 40000000000) 3 (fail (pos 40000000000) 3 five_failures) ≡ (
        if leb threshold (suc (fails_before (five_failures 3)))
        then lock_time (suc (fails_before (five_failures 3)) - threshold)
        else retry_after (pos 40000000000) 3 five_failures))
    × ((k : ℕ) → k ≢ 3 → fail (pos 40000000000) 3 five_failures k ≡ five_failures k)
fail-locks_example = fail-locks (pos 40000000000) 3 five_failures (omega arith)

lock_time-doubles_example : lock_time 29 ≡ (if ltb 29 5 then pos (base_lock * 2 ^ 29) else max_lock)
lock_time-doubles_example = lock_time-doubles 29

reset-clears_example :
    (retry_after (pos 40) 3 (reset 3 five_failures) ≡ pos 0)
    × (fails_before (reset 3 five_failures 3) ≡ 0)
    × ((k : ℕ) → k ≢ 3 → reset 3 five_failures k ≡ five_failures k)
reset-clears_example = reset-clears (pos 40) 3 five_failures
