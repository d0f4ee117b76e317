-- ===== src/Newapi/Breaker.antt =====
-- adapter/newapi/ratelimit.go: circuitBreaker. Each method runs under the mutex, so it is one step.
-- Times and durations are in nanoseconds; the difference of two times is not saturated.
pub mod Law
use nexusapi_enterprise.Prelude.{ℕ, suc, Bool, true, false, leb, if◌then◌else◌}
use nexusapi_enterprise.Prelude.Int.{ℤ, pos, ◌-ℤ◌, leb_ℤ}

pub data BreakerState : Type 0 where
  cb_closed cb_open cb_half_open : BreakerState

pub record CircuitBreaker : Type 0 where
  pub state : BreakerState
  pub threshold : ℕ
  pub cooldown : ℤ
  pub consec_fails : ℕ
  pub opened_at : ℤ
  pub probing : Bool

-- newCircuitBreaker
abbrev pub new_circuit_breaker : ℕ → ℤ → CircuitBreaker
new_circuit_breaker threshold cooldown = record {
  state = cb_closed;
  threshold = threshold;
  cooldown = cooldown;
  consec_fails = 0;
  opened_at = pos 0;
  probing = false;
}

-- allow, at the time `now`
unfoldable pub allow : ℤ → CircuitBreaker → Bool × CircuitBreaker
allow now cb = elim cb.state [
  | cb_closed ↦ (true, cb)
  | cb_open ↦
      if leb_ℤ cb.cooldown (now -ℤ cb.opened_at)
      then (true, record cb { state = cb_half_open; probing = true })
      else (false, cb)
  | cb_half_open ↦ if cb.probing then (false, cb) else (true, record cb { probing = true })
]

-- onSuccess
unfoldable pub on_success : CircuitBreaker → CircuitBreaker
on_success cb = record cb { consec_fails = 0; state = cb_closed; probing = false }

-- probeAbort
unfoldable pub probe_abort : CircuitBreaker → CircuitBreaker
probe_abort cb = record cb { probing = false }

abbrev pub reopened : ℤ → CircuitBreaker → CircuitBreaker
reopened now cb = record cb {
  consec_fails = suc cb.consec_fails;
  probing = false;
  state = cb_open;
  opened_at = now;
}

-- onFailure
unfoldable pub on_failure : ℤ → CircuitBreaker → CircuitBreaker
on_failure now cb = elim cb.state [
  | cb_half_open ↦ reopened now cb
  | cb_closed ↦
      if leb cb.threshold (suc cb.consec_fails)
      then reopened now cb
      else record cb { consec_fails = suc cb.consec_fails; probing = false }
  | cb_open ↦
      if leb cb.threshold (suc cb.consec_fails)
      then reopened now cb
      else record cb { consec_fails = suc cb.consec_fails; probing = false }
]
