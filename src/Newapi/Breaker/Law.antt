-- ===== src/Newapi/Breaker/Law.antt =====
-- The states of the circuit breaker and its steps.
use nexusapi_enterprise.Prelude.{
  ℕ, suc, ◌≤◌, ◌<◌, ◌≡◌, ◌↔◌, refl, ap, ◌∙◌, Bool, true, false, List, [], ◌∷◌, arith,
}
use nexusapi_enterprise.Prelude.Int.{ℤ}
use mathlib.Core.Path.{subst}
use nexusapi_enterprise.Newapi.Breaker.{
  BreakerState, cb_closed, cb_open, cb_half_open, CircuitBreaker, new_circuit_breaker, allow,
  on_success, probe_abort, on_failure,
}

-- Closed exactly while the failures in a row are below the threshold; a probe is out only in the
-- half-open state.
abbrev pub StateFits : BreakerState → ℕ → ℕ → Bool → Type 0
StateFits cb_closed fails threshold probing = (fails < threshold) × (probing ≡ false)
StateFits cb_open fails threshold probing = (threshold ≤ fails) × (probing ≡ false)
StateFits cb_half_open fails threshold probing = threshold ≤ fails

pub IsBreaker : CircuitBreaker → Type 0
IsBreaker cb = (0 < cb.threshold) × StateFits cb.state cb.consec_fails cb.threshold cb.probing

-- A call of a method of the breaker, with its time.
pub data BreakerCall : Type 0 where
  allows fails : ℤ → BreakerCall
  succeeds aborts : BreakerCall

abbrev pub breaker_after : CircuitBreaker → BreakerCall → CircuitBreaker
breaker_after cb (allows now) = (allow now cb).1
breaker_after cb (fails now) = on_failure now cb
breaker_after cb succeeds = on_success cb
breaker_after cb aborts = probe_abort cb

-- A new breaker after calls of its methods, the latest first.
unfoldable pub breaker_of : ℕ → ℤ → List BreakerCall → CircuitBreaker
breaker_of threshold cooldown [] = new_circuit_breaker threshold cooldown
breaker_of threshold cooldown (c ∷ cs) = breaker_after (breaker_of threshold cooldown cs) c

-- The failures since the last success, or since the start.
unfoldable pub failures_in_row : List BreakerCall → ℕ
failures_in_row [] = 0
failures_in_row (fails now ∷ cs) = suc (failures_in_row cs)
failures_in_row (succeeds ∷ cs) = 0
failures_in_row (allows now ∷ cs) = failures_in_row cs
failures_in_row (aborts ∷ cs) = failures_in_row cs

pub new-IsBreaker :
    (threshold : ℕ) (cooldown : ℤ)
    → 0 < threshold
    → IsBreaker (new_circuit_breaker threshold cooldown)
unfolding IsBreaker
new-IsBreaker threshold cooldown p = (p, (p, refl))

pub allow-IsBreaker : (now : ℤ) (cb : CircuitBreaker) → IsBreaker cb → IsBreaker (allow now cb).1
unfolding allow IsBreaker
allow-IsBreaker now cb w = ground arith

pub on_success-IsBreaker : (cb : CircuitBreaker) → IsBreaker cb → IsBreaker (on_success cb)
unfolding on_success IsBreaker
on_success-IsBreaker cb w = (w.0, (w.0, refl))

pub probe_abort-IsBreaker : (cb : CircuitBreaker) → IsBreaker cb → IsBreaker (probe_abort cb)
unfolding probe_abort IsBreaker
probe_abort-IsBreaker cb w = ground arith

pub on_failure-IsBreaker :
    (now : ℤ) (cb : CircuitBreaker) → IsBreaker cb → IsBreaker (on_failure now cb)
unfolding on_failure IsBreaker
on_failure-IsBreaker now cb w = ground arith

breaker_after-IsBreaker :
    (cb : CircuitBreaker) (c : BreakerCall) → IsBreaker cb → IsBreaker (breaker_after cb c)
breaker_after-IsBreaker cb (allows now) w = allow-IsBreaker now cb w
breaker_after-IsBreaker cb (fails now) w = on_failure-IsBreaker now cb w
breaker_after-IsBreaker cb succeeds w = on_success-IsBreaker cb w
breaker_after-IsBreaker cb aborts w = probe_abort-IsBreaker cb w

allow-counts :
    (now : ℤ) (cb : CircuitBreaker)
    → ((allow now cb).1.consec_fails ≡ cb.consec_fails)
      × ((allow now cb).1.threshold ≡ cb.threshold)
unfolding allow
allow-counts now cb = ground arith

on_failure-counts :
    (now : ℤ) (cb : CircuitBreaker)
    → ((on_failure now cb).consec_fails ≡ suc cb.consec_fails)
      × ((on_failure now cb).threshold ≡ cb.threshold)
unfolding on_failure
on_failure-counts now cb = ground arith

breaker_of-counts :
    (threshold : ℕ) (cooldown : ℤ) (cs : List BreakerCall)
    → ((breaker_of threshold cooldown cs).consec_fails ≡ failures_in_row cs)
      × ((breaker_of threshold cooldown cs).threshold ≡ threshold)
unfolding breaker_of failures_in_row on_success probe_abort
breaker_of-counts threshold cooldown [] = (refl, refl)
breaker_of-counts threshold cooldown (allows now ∷ cs) =
    let (count, same) = allow-counts now (breaker_of threshold cooldown cs) in
    let (count', same') = breaker_of-counts threshold cooldown cs in (count ∙ count', same ∙ same')
breaker_of-counts threshold cooldown (fails now ∷ cs) =
    let (count, same) = on_failure-counts now (breaker_of threshold cooldown cs) in
    let (count', same') = breaker_of-counts threshold cooldown cs in
    (count ∙ ap suc count', same ∙ same')
breaker_of-counts threshold cooldown (succeeds ∷ cs) =
    (refl, (breaker_of-counts threshold cooldown cs).1)
breaker_of-counts threshold cooldown (aborts ∷ cs) = breaker_of-counts threshold cooldown cs

breaker_of-IsBreaker :
    (threshold : ℕ) (cooldown : ℤ) (cs : List BreakerCall)
    → 0 < threshold
    → IsBreaker (breaker_of threshold cooldown cs)
unfolding breaker_of
breaker_of-IsBreaker threshold cooldown [] p = new-IsBreaker threshold cooldown p
breaker_of-IsBreaker threshold cooldown (c ∷ cs) p =
    breaker_after-IsBreaker (breaker_of threshold cooldown cs) c
      (breaker_of-IsBreaker threshold cooldown cs p)

fits_closed :
    (cb : CircuitBreaker)
    → IsBreaker cb
    → ((cb.state ≡ cb_closed) ↔ (cb.consec_fails < cb.threshold))
      × (cb.probing ≡ true → cb.state ≡ cb_half_open)
unfolding IsBreaker
fits_closed cb w = (ground arith, λ e. ground arith)

-- However the calls of the methods of a breaker with a threshold above 0 are interleaved, and at
-- whatever times: it is closed exactly while fewer calls of onFailure than the threshold have come
-- since the last onSuccess, and a probe is marked only in the half-open state.
pub breaker_of-closed :
    (threshold : ℕ) (cooldown : ℤ) (cs : List BreakerCall)
    → 0 < threshold
    → (((breaker_of threshold cooldown cs).state ≡ cb_closed) ↔ (failures_in_row cs < threshold))
      × ((breaker_of threshold cooldown cs).probing ≡ true
          → (breaker_of threshold cooldown cs).state ≡ cb_half_open)
breaker_of-closed threshold cooldown cs p =
    let cb = breaker_of threshold cooldown cs in
    let (closed, probing) = fits_closed cb (breaker_of-IsBreaker threshold cooldown cs p) in
    let (count, same) = breaker_of-counts threshold cooldown cs in
    (
      subst (λ x. (cb.state ≡ cb_closed) ↔ (failures_in_row cs < x)) same
          (subst (λ x. (cb.state ≡ cb_closed) ↔ (x < cb.threshold)) count closed),
      probing,
    )
