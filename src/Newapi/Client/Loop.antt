-- ===== src/Newapi/Client/Loop.antt =====
-- What the attempts of one call do to the breaker, and which result they leave.
use nexusapi_enterprise.Prelude.{
  ℕ, zero, suc, ◌+◌, ◌≤◌, ◌<◌, ◌≡◌, ◌⊎◌, refl, sym, ◌∙◌, inl, inr, true, false, not, ◌&&◌, ltb,
  ◌==◌, Option, arith, Bool-cases, Result, Result-cases, ok, err,
}
use mathlib.Core.Path.{subst}
use nexusapi_enterprise.Prelude.Int.{ℤ}
use nexusapi_enterprise.Newapi.Breaker.{CircuitBreaker, on_success, on_failure, probe_abort}
use nexusapi_enterprise.Newapi.Breaker.Law.{IsBreaker, on_success-IsBreaker, on_failure-IsBreaker}
use nexusapi_enterprise.Newapi.Classify.{ApiStep, UpstreamError, retryable}
use nexusapi_enterprise.Newapi.Client.{do_once, Attempt, do_loop}

-- A call settles the breaker: no probe is left out, and its state is one that the steps allow.
pub record Settles (cb : CircuitBreaker) : Type 0 where
  pub breaker : IsBreaker cb
  pub given_back : cb.probing ≡ false

on_failure-released : (now : ℤ) (cb : CircuitBreaker) → (on_failure now cb).probing ≡ false
unfolding on_failure
on_failure-released now cb = ground arith

on_success-released : (cb : CircuitBreaker) → (on_success cb).probing ≡ false
unfolding on_success
on_success-released cb = refl

pub probe_abort-released : (cb : CircuitBreaker) → (probe_abort cb).probing ≡ false
unfolding probe_abort
probe_abort-released cb = refl

pub not_ok :
    {D : Type 0} {e : UpstreamError} {res : Option D}
    → ◌≡◌ {A = Result UpstreamError (Option D)} (err e) (ok res)
    → ⊥
not_ok k = cc

-- What the loop meets at one attempt.
module _ {D : Type 0} (step : ApiStep) (attempts : ℕ → Attempt D) where
  pub do_loop-Settles :
      (left number : ℕ) (last : UpstreamError) (cb : CircuitBreaker)
      → IsBreaker cb
      → (cb.probing ≡ false) ⊎ (number ≡ 0)
      → 0 < left + number
      → Settles (do_loop step attempts left number last cb).1
  unfolding do_loop
  do_loop-Settles zero number last cb w side p = record {
    breaker = w;
    given_back = elim side [ inl e ↦ e | inr z ↦ absurd (omega (arith, p, z)) ];
  }
  do_loop-Settles (suc left) number last cb w side p =
      elim (Bool-cases (ltb 0 number && not (attempts number).waited)) [
        | inl stopped ↦
            rw (stopped, do_loop)
              (record {
                breaker = w;
                given_back = elim side [ inl e ↦ e | inr z ↦ absurd (ground arith) ];
              })
        | inr goes ↦ elim (Result-cases (do_once step (attempts number).transport)) [
          | inl (res, passed) ↦
              rw (goes, do_loop)
                (rw passed (record {
                  breaker = on_success-IsBreaker cb w;
                  given_back = on_success-released cb;
                }))
          | inr (e, failed) ↦ elim (Bool-cases (retryable e)) [
            | inl again ↦
                rw (goes, do_loop)
                  (rw failed (
                    rw again (
                      do_loop-Settles left (suc number) e (on_failure (attempts number).at_time cb)
                        (on_failure-IsBreaker (attempts number).at_time cb w)
                        (inl (on_failure-released (attempts number).at_time cb)) (omega arith))))
            | inr final ↦
                rw (goes, do_loop)
                  (rw failed (
                    rw final (record {
                      breaker = on_success-IsBreaker cb w;
                      given_back = on_success-released cb;
                    })))
          ]
        ]
      ]

  -- An attempt that failed in a way that is tried again.
  pub record Retried (number : ℕ) : Type 0 where
    pub error : UpstreamError
    pub failed : do_once step (attempts number).transport ≡ err error
    pub again : retryable error ≡ true

  earlier_or :
      (i number k : ℕ)
      → number ≤ i
      → i < k
      → Retried number
      → ((j : ℕ) → suc number ≤ j → j < k → Retried j)
      → Retried i
  earlier_or i number k ge less first rest = elim (Bool-cases (i == number)) [
    | inl same ↦ let e : i ≡ number = ground arith in subst Retried (sym e) first
    | inr other ↦ rest i (ground arith) less
  ]

  pub do_loop-first :
      (left number : ℕ) (last : UpstreamError) (cb : CircuitBreaker) {res : Option D}
      → (do_loop step attempts left number last cb).0 ≡ ok res
      → (k : ℕ) × (number ≤ k)
        × (k < left + number)
        × (do_once step (attempts k).transport ≡ ok res)
        × ((i : ℕ) → number ≤ i → i < k → Retried i)
  unfolding do_loop
  do_loop-first zero number last cb e = cc
  do_loop-first (suc left) number last cb {res} e =
      elim (Bool-cases (ltb 0 number && not (attempts number).waited)) [
        | inl stopped ↦ absurd (not_ok (rw (stopped, do_loop) at e))
        | inr goes ↦ elim (Result-cases (do_once step (attempts number).transport)) [
          | inl (res', passed) ↦
              let same = rw (passed) at (rw (goes, do_loop) at e) in
              (
                number,
                omega arith,
                omega arith,
                passed ∙ same,
                λ i lo hi. absurd (omega (arith, lo, hi)),
              )
          | inr (f, failed) ↦ elim (Bool-cases (retryable f)) [
            | inr final ↦ absurd (not_ok (rw final at (rw failed at (rw (goes, do_loop) at e))))
            | inl again ↦
                let e' = rw again at (rw failed at (rw (goes, do_loop) at e)) in
                let (k, lo, hi, hit, before) = do_loop-first left (suc number) f _ e' in
                (
                  k,
                  omega (arith, lo),
                  omega (arith, hi),
                  hit,
                  λ i ge less.
                      earlier_or i number k ge less
                        (record { error = f; failed = failed; again = again }) before,
                )
          ]
        ]
      ]
