-- ===== src/Newapi/Client/Law.antt =====
-- What one call of the client does to the breaker, and which attempt's result it returns.
use nexusapi_enterprise.Prelude.{
  ℕ, suc, ◌≤◌, ◌<◌, ◌≡◌, ◌⊎◌, refl, ap, inl, inr, true, false, Option, none, arith, Bool-cases,
  Option-cases, ok, err,
}
use nexusapi_enterprise.Prelude.Int.{ℤ}
use nexusapi_enterprise.Newapi.Breaker.{CircuitBreaker, cb_half_open, allow}
use nexusapi_enterprise.Newapi.Breaker.Law.{IsBreaker, allow-IsBreaker, probe_abort-IsBreaker}
use nexusapi_enterprise.Newapi.Classify.{ApiStep, err_circuit_open}
use nexusapi_enterprise.Newapi.Client.{do_once, Request, do_admitted, do_call}
use nexusapi_enterprise.Newapi.Client.Loop.{
  do_loop-Settles, do_loop-first, Retried, Settles, probe_abort-released, not_ok,
}

refusal : (now : ℤ) (cb : CircuitBreaker) → (allow now cb).0 ≡ false → (allow now cb).1 ≡ cb
unfolding allow
refusal now cb e = ground arith

admitted :
    {D : Type 0} (step : ApiStep) (req : Request D) (cb : CircuitBreaker)
    → IsBreaker cb
    → req.encodes ≡ true
    → Settles (do_admitted step req cb).1
admitted step req cb w encodes = elim (Option-cases req.limited) [
  | inr (timeout, ended) ↦
      rw (ended, do_admitted)
        (record { breaker = probe_abort-IsBreaker cb w; given_back = probe_abort-released cb })
  | inl waited ↦
      rw (waited, do_admitted)
        (rw encodes (
          do_loop-Settles step req.attempts (suc req.max_retries) 0 err_circuit_open cb w (inr refl)
            (omega arith)))
]

-- A call whose body can be serialized is refused by the breaker, which it leaves as it was, or
-- settles it: the half-open probe that it may have taken is given back on every path.
pub do_call-Settles :
    {D : Type 0} (step : ApiStep) (req : Request D) (cb : CircuitBreaker)
    → IsBreaker cb
    → req.encodes ≡ true
    → (((allow req.started cb).0 ≡ false) × (do_call step req cb ≡ (err err_circuit_open, cb)))
      ⊎ (((allow req.started cb).0 ≡ true) × Settles (do_call step req cb).1)
unfolding do_call
do_call-Settles step req cb w encodes = elim (Bool-cases (allow req.started cb).0) [
  | inl passed ↦ inr (
    passed,
    rw passed
        (admitted step req (allow req.started cb).1 (allow-IsBreaker req.started cb w) encodes),
  )
  | inr refused ↦
      inl
        (refused, rw refused (ap (λ x. (err err_circuit_open, x)) (refusal req.started cb refused)))
]

-- A result comes from one of the attempts that the configuration allows, and each attempt before it
-- failed in a way that is tried again.
pub do_call-first :
    {D : Type 0} (step : ApiStep) (req : Request D) (cb : CircuitBreaker) {res : Option D}
    → (do_call step req cb).0 ≡ ok res
    → (k : ℕ) × (k ≤ req.max_retries)
      × (do_once step (req.attempts k).transport ≡ ok res)
      × ((i : ℕ) → i < k → Retried step req.attempts i)
unfolding do_call
do_call-first step req cb e = elim (Bool-cases (allow req.started cb).0) [
  | inr refused ↦ absurd (not_ok (rw refused at e))
  | inl passed ↦ elim (Option-cases req.limited) [
    | inr (timeout, ended) ↦ absurd (not_ok (rw (ended, do_admitted) at (rw passed at e)))
    | inl waited ↦ elim (Bool-cases req.encodes) [
      | inr broken ↦ absurd (not_ok (rw broken at (rw (waited, do_admitted) at (rw passed at e))))
      | inl encodes ↦
          let e' = rw encodes at (rw (waited, do_admitted) at (rw passed at e)) in
          let (k, lo, hi, hit, before) =
            do_loop-first step req.attempts (suc req.max_retries) 0 err_circuit_open _ e' in
          (k, omega (arith, hi), hit, λ i less. before i (omega arith) less)
    ]
  ]
]

probe_taken :
    (now : ℤ) (cb : CircuitBreaker)
    → cb.state ≡ cb_half_open
    → cb.probing ≡ false
    → allow now cb ≡ (true, record cb { probing = true })
unfolding allow
probe_taken now cb half free = ground arith

busy :
    (now : ℤ) (cb : CircuitBreaker)
    → cb.state ≡ cb_half_open
    → allow now (record cb { probing = true }) ≡ (false, record cb { probing = true })
unfolding allow
busy now cb half = ground arith

taken :
    {D : Type 0} (step : ApiStep) (req : Request D) (cb : CircuitBreaker)
    → cb.state ≡ cb_half_open
    → cb.probing ≡ false
    → req.limited ≡ none
    → req.encodes ≡ false
    → (do_call step req cb).1 ≡ record cb { probing = true }
unfolding do_call
taken step req cb half free waited broken =
    rw (probe_taken req.started cb half free) (rw (waited, do_admitted) (rw broken))

-- A half-open probe whose body cannot be serialized is never given back: every later call is
-- refused, at whatever time it comes.
pub do_call-stuck :
    {D : Type 0} (step : ApiStep) (req : Request D) (cb : CircuitBreaker) (later : ℤ)
    → cb.state ≡ cb_half_open
    → cb.probing ≡ false
    → req.limited ≡ none
    → req.encodes ≡ false
    → allow later (do_call step req cb).1 ≡ (false, (do_call step req cb).1)
do_call-stuck step req cb later half free waited broken =
    rw (taken step req cb half free waited broken) (busy later cb half)
