-- ===== src/Newapi/Tests.antt =====
-- Runs of the breaker and of the client, and the theorems at them.
use nexusapi_enterprise.Prelude.{
  ℕ, zero, suc, ◌≤◌, ◌<◌, ◌≡◌, ◌⊎◌, ◌↔◌, refl, List, [], ◌∷◌, true, false, some, none, ok, err,
  arith,
}
use nexusapi_enterprise.Prelude.Int.{pos}
use nexusapi_enterprise.Newapi.Breaker.{
  CircuitBreaker, cb_closed, cb_open, cb_half_open, new_circuit_breaker, allow,
}
use nexusapi_enterprise.Newapi.Breaker.Law.{
  BreakerCall, fails, allows, breaker_of, failures_in_row, new-IsBreaker, breaker_of-closed,
}
use nexusapi_enterprise.Newapi.Classify.{classify_http, other_step, err_circuit_open}
use nexusapi_enterprise.Newapi.Client.{answer, no_body, bare, do_loop, do_once, Request, do_call}
use nexusapi_enterprise.Newapi.Client.Loop.{Settles, Retried}
use nexusapi_enterprise.Newapi.Client.Law.{do_call-Settles, do_call-first, do_call-stuck}

abbrev new_breaker : CircuitBreaker
new_breaker = new_circuit_breaker 2 (pos 10)

abbrev tripped : CircuitBreaker
tripped = record new_breaker { state = cb_open; consec_fails = 2; opened_at = pos 100 }

abbrev half_open : CircuitBreaker
half_open = record tripped { state = cb_half_open }

abbrev two_failures : List BreakerCall
two_failures = allows (pos 101) ∷ fails (pos 100) ∷ fails (pos 90) ∷ []

breaker_of-closed_example :
    (((breaker_of 2 (pos 10) two_failures).state ≡ cb_closed) ↔ (failures_in_row two_failures < 2))
    × ((breaker_of 2 (pos 10) two_failures).probing ≡ true
        → (breaker_of 2 (pos 10) two_failures).state ≡ cb_half_open)
breaker_of-closed_example = breaker_of-closed 2 (pos 10) two_failures (omega arith)

-- The first attempt gets a 502, the second a value.
abbrev second_try : Request ℕ
second_try = record {
  started = pos 120;
  limited = none;
  encodes = true;
  max_retries = 2;
  attempts = λ i. record {
    waited = true;
    at_time = pos 121;
    transport = elim i [ zero ↦ answer 502 no_body | suc _ ↦ answer 200 (bare 42) ];
  };
}

abbrev unencodable : Request ℕ
unencodable = record second_try { encodes = false }

do_call-Settles_example :
    (((allow (pos 120) new_breaker).0 ≡ false)
      × (do_call other_step second_try new_breaker ≡ (err err_circuit_open, new_breaker)))
    ⊎ (((allow (pos 120) new_breaker).0 ≡ true)
        × Settles (do_call other_step second_try new_breaker).1)
do_call-Settles_example =
    do_call-Settles other_step second_try new_breaker (new-IsBreaker 2 (pos 10) (omega arith)) refl

do_call-first_example :
    (k : ℕ) × (k ≤ 2)
    × (do_once other_step (second_try.attempts k).transport ≡ ok (some 42))
    × ((i : ℕ) → i < k → Retried other_step second_try.attempts i)
unfolding do_call allow do_loop do_once classify_http
do_call-first_example = do_call-first other_step second_try new_breaker refl

do_call-stuck_example :
    allow (pos 900) (do_call other_step unencodable half_open).1
    ≡ (false, (do_call other_step unencodable half_open).1)
do_call-stuck_example = do_call-stuck other_step unencodable half_open (pos 900) refl refl refl refl

abbrev unavailable : ℕ
unavailable = 503
