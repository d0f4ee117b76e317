-- ===== src/Newapi/Classify/Law.antt =====
-- Which HTTP answers are retried, and what code and status the caller of the platform sees.
use nexusapi_enterprise.Prelude.{ℕ, ◌≤◌, ◌≡◌, ◌↔◌, true, arith}
use nexusapi_enterprise.Newapi.Classify.{ApiStep, classify_http, retryable, auth_expired}

-- Exactly the answers of 500 and above are retried, and exactly a 401 asks for a new credential.
classify_http-decides :
    (step : ApiStep) (status : ℕ)
    → ((retryable (classify_http step status) ≡ true) ↔ (500 ≤ status))
      × ((auth_expired (classify_http step status) ≡ true) ↔ (status ≡ 401))
unfolding classify_http
classify_http-decides step status = ground arith
