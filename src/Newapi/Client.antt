-- ===== src/Newapi/Client.antt =====
-- adapter/newapi/client.go: `do` and `doOnce`. The limiter, the network, the clock and the waits are
-- arguments: what each attempt meets is listed by its number. The breaker is not touched by another
-- call while one runs.
pub mod Loop
pub mod Law
use nexusapi_enterprise.Prelude.{
  ℕ, zero, suc, Bool, true, false, not, ◌&&◌, ◌||◌, ltb, leb, Option, none, some, if◌then◌else◌,
  Result, ok, err,
}
use nexusapi_enterprise.Prelude.Int.{ℤ}
use nexusapi_enterprise.Newapi.Breaker.{CircuitBreaker, allow, on_success, on_failure, probe_abort}
use nexusapi_enterprise.Newapi.Classify.{
  ApiStep, UpstreamError, non_retryable, classify_http, new_transport_error, err_circuit_open,
  retryable, platform_code_for_biz,
}

-- The body of an answer: empty, no envelope, or the envelope's `success`, whether its message reads
-- like an authentication failure, and its data.
pub data Body (D : Type 0) : Type 0 where
  no_body : Body D
  bare : D → Body D
  envelope : Bool → Bool → D → Body D

-- http.Client.Do: no answer, with whether that was a timeout, or a status and a body.
pub data Transport (D : Type 0) : Type 0 where
  no_answer : Bool → Transport D
  answer : ℕ → Body D → Transport D

-- An answer of 2xx.
abbrev pub read_body : {D : Type 0} → ApiStep → ℕ → Body D → Result UpstreamError (Option D)
read_body step status no_body = ok none
read_body step status (bare data_read) = ok (some data_read)
read_body step status (envelope success auth_failure data_read) =
    if success
    then ok (some data_read)
    else if auth_failure
    then err (classify_http step 401)
    else err (record {
      http_status = status;
      class = non_retryable;
      platform_code = platform_code_for_biz step;
    })

-- doOnce, from http.Client.Do on
unfoldable pub do_once : {D : Type 0} → ApiStep → Transport D → Result UpstreamError (Option D)
do_once step (no_answer timeout) = err (new_transport_error timeout)
do_once step (answer status body) =
    if ltb status 200 || leb 300 status
    then err (classify_http step status)
    else read_body step status body

-- What attempt number i meets: whether the wait before it ran to its end, the time at which it
-- ends, and the transport.
pub record Attempt (D : Type 0) : Type 0 where
  pub waited : Bool
  pub at_time : ℤ
  pub transport : Transport D

-- for attempt := 0; attempt < attempts; attempt++ { ... }, with the attempts that are left.
unfoldable pub do_loop :
    {D : Type 0}
    → ApiStep
    → (ℕ → Attempt D)
    → ℕ
    → ℕ
    → UpstreamError
    → CircuitBreaker
    → Result UpstreamError (Option D) × CircuitBreaker
do_loop step attempts zero number last cb = (err last, cb)
do_loop step attempts (suc left) number last cb =
    let try = attempts number in
    if ltb 0 number && not try.waited
    then (err (new_transport_error true), cb)
    else elim (do_once step try.transport) [
      | ok res ↦ (ok res, on_success cb)
      | err e ↦ elim (retryable e) [
        | true ↦ do_loop step attempts left (suc number) e (on_failure try.at_time cb)
        | false ↦ (err e, on_success cb)
      ]
    ]

-- The rest of a call: when it starts, what the limiter says (`some timeout` if the context ended
-- in the wait), whether the body can be serialized, and the retries.
pub record Request (D : Type 0) : Type 0 where
  pub started : ℤ
  pub limited : Option Bool
  pub encodes : Bool
  pub max_retries : ℕ
  pub attempts : ℕ → Attempt D

abbrev pub do_admitted :
    {D : Type 0}
    → ApiStep
    → Request D
    → CircuitBreaker
    → Result UpstreamError (Option D) × CircuitBreaker
do_admitted step req cb = elim req.limited [
  | some timeout ↦ (err (new_transport_error timeout), probe_abort cb)
  | none ↦
      if not req.encodes
      then (err (record { http_status = 0; platform_code = 50000; class = non_retryable }), cb)
      else do_loop step req.attempts (suc req.max_retries) 0 err_circuit_open cb
]

-- do
unfoldable pub do_call :
    {D : Type 0}
    → ApiStep
    → Request D
    → CircuitBreaker
    → Result UpstreamError (Option D) × CircuitBreaker
do_call step req cb =
    let (passed, cb1) = allow req.started cb in
    if not passed then (err err_circuit_open, cb1) else do_admitted step req cb1
