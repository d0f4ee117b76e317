-- ===== src/Newapi/Classify.antt =====
-- adapter/newapi/errors.go: the classes of an upstream error and the platform's codes. The message
-- and the cause, which only the logs read, are left out.
pub mod Law
use nexusapi_enterprise.Prelude.{ℕ, Bool, true, false, ◌&&◌, leb, ltb, ◌==◌, if◌then◌else◌}

pub data ErrClass : Type 0 where
  non_retryable retryable_class auth_expired_class : ErrClass

-- The step names that platformCodeForBiz tells apart.
pub data ApiStep : Type 0 where
  step_create_user step_create_token step_reveal_key other_step : ApiStep

pub record UpstreamError : Type 0 where
  pub http_status : ℕ
  pub platform_code : ℕ
  pub class : ErrClass

-- platformCodeForBiz
unfoldable pub platform_code_for_biz : ApiStep → ℕ
platform_code_for_biz step_create_user = 50201
platform_code_for_biz step_create_token = 50202
platform_code_for_biz step_reveal_key = 50203
platform_code_for_biz other_step = 50400

-- classifyHTTP
unfoldable pub classify_http : ApiStep → ℕ → UpstreamError
classify_http step status =
    if status == 401
    then record { http_status = status; class = auth_expired_class; platform_code = 50301 }
    else if leb 400 status && ltb status 500
    then record {
      http_status = status;
      class = non_retryable;
      platform_code = platform_code_for_biz step;
    }
    else if leb 500 status
    then record { http_status = status; class = retryable_class; platform_code = 50500 }
    else record { http_status = status; class = non_retryable; platform_code = 50000 }

-- newTransportError
unfoldable pub new_transport_error : Bool → UpstreamError
new_transport_error timeout = record {
  http_status = 0;
  class = retryable_class;
  platform_code = if timeout then 50504 else 50500;
}

-- ErrCircuitOpen
abbrev pub err_circuit_open : UpstreamError
err_circuit_open = record { http_status = 0; platform_code = 50500; class = retryable_class }

-- Retryable
abbrev pub retryable : UpstreamError → Bool
retryable e = elim e.class [ retryable_class ↦ true | _ ↦ false ]

-- AuthExpired
abbrev pub auth_expired : UpstreamError → Bool
auth_expired e = elim e.class [ auth_expired_class ↦ true | _ ↦ false ]
