-- ===== src/Session.antt =====
-- pkg/session/session.go: a session token is the claims and their signature. JSON, base64 and HMAC are
-- of Go's standard library, and arguments.
pub mod Law
pub mod Guard
pub mod Admitted
mod Tests
use nexusapi_enterprise.Prelude.{
  ℕ, ◌+◌, Bool, true, false, not, ◌||◌, Option, none, some, List, [], ◌∷◌, ◌++◌, leb, ◌==◌,
  same_text, if◌then◌else◌, Result, ok, err, ◌>>=◌, ◌>>◌, raise_if,
}
use nexusapi_enterprise.Prelude.Split.{split}
use nexusapi_enterprise.Rbac.{Role}

pub data SupportScope : Type 0 where
  no_scope support_readonly support_assist : SupportScope

-- Claims; a role that is none of the four is none.
pub record SessionClaims : Type 0 where
  pub member_id : ℕ
  pub org_id : ℕ
  pub role : Option Role
  pub team_id : ℕ
  pub support_session_id : ℕ
  pub support_scope : SupportScope
  pub epoch : ℕ
  pub issued_at : ℕ
  pub expires_at : ℕ

-- ErrInvalidToken and ErrExpired
pub data SessionError : Type 0 where
  invalid_token token_expired : SessionError

-- json.Marshal and Unmarshal, base64.RawURLEncoding, and HMAC-SHA256 by key and text.
pub record Codec : Type 0 where
  pub marshal : SessionClaims → Option (List ℕ)
  pub unmarshal : List ℕ → Option SessionClaims
  pub encode_url : List ℕ → List ℕ
  pub decode_url : List ℕ → Option (List ℕ)
  pub mac : List ℕ → List ℕ → List ℕ

-- Signer: the key, and the seconds that a token lives.
pub record Signer : Type 0 where
  pub key : List ℕ
  pub ttl : ℕ

abbrev pub dot : ℕ
dot = 46

-- sign
abbrev pub sign : Codec → Signer → List ℕ → List ℕ
sign codec s payload = codec.encode_url (codec.mac s.key payload)

-- IssuedAt and ExpiresAt where they are not set.
abbrev pub with_times : Signer → ℕ → SessionClaims → SessionClaims
with_times s now c = record c {
  issued_at = if c.issued_at == 0 then now else c.issued_at;
  expires_at = if c.expires_at == 0 then now + s.ttl else c.expires_at;
}

abbrev pub signed_token : Codec → Signer → Option (List ℕ) → Option (List ℕ)
signed_token codec s none = none
signed_token codec s (some payload) =
    some (codec.encode_url payload ++ (dot ∷ sign codec s (codec.encode_url payload)))

-- Issue
unfoldable pub issue : Codec → Signer → ℕ → SessionClaims → Option (List ℕ)
issue codec s now c = signed_token codec s (codec.marshal (with_times s now c))

abbrev pub is_blank_text : List ℕ → Bool
is_blank_text [] = true
is_blank_text (_ ∷ _) = false

-- The payload and the signature.
abbrev pub token_parts : List (List ℕ) → Result SessionError (List ℕ × List ℕ)
token_parts (payload ∷ signature ∷ []) =
    if is_blank_text payload || is_blank_text signature
    then err invalid_token
    else ok (payload, signature)
token_parts _ = err invalid_token

abbrev pub require_valid : {A : Type 0} → Option A → Result SessionError A
require_valid none = err invalid_token
require_valid (some v) = ok v

abbrev pub check_claims : ℕ → SessionClaims → Result SessionError SessionClaims
check_claims now c = do
  role ← require_valid c.role
  raise_if (leb c.expires_at now) token_expired
  ok c

abbrev pub verify_parts : Codec → Signer → ℕ → List ℕ × List ℕ → Result SessionError SessionClaims
verify_parts codec s now (payload64, signature) = do
  raise_if (not (same_text signature (sign codec s payload64))) invalid_token
  payload ← require_valid (codec.decode_url payload64)
  c ← require_valid (codec.unmarshal payload)
  check_claims now c

-- Verify
unfoldable pub verify : Codec → Signer → ℕ → List ℕ → Result SessionError SessionClaims
verify codec s now token = token_parts (split dot token) >>= λ parts. verify_parts codec s now parts
