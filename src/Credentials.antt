-- ===== src/Credentials.antt =====
-- The credentials by which the platform acts for an organization in new-api: loadOrgCred, orgCred,
-- EnsureFreshCred and withOrgCred of service/member.go, and mapUpstream of service/errors.go. The
-- keyring of pkg/crypto, the lock, the statements that may fail and new-api's answers are arguments.
pub mod Law
pub mod Runs
pub mod Tokens
pub mod Rotation
pub mod KeptKey
pub mod Order
pub mod Ring
mod Tests
use nexusapi_enterprise.Prelude.{
  ℕ, Bool, true, false, not, Option, none, some, List, [], ◌∷◌, if◌then◌else◌, Result, ok, err,
  ◌>>=◌, ◌>>◌, raise_if,
}
use nexusapi_enterprise.Errors.{
  RepoError, not_found, AppError, internal, forbidden, invalid_state, not_found_error,
  from_upstream,
}
use nexusapi_enterprise.Newapi.Classify.{UpstreamError, auth_expired}
use nexusapi_enterprise.Quota.{OrgStatus, org_hard_stopped}
use nexusapi_enterprise.Billing.{same_org_status}

-- An error of a call: *UpstreamError or *apperr.Error.
pub data CallError : Type 0 where
  upstream : UpstreamError → CallError
  app : AppError → CallError

-- mapUpstream
abbrev pub map_upstream : CallError → AppError
map_upstream (upstream u) = from_upstream u.platform_code
map_upstream (app e) = e

-- The columns of organization that name its user of new-api, written by SetOrgNewapiUser.
pub record OrgUser : Type 0 where
  pub newapi_user_id : ℕ
  pub newapi_username : Option (List ℕ)
  pub access_token_enc : List ℕ
  pub password_enc : List ℕ

pub record OrgAccount : Type 0 where
  pub status : OrgStatus
  pub user : Option OrgUser

pub record MemberCred : Type 0 where
  pub newapi_user_id : ℕ
  pub access_token : List ℕ

pub record KeyringApi : Type 0 where
  pub encrypt_string : List ℕ → Option (List ℕ)
  pub decrypt_string : List ℕ → Option (List ℕ)

-- Which statements succeed, whether the lock is got, and the answers of ProbeAccessToken (an error
-- counts as invalid) and RefreshAccessToken.
pub record CredEnv : Type 0 where
  pub keyring : KeyringApi
  pub org_reads : Bool
  pub cred_reads : Bool
  pub lock_works : Bool
  pub fresh_reads : Result RepoError (Unit {0})
  pub password_reads : Bool
  pub name_reads : Bool
  pub derived_username : List ℕ
  pub writes : Bool
  pub probe_access_token : MemberCred → Bool
  pub refresh_access_token : List ℕ → List ℕ → Result UpstreamError (List ℕ)

abbrev pub crypto_result : {A : Type 0} → Option A → Result AppError A
crypto_result none = err internal
crypto_result (some v) = ok v

abbrev pub cred_of : KeyringApi → OrgUser → Result AppError MemberCred
cred_of ring u = crypto_result (ring.decrypt_string u.access_token_enc) >>= λ token.
    ok (record { newapi_user_id = u.newapi_user_id; access_token = token })

abbrev pub user_cred : KeyringApi → Option OrgUser → Result AppError MemberCred
user_cred ring none = err invalid_state
user_cred ring (some u) = cred_of ring u

-- orgCred
unfoldable pub org_cred : CredEnv → OrgAccount → Result AppError MemberCred
org_cred env org = raise_if (not env.cred_reads) internal >> user_cred env.keyring org.user

abbrev pub org_read_error : RepoError → AppError
org_read_error not_found = not_found_error
org_read_error _ = internal

abbrev pub load_read : Result RepoError (Unit {0}) → Result AppError (Unit {0})
load_read (ok v) = ok v
load_read (err e) = err (org_read_error e)

abbrev pub loaded_cred :
    KeyringApi → Option OrgUser → Result AppError (Option (OrgUser × MemberCred))
loaded_cred ring none = ok none
loaded_cred ring (some u) = cred_of ring u >>= λ cred. ok (some (u, cred))

-- loadOrgCred
unfoldable pub load_org_cred :
    CredEnv → OrgAccount → Result AppError (Option (OrgUser × MemberCred))
load_org_cred env org = load_read env.fresh_reads >> loaded_cred env.keyring org.user

abbrev pub name_or : List ℕ → Option (List ℕ) → List ℕ
name_or derived none = derived
name_or derived (some []) = derived
name_or derived (some (b ∷ bs)) = b ∷ bs

-- orgNewapiUsername
abbrev pub org_newapi_username : CredEnv → OrgUser → List ℕ
org_newapi_username env u =
    if env.name_reads then name_or env.derived_username u.newapi_username else env.derived_username

abbrev pub refreshed : Result UpstreamError (List ℕ) → Result AppError (List ℕ)
refreshed (ok token) = ok token
refreshed (err u) = err (from_upstream u.platform_code)

-- The part of EnsureFreshCred after the probe: the new token, and its ciphertext that is stored.
unfoldable pub refresh_cred : CredEnv → OrgUser → Result AppError (List ℕ × List ℕ)
refresh_cred env u = do
  raise_if (not env.password_reads) internal
  pw ← crypto_result (env.keyring.decrypt_string u.password_enc)
  token ← refreshed (env.refresh_access_token (org_newapi_username env u) pw)
  enc ← crypto_result (env.keyring.encrypt_string token)
  raise_if (not env.writes) internal
  ok (token, enc)

abbrev pub stored_cred :
    OrgAccount
    → OrgUser
    → Result AppError (List ℕ × List ℕ)
    → Result AppError MemberCred × OrgAccount
stored_cred org u (err e) = (err e, org)
stored_cred org u (ok (token, enc)) = (
  ok (record { newapi_user_id = u.newapi_user_id; access_token = token }),
  record org { user = some (record u { access_token_enc = enc }) },
)

abbrev pub renew :
    CredEnv
    → OrgAccount
    → Result AppError (Option (OrgUser × MemberCred))
    → Result AppError MemberCred × OrgAccount
renew env org (err e) = (err e, org)
renew env org (ok none) = (err invalid_state, org)
renew env org (ok (some (u, cred))) =
    if env.probe_access_token cred then (ok cred, org) else stored_cred org u (refresh_cred env u)

-- What follows the attempt to get the lock.
abbrev pub renew_locked : CredEnv → OrgAccount → Bool → Result AppError MemberCred × OrgAccount
renew_locked env org true = renew env org (load_org_cred env org)
renew_locked env org false = (err internal, org)

-- EnsureFreshCred
unfoldable pub ensure_fresh_cred : CredEnv → OrgAccount → Result AppError MemberCred × OrgAccount
ensure_fresh_cred env org = renew_locked env org env.lock_works

-- An operation on new-api: its answer, and the state of the calls after it.
abbrev pub CredOp : Type 0 → Type 0 → Type 0
CredOp S A = MemberCred → S → Result CallError A × S

-- return fn(fresh), or the first error when there is no fresh credential.
abbrev pub retry_fresh :
    {S A : Type 0}
    → CredOp S A
    → UpstreamError
    → S
    → Result AppError MemberCred × OrgAccount
    → Result CallError A × OrgAccount × S
retry_fresh op u s (err e, org) = (err (upstream u), org, s)
retry_fresh op u s (ok fresh, org) = ((op fresh s).0, org, (op fresh s).1)

abbrev pub heal :
    {S A : Type 0}
    → CredEnv
    → OrgAccount
    → CredOp S A
    → Result CallError A × S
    → Result CallError A × OrgAccount × S
heal env org op (ok v, s) = (ok v, org, s)
heal env org op (err (app e), s) = (err (app e), org, s)
heal env org op (err (upstream u), s) =
    if auth_expired u
    then retry_fresh op u s (ensure_fresh_cred env org)
    else (err (upstream u), org, s)

abbrev pub run_with :
    {S A : Type 0}
    → CredEnv
    → OrgAccount
    → CredOp S A
    → S
    → Result AppError MemberCred
    → Result CallError A × OrgAccount × S
run_with env org op s (err e) = (err (app e), org, s)
run_with env org op s (ok cred) = heal env org op (op cred s)

abbrev pub is_hard_stopped : OrgAccount → Bool
is_hard_stopped org = same_org_status org.status org_hard_stopped

-- The guards of withOrgCred: fail-closed on an error of the read.
abbrev pub may_act : CredEnv → OrgAccount → Result AppError MemberCred
may_act env org =
    raise_if (not env.org_reads) internal
    >> (raise_if (is_hard_stopped org) forbidden >> org_cred env org)

-- withOrgCred
unfoldable pub with_org_cred :
    {S A : Type 0} → CredEnv → OrgAccount → CredOp S A → S → Result CallError A × OrgAccount × S
with_org_cred env org op s = run_with env org op s (may_act env org)
