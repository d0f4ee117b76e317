-- ===== src/Session/Guard.antt =====
-- What a request must pass: requireAuth of handler/middleware.go, ValidateSession of
-- service/identity.go, the support sessions of service/support.go and repo/support.go, and the
-- session epoch of repo/member.go. The header's token is what follows "Bearer ", trimmed.
use nexusapi_enterprise.Prelude.{
  ℕ, suc, ◌+◌, ◌*◌, Bool, true, false, not, ◌&&◌, ◌||◌, Option, none, some, List, [], ◌∷◌, ltb,
  ◌==◌, if◌then◌else◌, Result, ok, err, ◌>>=◌, ◌>>◌, raise_if,
}
use nexusapi_enterprise.Errors.{
  AppError, internal, unauthenticated, session_expired, forbidden, readonly_blocked, invalid_param,
  not_found_error,
}
use nexusapi_enterprise.Rbac.{Claims, operator, org_admin, assert_role}
use nexusapi_enterprise.Session.{
  SupportScope, no_scope, support_readonly, support_assist, SessionClaims, SessionError,
  invalid_token, token_expired, Codec, Signer, issue, verify,
}

-- The columns of member that ValidateSession reads; the status is whether it is active.
pub record SessionMember : Type 0 where
  pub id : ℕ
  pub org_id : ℕ
  pub is_active : Bool
  pub session_epoch : ℕ
  pub is_deleted : Bool

-- A row of support_session; the actor is the operator's id.
pub record SupportSession : Type 0 where
  pub id : ℕ
  pub org_id : ℕ
  pub actor : ℕ
  pub scope : SupportScope
  pub is_active : Bool
  pub expire_at : ℕ

pub record AuthStore : Type 0 where
  pub members : List SessionMember
  pub supports : List SupportSession
  pub next_support : ℕ

pub data Method : Type 0 where
  method_get method_head method_post other_method : Method

abbrev pub is_session_member : ℕ → ℕ → SessionMember → Bool
is_session_member org id m = m.id == id && m.org_id == org

-- GetMember: AND deleted_at IS NULL.
unfoldable pub find_session_member : ℕ → ℕ → List SessionMember → Option SessionMember
find_session_member org id [] = none
find_session_member org id (m ∷ ms) =
    let rest = find_session_member org id ms in
    if is_session_member org id m && not m.is_deleted then some m else rest

-- GetSupportSession
unfoldable pub find_support : ℕ → List SupportSession → Option SupportSession
find_support id [] = none
find_support id (x ∷ xs) = let rest = find_support id xs in if x.id == id then some x else rest

abbrev pub validate_member : SessionClaims → Option SessionMember → Result AppError (Unit {0})
validate_member c none = err unauthenticated
validate_member c (some m) =
    raise_if (not m.is_active) unauthenticated
    >> raise_if (not (m.session_epoch == c.epoch)) unauthenticated

-- ValidateSession
unfoldable pub validate_session : AuthStore → SessionClaims → Result AppError (Unit {0})
validate_session s c =
    if c.support_session_id == 0
    then validate_member c (find_session_member c.org_id c.member_id s.members)
    else ok tt

-- strings.HasPrefix, Contains and HasSuffix
unfoldable pub has_prefix : List ℕ → List ℕ → Bool
has_prefix [] text = true
has_prefix (p ∷ ps) [] = false
has_prefix (p ∷ ps) (t ∷ ts) = let rest = has_prefix ps ts in if p == t then rest else false

unfoldable pub contains : List ℕ → List ℕ → Bool
contains part [] = has_prefix part []
contains part (t ∷ ts) =
    let rest = contains part ts in if has_prefix part (t ∷ ts) then true else rest

unfoldable pub has_suffix : List ℕ → List ℕ → Bool
has_suffix part [] = has_prefix part []
has_suffix part (t ∷ ts) =
    let rest = has_suffix part ts in
    if has_prefix part (t ∷ ts) && has_prefix (t ∷ ts) part then true else rest

-- "/recharges", "/recharge-requests", "/pricing", "/billing-settings"
abbrev pub money_paths : List (List ℕ)
money_paths =
    (47 ∷ 114 ∷ 101 ∷ 99 ∷ 104 ∷ 97 ∷ 114 ∷ 103 ∷ 101 ∷ 115 ∷ [])
    ∷ (47 ∷ 114 ∷ 101 ∷ 99 ∷ 104 ∷ 97 ∷ 114 ∷ 103 ∷ 101 ∷ 45 ∷ 114 ∷ 101 ∷ 113 ∷ 117 ∷ 101 ∷ 115
        ∷ 116 ∷ 115 ∷ [])
    ∷ (47 ∷ 112 ∷ 114 ∷ 105 ∷ 99 ∷ 105 ∷ 110 ∷ 103 ∷ [])
    ∷ (47 ∷ 98 ∷ 105 ∷ 108 ∷ 108 ∷ 105 ∷ 110 ∷ 103 ∷ 45 ∷ 115 ∷ 101 ∷ 116 ∷ 116 ∷ 105 ∷ 110 ∷ 103
        ∷ 115 ∷ [])
    ∷ []

-- "/members", "/tokens", "/key:"
abbrev pub members_path : List ℕ
members_path = 47 ∷ 109 ∷ 101 ∷ 109 ∷ 98 ∷ 101 ∷ 114 ∷ 115 ∷ []

abbrev pub tokens_path : List ℕ
tokens_path = 47 ∷ 116 ∷ 111 ∷ 107 ∷ 101 ∷ 110 ∷ 115 ∷ []

abbrev pub key_path : List ℕ
key_path = 47 ∷ 107 ∷ 101 ∷ 121 ∷ 58 ∷ []

unfoldable pub contains_any : List (List ℕ) → List ℕ → Bool
contains_any [] path = false
contains_any (p ∷ ps) path =
    let rest = contains_any ps path in if contains p path then true else rest

abbrev pub is_post : Method → Bool
is_post method_post = true
is_post _ = false

-- isMoneyOrKeyRedline
unfoldable pub is_money_or_key_redline : Method → List ℕ → Bool
is_money_or_key_redline method path =
    contains_any money_paths path
    || (is_post method && has_suffix members_path path)
    || contains tokens_path path
    || contains key_path path

abbrev pub is_read : Method → Bool
is_read method_get = true
is_read method_head = true
is_read _ = false

abbrev pub is_readonly : SupportScope → Bool
is_readonly support_readonly = true
is_readonly _ = false

-- CodeMoneyRedline
abbrev pub money_redline : AppError
money_redline = record { code = 10403; http_status = 403 }

-- What a write in a support session must pass.
abbrev pub guard_write : SessionClaims → Method → List ℕ → Result AppError (Unit {0})
guard_write c method path =
    raise_if (is_readonly c.support_scope) readonly_blocked
    >> raise_if (is_money_or_key_redline method path) money_redline

abbrev pub guard_support :
    ℕ → SessionClaims → Method → List ℕ → Option SupportSession → Result AppError (Unit {0})
guard_support now c method path none = err forbidden
guard_support now c method path (some x) =
    raise_if (not x.is_active || not (ltb now x.expire_at)) forbidden
    >> (raise_if (not (x.org_id == c.org_id)) not_found_error
        >> (if is_read method then ok tt else guard_write c method path))

-- CheckSupportGuard
unfoldable pub check_support_guard :
    ℕ → AuthStore → SessionClaims → Method → List ℕ → Result AppError (Unit {0})
check_support_guard now s c method path =
    if c.support_session_id == 0
    then ok tt
    else guard_support now c method path (find_support c.support_session_id s.supports)

abbrev pub session_error : SessionError → AppError
session_error token_expired = session_expired
session_error invalid_token = unauthenticated

abbrev pub verified : Result SessionError SessionClaims → Result AppError SessionClaims
verified (err e) = err (session_error e)
verified (ok c) = ok c

abbrev pub require_bearer : Option (List ℕ) → Result AppError (List ℕ)
require_bearer none = err unauthenticated
require_bearer (some token) = ok token

-- requireAuth: the claims that the handler runs with.
unfoldable pub require_auth :
    Codec
    → Signer
    → ℕ
    → AuthStore
    → Option (List ℕ)
    → Method
    → List ℕ
    → Result AppError SessionClaims
require_auth codec signer now s bearer method path = do
  token ← require_bearer bearer
  c ← verified (verify codec signer now token)
  validate_session s c
  check_support_guard now s c method path
  ok c

abbrev pub bump_epoch : ℕ → ℕ → SessionMember → SessionMember
bump_epoch org id m =
    if is_session_member org id m then (record m { session_epoch = suc m.session_epoch }) else m

unfoldable pub bump_epochs : ℕ → ℕ → List SessionMember → List SessionMember
bump_epochs org id [] = []
bump_epochs org id (m ∷ ms) = bump_epoch org id m ∷ bump_epochs org id ms

-- BumpMemberSessionEpoch
abbrev pub bump_member_session_epoch : ℕ → ℕ → AuthStore → AuthStore
bump_member_session_epoch org id s = record s { members = bump_epochs org id s.members }

abbrev pub revoke_row : ℕ → SupportSession → SupportSession
revoke_row id x = if x.id == id && x.is_active then (record x { is_active = false }) else x

-- RevokeSupportSession
unfoldable pub revoke_support_session : ℕ → List SupportSession → List SupportSession
revoke_support_session id [] = []
revoke_support_session id (x ∷ xs) = revoke_row id x ∷ revoke_support_session id xs

abbrev pub closed_support : Claims → AuthStore → Option SupportSession → Result AppError AuthStore
closed_support c s none = err not_found_error
closed_support c s (some x) =
    raise_if (not (x.actor == c.member_id)) not_found_error
    >> ok (record s { supports = revoke_support_session x.id s.supports })

-- CloseSupportSession
unfoldable pub close_support_session : Claims → ℕ → AuthStore → Result AppError AuthStore
close_support_session c sid s =
    assert_role c (operator ∷ []) >> closed_support c s (find_support sid s.supports)

pub data GrantType : Type 0 where
  authorized break_glass other_grant : GrantType

-- OpenSupportInput; a TTL below 0 is 0 here, which is read the same.
pub record OpenSupportInput : Type 0 where
  pub scope : SupportScope
  pub grant_type : GrantType
  pub ttl_seconds : ℕ

-- The scope and the grant that may be opened.
abbrev pub grant_error : SupportScope → GrantType → Result AppError (Unit {0})
grant_error no_scope grant = err invalid_param
grant_error support_readonly grant = ok tt
grant_error support_assist authorized = ok tt
grant_error support_assist break_glass = err forbidden
grant_error support_assist other_grant = err invalid_param

abbrev pub support_ttl : ℕ → ℕ
support_ttl ttl = if ttl == 0 || ltb (24 * 3600) ttl then 7200 else ttl

abbrev pub support_row : ℕ → Claims → ℕ → OpenSupportInput → AuthStore → SupportSession
support_row now c org input s = record {
  id = s.next_support;
  org_id = org;
  actor = c.member_id;
  scope = input.scope;
  is_active = true;
  expire_at = now + support_ttl input.ttl_seconds;
}

-- CreateSupportSession
abbrev pub create_support_session : SupportSession → AuthStore → AuthStore
create_support_session x s = record s {
  supports = x ∷ s.supports;
  next_support = suc s.next_support;
}

abbrev pub support_claims : Claims → ℕ → OpenSupportInput → ℕ → SessionClaims
support_claims c org input sid = record {
  member_id = c.member_id;
  org_id = org;
  role = some org_admin;
  team_id = 0;
  support_session_id = sid;
  support_scope = input.scope;
  epoch = 0;
  issued_at = 0;
  expires_at = 0;
}

abbrev pub or_internal_token : Option (List ℕ) → Result AppError (List ℕ)
or_internal_token none = err internal
or_internal_token (some token) = ok token

-- OpenSupportSession: the token. The row stays when the token cannot be issued.
unfoldable pub open_support_session :
    Codec
    → Signer
    → ℕ
    → Result AppError (Unit {0})
    → Claims
    → ℕ
    → OpenSupportInput
    → AuthStore
    → Result AppError (Result AppError (List ℕ) × AuthStore)
open_support_session codec signer now org_exists c org input s = do
  assert_role c (operator ∷ [])
  grant_error input.scope input.grant_type
  org_exists
  ok (
    or_internal_token (issue codec signer now (support_claims c org input s.next_support)),
    create_support_session (support_row now c org input s) s,
  )
