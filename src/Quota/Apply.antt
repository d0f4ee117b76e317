-- ===== src/Quota/Apply.antt =====
-- applyMemberOverride of service/quota.go: the limit of a member's token is written to new-api with the
-- organization's credential. What a renewed credential leaves in the account is that of Credentials.
use nexusapi_enterprise.Prelude.{
  ℕ, Bool, not, Option, none, some, List, [], ◌∷◌, if◌then◌else◌, Result, ok, err, ◌>>=◌, ◌>>◌,
  raise_if,
}
use nexusapi_enterprise.Prelude.Int.{ℤ}
use nexusapi_enterprise.Newapi.Classify.{UpstreamError}
use nexusapi_enterprise.Quota.{
  Answers, Member, QuotaError, failed, compute_override, gate_by_org_status,
}
use nexusapi_enterprise.Credentials.{
  CallError, upstream, OrgAccount, MemberCred, CredEnv, CredOp, with_org_cred,
}

-- A call of UpdateToken with the remaining quota of the token. The client may send its request again.
pub data TokenCall : Type 0 where
  update_token : ℕ → ℤ → TokenCall

-- The credentials of the organization, and what UpdateToken answers after the calls made before.
pub record PushEnv : Type 0 where
  pub cred : CredEnv
  pub account : OrgAccount
  pub updates : MemberCred → List TokenCall → Result UpstreamError (Unit {0})

abbrev pub as_call_error : Result UpstreamError (Unit {0}) → Result CallError (Unit {0})
as_call_error (ok v) = ok v
as_call_error (err u) = err (upstream u)

abbrev pub update_op : PushEnv → ℕ → ℤ → CredOp (List TokenCall) (Unit {0})
update_op env token final cred calls =
    (as_call_error (env.updates cred calls), update_token token final ∷ calls)

abbrev pub pushed :
    ℤ
    → Result CallError (Unit {0}) × OrgAccount × List TokenCall
    → Result QuotaError ℤ × List TokenCall
pushed final (ok v, org, calls) = (ok final, calls)
pushed final (err e, org, calls) = (err failed, calls)

abbrev pub push_token : PushEnv → Option ℕ → ℤ → Result QuotaError ℤ × List TokenCall
push_token env none final = (ok final, [])
push_token env (some token) final =
    pushed final (with_org_cred env.cred env.account (update_op env token final) [])

-- The part below the computed value.
abbrev pub push : Bool → PushEnv → Member → ℤ → Result QuotaError ℤ × List TokenCall
push observe_mode env m final =
    if observe_mode then (ok final, []) else push_token env m.token_id final

abbrev pub final_override : Bool → Answers → Member → Result QuotaError ℤ
final_override observe_mode a m = do
  raise_if (not a.lock_free) failed
  override ← compute_override a m
  gate_by_org_status observe_mode a override

-- applyMemberOverride
unfoldable pub apply_member_override :
    Bool → Answers → PushEnv → Member → Result QuotaError ℤ × List TokenCall
apply_member_override observe_mode a env m = elim (final_override observe_mode a m) [
  | err e ↦ (err e, [])
  | ok final ↦ push observe_mode env m final
]
