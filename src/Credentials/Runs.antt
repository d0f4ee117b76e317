-- ===== src/Credentials/Runs.antt =====
-- How often withOrgCred of service/member.go runs its operation, whatever the keyring does.
use nexusapi_enterprise.Prelude.{◌≡◌, refl, ap, inl, inr, true, Bool-cases, Result, ok, err}
use mathlib.Core.Path.{subst}
use nexusapi_enterprise.Errors.{AppError}
use nexusapi_enterprise.Newapi.Classify.{UpstreamError, auth_expired}
use nexusapi_enterprise.Credentials.{
  CallError, upstream, app, OrgAccount, MemberCred, CredEnv, CredOp, ensure_fresh_cred, retry_fresh,
  heal, run_with, may_act, with_org_cred,
}

module _ {S A : Type 0} (env : CredEnv) (org : OrgAccount) (op : CredOp S A) (s : S) where
  pub data Runs : Result CallError A × OrgAccount × S → Type 0 where
    never : (e : CallError) (org' : OrgAccount) → Runs (err e, org', s)
    once : (cred : MemberCred) (org' : OrgAccount) → Runs ((op cred s).0, org', (op cred s).1)
    twice :
        (cred fresh : MemberCred) (u : UpstreamError) (org' : OrgAccount)
        → (op cred s).0 ≡ err (upstream u)
        → auth_expired u ≡ true
        → Runs ((op fresh (op cred s).1).0, org', (op fresh (op cred s).1).1)

  retry_fresh-Runs :
      (cred : MemberCred) (u : UpstreamError)
      → (op cred s).0 ≡ err (upstream u)
      → auth_expired u ≡ true
      → (r : Result AppError MemberCred × OrgAccount) → Runs (retry_fresh op u (op cred s).1 r)
  retry_fresh-Runs cred u first old (err e, org') =
      subst (λ x. Runs (x, org', (op cred s).1)) first (once cred org')
  retry_fresh-Runs cred u first old (ok fresh, org') = twice cred fresh u org' first old

  heal-Runs :
      (cred : MemberCred) (r : Result CallError A × S) → op cred s ≡ r → Runs (heal env org op r)
  heal-Runs cred (ok v, s') k = subst (λ x. Runs (x.0, org, x.1)) k (once cred org)
  heal-Runs cred (err (app e), s') k = subst (λ x. Runs (x.0, org, x.1)) k (once cred org)
  heal-Runs cred (err (upstream u), s') k = elim (Bool-cases (auth_expired u)) [
    | inl old ↦ rw old (
        subst (λ x. Runs (retry_fresh op u x (ensure_fresh_cred env org))) (ap (λ y. y.1) k)
          (retry_fresh-Runs cred u (ap (λ y. y.0) k) old (ensure_fresh_cred env org)))
    | inr other ↦ rw other (subst (λ x. Runs (x.0, org, x.1)) k (once cred org))
  ]

  pub with_org_cred-Runs : Runs (with_org_cred env org op s)
  unfolding with_org_cred
  with_org_cred-Runs = of (may_act env org)
    where
      of : (r : Result AppError MemberCred) → Runs (run_with env org op s r)
      of (err e) = never (app e) org
      of (ok cred) = heal-Runs cred (op cred s) refl
