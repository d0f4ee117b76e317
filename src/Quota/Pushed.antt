-- ===== src/Quota/Pushed.antt =====
-- What the writing of a quota to new-api, in service/quota.go, comes to.
use nexusapi_enterprise.Prelude.{
  ◌≡◌, refl, ap, sym, ◌∙◌, inl, inr, Bool, true, false, List, [], ◌∷◌, Option-cases, Result, ok,
  err, ok_injective, ℕ, some, none, ◌⊎◌,
}
use mathlib.Core.Path.{subst}
use nexusapi_enterprise.Prelude.Int.{ℤ}
use nexusapi_enterprise.Newapi.Classify.{UpstreamError, auth_expired}
use nexusapi_enterprise.Quota.{Member, QuotaError, failed}
use nexusapi_enterprise.Quota.Apply.{
  TokenCall, update_token, PushEnv, as_call_error, update_op, pushed, push_token, push,
}
use nexusapi_enterprise.Credentials.{CallError, upstream, OrgAccount, MemberCred}
use nexusapi_enterprise.Credentials.Runs.{Runs, never, once, twice, with_org_cred-Runs}

pub refusal : {x : QuotaError} {z : ℤ} → ◌≡◌ {A = Result QuotaError ℤ} (err x) (ok z) → ⊥
refusal k = cc

-- What was written when a quota is reported: nothing, in observe mode or without a token; or UpdateToken
-- was called with the reported quota, and called again with it if the first call found the
-- authorization expired.
unfoldable pub Reports : Bool → PushEnv → Member → ℤ → List TokenCall → Type 0
Reports observe env m v calls =
    (((observe ≡ true) ⊎ (m.token_id ≡ none)) × (calls ≡ []))
    ⊎ ((token : ℕ) × (observe ≡ false)
        × (m.token_id ≡ some token)
        × ((calls ≡ update_token token v ∷ [])
            ⊎ ((cred : MemberCred) × (u : UpstreamError) × (env.updates cred [] ≡ err u)
                × (auth_expired u ≡ true)
                × (calls ≡ update_token token v ∷ update_token token v ∷ []))))

as_call_error-eq :
    (r : Result UpstreamError (Unit {0})) {u : UpstreamError}
    → as_call_error r ≡ err (upstream u)
    → r ≡ err u
as_call_error-eq (ok v) h = cc
as_call_error-eq (err x) h = cc

-- What UpdateToken was called with, whatever came of it.
pub data Pushed (env : PushEnv) (token : ℕ) (final : ℤ)
    : Result QuotaError ℤ × List TokenCall → Type 0 where
  push_refused : Pushed env token final (err failed, [])
  push_once :
      (r : Result QuotaError ℤ)
      → (r ≡ ok final) ⊎ (r ≡ err failed)
      → Pushed env token final (r, update_token token final ∷ [])
  push_twice :
      (r : Result QuotaError ℤ) (cred : MemberCred) (u : UpstreamError)
      → (r ≡ ok final) ⊎ (r ≡ err failed)
      → env.updates cred [] ≡ err u
      → auth_expired u ≡ true
      → Pushed env token final (r, update_token token final ∷ update_token token final ∷ [])

pub push_token-Pushed :
    (env : PushEnv) (token : ℕ) (final : ℤ)
    → Pushed env token final (push_token env (some token) final)
push_token-Pushed env token final =
    of (with_org_cred-Runs env.cred env.account (update_op env token final) [])
  where
    told :
        (r : Result CallError (Unit {0})) (org : OrgAccount) (calls : List TokenCall)
        → (((pushed final (r, org, calls)).0 ≡ ok final)
            ⊎ ((pushed final (r, org, calls)).0 ≡ err failed))
          × (pushed final (r, org, calls) ≡ ((pushed final (r, org, calls)).0, calls))
    told (ok v) org calls = (inl refl, refl)
    told (err e) org calls = (inr refl, refl)

    of :
        {out : Result CallError (Unit {0}) × OrgAccount × List TokenCall}
        → Runs env.cred env.account (update_op env token final) [] out
        → Pushed env token final (pushed final out)
    of (never e org) = push_refused
    of (once cred org) =
        let (way, same) =
          told (update_op env token final cred []).0 org (update_token token final ∷ []) in
        subst (Pushed env token final) (sym same) (push_once _ way)
    of (twice cred fresh u org first old) =
        let (way, same) =
          told (update_op env token final fresh (update_token token final ∷ [])).0 org
            (update_token token final ∷ update_token token final ∷ []) in
        subst (Pushed env token final) (sym same)
          (push_twice _ cred u way (as_call_error-eq (env.updates cred []) first) old)

ok_of :
    (r : Result QuotaError ℤ) {final v : ℤ}
    → (r ≡ ok final) ⊎ (r ≡ err failed)
    → r ≡ ok v
    → final ≡ v
ok_of r (inl same) e = ok_injective (sym same ∙ e)
ok_of r (inr fails) e = absurd (refusal (sym fails ∙ e))

pub push-Reports :
    (observe : Bool) (env : PushEnv) (m : Member) (final : ℤ) {v : ℤ}
    → (push observe env m final).0 ≡ ok v
    → (final ≡ v) × Reports observe env m v (push observe env m final).1
unfolding Reports
push-Reports true env m final e = (ok_injective e, inl (inl refl, refl))
push-Reports false env m final {v} e = elim (Option-cases m.token_id) [
  | inl missing ↦
      (ok_injective (rw (missing, push) at e), inl (inr missing, rw (missing, push) refl))
  | inr (token, found) ↦
      let (same, way) = of token (push_token-Pushed env token final) (rw (found, push) at e) in
      (same, inr (token, refl, found, rw (found, push) way))
]
  where
    of :
        (token : ℕ) {out : Result QuotaError ℤ × List TokenCall}
        → Pushed env token final out
        → out.0 ≡ ok v
        → (final ≡ v)
          × ((out.1 ≡ update_token token v ∷ [])
              ⊎ ((cred : MemberCred) × (u : UpstreamError) × (env.updates cred [] ≡ err u)
                  × (auth_expired u ≡ true)
                  × (out.1 ≡ update_token token v ∷ update_token token v ∷ [])))
    of token push_refused h = absurd (refusal h)
    of token (push_once r way) h =
        let same = ok_of r way h in (same, inl (ap (λ q. update_token token q ∷ []) same))
    of token (push_twice r cred u way first old) h =
        let same = ok_of r way h in
        (
          same,
          inr (
            cred,
            u,
            first,
            old,
            ap (λ q. update_token token q ∷ update_token token q ∷ []) same,
          ),
        )
