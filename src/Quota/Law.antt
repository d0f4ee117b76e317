-- ===== src/Quota/Law.antt =====
-- What a member's quota is, and what is written to new-api.
use nexusapi_enterprise.Prelude.{
  ◌≡◌, refl, ap, sym, ◌∙◌, inl, inr, Bool, true, false, not, List, [], ◌∷◌, arith, Result,
  Result-cases, ok, ok_injective, >>=-eq-ok, raise_if-eq-ok, All, ℕ, Option, some, none,
}
use mathlib.Core.Path.{subst}
use nexusapi_enterprise.Prelude.Int.{ℤ, pos, ◌+ℤ◌, ◌≤ℤ◌, int_laws}
use nexusapi_enterprise.Prelude.Int64.{i64_id, IsInt64}
use nexusapi_enterprise.Quota.{
  Answers, Member, Organization, org_stopped, QuotaError, failed, compute_override,
  resolve_base_quota, add_grants, clamp_0, stop_value, gate_stopped, gate_by_org_status, is_stopped,
}
use nexusapi_enterprise.Quota.Apply.{
  TokenCall, update_token, PushEnv, push_token, final_override, apply_member_override,
}
use nexusapi_enterprise.Quota.Pushed.{
  refusal, Reports, Pushed, push_refused, push_once, push_twice, push_token-Pushed, push-Reports,
}

-- The sum of the grants, as integers.
unfoldable pub total_of : List ℤ → ℤ
total_of [] = pos 0
total_of (delta ∷ ds) = delta +ℤ total_of ds

-- No partial sum leaves the range of int64.
unfoldable pub SumsFit : ℤ → List ℤ → Type 0
SumsFit override [] = Unit
SumsFit override (delta ∷ ds) = IsInt64 (override +ℤ delta) × SumsFit (override +ℤ delta) ds

add_grants-total :
    (override : ℤ) (ds : List ℤ)
    → SumsFit override ds
    → add_grants override ds ≡ override +ℤ total_of ds
unfolding add_grants total_of SumsFit
add_grants-total override [] fits = omega int_laws
add_grants-total override (delta ∷ ds) fits =
    rw (i64_id (override +ℤ delta) fits.0)
      (add_grants-total (override +ℤ delta) ds fits.1 ∙ (omega int_laws))

-- A member's quota is the base and the sum of the active grants, and 0 if that is negative, when
-- both can be read and no partial sum leaves the range of int64.
pub compute_override-total :
    (a : Answers) (m : Member) (base : ℤ) (grants : List ℤ)
    → resolve_base_quota a m ≡ ok base
    → a.grants ≡ ok grants
    → SumsFit base grants
    → compute_override a m ≡ ok (clamp_0 (base +ℤ total_of grants))
unfolding compute_override
compute_override-total a m base grants resolves granted fits =
    rw resolves (rw granted (ap (λ v. ok (clamp_0 v)) (add_grants-total base grants fits)))

clamp_0-nonneg : (v : ℤ) → pos 0 ≤ℤ clamp_0 v
clamp_0-nonneg v = ground arith

compute_override-nonneg :
    (a : Answers) (m : Member) {v : ℤ} → compute_override a m ≡ ok v → pos 0 ≤ℤ v
unfolding compute_override
compute_override-nonneg a m e =
    let (base, e1, k1) = >>=-eq-ok (resolve_base_quota a m) _ e in
    let (grants, e2, k2) = >>=-eq-ok a.grants _ k1 in
    subst (λ x. pos 0 ≤ℤ x) (ok_injective k2) (clamp_0-nonneg (add_grants base grants))

-- The organization is stopped and its hard stop is switched on.
pub record IsHardStop (a : Answers) : Type 0 where
  pub org : Organization
  pub reads : a.organization ≡ ok org
  pub stopped : org.status ≡ org_stopped
  pub enabled : a.hard_stop_enabled ≡ ok true

stop_value-nonneg : (enabled : Bool) (v : ℤ) → pos 0 ≤ℤ v → pos 0 ≤ℤ stop_value enabled v
stop_value-nonneg true v p = omega arith
stop_value-nonneg false v p = p

gate_stopped-nonneg :
    (a : Answers) (override : ℤ) (stopped : Bool) {v : ℤ}
    → pos 0 ≤ℤ override
    → gate_stopped a override stopped ≡ ok v
    → pos 0 ≤ℤ v
gate_stopped-nonneg a override false p e = subst (λ x. pos 0 ≤ℤ x) (ok_injective e) p
gate_stopped-nonneg a override true p e =
    let (enabled, e1, k1) = >>=-eq-ok a.hard_stop_enabled _ e in
    subst (λ x. pos 0 ≤ℤ x) (ok_injective k1) (stop_value-nonneg enabled override p)

gate-nonneg :
    (observe : Bool) (a : Answers) (override : ℤ) {v : ℤ}
    → pos 0 ≤ℤ override
    → gate_by_org_status observe a override ≡ ok v
    → pos 0 ≤ℤ v
unfolding gate_by_org_status
gate-nonneg true a override p e = subst (λ x. pos 0 ≤ℤ x) (ok_injective e) p
gate-nonneg false a override p e =
    let (org, e1, k1) = >>=-eq-ok a.organization _ e in
    gate_stopped-nonneg a override (is_stopped org.status) p k1

gate-stops :
    (a : Answers) (override : ℤ) {v : ℤ}
    → IsHardStop a
    → gate_by_org_status false a override ≡ ok v
    → v ≡ pos 0
unfolding gate_by_org_status
gate-stops a override h e =
    let (org, e1, k1) = >>=-eq-ok a.organization _ e in
    let same : org ≡ h.org = ok_injective (sym e1 ∙ h.reads) in
    let stop : is_stopped org.status ≡ true = rw same (rw (h.stopped) refl) in
    let k2 = rw (stop, gate_stopped) at k1 in
    let (enabled, e3, k3) = >>=-eq-ok a.hard_stop_enabled _ k2 in
    let on : enabled ≡ true = ok_injective (sym e3 ∙ h.enabled) in
    sym (ok_injective k3) ∙ ap (λ b. stop_value b override) on

final_override-range :
    (observe : Bool) (a : Answers) (m : Member) {v : ℤ}
    → final_override observe a m ≡ ok v
    → (pos 0 ≤ℤ v) × ((override : ℤ) × (gate_by_org_status observe a override ≡ ok v))
final_override-range observe a m e =
    let (free, k0) = raise_if-eq-ok (not a.lock_free) failed _ e in
    let (override, e1, k1) = >>=-eq-ok (compute_override a m) _ k0 in
    (gate-nonneg observe a override (compute_override-nonneg a m e1) k1, (override, k1))

abbrev pub quota_of : TokenCall → ℤ
quota_of (update_token token quota) = quota

-- A quota that is reported is not negative. UpdateToken was called for the member's token with the
-- quota that is reported, once, or a second time with the same quota after an expired authorization;
-- or it was not called, and then it is observe mode or the member has no token.
pub apply_member_override-Reports :
    (observe : Bool) (a : Answers) (env : PushEnv) (m : Member) {v : ℤ}
    → (apply_member_override observe a env m).0 ≡ ok v
    → (pos 0 ≤ℤ v) × Reports observe env m v (apply_member_override observe a env m).1
unfolding apply_member_override
apply_member_override-Reports observe a env m e = elim (Result-cases (final_override observe a m)) [
  | inl (final, runs) ↦
      let (nonneg, gated) = final_override-range observe a m runs in
      let (same, told) = push-Reports observe env m final (rw (runs, apply_member_override) at e) in
      (subst (λ x. pos 0 ≤ℤ x) same nonneg, rw (runs, apply_member_override) told)
  | inr (x, stops) ↦ absurd (refusal (rw (stops, apply_member_override) at e))
]

-- Out of observe mode, while the organization is stopped with its hard stop switched on, every
-- quota that is written to new-api is 0.
pub apply_member_override-writes :
    (a : Answers) (env : PushEnv) (m : Member)
    → IsHardStop a
    → All (λ c. quota_of c ≡ pos 0) (apply_member_override false a env m).1
unfolding apply_member_override
apply_member_override-writes a env m h = elim (Result-cases (final_override false a m)) [
  | inl (final, runs) ↦
      let (nonneg, (override, gated)) = final_override-range false a m runs in
      let zero_final = gate-stops a override h gated in
      rw (runs, apply_member_override) (zeros final zero_final m.token_id)
  | inr (x, stops) ↦ rw (stops, apply_member_override) tt
]
  where
    of :
        (token : ℕ) (final : ℤ) {out : Result QuotaError ℤ × List TokenCall}
        → final ≡ pos 0
        → Pushed env token final out
        → All (λ c. quota_of c ≡ pos 0) out.1
    of token final z push_refused = tt
    of token final z (push_once r way) = (z, tt)
    of token final z (push_twice r cred u way first old) = (z, (z, tt))

    zeros :
        (final : ℤ)
        → final ≡ pos 0
        → (token : Option ℕ) → All (λ c. quota_of c ≡ pos 0) (push_token env token final).1
    zeros final z none = tt
    zeros final z (some token) = of token final z (push_token-Pushed env token final)
