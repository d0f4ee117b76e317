-- ===== src/Billing/Law.antt =====
-- The status that follows a balance, who may recharge, and what a customer sees.
use nexusapi_enterprise.Prelude.{
  ℕ, ◌≡◌, ◌≢◌, ◌⊎◌, ◌↔◌, refl, ap, sym, ◌∙◌, inl, inr, Bool, true, false, not, [], ◌∷◌, arith,
  Result, Result-cases, ok, err, ◌>>◌, raise_if, ok_injective, >>=-eq-ok, raise_if-eq-ok,
  if◌then◌else◌,
}
use mathlib.Core.Path.{subst}
use nexusapi_enterprise.Prelude.Int.{ℤ, pos, ◌+ℤ◌, ◌≤ℤ◌, ◌<ℤ◌, ltb_ℤ, leb_ℤ}
use nexusapi_enterprise.Prelude.Int64.{i64}
use nexusapi_enterprise.Errors.{RepoError, AppError, not_found_error, invalid_param}
use nexusapi_enterprise.Rbac.{Claims, operator, org_admin, assert_role, assert_org_scope}
use nexusapi_enterprise.Rbac.Law.{assert_role-ok}
use nexusapi_enterprise.Balance.{Balance, Recharge}
use nexusapi_enterprise.Quota.{OrgStatus, org_active, org_low, org_stopped, org_hard_stopped}
use nexusapi_enterprise.Funding.{Store, Answers, apply_recharge}
use nexusapi_enterprise.Billing.{
  target_status, recompute_org_status, found_organization, admit, for_caller, recharge, BillingKind,
  wallet, subscription, CustomerBalance, Readings, or_internal, read_window, balance_by_kind,
  existing_kind, get_customer_balance,
}

-- A hard stop that the operator set stays, whatever the balance; otherwise the status is stopped
-- exactly at a balance of 0 or below, low exactly at a balance above 0 and at or below a watermark that
-- is set, and active exactly at a balance above 0 and above the watermark or with none set. Quotas are written again only if the hard stop is switched on and the status enters or
-- leaves stopped.
pub recompute_org_status-follows :
    (hard_stop : Bool) (current : OrgStatus) (b : Balance)
    → ((current ≡ org_hard_stopped)
        × ((recompute_org_status hard_stop current b).status ≡ org_hard_stopped)
        × ((recompute_org_status hard_stop current b).converges ≡ false))
      ⊎ ((current ≢ org_hard_stopped)
          × (((recompute_org_status hard_stop current b).status ≡ org_stopped)
              ↔ (b.balance ≤ℤ pos 0))
          × (((recompute_org_status hard_stop current b).status ≡ org_low) ↔ (
              (pos 0 <ℤ b.balance) × (pos 0 <ℤ b.low_watermark) × (b.balance ≤ℤ b.low_watermark)))
          × (((recompute_org_status hard_stop current b).status ≡ org_active) ↔ (
              (pos 0 <ℤ b.balance) × ((b.low_watermark ≤ℤ pos 0) ⊎ (b.low_watermark <ℤ b.balance))))
          × (((recompute_org_status hard_stop current b).converges ≡ true) ↔ (
              (hard_stop ≡ true)
              × (((current ≡ org_stopped) × (pos 0 <ℤ b.balance))
                  ⊎ ((current ≢ org_stopped) × (b.balance ≤ℤ pos 0))))))
unfolding recompute_org_status target_status
recompute_org_status-follows hard_stop current b = ground arith

guard_positive :
    (amount : ℤ) (k : Result AppError (Unit {0})) {u : Unit {0}}
    → (raise_if (leb_ℤ amount (pos 0)) invalid_param >> k) ≡ ok u
    → (pos 0 <ℤ amount) × (k ≡ ok u)
guard_positive amount k e =
    let (positive, rest) = raise_if-eq-ok (leb_ℤ amount (pos 0)) invalid_param k e in
    (ground arith, rest)

guard_not :
    (c : Bool) (e : AppError) (k : Result AppError (Unit {0})) {u : Unit {0}}
    → (raise_if (not c) e >> k) ≡ ok u
    → (c ≡ true) × (k ≡ ok u)
guard_not true e k h = (refl, h)
guard_not false e k h = cc

only_operator :
    (c : Claims) {u : Unit {0}} → assert_role c (operator ∷ []) ≡ ok u → c.role ≡ operator
only_operator c e = elim (assert_role-ok c (operator ∷ []) e) [
  | inl same ↦ sym same
  | inr never ↦ absurd never
]

-- What Recharge lets pass.
pub record Admitted (funding_enabled : Bool) (c : Claims) (amount : ℤ)
    (has_transfer_no texts_fit : Bool) (organization : Result RepoError Bool) : Type 0 where
  pub enabled : funding_enabled ≡ true
  pub by_operator : c.role ≡ operator
  pub positive : pos 0 <ℤ amount
  pub numbered : has_transfer_no ≡ true
  pub fits : texts_fit ≡ true
  pub exists : organization ≡ ok true

admit-Admitted :
    (funding_enabled : Bool) (c : Claims) (amount : ℤ) (has_transfer_no texts_fit : Bool)
    (organization : Result RepoError Bool) {u : Unit {0}}
    → admit funding_enabled c amount has_transfer_no texts_fit organization ≡ ok u
    → Admitted funding_enabled c amount has_transfer_no texts_fit organization
admit-Admitted funding_enabled c amount has_transfer_no texts_fit organization e =
    let (enabled, k1) = guard_not funding_enabled not_found_error _ e in
    let (v, allowed, k2) = >>=-eq-ok (assert_role c (operator ∷ [])) _ k1 in
    let (positive, k3) = guard_positive amount _ k2 in
    let (numbered, k4) = guard_not has_transfer_no invalid_param _ k3 in
    let (fits, k5) = guard_not texts_fit invalid_param _ k4 in
    record {
      enabled = enabled;
      by_operator = only_operator c allowed;
      positive = positive;
      numbered = numbered;
      fits = fits;
      exists = there organization k5;
    }
  where
    there : (o : Result RepoError Bool) {u : Unit {0}} → found_organization o ≡ ok u → o ≡ ok true
    there (err x) h = cc
    there (ok true) h = refl
    there (ok false) h = cc

role_passes : (c : Claims) → c.role ≡ operator → assert_role c (operator ∷ []) ≡ ok tt
unfolding assert_role
role_passes c e = ground arith

Admitted-admit :
    (funding_enabled : Bool) (c : Claims) (amount : ℤ) (has_transfer_no texts_fit : Bool)
    (organization : Result RepoError Bool)
    → Admitted funding_enabled c amount has_transfer_no texts_fit organization
    → admit funding_enabled c amount has_transfer_no texts_fit organization ≡ ok tt
Admitted-admit funding_enabled c amount has_transfer_no texts_fit organization w =
    let above : leb_ℤ amount (pos 0) ≡ false = less amount w.positive in
    rw (w.enabled) (
      rw (role_passes c w.by_operator)
        (rw above (rw (w.numbered) (rw (w.fits) (ap found_organization (w.exists))))))
  where
    less : (z : ℤ) → pos 0 <ℤ z → leb_ℤ z (pos 0) ≡ false
    less z p = ground arith

-- Recharge does what applyRecharge does, with its error as the caller is told it, exactly if the
-- funding is switched on, the caller is the operator, the amount is positive, there is a transfer
-- number, the texts fit and the organization is there; otherwise it returns an error, and writes and
-- announces nothing.
pub recharge-guarded :
    (funding_enabled : Bool) (c : Claims) (has_transfer_no texts_fit : Bool)
    (organization : Result RepoError Bool) (a : Answers) (r : Recharge) (s : Store)
    → let out = recharge funding_enabled c has_transfer_no texts_fit organization a r s in
      (Admitted funding_enabled c r.amount has_transfer_no texts_fit organization
        × (out ≡ for_caller (apply_recharge a r s)))
      ⊎ (¬ (Admitted funding_enabled c r.amount has_transfer_no texts_fit organization)
          × ((e : AppError) × (out ≡ record { result = err e; store = s; calls = [] })))
unfolding recharge
recharge-guarded funding_enabled c has_transfer_no texts_fit organization a r s =
    elim (Result-cases (admit funding_enabled c r.amount has_transfer_no texts_fit organization)) [
      | inr (e, refused) ↦
          rw (refused, recharge)
            (inr (
              λ w. unlike (
                  sym refused
                  ∙ Admitted-admit funding_enabled c r.amount has_transfer_no texts_fit organization
                      w),
              (e, refl),
            ))
      | inl (u, passed) ↦
          let law =
            admit-Admitted funding_enabled c r.amount has_transfer_no texts_fit organization
              passed in
          rw (passed, recharge) (inl (law, refl))
    ]
  where
    unlike : {x : AppError} {u : Unit {0}} → ◌≡◌ {A = Result AppError (Unit {0})} (err x) (ok u) → ⊥
    unlike k = cc

may_see :
    (c : Claims) (org : ℕ)
    → assert_org_scope c org ≡ ok tt
    → assert_role c (operator ∷ org_admin ∷ []) ≡ ok tt
    → (c.role ≡ operator) ⊎ ((c.role ≡ org_admin) × (c.org_id ≡ org))
unfolding assert_org_scope assert_role
may_see c org e f = ground arith

shown-nonneg :
    (q : Readings) (kind : BillingKind) {v : CustomerBalance}
    → balance_by_kind q kind ≡ ok v
    → pos 0 ≤ℤ v.available_quota
shown-nonneg q subscription e =
    subst (λ x. pos 0 ≤ℤ x.available_quota) (ok_injective e) (ground arith)
shown-nonneg q wallet e =
    let (window, e1, k1) = >>=-eq-ok (read_window q) _ e in
    let (holding, e2, k2) = >>=-eq-ok (or_internal q.holding) _ k1 in
    subst (λ x. pos 0 ≤ℤ x.available_quota) (ok_injective k2) (clamped (i64 (window +ℤ holding)))
  where
    clamped : (z : ℤ) → pos 0 ≤ℤ (if ltb_ℤ z (pos 0) then pos 0 else z)
    clamped z = ground arith

-- A balance is shown to the operator and to an administrator of the organization itself only, and it
-- is never shown as negative.
pub get_customer_balance-shows :
    (c : Claims) (org : ℕ) (q : Readings) {v : CustomerBalance}
    → get_customer_balance c org q ≡ ok v
    → ((c.role ≡ operator) ⊎ ((c.role ≡ org_admin) × (c.org_id ≡ org)))
      × (pos 0 ≤ℤ v.available_quota)
unfolding get_customer_balance
get_customer_balance-shows c org q e =
    let (u, e1, k1) = >>=-eq-ok (assert_org_scope c org) _ e in
    let (w, e2, k2) = >>=-eq-ok (assert_role c (operator ∷ org_admin ∷ [])) _ k1 in
    let (found, e3, k3) = >>=-eq-ok (or_internal q.kind) _ k2 in
    let (kind, e4, k4) = >>=-eq-ok (existing_kind found) _ k3 in
    (may_see c org e1 e2, shown-nonneg q kind k4)
