-- ===== src/Billing.antt =====
-- service/billing.go and the read side of service/escrow.go: the entry points for a recharge and for
-- the balance, and the status of an organization that follows its balance. Texts stand for the
-- result of their check.
pub mod Law
mod Tests
use nexusapi_enterprise.Prelude.{
  ℕ, Bool, true, false, not, ◌&&◌, ◌||◌, Option, none, some, List, [], ◌∷◌, if◌then◌else◌, Result,
  ok, err, ◌>>=◌, ◌>>◌, raise_if,
}
use nexusapi_enterprise.Prelude.Int.{ℤ, pos, ◌+ℤ◌, ltb_ℤ, leb_ℤ}
use nexusapi_enterprise.Prelude.Int64.{i64}
use nexusapi_enterprise.Errors.{
  RepoError, conflict, optimistic_lock, AppError, internal, not_found_error, invalid_param,
  conflict_error, optimistic_lock_error, from_upstream,
}
use nexusapi_enterprise.Rbac.{Claims, operator, org_admin, assert_role, assert_org_scope}
use nexusapi_enterprise.Balance.{Balance, Recharge}
use nexusapi_enterprise.Quota.{OrgStatus, org_active, org_low, org_stopped, org_hard_stopped}
use nexusapi_enterprise.Funding.{
  Store, Answers, Outcome, ServiceError, repo_error, app_error, apply_recharge,
}

-- The switch of recomputeOrgStatus: what the balance asks for.
unfoldable pub target_status : Balance → OrgStatus
target_status b =
    if leb_ℤ b.balance (pos 0)
    then org_stopped
    else if ltb_ℤ (pos 0) b.low_watermark && leb_ℤ b.balance b.low_watermark
    then org_low
    else org_active

abbrev pub same_org_status : OrgStatus → OrgStatus → Bool
same_org_status org_active org_active = true
same_org_status org_low org_low = true
same_org_status org_stopped org_stopped = true
same_org_status org_hard_stopped org_hard_stopped = true
same_org_status _ _ = false

-- What recomputeOrgStatus leaves: the status, and whether the members' quotas are written again.
pub record Recomputed : Type 0 where
  pub status : OrgStatus
  pub converges : Bool

-- recomputeOrgStatus on the status that it reads; `hard_stop` is false too if the flags cannot be
-- read. Errors of the database end it with the status as it was.
unfoldable pub recompute_org_status : Bool → OrgStatus → Balance → Recomputed
recompute_org_status hard_stop current b =
    if same_org_status current org_hard_stopped || same_org_status current (target_status b)
    then record { status = current; converges = false }
    else record {
      status = target_status b;
      converges =
          hard_stop
          && (same_org_status (target_status b) org_stopped || same_org_status current org_stopped);
    }

-- GetOrganization, as far as Recharge needs it.
abbrev pub found_organization : Result RepoError Bool → Result AppError (Unit {0})
found_organization (err e) = err internal
found_organization (ok true) = ok tt
found_organization (ok false) = err not_found_error

-- Recharge's guards, in their order.
abbrev pub admit :
    Bool → Claims → ℤ → Bool → Bool → Result RepoError Bool → Result AppError (Unit {0})
admit funding_enabled c amount has_transfer_no texts_fit organization = do
  raise_if (not funding_enabled) not_found_error
  assert_role c (operator ∷ [])
  raise_if (leb_ℤ amount (pos 0)) invalid_param
  raise_if (not has_transfer_no) invalid_param
  raise_if (not texts_fit) invalid_param
  found_organization organization

abbrev pub caller_error : ServiceError → AppError
caller_error (repo_error conflict) = conflict_error
caller_error (repo_error optimistic_lock) = optimistic_lock_error
caller_error (repo_error _) = internal
caller_error (app_error e) = e

abbrev pub for_caller : Outcome ServiceError Balance → Outcome AppError Balance
for_caller out = record {
  result = elim out.result [ ok b ↦ ok b | err e ↦ err (caller_error e) ];
  store = out.store;
  calls = out.calls;
}

-- Recharge, up to the status of the organization. `organization` is whether the row exists.
unfoldable pub recharge :
    Bool
    → Claims
    → Bool
    → Bool
    → Result RepoError Bool
    → Answers
    → Recharge
    → Store
    → Outcome AppError Balance
recharge funding_enabled c has_transfer_no texts_fit organization a r s =
    elim (admit funding_enabled c r.amount has_transfer_no texts_fit organization) [
      | err e ↦ record { result = err e; store = s; calls = [] }
      | ok _ ↦ for_caller (apply_recharge a r s)
    ]

pub data BillingKind : Type 0 where
  wallet subscription : BillingKind

pub record CustomerBalance : Type 0 where
  pub available_quota : ℤ
  pub billing_kind : BillingKind

-- What GetBalance and GetDerivedBalance read: the organization (false if there is none), whether it
-- has a pool, the quota of new-api and the sum of the holdings.
pub record Readings : Type 0 where
  pub kind : Result RepoError (Option BillingKind)
  pub has_pool : Result RepoError Bool
  pub window : Result ℕ ℤ
  pub holding : Result RepoError ℤ

abbrev pub or_internal : {A : Type 0} → Result RepoError A → Result AppError A
or_internal (err e) = err internal
or_internal (ok v) = ok v

-- The window, 0 without a pool.
abbrev pub read_window : Readings → Result AppError ℤ
read_window q = do
  pool ← or_internal q.has_pool
  if pool then elim q.window [ err code ↦ err (from_upstream code) | ok w ↦ ok w ] else ok (pos 0)

abbrev pub wallet_balance : Readings → Result AppError CustomerBalance
wallet_balance q = do
  window ← read_window q
  holding ← or_internal q.holding
  let avail = i64 (window +ℤ holding)
  ok (record {
    available_quota = if ltb_ℤ avail (pos 0) then pos 0 else avail;
    billing_kind = wallet;
  })

abbrev pub balance_by_kind : Readings → BillingKind → Result AppError CustomerBalance
balance_by_kind q subscription =
    ok (record { available_quota = pos 0; billing_kind = subscription })
balance_by_kind q wallet = wallet_balance q

abbrev pub existing_kind : Option BillingKind → Result AppError BillingKind
existing_kind none = err not_found_error
existing_kind (some kind) = ok kind

-- GetBalance
unfoldable pub get_customer_balance : Claims → ℕ → Readings → Result AppError CustomerBalance
get_customer_balance c org q = do
  assert_org_scope c org
  assert_role c (operator ∷ org_admin ∷ [])
  found ← or_internal q.kind
  kind ← existing_kind found
  balance_by_kind q kind

pub record DerivedBalance : Type 0 where
  pub window_quota : ℤ
  pub holding_quota : ℤ
  pub available_quota : ℤ

-- GetDerivedBalance
unfoldable pub get_derived_balance : Claims → ℕ → Readings → Result AppError DerivedBalance
get_derived_balance c org q = do
  assert_org_scope c org
  assert_role c (operator ∷ [])
  window ← read_window q
  holding ← or_internal q.holding
  ok (record {
    window_quota = window;
    holding_quota = holding;
    available_quota = i64 (window +ℤ holding);
  })
