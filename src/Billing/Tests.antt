-- ===== src/Billing/Tests.antt =====
-- An overdrawn organization, and the theorems at it.
use nexusapi_enterprise.Prelude.{◌≡◌, ◌≢◌, ◌⊎◌, ◌↔◌, refl, true, false, some, [], ◌∷◌, ok, err}
use nexusapi_enterprise.Prelude.Int.{pos, negsuc, ◌+ℤ◌, ◌≤ℤ◌, ◌<ℤ◌}
use nexusapi_enterprise.Prelude.Int64.{i64}
use nexusapi_enterprise.Errors.{AppError}
use nexusapi_enterprise.Rbac.{Claims, operator, org_admin, assert_org_scope, assert_role}
use nexusapi_enterprise.Balance.{Balance, Recharge}
use nexusapi_enterprise.Quota.{org_active, org_low, org_stopped, org_hard_stopped}
use nexusapi_enterprise.Funding.{Answers, empty_store, apply_recharge}
use nexusapi_enterprise.Billing.{
  recompute_org_status, for_caller, recharge, Readings, wallet, get_customer_balance,
}
use nexusapi_enterprise.Billing.Law.{
  recompute_org_status-follows, Admitted, recharge-guarded, get_customer_balance-shows,
}

abbrev administrator : Claims
administrator = record {
  member_id = 4;
  org_id = 7;
  team_id = 0;
  role = org_admin;
  support_session_id = 0;
}

abbrev overdrawn : Readings
overdrawn = record {
  kind = ok (some wallet);
  has_pool = ok true;
  window = ok (negsuc 40);
  holding = ok (pos 5);
}

get_customer_balance-shows_example :
    ((org_admin ≡ operator) ⊎ ((org_admin ≡ org_admin) × (administrator.org_id ≡ 7)))
    × (pos 0 ≤ℤ pos 0)
unfolding get_customer_balance assert_org_scope assert_role i64 ◌+ℤ◌
get_customer_balance-shows_example = get_customer_balance-shows administrator 7 overdrawn refl

abbrev answers : Answers
answers = record {
  organization = true;
  credential = ok tt;
  lock_free = true;
  window = ok (pos 0);
  commits = true;
}

abbrev transfer : Recharge
transfer = record { org_id = 7; amount = pos 50; transfer_no = 84 ∷ [] }

recharge-guarded_example :
    (Admitted true administrator (pos 50) true true (ok true)
      × (recharge true administrator true true (ok true) answers transfer empty_store
          ≡ for_caller (apply_recharge answers transfer empty_store)))
    ⊎ (¬ (Admitted true administrator (pos 50) true true (ok true))
        × ((e : AppError) × (recharge true administrator true true
                (ok true)
                answers
                transfer
                empty_store
              ≡ record { result = err e; store = empty_store; calls = [] })))
recharge-guarded_example =
    recharge-guarded true administrator true true (ok true) answers transfer empty_store

abbrev low_row : Balance
low_row = record {
  total_recharged = pos 100;
  total_consumed = pos 95;
  total_refunded = pos 0;
  balance = pos 5;
  low_watermark = pos 10;
  version = pos 0;
}

recompute_org_status-follows_example :
    ((org_stopped ≡ org_hard_stopped)
      × ((recompute_org_status true org_stopped low_row).status ≡ org_hard_stopped)
      × ((recompute_org_status true org_stopped low_row).converges ≡ false))
    ⊎ ((org_stopped ≢ org_hard_stopped)
        × (((recompute_org_status true org_stopped low_row).status ≡ org_stopped)
            ↔ (pos 5 ≤ℤ pos 0))
        × (((recompute_org_status true org_stopped low_row).status ≡ org_low)
            ↔ ((pos 0 <ℤ pos 5) × (pos 0 <ℤ pos 10) × (pos 5 ≤ℤ pos 10)))
        × (((recompute_org_status true org_stopped low_row).status ≡ org_active)
            ↔ ((pos 0 <ℤ pos 5) × ((pos 10 ≤ℤ pos 0) ⊎ (pos 10 <ℤ pos 5))))
        × (((recompute_org_status true org_stopped low_row).converges ≡ true) ↔ (
            (true ≡ true)
            × (((org_stopped ≡ org_stopped) × (pos 0 <ℤ pos 5))
                ⊎ ((org_stopped ≢ org_stopped) × (pos 5 ≤ℤ pos 0))))))
recompute_org_status-follows_example = recompute_org_status-follows true org_stopped low_row
