-- ===== src/Funding/Reconcile.antt =====
-- What reconcileOrgEscrow may do to an organization's window.
use nexusapi_enterprise.Prelude.{◌≡◌, ◌∙◌, false, none, List, [], ◌∷◌, arith}
use nexusapi_enterprise.Prelude.Int.{ℤ, pos, ◌+ℤ◌, ◌-ℤ◌, ◌≤ℤ◌, int_laws, ltb_ℤ}
use nexusapi_enterprise.Prelude.Int64.{IsInt64, i64, i64_id}
use nexusapi_enterprise.Funding.{UpstreamCall, quota_add, quota_subtract, target_of, baseline_of}

-- What new-api holds after the calls.
pub after_calls : List UpstreamCall → ℤ → ℤ
after_calls [] quota = quota
after_calls (quota_add n ∷ cs) quota = after_calls cs (quota +ℤ n)
after_calls (quota_subtract n ∷ cs) quota = after_calls cs (quota -ℤ n)

self_difference : (z : ℤ) → i64 (z -ℤ z) ≡ pos 0
self_difference z = i64_id _ (omega int_laws) ∙ (omega int_laws)

-- At the first correction of an organization nothing that it consumed before counts: the target is
-- all that was released to the window.
target_of-first :
    (released consumed : ℤ)
    → pos 0 ≤ℤ released
    → IsInt64 released
    → target_of released consumed (baseline_of none consumed) ≡ released
unfolding target_of
target_of-first released consumed p range =
    let e : i64 (released -ℤ pos 0) ≡ released =
      i64_id _ (omega (int_laws, range)) ∙ (omega int_laws) in
    let big : ltb_ℤ released (pos 0) ≡ false = ground arith in
    rw (self_difference consumed) (rw e (rw big))
