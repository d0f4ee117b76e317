-- ===== src/Usage/Deduct.antt =====
-- What a settlement deducts of each organization: perOrg and its loop in RunSettlement of
-- service/settlement.go.
use nexusapi_enterprise.Prelude.{
  ℕ, Bool, false, none, some, List, [], ◌∷◌, ◌==◌, if◌then◌else◌, Result, ok, err, ◌>>=◌,
}
use nexusapi_enterprise.Prelude.Int.{ℤ, pos, ◌+ℤ◌, leb_ℤ}
use nexusapi_enterprise.Prelude.Int64.{i64}
use nexusapi_enterprise.Errors.{RepoError, not_found}
use nexusapi_enterprise.Balance.{Balance, Balances, deduct_balance_tx}
use nexusapi_enterprise.Usage.{LedgerBucket, cached}

-- perOrg[a.orgID] += a.consumed
unfoldable pub add_amount : ℕ → ℤ → List (ℕ × ℤ) → List (ℕ × ℤ)
add_amount org amount [] = (org, amount) ∷ []
add_amount org amount ((o, v) ∷ rest) =
    let others = add_amount org amount rest in
    if o == org then (o, i64 (v +ℤ amount)) ∷ rest else (o, v) ∷ others

unfoldable pub per_org : List LedgerBucket → List (ℕ × ℤ) → List (ℕ × ℤ)
per_org [] sums = sums
per_org (a ∷ others) sums = per_org others (add_amount a.key.org_id a.consumed_quota sums)

abbrev pub is_flagged : ℕ → List (ℕ × Bool) → Bool
is_flagged org cache = elim (cached org cache) [ none ↦ false | some flag ↦ flag ]

-- The deduction of one organization: what was deducted. No balance row is no error.
abbrev pub skip_missing :
    ℤ → Balances → Result RepoError (Balance × Balances) → Result RepoError (ℤ × Balances)
skip_missing amount bs (ok (b, bs')) = ok (amount, bs')
skip_missing amount bs (err not_found) = ok (pos 0, bs)
skip_missing amount bs (err e) = err e

unfoldable pub deduct_one : List (ℕ × Bool) → ℕ → ℤ → Balances → Result RepoError (ℤ × Balances)
deduct_one flags org amount bs =
    if leb_ℤ amount (pos 0)
    then ok (pos 0, bs)
    else if is_flagged org flags
    then skip_missing amount bs (deduct_balance_tx org amount bs)
    else ok (pos 0, bs)

unfoldable pub deduct_orgs :
    List (ℕ × Bool) → List (ℕ × ℤ) → ℤ → Balances → Result RepoError (ℤ × Balances)
deduct_orgs flags [] total bs = ok (total, bs)
deduct_orgs flags ((org, amount) ∷ rest) total bs =
    deduct_one flags org amount bs >>= λ out. deduct_orgs flags rest (i64 (total +ℤ out.0)) out.1
