-- ===== src/Funding/Deposit.antt =====
-- What applyRecharge leaves on every branch.
use nexusapi_enterprise.Prelude.{
  ◌≡◌, ◌⊎◌, refl, inl, inr, Bool, true, List, [], ◌∷◌, arith, Result, Result-cases, ok, err, ◌==◌,
  ◌&&◌, same_text, same_text_refl, ◌==◌,
}
use nexusapi_enterprise.Prelude.Int.{ℤ, pos, ◌-ℤ◌, ◌≤ℤ◌}
use nexusapi_enterprise.Prelude.Int64.{IsInt64, i64}
use nexusapi_enterprise.Errors.{conflict, RepoError}
use nexusapi_enterprise.Balance.Law.{add_recharge_tx-repeated}
use nexusapi_enterprise.Balance.{transfer_taken, Balance, Recharge}
use nexusapi_enterprise.Funding.{
  Store, Answers, Outcome, ServiceError, app_error, with_tx, fit_of, recharge_tx, apply_recharge,
  admit_recharge, recharge_calls, recharge_error,
}
use nexusapi_enterprise.Funding.Sound.{IsSound, RechargedBoth, recharge_tx-RechargedBoth}
use nexusapi_enterprise.Funding.Tx.{with_tx-cases, fit_of-range}

-- The outcome of a recharge: booked in both books and announced to new-api, or refused with
-- nothing written and nothing announced.
unfoldable pub RechargeOutcome : Recharge → Store → Outcome ServiceError Balance → Type 0
RechargeOutcome r s out =
    ((window : ℤ) × (b : Balance) × (out.result ≡ ok b)
      × RechargedBoth r (fit_of r.amount window) s b out.store
      × (out.calls ≡ recharge_calls window (fit_of r.amount window)))
    ⊎ ((e : ServiceError) × (out.result ≡ err e) × (out.store ≡ s) × (out.calls ≡ []))

not_both :
    {m : Result ServiceError Balance} {e : ServiceError} {b : Balance} → m ≡ err e → m ≡ ok b → ⊥
not_both e k = cc

pub apply_recharge-RechargeOutcome :
    (a : Answers) (r : Recharge) (s : Store)
    → IsSound s
    → pos 0 ≤ℤ r.amount
    → IsInt64 r.amount
    → RechargeOutcome r s (apply_recharge a r s)
unfolding apply_recharge RechargeOutcome
apply_recharge-RechargeOutcome a r s sound p range = elim (Result-cases (admit_recharge a)) [
  | inr (e, stopped) ↦ rw (stopped, apply_recharge) (inr (app_error e, refl, refl, refl))
  | inl (window, passed) ↦
      let fit = fit_of r.amount window in
      let (nonneg, le) = fit_of-range r.amount window p in
      let tx = recharge_tx r fit (i64 (r.amount -ℤ fit)) in
      elim (with_tx-cases a.commits tx s) [
        | inl (out, runs, done) ↦
            rw (passed, apply_recharge)
              (rw done (
                inl (
                  window,
                  out.0,
                  refl,
                  recharge_tx-RechargedBoth r fit s sound nonneg le range runs,
                  refl,
                )))
        | inr (e, undone) ↦
            rw (passed, apply_recharge) (rw undone (inr (recharge_error e, refl, refl, refl)))
      ]
]

-- The same transfer number again writes nothing and announces nothing, whatever new-api, the lock
-- and the commit answer then.
transfer_taken-head :
    (r : Recharge) (rs : List Recharge) → transfer_taken r.org_id r.transfer_no (r ∷ rs) ≡ true
unfolding transfer_taken
transfer_taken-head r rs =
    let hit : (r.org_id == r.org_id && same_text r.transfer_no r.transfer_no) ≡ true =
      ground (arith, same_text_refl r.transfer_no) in
    rw hit

recharge_tx-conflict :
    (r : Recharge) (fit rest : ℤ) (s : Store)
    → transfer_taken r.org_id r.transfer_no s.accounts.1 ≡ true
    → recharge_tx r fit rest s ≡ err conflict
unfolding recharge_tx
recharge_tx-conflict r fit rest s taken = rw (add_recharge_tx-repeated r s.accounts taken)

with_tx-err :
    {A : Type 0} (commits : Bool) (f : Store → Result RepoError (A × Store)) (s : Store)
    {e : RepoError}
    → f s ≡ err e
    → with_tx commits f s ≡ (err e, s)
unfolding with_tx
with_tx-err commits f s failed = rw (failed, with_tx)

apply_recharge-repeated :
    (a : Answers) (r : Recharge) (s : Store)
    → transfer_taken r.org_id r.transfer_no s.accounts.1 ≡ true
    → ((apply_recharge a r s).store ≡ s) × ((apply_recharge a r s).calls ≡ [])
unfolding apply_recharge
apply_recharge-repeated a r s taken = elim (Result-cases (admit_recharge a)) [
  | inr (e, stopped) ↦ rw (stopped, apply_recharge) (refl, refl)
  | inl (window, passed) ↦
      let fit = fit_of r.amount window in
      let none_booked =
        with_tx-err a.commits (recharge_tx r fit (i64 (r.amount -ℤ fit))) s
          (recharge_tx-conflict r fit (i64 (r.amount -ℤ fit)) s taken) in
      rw (passed, apply_recharge) (rw none_booked (refl, refl))
]

-- A transfer that was booked is not booked again by a second call.
pub apply_recharge-twice :
    (a a' : Answers) (r : Recharge) (s : Store) {b : Balance}
    → IsSound s
    → pos 0 ≤ℤ r.amount
    → IsInt64 r.amount
    → (apply_recharge a r s).result ≡ ok b
    → (apply_recharge a' r (apply_recharge a r s).store).store ≡ (apply_recharge a r s).store
unfolding RechargeOutcome
apply_recharge-twice a a' r s sound p range e =
    elim (apply_recharge-RechargeOutcome a r s sound p range) [
      | inl (window, b, done, both, calls) ↦
          let s1 = (apply_recharge a r s).store in
          let taken : transfer_taken r.org_id r.transfer_no s1.accounts.1 ≡ true =
            rw (both.accounts.recorded) (transfer_taken-head r s.accounts.1) in
          (apply_recharge-repeated a' r s1 taken).0
      | inr (f, failed, same, calls) ↦ absurd (not_both failed e)
    ]
