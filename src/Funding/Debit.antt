-- ===== src/Funding/Debit.antt =====
-- What DebitBalance leaves on every branch.
use nexusapi_enterprise.Prelude.{
  ℕ, ◌≡◌, ◌⊎◌, refl, sym, inl, inr, Bool, [], ◌∷◌, arith, Result, Result-cases, ok, err, >>=-eq-ok,
  ◌>>◌, raise_if, not, raise_if-eq-ok,
}
use nexusapi_enterprise.Prelude.Int.{ℤ, pos, ◌≤ℤ◌, leb_ℤ}
use nexusapi_enterprise.Prelude.Int64.{IsInt64}
use nexusapi_enterprise.Errors.{AppError, invalid_param, not_found_error}
use nexusapi_enterprise.Rbac.{Claims, operator, assert_role}
use nexusapi_enterprise.Rbac.Law.{assert_role-ok}
use nexusapi_enterprise.Balance.{Balance}
use nexusapi_enterprise.Funding.{
  Store, Answers, Outcome, debit_tx, debit_balance, admit_debit, debit_calls, debit_error,
}
use nexusapi_enterprise.Funding.Sound.{IsSound, DebitedBoth, debit_tx-DebitedBoth}
use nexusapi_enterprise.Funding.Tx.{with_tx-cases}

-- The outcome of a refund: taken out of both books and, as far as the window gave it, announced; or
-- refused with nothing written and nothing announced.
unfoldable pub DebitOutcome : ℕ → ℤ → Store → Outcome AppError Balance → Type 0
DebitOutcome org amount s out =
    ((b : Balance) × (dec : ℤ) × (out.result ≡ ok b)
      × DebitedBoth org amount s ((b, dec), out.store)
      × (out.calls ≡ debit_calls dec))
    ⊎ ((e : AppError) × (out.result ≡ err e) × (out.store ≡ s) × (out.calls ≡ []))

guard_positive :
    (amount : ℤ) (k : Result AppError (Unit {0})) {b : Unit {0}}
    → (raise_if (leb_ℤ amount (pos 0)) invalid_param >> k) ≡ ok b
    → pos 0 ≤ℤ amount
guard_positive amount k e =
    let (positive, rest) = raise_if-eq-ok (leb_ℤ amount (pos 0)) invalid_param k e in ground arith

-- What the guards of DebitBalance let pass is a positive amount, asked for by the operator.
admit_debit-lem :
    (funding_enabled has_pool : Bool) (amount : ℤ) (reason_given : Bool) (a : Answers) (c : Claims)
    {u : Unit {0}}
    → admit_debit funding_enabled has_pool amount reason_given a c ≡ ok u
    → (pos 0 ≤ℤ amount) × (c.role ≡ operator)
admit_debit-lem funding_enabled has_pool amount reason_given a c e =
    let (on, k1) = raise_if-eq-ok (not funding_enabled) not_found_error _ e in
    let (u, allowed, k2) = >>=-eq-ok (assert_role c (operator ∷ [])) _ k1 in
    (
      guard_positive amount _ k2,
      elim (assert_role-ok c (operator ∷ []) allowed) [
        | inl same ↦ sym same
        | inr never ↦ absurd never
      ],
    )

pub debit_balance-DebitOutcome :
    (funding_enabled has_pool : Bool) (org : ℕ) (amount : ℤ) (reason_given : Bool) (a : Answers)
    (c : Claims) (s : Store)
    → IsSound s
    → IsInt64 amount
    → DebitOutcome org amount s
        (debit_balance funding_enabled has_pool org amount reason_given a c s)
unfolding debit_balance DebitOutcome
debit_balance-DebitOutcome funding_enabled has_pool org amount reason_given a c s sound range =
    elim (Result-cases (admit_debit funding_enabled has_pool amount reason_given a c)) [
      | inr (e, stopped) ↦ rw (stopped, debit_balance) (inr (e, refl, refl, refl))
      | inl (u, passed) ↦
          let (positive, who) =
            admit_debit-lem funding_enabled has_pool amount reason_given a c passed in
          elim (with_tx-cases a.commits (debit_tx org amount) s) [
            | inl (out, runs, done) ↦
                rw (passed, debit_balance)
                  (rw done (
                    inl (
                      out.0.0,
                      out.0.1,
                      refl,
                      debit_tx-DebitedBoth org amount s sound positive range runs,
                      refl,
                    )))
            | inr (e, undone) ↦
                rw (passed, debit_balance) (rw undone (inr (debit_error e, refl, refl, refl)))
          ]
    ]
