-- ===== src/Funding/Tx.antt =====
-- What WithTx leaves of a store, and the bounds of the part of a recharge that fits the window.
use nexusapi_enterprise.Prelude.{
  ◌≡◌, ◌⊎◌, ap, inl, inr, Bool, arith, Bool-cases, Result, Result-cases, ok, err,
}
use nexusapi_enterprise.Prelude.Int.{ℤ, pos, ◌+ℤ◌, ◌-ℤ◌, ◌≤ℤ◌, int_laws, pos_part, neg_part}
use nexusapi_enterprise.Prelude.Int64.{IsInt64, i64, i64_id}
use nexusapi_enterprise.Errors.{RepoError, database}
use nexusapi_enterprise.Funding.{Store, with_tx, fit_of, escrow_window_cap}

-- A transaction commits what its function wrote, or leaves the store as it was.
pub with_tx-cases :
    {A : Type 0} (commits : Bool) (f : Store → Result RepoError (A × Store)) (s : Store)
    → ((out : A × Store) × (f s ≡ ok out) × (with_tx commits f s ≡ (ok out.0, out.1)))
      ⊎ ((e : RepoError) × (with_tx commits f s ≡ (err e, s)))
unfolding with_tx
with_tx-cases commits f s = elim (Result-cases (f s)) [
  | inr (e, failed) ↦ inr (e, rw (failed, with_tx))
  | inl (out, runs) ↦ elim (Bool-cases commits) [
    | inl done ↦ inl (out, runs, rw (runs, with_tx) (rw done))
    | inr lost ↦ inr (database, rw (runs, with_tx) (rw lost))
  ]
]

pub fit_of-range :
    (amount window : ℤ)
    → pos 0 ≤ℤ amount
    → (pos 0 ≤ℤ fit_of amount window) × (fit_of amount window ≤ℤ amount)
unfolding fit_of
fit_of-range amount window p = ground arith

fit_of-space :
    (amount window : ℤ)
    → (fit_of amount window ≤ℤ i64 (escrow_window_cap -ℤ window)) ⊎ (fit_of amount window ≡ pos 0)
unfolding fit_of
fit_of-space amount window = ground arith

-- What is put into a window that is under the cap leaves it under the cap.
pub fit_of-cap :
    (amount window : ℤ)
    → IsInt64 (escrow_window_cap -ℤ window)
    → window ≤ℤ escrow_window_cap
    → window +ℤ fit_of amount window ≤ℤ escrow_window_cap
fit_of-cap amount window range le =
    let e = i64_id (escrow_window_cap -ℤ window) range in
    elim (fit_of-space amount window) [
      | inl space ↦ omega (int_laws, space, ap pos_part e, ap neg_part e)
      | inr zero_fit ↦ rw zero_fit (omega (int_laws, le))
    ]
