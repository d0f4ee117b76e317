-- ===== src/Funding/Reach.antt =====
-- The stores that the operations can reach from empty tables, in any order and with any answers of
-- new-api, of the lock and of the commit.
use nexusapi_enterprise.Prelude.{
  ℕ, ◌≡◌, refl, ap, sym, inl, inr, Bool, arith, ok, ok_injective, >>=-eq-ok,
}
use mathlib.Core.Path.{subst}
use nexusapi_enterprise.Prelude.Int.{ℤ, pos, ◌-ℤ◌, ◌≤ℤ◌, int_laws, pos_part, neg_part}
use nexusapi_enterprise.Prelude.Int64.{IsInt64}
use nexusapi_enterprise.Rbac.{Claims}
use nexusapi_enterprise.Escrow.{escrowed, sum_where}
use nexusapi_enterprise.Balance.{Balance, Recharge, deduct_balance_tx}
use nexusapi_enterprise.Balance.Moves.{balance_of, IsConserved}
use nexusapi_enterprise.Balance.Law.{deduct_balance_tx-Taken}
use nexusapi_enterprise.Funding.{
  Store, empty_store, Answers, apply_recharge, refill_to_window, debit_balance, deduct_tx, with_tx,
}
use nexusapi_enterprise.Funding.Sound.{IsBooked, IsSound, books_by}
use nexusapi_enterprise.Funding.Tx.{with_tx-cases}
use nexusapi_enterprise.Funding.Deposit.{apply_recharge-RechargeOutcome, RechargeOutcome}
use nexusapi_enterprise.Funding.Refill.{refill_to_window-Refilled}
use nexusapi_enterprise.Funding.Debit.{debit_balance-DebitOutcome, DebitOutcome}

-- One operation of the service on the store.
pub data Step : Store → Store → Type 0 where
  recharges :
      {s : Store} (a : Answers) (r : Recharge)
      → pos 0 ≤ℤ r.amount
      → IsInt64 r.amount
      → Step s (apply_recharge a r s).store
  refills :
      {s : Store} (a : Answers) (org : ℕ) (trigger : ℤ)
      → Step s (refill_to_window a org trigger s).store
  debits :
      {s : Store} (funding has_pool : Bool) (org : ℕ) (amount : ℤ) (reason : Bool) (a : Answers)
      (c : Claims)
      → IsInt64 amount
      → Step s (debit_balance funding has_pool org amount reason a c s).store
  deducts :
      {s : Store} (commits : Bool) (org : ℕ) (amount : ℤ)
      → Step s (with_tx commits (deduct_tx org amount) s).1

pub data Reach : Store → Type 0 where
  start : Reach empty_store
  then_step : {s s' : Store} → Reach s → Step s s' → Reach s'

start-IsSound : IsSound empty_store
unfolding sum_where
start-IsSound = record {
  table = record { ids = tt; amounts = tt };
  books = λ org. record {
    escrow = omega int_laws;
    balance = omega int_laws;
    recharged = omega arith;
    refunded = omega arith;
  };
}

-- A deduction moves the balance only.
deduct_tx-IsSound :
    (org : ℕ) (amount : ℤ) (s : Store)
    → IsSound s
    → {out : Balance × Store} → deduct_tx org amount s ≡ ok out
    → IsSound out.1
unfolding deduct_tx
deduct_tx-IsSound org amount s sound e =
    let (booked, e1, k1) = >>=-eq-ok (deduct_balance_tx org amount s.accounts.0) _ e in
    let law = deduct_balance_tx-Taken org amount s.accounts.0 (sound.books org).recharged e1 in
    let m = law.moves in
    let books = sound.books org in
    let row : balance_of org booked.1 ≡ booked.0 = rw (law.row, balance_of) in
    subst (λ x. IsSound x.1) (ok_injective k1)
      (record {
        table = sound.table;
        books =
            books_by org s.buckets s.buckets s.accounts.0 booked.1 sound.books (λ o ne. refl)
              law.others
              (subst (IsBooked org s.buckets) (sym row) (record {
                escrow = omega (
                  int_laws,
                  ap pos_part books.escrow,
                  ap neg_part books.escrow,
                  ap pos_part m.recharges,
                  ap neg_part m.recharges,
                  ap pos_part m.refunds,
                  ap neg_part m.refunds,
                );
                balance = m.conserved;
                recharged = m.in_range;
                refunded =
                    omega (int_laws, books.refunded, ap pos_part m.refunds, ap neg_part m.refunds);
              }));
      })

Step-IsSound : {s s' : Store} → Step s s' → IsSound s → IsSound s'
unfolding RechargeOutcome DebitOutcome
Step-IsSound (recharges {s} a r p range) sound =
    elim (apply_recharge-RechargeOutcome a r s sound p range) [
      | inl (window, b, done, both, calls) ↦ both.sound
      | inr (e, failed, same, calls) ↦ subst IsSound (sym same) sound
    ]
Step-IsSound (refills {s} a org trigger) sound =
    (refill_to_window-Refilled a org trigger s sound).sound
Step-IsSound (debits {s} funding has_pool org amount reason a c range) sound =
    elim (debit_balance-DebitOutcome funding has_pool org amount reason a c s sound range) [
      | inl (b, dec, done, both, calls) ↦ both.sound
      | inr (e, failed, same, calls) ↦ subst IsSound (sym same) sound
    ]
Step-IsSound (deducts {s} commits org amount) sound =
    elim (with_tx-cases commits (deduct_tx org amount) s) [
      | inl (out, runs, done) ↦
          subst (λ x. IsSound x.1) (sym done) (deduct_tx-IsSound org amount s sound runs)
      | inr (e, undone) ↦ subst (λ x. IsSound x.1) (sym undone) sound
    ]

pub Reach-IsSound : {s : Store} → Reach s → IsSound s
Reach-IsSound start = start-IsSound
Reach-IsSound (then_step before step) = Step-IsSound step (Reach-IsSound before)

-- In every store that the operations reach, and for every organization: the window and the holdings
-- together are what was recharged less what was refunded, and the balance is that less what was
-- consumed.
pub books_agree :
    (s : Store) (org : ℕ)
    → Reach s
    → (escrowed org s.buckets
        ≡ (balance_of org s.accounts.0).total_recharged
          -ℤ (balance_of org s.accounts.0).total_refunded)
      × IsConserved (balance_of org s.accounts.0)
books_agree s org before = let b = (Reach-IsSound before).books org in (b.escrow, b.balance)
