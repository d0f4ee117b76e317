-- ===== src/Funding/Sound.antt =====
-- The books of an organization: the invariant of the store, and that the three transactions on it
-- keep it.
use nexusapi_enterprise.Prelude.{
  ℕ, ◌≡◌, ◌≢◌, ap, sym, ◌∙◌, inl, inr, arith, Bool-cases, ok, ok_injective, >>=-eq-ok, ◌==◌,
}
use mathlib.Core.Path.{subst}
use nexusapi_enterprise.Prelude.Int.{ℤ, pos, ◌+ℤ◌, ◌-ℤ◌, ◌≤ℤ◌, int_laws, pos_part, neg_part}
use nexusapi_enterprise.Prelude.Int64.{IsInt64, i64, i64_id}
use nexusapi_enterprise.Escrow.{Buckets, active, holding, selects, escrowed}
use nexusapi_enterprise.Escrow.Table.{IsAmount, IsTable}
use nexusapi_enterprise.Escrow.Select.{sum_where-nonneg}
use nexusapi_enterprise.Escrow.Reduce.{reduce_escrow_tx}
use nexusapi_enterprise.Escrow.Reduce.Law.{Refunded, reduce_escrow_tx-accepted}
use nexusapi_enterprise.Balance.{
  Balance, Balances, Recharge, Accounts, add_recharge_tx, debit_balance_tx,
}
use nexusapi_enterprise.Balance.Moves.{balance_of, IsConserved}
use nexusapi_enterprise.Balance.Law.{
  Recharged, Taken, add_recharge_tx-Recharged, debit_balance_tx-Taken,
}
use nexusapi_enterprise.Funding.{Store, recharge_tx, debit_tx, split_recharge}
use nexusapi_enterprise.Funding.Grown.{Grown}
use nexusapi_enterprise.Funding.Split.{split_recharge-Grown}

-- The books of one organization: the window and the holdings together are what was paid in less
-- what was paid back, and the balance is that less what was consumed.
pub record IsBooked (org : ℕ) (rows : Buckets) (b : Balance) : Type 0 where
  pub escrow : escrowed org rows ≡ b.total_recharged -ℤ b.total_refunded
  pub balance : IsConserved b
  pub recharged : IsInt64 b.total_recharged
  pub refunded : pos 0 ≤ℤ b.total_refunded

pub record IsSound (s : Store) : Type 0 where
  pub table : IsTable s.buckets
  pub books : (org : ℕ) → IsBooked org s.buckets (balance_of org s.accounts.0)

-- A step on one organization, for the invariant.
pub books_by :
    (org : ℕ) (rows rows' : Buckets) (bs bs' : Balances)
    → ((o : ℕ) → IsBooked o rows (balance_of o bs))
    → ((o : ℕ) → o ≢ org → escrowed o rows' ≡ escrowed o rows)
    → ((o : ℕ) → o ≢ org → bs' o ≡ bs o)
    → IsBooked org rows' (balance_of org bs')
    → (o : ℕ) → IsBooked o rows' (balance_of o bs')
books_by org rows rows' bs bs' books escrow_kept kept own o = elim (Bool-cases (o == org)) [
  | inl same ↦
      let e : o ≡ org = ground arith in subst (λ x. IsBooked x rows' (balance_of x bs')) (sym e) own
  | inr other ↦
      let ne : o ≢ org = ground arith in
      let same_row : balance_of o bs' ≡ balance_of o bs = rw (kept o ne, balance_of) in
      let b = books o in
      subst (IsBooked o rows') (sym same_row) (record {
        escrow = escrow_kept o ne ∙ b.escrow;
        balance = b.balance;
        recharged = b.recharged;
        refunded = b.refunded;
      })
]

-- The holdings, the window and their sum are amounts while the books are kept.
pub escrowed-IsAmount : (org : ℕ) (s : Store) → IsSound s → IsAmount (escrowed org s.buckets)
escrowed-IsAmount org s sound =
    let b = sound.books org in
    omega (
      int_laws,
      sum_where-nonneg (selects org active) s.buckets sound.table.amounts,
      sum_where-nonneg (selects org holding) s.buckets sound.table.amounts,
      b.recharged,
      b.refunded,
      ap pos_part b.escrow,
      ap neg_part b.escrow,
    )

-- What a recharge has done to the two books.
pub record RechargedBoth (r : Recharge) (fit : ℤ) (s : Store) (b : Balance) (s' : Store)
    : Type 0 where
  pub accounts : Recharged r s.accounts b s'.accounts
  pub buckets : Grown r.org_id fit (r.amount -ℤ fit) s.buckets s'.buckets
  pub sound : IsSound s'

module _ (r : Recharge) (fit : ℤ) (s : Store) (sound : IsSound s) (p : pos 0 ≤ℤ fit)
    (le : fit ≤ℤ r.amount) (range : IsInt64 r.amount) where
  rest_value : i64 (r.amount -ℤ fit) ≡ r.amount -ℤ fit
  rest_value = i64_id _ (omega (int_laws, p, le, range))

  bounded :
      (b : Balance) (a' : Accounts)
      → Recharged r s.accounts b a'
      → IsAmount (escrowed r.org_id s.buckets +ℤ fit)
  bounded b a' law =
      let books = sound.books r.org_id in
      let m = law.moves in
      omega (
        int_laws,
        p,
        le,
        escrowed-IsAmount r.org_id s sound,
        books.refunded,
        m.in_range,
        ap pos_part books.escrow,
        ap neg_part books.escrow,
        ap pos_part m.recharges,
        ap neg_part m.recharges,
      )

  Recharged-books :
      (b : Balance) (s' : Store)
      → Recharged r s.accounts b s'.accounts
      → Grown r.org_id fit (r.amount -ℤ fit) s.buckets s'.buckets
      → IsBooked r.org_id s'.buckets (balance_of r.org_id s'.accounts.0)
  Recharged-books b s' law g =
      let books = sound.books r.org_id in
      let m = law.moves in
      let row : balance_of r.org_id s'.accounts.0 ≡ b = rw (law.row, balance_of) in
      subst (IsBooked r.org_id s'.buckets) (sym row) (record {
        escrow = omega (
          int_laws,
          ap pos_part books.escrow,
          ap neg_part books.escrow,
          ap pos_part m.recharges,
          ap neg_part m.recharges,
          ap pos_part m.refunds,
          ap neg_part m.refunds,
          ap pos_part g.released_by,
          ap neg_part g.released_by,
          ap pos_part g.held_by,
          ap neg_part g.held_by,
        );
        balance = m.conserved;
        recharged = m.in_range;
        refunded = omega (int_laws, books.refunded, ap pos_part m.refunds, ap neg_part m.refunds);
      })

  pub recharge_tx-RechargedBoth :
      {b : Balance} {s' : Store}
      → recharge_tx r fit (i64 (r.amount -ℤ fit)) s ≡ ok (b, s')
      → RechargedBoth r fit s b s'
  unfolding recharge_tx
  recharge_tx-RechargedBoth {b} {s'} e =
      let (booked, e1, k1) = >>=-eq-ok (add_recharge_tx r s.accounts) _ e in
      let (split, e2, k2) =
        >>=-eq-ok (split_recharge r.org_id fit (i64 (r.amount -ℤ fit)) s.buckets) _ k1 in
      let law = add_recharge_tx-Recharged r s.accounts e1 in
      let rest : IsAmount (i64 (r.amount -ℤ fit)) =
        rw rest_value (omega (int_laws, p, le, range)) in
      let g0 =
        split_recharge-Grown r.org_id fit (i64 (r.amount -ℤ fit)) s.buckets sound.table p rest
          (bounded booked.0 booked.1 law) e2 in
      let g = subst (λ x. Grown r.org_id fit x s.buckets split) rest_value g0 in
      subst (λ x. RechargedBoth r fit s x.0 x.1) (ok_injective k2)
        (record {
          accounts = law;
          buckets = g;
          sound = record {
            table = g.table;
            books =
                books_by r.org_id s.buckets split s.accounts.0 booked.1.0 sound.books
                  (λ o ne. rw (g.others o active ne) (rw (g.others o holding ne))) law.others
                  (Recharged-books booked.0 (record { buckets = split; accounts = booked.1 }) law
                    g);
          };
        })

-- What a refund has done to the two books.
pub record DebitedBoth (org : ℕ) (amount : ℤ) (s : Store) (out : (Balance × ℤ) × Store)
    : Type 0 where
  pub covered : amount ≤ℤ (balance_of org s.accounts.0).balance
  pub accounts : Taken (pos 0) amount org s.accounts.0 out.0.0 out.1.accounts.0
  pub buckets : Refunded org amount s.buckets (out.0.1, out.1.buckets)
  pub sound : IsSound out.1

module _ (org : ℕ) (amount : ℤ) (s : Store) (sound : IsSound s) (p : pos 0 ≤ℤ amount)
    (range : IsInt64 amount) where
  debited_books :
      (b : Balance) (bs' : Balances) (out : ℤ × Buckets)
      → Taken (pos 0) amount org s.accounts.0 b bs'
      → Refunded org amount s.buckets out
      → IsBooked org out.1 (balance_of org bs')
  debited_books b bs' out law g =
      let books = sound.books org in
      let m = law.moves in
      let row : balance_of org bs' ≡ b = rw (law.row, balance_of) in
      subst (IsBooked org out.1) (sym row) (record {
        escrow = omega (
          int_laws,
          ap pos_part books.escrow,
          ap neg_part books.escrow,
          ap pos_part m.recharges,
          ap neg_part m.recharges,
          ap pos_part m.refunds,
          ap neg_part m.refunds,
          ap pos_part g.taken,
          ap neg_part g.taken,
        );
        balance = m.conserved;
        recharged = m.in_range;
        refunded =
            omega (int_laws, p, books.refunded, ap pos_part m.refunds, ap neg_part m.refunds);
      })

  pub debit_tx-DebitedBoth :
      {out : (Balance × ℤ) × Store} → debit_tx org amount s ≡ ok out → DebitedBoth org amount s out
  unfolding debit_tx
  debit_tx-DebitedBoth {out} e =
      let (booked, e1, k1) = >>=-eq-ok (debit_balance_tx org amount s.accounts.0) _ e in
      let (reduced, e2, k2) = >>=-eq-ok (reduce_escrow_tx org amount s.buckets) _ k1 in
      let (covered, law) =
        debit_balance_tx-Taken org amount s.accounts.0 (sound.books org).recharged e1 in
      let g = reduce_escrow_tx-accepted org amount s.buckets p range sound.table e2 in
      subst (DebitedBoth org amount s) (ok_injective k2) (record {
        covered = covered;
        accounts = law;
        buckets = g;
        sound = record {
          table = g.table;
          books =
              books_by org s.buckets reduced.1 s.accounts.0 booked.1 sound.books
                (λ o ne. rw (g.others o active ne) (rw (g.others o holding ne))) law.others
                (debited_books booked.0 booked.1 reduced law g);
        };
      })
