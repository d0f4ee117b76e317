-- ===== src/Balance/Law.antt =====
-- What the three writers of company_balance do to the row and to the other rows.
use nexusapi_enterprise.Prelude.{
  ℕ, ◌≡◌, ◌≢◌, ap, sym, ◌∙◌, inl, inr, true, false, some, ◌∷◌, arith, raise_if, Option-cases,
  some_injective, Result, ok, err, ◌>>=◌, ok_injective, >>=-eq-ok, raise_if-eq-ok,
}
use mathlib.Core.Path.{subst, subst₂}
use nexusapi_enterprise.Prelude.Int.{ℤ, pos, ◌≤ℤ◌, ◌<ℤ◌, ltb_ℤ, eqb_ℤ}
use nexusapi_enterprise.Prelude.Int64.{IsInt64}
use nexusapi_enterprise.Errors.{RepoError, insufficient_balance, conflict}
use nexusapi_enterprise.Balance.{
  write_back, update_balance, insert_ignore_balance, Balance, Balances, Recharge, Accounts,
  zero_balance, put, get_balance, set_recharged, set_refunded, set_consumed, transfer_taken,
  add_recharge_tx, debit_balance_tx, deduct_balance_tx,
}
use nexusapi_enterprise.Balance.Moves.{
  balance_of, Moves, set_recharged-Moves, set_refunded-Moves, set_consumed-Moves,
}

version_same : (v : ℤ) → eqb_ℤ v v ≡ true
version_same v = ground arith

-- Under the row lock the version is the one that was read.
update_balance_hit :
    (org : ℕ) (set : Balance → Result RepoError Balance) (bs : Balances) {b : Balance}
    → bs org ≡ some b
    → update_balance org b.version set bs ≡ (set b >>= λ b'. ok (put org b' bs))
update_balance_hit org set bs {b} row = rw (row, update_balance) (rw (version_same b.version))

get_balance-eq-ok :
    (org : ℕ) (bs : Balances) {b : Balance} → get_balance org bs ≡ ok b → bs org ≡ some b
get_balance-eq-ok org bs e = ground arith

put-others : (org o : ℕ) (b : Balance) (bs : Balances) → o ≢ org → put org b bs o ≡ bs o
put-others org o b bs ne = ground arith

put-row : (org : ℕ) (b : Balance) (bs : Balances) → put org b bs org ≡ some b
put-row org b bs = ground arith

insert_ignore_balance-row :
    (org : ℕ) (bs : Balances) → insert_ignore_balance org bs org ≡ some (balance_of org bs)
insert_ignore_balance-row org bs = elim (Option-cases (bs org)) [
  | inl missing ↦ rw (missing, insert_ignore_balance, balance_of) (put-row org zero_balance bs)
  | inr (b, found) ↦ rw (found, insert_ignore_balance, balance_of) found
]

insert_ignore_balance-others :
    (org o : ℕ) (bs : Balances) → o ≢ org → insert_ignore_balance org bs o ≡ bs o
insert_ignore_balance-others org o bs ne = elim (Option-cases (bs org)) [
  | inl missing ↦ rw (missing, insert_ignore_balance) (put-others org o zero_balance bs ne)
  | inr (b, found) ↦ rw (found, insert_ignore_balance)
]

-- An UPDATE that hit its row has written it, and no other.
update_balance_lem :
    (org : ℕ) (set : Balance → Result RepoError Balance) (bs : Balances) {bs' : Balances}
    {b : Balance}
    → bs org ≡ some b
    → update_balance org b.version set bs ≡ ok bs'
    → (b' : Balance) × (set b ≡ ok b') × (bs' ≡ put org b' bs)
update_balance_lem org set bs {bs'} {b} row e =
    let (b', runs, k) = >>=-eq-ok (set b) _ (sym (update_balance_hit org set bs row) ∙ e) in
    (b', runs, sym (ok_injective k))

-- An accepted recharge: its transfer number was new, it is recorded, the row has moved by its
-- amount, and no other row has changed.
pub record Recharged (r : Recharge) (a : Accounts) (after : Balance) (a' : Accounts) : Type 0 where
  pub fresh : transfer_taken r.org_id r.transfer_no a.1 ≡ false
  pub recorded : a'.1 ≡ r ∷ a.1
  pub row : a'.0 r.org_id ≡ some after
  pub moves : Moves r.amount (pos 0) (pos 0) (balance_of r.org_id a.0) after
  pub others : (o : ℕ) → o ≢ r.org_id → a'.0 o ≡ a.0 o

-- AddRechargeTx, when it accepts a recharge: the transfer number was new, the recharge is recorded,
-- the row has moved by its amount with the balance conserved, and no other row has changed.
pub add_recharge_tx-Recharged :
    (r : Recharge) (a : Accounts) {after : Balance} {a' : Accounts}
    → add_recharge_tx r a ≡ ok (after, a')
    → Recharged r a after a'
unfolding add_recharge_tx
add_recharge_tx-Recharged r a {after} {a'} e =
    let org = r.org_id in
    let bs1 = insert_ignore_balance org a.0 in
    let row1 = insert_ignore_balance-row org a.0 in
    let (fresh, k0) = raise_if-eq-ok (transfer_taken org r.transfer_no a.1) conflict _ e in
    let (locked, e1, k1) = >>=-eq-ok (get_balance org bs1) _ k0 in
    let locked_row = get_balance-eq-ok org bs1 e1 in
    let (bs2, e2, k2) =
      >>=-eq-ok (update_balance org locked.version (set_recharged r.amount) bs1) _ k1 in
    let (b', set_runs, put_eq) =
      update_balance_lem org (set_recharged r.amount) bs1 locked_row e2 in
    let (after', e3, k3) = >>=-eq-ok (get_balance org bs2) _ k2 in
    let row2 : bs2 org ≡ some b' = rw put_eq (put-row org b' bs1) in
    let result = ok_injective k3 in
    let same_before : locked ≡ balance_of org a.0 = some_injective (sym locked_row ∙ row1) in
    let same_after : b' ≡ after =
      some_injective (sym row2 ∙ get_balance-eq-ok org bs2 e3) ∙ ap (λ x. x.0) result in
    let tables : bs2 ≡ a'.0 = ap (λ x. x.1.0) result in
    record {
      fresh = fresh;
      recorded = sym (ap (λ x. x.1.1) result);
      row = rw (← tables) (rw (← same_after) row2);
      moves =
          subst₂ (Moves r.amount (pos 0) (pos 0)) same_before same_after
            (set_recharged-Moves r.amount locked b' set_runs);
      others = λ o ne.
          rw (← tables) (rw put_eq (put-others org o b' bs1 ne))
          ∙ insert_ignore_balance-others org o a.0 ne;
    }

-- An accepted refund or deduction of a row that exists.
pub record Taken (consumed refunded : ℤ) (org : ℕ) (bs : Balances) (after : Balance)
    (bs' : Balances) : Type 0 where
  pub row : bs' org ≡ some after
  pub moves : Moves (pos 0) consumed refunded (balance_of org bs) after
  pub others : (o : ℕ) → o ≢ org → bs' o ≡ bs o

-- The tail that the two writers share.
take_lem :
    (consumed refunded : ℤ) (org : ℕ) (set : Balance → Result RepoError Balance)
    → ((b b' : Balance)
        → IsInt64 b.total_recharged
        → set b ≡ ok b'
        → Moves (pos 0) consumed refunded b b')
    → (bs : Balances) (locked : Balance) {after : Balance} {bs' : Balances}
    → IsInt64 (balance_of org bs).total_recharged
    → bs org ≡ some locked
    → write_back org locked set bs ≡ ok (after, bs')
    → Taken consumed refunded org bs after bs'
take_lem consumed refunded org set law bs locked {after} {bs'} range row e =
    let (bs1, e2, k2) = >>=-eq-ok (update_balance org locked.version set bs) _ e in
    let (b', set_runs, put_eq) = update_balance_lem org set bs row e2 in
    let (after', e3, k3) = >>=-eq-ok (get_balance org bs1) _ k2 in
    let row2 : bs1 org ≡ some b' = rw put_eq (put-row org b' bs) in
    let result = ok_injective k3 in
    let before : locked ≡ balance_of org bs = rw (row, balance_of) in
    let same_after : b' ≡ after =
      some_injective (sym row2 ∙ get_balance-eq-ok org bs1 e3) ∙ ap (λ x. x.0) result in
    let tables : bs1 ≡ bs' = ap (λ x. x.1) result in
    record {
      row = rw (← tables) (rw (← same_after) row2);
      moves =
          subst₂ (Moves (pos 0) consumed refunded) before same_after
            (law locked b' (subst (λ b. IsInt64 b.total_recharged) (sym before) range) set_runs);
      others = λ o ne. rw (← tables) (rw put_eq (put-others org o b' bs ne));
    }

-- DebitBalanceTx, when it accepts a refund: the balance covered it, the row has moved by the amount
-- as refunded with the balance conserved, and no other row has changed.
pub debit_balance_tx-Taken :
    (org : ℕ) (amount : ℤ) (bs : Balances) {after : Balance} {bs' : Balances}
    → IsInt64 (balance_of org bs).total_recharged
    → debit_balance_tx org amount bs ≡ ok (after, bs')
    → (amount ≤ℤ (balance_of org bs).balance) × Taken (pos 0) amount org bs after bs'
unfolding debit_balance_tx
debit_balance_tx-Taken org amount bs range e =
    let (locked, e1, k1) = >>=-eq-ok (get_balance org bs) _ e in
    let row = get_balance-eq-ok org bs e1 in
    let (enough, k2) = raise_if-eq-ok (ltb_ℤ locked.balance amount) insufficient_balance _ k1 in
    let before : locked ≡ balance_of org bs = rw (row, balance_of) in
    (
      subst (λ b. amount ≤ℤ b.balance) before (ground arith),
      take_lem (pos 0) amount org (set_refunded amount) (set_refunded-Moves amount) bs locked range
          row k2,
    )

-- DeductBalanceTx, when it succeeds: the row has moved by the amount as consumed with the balance
-- conserved, which may then be negative, and no other row has changed.
pub deduct_balance_tx-Taken :
    (org : ℕ) (amount : ℤ) (bs : Balances) {after : Balance} {bs' : Balances}
    → IsInt64 (balance_of org bs).total_recharged
    → deduct_balance_tx org amount bs ≡ ok (after, bs')
    → Taken amount (pos 0) org bs after bs'
unfolding deduct_balance_tx
deduct_balance_tx-Taken org amount bs range e =
    let (locked, e1, k1) = >>=-eq-ok (get_balance org bs) _ e in
    take_lem amount (pos 0) org (set_consumed amount) (set_consumed-Moves amount) bs locked range
      (get_balance-eq-ok org bs e1) k1

-- A transfer number that the organization has used is refused, whatever else the recharge says.
pub add_recharge_tx-repeated :
    (r : Recharge) (a : Accounts)
    → transfer_taken r.org_id r.transfer_no a.1 ≡ true
    → add_recharge_tx r a ≡ err conflict
unfolding add_recharge_tx
add_recharge_tx-repeated r a taken = rw (taken, raise_if)

-- DebitBalanceTx refuses a refund above the balance of a row that exists.
debit_balance_tx-insufficient :
    (org : ℕ) (amount : ℤ) (bs : Balances) {b : Balance}
    → bs org ≡ some b
    → b.balance <ℤ amount
    → debit_balance_tx org amount bs ≡ err insufficient_balance
unfolding debit_balance_tx
debit_balance_tx-insufficient org amount bs {b} row less =
    let short : ltb_ℤ b.balance amount ≡ true = ground arith in
    rw (row, get_balance) (rw (short, raise_if))
