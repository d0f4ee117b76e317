-- ===== src/Balance.antt =====
-- company_balance and recharge: model.Balance, model.Recharge, and the statements of repo/balance.go
-- and repo/settlement.go that write them. A BIGINT expression out of range is an error of the
-- database; the row of an organization is found by its unique key, so the table is a function.
pub mod Moves
pub mod Law
mod Tests
use nexusapi_enterprise.Prelude.{
  ℕ, Bool, true, false, ◌&&◌, Option, none, some, List, [], ◌∷◌, same_text, ◌==◌, if◌then◌else◌,
  Result, ok, err, ◌>>=◌, ◌>>◌, raise_if,
}
use nexusapi_enterprise.Prelude.Int.{ℤ, pos, ◌+ℤ◌, ◌-ℤ◌, ltb_ℤ, eqb_ℤ}
use nexusapi_enterprise.Prelude.Int64.{fits}
use nexusapi_enterprise.Errors.{
  RepoError, not_found, conflict, optimistic_lock, insufficient_balance, database,
}

pub record Balance : Type 0 where
  pub total_recharged : ℤ
  pub total_consumed : ℤ
  pub total_refunded : ℤ
  pub balance : ℤ
  pub low_watermark : ℤ
  pub version : ℤ

pub record Recharge : Type 0 where
  pub org_id : ℕ
  pub amount : ℤ
  pub transfer_no : List ℕ

abbrev pub Balances : Type 0
Balances = ℕ → Option Balance

-- The row that INSERT INTO company_balance (org_id) makes.
abbrev pub zero_balance : Balance
zero_balance = record {
  total_recharged = pos 0;
  total_consumed = pos 0;
  total_refunded = pos 0;
  balance = pos 0;
  low_watermark = pos 0;
  version = pos 0;
}

abbrev pub put : ℕ → Balance → Balances → Balances
put org b bs o = if org == o then some b else bs o

-- INSERT IGNORE INTO company_balance (org_id) VALUES (?)
abbrev pub insert_ignore_balance : ℕ → Balances → Balances
insert_ignore_balance org bs = elim (bs org) [ none ↦ put org zero_balance bs | some _ ↦ bs ]

-- The value of a BIGINT expression.
abbrev pub bigint : ℤ → Result RepoError ℤ
bigint z = if fits z then ok z else err database

-- SELECT ... FROM company_balance WHERE org_id = ?
abbrev pub get_balance : ℕ → Balances → Result RepoError Balance
get_balance org bs = elim (bs org) [ none ↦ err not_found | some b ↦ ok b ]

-- UPDATE company_balance SET ... WHERE org_id = ? AND version = ?, which must hit one row.
abbrev pub update_balance :
    ℕ → ℤ → (Balance → Result RepoError Balance) → Balances → Result RepoError Balances
update_balance org ver set bs = elim (bs org) [
  | none ↦ err optimistic_lock
  | some b ↦
      if eqb_ℤ b.version ver then (set b >>= λ b'. ok (put org b' bs)) else err optimistic_lock
]

-- SET balance = total_recharged + ? - total_consumed - total_refunded, total_recharged = ...
unfoldable pub set_recharged : ℤ → Balance → Result RepoError Balance
set_recharged amount b = do
  raised ← bigint (b.total_recharged +ℤ amount)
  spent ← bigint (raised -ℤ b.total_consumed)
  left ← bigint (spent -ℤ b.total_refunded)
  next ← bigint (b.version +ℤ pos 1)
  ok (record b { balance = left; total_recharged = raised; version = next })

-- total_recharged - total_consumed - total_refunded - ?
unfoldable pub balance_less : ℤ → Balance → Result RepoError ℤ
balance_less amount b = do
  spent ← bigint (b.total_recharged -ℤ b.total_consumed)
  left ← bigint (spent -ℤ b.total_refunded)
  bigint (left -ℤ amount)

unfoldable pub set_refunded : ℤ → Balance → Result RepoError Balance
set_refunded amount b = do
  left ← balance_less amount b
  refunded ← bigint (b.total_refunded +ℤ amount)
  next ← bigint (b.version +ℤ pos 1)
  ok (record b { balance = left; total_refunded = refunded; version = next })

unfoldable pub set_consumed : ℤ → Balance → Result RepoError Balance
set_consumed amount b = do
  left ← balance_less amount b
  consumed ← bigint (b.total_consumed +ℤ amount)
  next ← bigint (b.version +ℤ pos 1)
  ok (record b { balance = left; total_consumed = consumed; version = next })

-- UNIQUE KEY uk_recharge_transfer (org_id, transfer_no)
unfoldable pub transfer_taken : ℕ → List ℕ → List Recharge → Bool
transfer_taken org number [] = false
transfer_taken org number (r ∷ rs) =
    let rest = transfer_taken org number rs in
    if r.org_id == org && same_text r.transfer_no number then true else rest

abbrev pub Accounts : Type 0
Accounts = Balances × List Recharge

-- AddRechargeTx: the balance after it, and the two tables.
unfoldable pub add_recharge_tx : Recharge → Accounts → Result RepoError (Balance × Accounts)
add_recharge_tx r (bs, recharges) = do
  let bs1 = insert_ignore_balance r.org_id bs
  raise_if (transfer_taken r.org_id r.transfer_no recharges) conflict
  locked ← get_balance r.org_id bs1
  bs2 ← update_balance r.org_id locked.version (set_recharged r.amount) bs1
  after ← get_balance r.org_id bs2
  ok (after, (bs2, r ∷ recharges))

-- The UPDATE of a locked row, and the row read back.
abbrev pub write_back :
    ℕ
    → Balance
    → (Balance → Result RepoError Balance)
    → Balances
    → Result RepoError (Balance × Balances)
write_back org locked set bs = do
  bs1 ← update_balance org locked.version set bs
  after ← get_balance org bs1
  ok (after, bs1)

-- DebitBalanceTx; the row of the refund table is left out.
unfoldable pub debit_balance_tx : ℕ → ℤ → Balances → Result RepoError (Balance × Balances)
debit_balance_tx org amount bs = do
  locked ← get_balance org bs
  raise_if (ltb_ℤ locked.balance amount) insufficient_balance
  write_back org locked (set_refunded amount) bs

-- DeductBalanceTx
unfoldable pub deduct_balance_tx : ℕ → ℤ → Balances → Result RepoError (Balance × Balances)
deduct_balance_tx org amount bs = do
  locked ← get_balance org bs
  write_back org locked (set_consumed amount) bs
