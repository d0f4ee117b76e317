-- ===== src/Balance/Tests.antt =====
-- Runs of the writers of company_balance, and the theorems at them.
use nexusapi_enterprise.Prelude.{refl, [], ◌∷◌, some, arith}
use nexusapi_enterprise.Prelude.Int.{ℤ, pos, negsuc, ◌+ℤ◌, ◌-ℤ◌, ◌≤ℤ◌}
use nexusapi_enterprise.Balance.{
  put, Balance, Balances, Recharge, add_recharge_tx, debit_balance_tx, transfer_taken,
  set_recharged, set_refunded, balance_less,
}
use nexusapi_enterprise.Balance.Moves.{balance_of}
use nexusapi_enterprise.Balance.Law.{
  Recharged, Taken, add_recharge_tx-Recharged, debit_balance_tx-Taken,
}

abbrev row_of : ℤ → ℤ → ℤ → ℤ → ℤ → Balance
row_of recharged consumed refunded left ver = record {
  total_recharged = recharged;
  total_consumed = consumed;
  total_refunded = refunded;
  balance = left;
  low_watermark = pos 0;
  version = ver;
}

abbrev opened_row : Balance
opened_row = row_of (pos 100) (pos 30) (pos 10) (pos 60) (pos 4)

abbrev one_row : Balances
one_row org = some opened_row

abbrev deposit : Recharge
deposit = record { org_id = 7; amount = pos 50; transfer_no = 84 ∷ [] }

abbrev deposited_row : Balance
deposited_row = row_of (pos 150) (pos 30) (pos 10) (pos 110) (pos 5)

add_recharge_tx-Recharged_example :
    Recharged deposit (one_row, []) deposited_row (put 7 deposited_row one_row, deposit ∷ [])
unfolding add_recharge_tx set_recharged transfer_taken ◌+ℤ◌ ◌-ℤ◌
add_recharge_tx-Recharged_example = add_recharge_tx-Recharged deposit (one_row, []) refl

abbrev debited_row : Balance
debited_row = row_of (pos 100) (pos 30) (pos 25) (pos 45) (pos 5)

debit_balance_tx-Taken_example :
    (pos 15 ≤ℤ (balance_of 7 one_row).balance)
    × Taken (pos 0) (pos 15) 7 one_row debited_row (put 7 debited_row one_row)
unfolding debit_balance_tx set_refunded balance_less ◌+ℤ◌ ◌-ℤ◌
debit_balance_tx-Taken_example = debit_balance_tx-Taken 7 (pos 15) one_row (omega arith) refl

abbrev deducted_row : Balance
deducted_row = row_of (pos 100) (pos 130) (pos 10) (negsuc 39) (pos 5)
