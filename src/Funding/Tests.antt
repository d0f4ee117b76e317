-- ===== src/Funding/Tests.antt =====
-- Runs of the operations on small stores, and the theorems at them.
use nexusapi_enterprise.Prelude.{[], ◌∷◌, ◌≡◌, refl, true, arith, ok}
use nexusapi_enterprise.Prelude.Int.{ℤ, pos, ◌+ℤ◌, ◌-ℤ◌}
use nexusapi_enterprise.Prelude.Int64.{i64}
use nexusapi_enterprise.Rbac.{Claims, operator}
use nexusapi_enterprise.Escrow.{
  escrowed, get_active_escrow_bucket_tx, first_by_seq, create_escrow_bucket_tx, seq_taken,
}
use nexusapi_enterprise.Balance.{Recharge, add_recharge_tx, transfer_taken, set_recharged}
use nexusapi_enterprise.Balance.Moves.{balance_of, IsConserved}
use nexusapi_enterprise.Funding.{
  Store, Answers, empty_store, with_tx, recharge_tx, split_recharge, fit_of, apply_recharge,
}
use nexusapi_enterprise.Funding.Deposit.{apply_recharge-twice}
use nexusapi_enterprise.Funding.Reach.{
  Reach, start, then_step, recharges, Reach-IsSound, books_agree,
}

abbrev answers : ℤ → Answers
answers w = record {
  organization = true;
  credential = ok tt;
  lock_free = true;
  window = ok w;
  commits = true;
}

-- Three thousand million: more than the window holds.
abbrev transfer : Recharge
transfer = record { org_id = 7; amount = pos 3000000000; transfer_no = 84 ∷ 49 ∷ [] }

abbrev operator_claims : Claims
operator_claims = record {
  member_id = 1;
  org_id = 0;
  team_id = 0;
  role = operator;
  support_session_id = 0;
}

abbrev funded : Store
funded = (apply_recharge (answers (pos 0)) transfer empty_store).store

funded-Reach : Reach funded
funded-Reach = then_step start (recharges (answers (pos 0)) transfer (omega arith) (omega arith))

books_agree_example :
    (escrowed 7 funded.buckets
      ≡ (balance_of 7 funded.accounts.0).total_recharged
        -ℤ (balance_of 7 funded.accounts.0).total_refunded)
    × IsConserved (balance_of 7 funded.accounts.0)
books_agree_example = books_agree funded 7 funded-Reach

apply_recharge-twice_example : (apply_recharge (answers (pos 0)) transfer funded).store ≡ funded
unfolding apply_recharge with_tx recharge_tx add_recharge_tx transfer_taken set_recharged ◌+ℤ◌ ◌-ℤ◌
    split_recharge get_active_escrow_bucket_tx first_by_seq create_escrow_bucket_tx seq_taken i64
    fit_of
apply_recharge-twice_example =
    apply_recharge-twice (answers (pos 0)) (answers (pos 0)) transfer empty_store
      (Reach-IsSound start) (omega arith) (omega arith) refl
