-- ===== src/Escrow/Tests.antt =====
-- Runs of the merge and of the reduction on a small table, and the theorems at it.
use nexusapi_enterprise.Prelude.{◌≡◌, refl, [], ◌∷◌, some, ok, err, arith}
use nexusapi_enterprise.Prelude.Int.{ℤ, pos, ◌+ℤ◌}
use nexusapi_enterprise.Errors.{insufficient_balance}
use nexusapi_enterprise.Escrow.{
  EscrowBucket, Buckets, active, holding, get_active_escrow_bucket_tx, first_by_seq, sum_where,
}
use nexusapi_enterprise.Escrow.Table.{IsTable}
use nexusapi_enterprise.Escrow.Merge.{merge_holding_into_active_tx}
use nexusapi_enterprise.Escrow.Merge.Law.{Moved, merge_holding_into_active_tx-Moved}
use nexusapi_enterprise.Escrow.Reduce.{reduce_escrow_tx}
use nexusapi_enterprise.Escrow.Reduce.Law.{
  Refunded, reduce_escrow_tx-Refunded, reduce_escrow_tx-insufficient,
}

abbrev window_row : EscrowBucket
window_row = record {
  id = 1;
  org_id = 7;
  seq = 1;
  amount = pos 40;
  status = active;
  threshold = pos 100;
}

abbrev older_row : EscrowBucket
older_row = record {
  id = 2;
  org_id = 7;
  seq = 2;
  amount = pos 25;
  status = holding;
  threshold = pos 100;
}

abbrev newer_row : EscrowBucket
newer_row = record {
  id = 3;
  org_id = 7;
  seq = 3;
  amount = pos 60;
  status = holding;
  threshold = pos 100;
}

abbrev three_rows : Buckets
three_rows = newer_row ∷ window_row ∷ older_row ∷ []

three_rows-IsTable : IsTable three_rows
three_rows-IsTable = record { ids = ground arith; amounts = ground arith }

three_rows-window : get_active_escrow_bucket_tx 7 three_rows ≡ some window_row
unfolding get_active_escrow_bucket_tx first_by_seq
three_rows-window = refl

merge_holding_into_active_tx-Moved_example :
    (out : ℤ × Buckets) × (merge_holding_into_active_tx 7 (pos 50) three_rows ≡ some out)
    × Moved 7 (pos 50) three_rows out
unfolding sum_where ◌+ℤ◌
merge_holding_into_active_tx-Moved_example =
    merge_holding_into_active_tx-Moved 7 (pos 50) three_rows window_row three_rows-IsTable
      three_rows-window (omega arith) (omega arith) (ground arith)

reduce_escrow_tx-Refunded_example :
    (out : ℤ × Buckets) × (reduce_escrow_tx 7 (pos 100) three_rows ≡ ok out)
    × Refunded 7 (pos 100) three_rows out
unfolding sum_where ◌+ℤ◌
reduce_escrow_tx-Refunded_example =
    reduce_escrow_tx-Refunded 7 (pos 100) three_rows window_row (omega arith) (omega arith)
      three_rows-IsTable three_rows-window (ground arith)

reduce_escrow_tx-insufficient_example :
    reduce_escrow_tx 7 (pos 126) three_rows ≡ err insufficient_balance
unfolding sum_where ◌+ℤ◌
reduce_escrow_tx-insufficient_example =
    reduce_escrow_tx-insufficient 7 (pos 126) three_rows window_row (omega arith) (omega arith)
      three_rows-IsTable three_rows-window (ground arith)
