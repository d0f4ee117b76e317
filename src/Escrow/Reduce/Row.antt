-- ===== src/Escrow/Reduce/Row.antt =====
-- One round of the loop of ReduceEscrowTx.
use nexusapi_enterprise.Prelude.{
  ℕ, ◌≡◌, ◌≢◌, ◌⊎◌, ap, sym, ◌∙◌, inl, inr, true, false, [], arith, Has, Bool-cases,
}
use nexusapi_enterprise.Prelude.Int.{ℤ, pos, ◌+ℤ◌, ◌-ℤ◌, ◌≤ℤ◌, int_laws, eqb_ℤ, pos_part, neg_part}
use nexusapi_enterprise.Prelude.Int64.{i64_id, i64}
use nexusapi_enterprise.Escrow.{
  EscrowBucket, EscrowStatus, Buckets, active, holding, merged, sum_where, update_escrow_bucket_tx,
  first_by_seq, selects, sum_holding_escrow,
}
use nexusapi_enterprise.Escrow.Table.{InRange, IsAmount, IsTable, All-Has, update-IsTable}
use nexusapi_enterprise.Escrow.Write.{write-others, write-holding, write-merged, write-window}
use nexusapi_enterprise.Escrow.Reduce.{dec_of, reduced_status, reduce_row}

reduced_status-ne-active : (v : ℤ) → reduced_status v ≢ active
reduced_status-ne-active v = ground arith

reduce_row_emptied :
    (h : EscrowBucket) (dec : ℤ) (rows : Buckets)
    → i64 (h.amount -ℤ dec) ≡ pos 0
    → reduce_row h dec rows ≡ update_escrow_bucket_tx h.id (pos 0) merged rows
reduce_row_emptied h dec rows e = rw e

reduce_row_kept :
    (h : EscrowBucket) (dec : ℤ) (rows : Buckets)
    → eqb_ℤ (i64 (h.amount -ℤ dec)) (pos 0) ≡ false
    → reduce_row h dec rows ≡ update_escrow_bucket_tx h.id (i64 (h.amount -ℤ dec)) holding rows
reduce_row_kept h dec rows e = rw e

pub sum_nil : (org : ℕ) (z : ℤ) → z +ℤ sum_where (selects org holding) [] ≡ z
unfolding sum_where
sum_nil org z = omega int_laws

-- One UPDATE of the loop.
module _ (org : ℕ) (remaining : ℤ) (rows : Buckets) (h : EscrowBucket) (p : pos 0 ≤ℤ remaining)
    (t : IsTable rows) (m : Has h rows) (hit : selects org holding h ≡ true) where
  amount_range : IsAmount h.amount
  amount_range = All-Has InRange rows t.amounts m

  pub dec_range :
      (pos 0 ≤ℤ dec_of remaining h.amount)
      × (dec_of remaining h.amount ≤ℤ h.amount)
      × (dec_of remaining h.amount ≤ℤ remaining)
  dec_range = ground (arith, amount_range)

  left_value : i64 (h.amount -ℤ dec_of remaining h.amount) ≡ h.amount -ℤ dec_of remaining h.amount
  left_value = i64_id _ (omega (int_laws, amount_range, dec_range))

  pub reduce_row-held :
      sum_holding_escrow org (reduce_row h (dec_of remaining h.amount) rows)
        +ℤ dec_of remaining h.amount
      ≡ sum_holding_escrow org rows
  reduce_row-held =
      let dec = dec_of remaining h.amount in
      let v = i64 (h.amount -ℤ dec) in
      elim (Bool-cases (eqb_ℤ v (pos 0))) [
        | inl emptied ↦
            let v_zero : v ≡ pos 0 = ground arith in
            let law = write-merged org h rows t m hit in
            rw (reduce_row_emptied h dec rows v_zero) (
              omega (
                int_laws,
                ap pos_part law,
                ap neg_part law,
                ap pos_part (sym v_zero ∙ left_value),
                ap neg_part (sym v_zero ∙ left_value),
              ))
        | inr kept ↦
            let law = write-holding org h rows t m hit v in
            rw (reduce_row_kept h dec rows kept) (
              omega (
                int_laws,
                ap pos_part law,
                ap neg_part law,
                ap pos_part left_value,
                ap neg_part left_value,
              ))
      ]

  pub reduce_row-IsTable : IsTable (reduce_row h (dec_of remaining h.amount) rows)
  reduce_row-IsTable =
      update-IsTable h.id _ _ rows (rw left_value (omega (int_laws, amount_range, dec_range))) t

  pub reduce_row-others :
      (o : ℕ) (st : EscrowStatus)
      → (o ≢ org) ⊎ (st ≡ active)
      → sum_where (selects o st) (reduce_row h (dec_of remaining h.amount) rows)
        ≡ sum_where (selects o st) rows
  reduce_row-others =
      write-others org h rows t m hit (i64 (h.amount -ℤ dec_of remaining h.amount)) _
        (reduced_status-ne-active (i64 (h.amount -ℤ dec_of remaining h.amount)))

  pub reduce_row-window :
      first_by_seq (selects org active) (reduce_row h (dec_of remaining h.amount) rows)
      ≡ first_by_seq (selects org active) rows
  reduce_row-window =
      write-window org h rows t m hit (i64 (h.amount -ℤ dec_of remaining h.amount)) _
        (reduced_status-ne-active (i64 (h.amount -ℤ dec_of remaining h.amount)))
