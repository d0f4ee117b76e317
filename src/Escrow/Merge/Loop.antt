-- ===== src/Escrow/Merge/Loop.antt =====
-- The loop of MergeHoldingIntoActiveTx ends, for any fuel above the number of holding buckets.
use nexusapi_enterprise.Prelude.{
  ℕ, zero, suc, ◌+◌, ◌<◌, ◌≡◌, ◌∙◌, inl, inr, true, false, none, some, arith, Bool-cases,
  Option-cases,
}
use nexusapi_enterprise.Prelude.Int.{zero_of, ℤ, pos, ◌+ℤ◌, ◌-ℤ◌, ◌≤ℤ◌, ltb_ℤ}
use nexusapi_enterprise.Prelude.Int64.{stops, i64, i64_laws}
use nexusapi_enterprise.Escrow.{
  EscrowBucket, Buckets, holding, merged, update_escrow_bucket_tx, selects, next_holding_bucket_tx,
}
use nexusapi_enterprise.Escrow.Table.{InRange, IsAmount, IsTable, All-Has}
use nexusapi_enterprise.Escrow.Select.{
  first_by_seq-Has, first_by_seq-none, sum_where-none, count_where, count_where-update,
}
use nexusapi_enterprise.Escrow.Write.{write-IsTable}
use nexusapi_enterprise.Escrow.Merge.{take_of, absorb, merge_loop}
use nexusapi_enterprise.Escrow.Merge.Round.{
  Absorbed, Absorbed-here, Absorbed-part, Absorbed-all, take_all, take_part, absorb_all,
  absorb_part,
}

-- One test of the loop, by its cases.
module _ (fuel org : ℕ) (remaining done : ℤ) (rows : Buckets) where
  merge_loop_stop :
      ltb_ℤ (pos 0) remaining ≡ false
      → merge_loop (suc fuel) org remaining done rows ≡ some (done, rows)
  unfolding merge_loop
  merge_loop_stop e = rw (e, merge_loop)

  merge_loop_empty :
      ltb_ℤ (pos 0) remaining ≡ true
      → next_holding_bucket_tx org rows ≡ none
      → merge_loop (suc fuel) org remaining done rows ≡ some (done, rows)
  unfolding merge_loop
  merge_loop_empty e n = rw (e, merge_loop) (rw (n, merge_loop))

  merge_loop_round :
      {h : EscrowBucket}
      → ltb_ℤ (pos 0) remaining ≡ true
      → next_holding_bucket_tx org rows ≡ some h
      → merge_loop (suc fuel) org remaining done rows
        ≡ merge_loop fuel org
            (i64 (remaining -ℤ take_of remaining h.amount))
            (i64 (done +ℤ take_of remaining h.amount))
            (absorb h (take_of remaining h.amount) rows)
  unfolding merge_loop
  merge_loop_round e n = rw (e, merge_loop) (rw (n, merge_loop))

-- With more fuel than holding buckets the loop ends, and leaves what `Absorbed` says.
pub merge_loop-Absorbed :
    (fuel org : ℕ) (remaining done : ℤ) (rows : Buckets)
    → count_where (selects org holding) rows + 1 < fuel
    → pos 0 ≤ℤ remaining
    → pos 0 ≤ℤ done
    → IsAmount (done +ℤ remaining)
    → IsTable rows
    → (out : ℤ × Buckets) × (merge_loop fuel org remaining done rows ≡ some out)
      × Absorbed org remaining done rows out
unfolding next_holding_bucket_tx
merge_loop-Absorbed zero org remaining done rows f p q r t = absurd (omega arith)
merge_loop-Absorbed (suc zero) org remaining done rows f p q r t = absurd (omega arith)
merge_loop-Absorbed (suc (suc fuel)) org remaining done rows f p q r t =
    elim (Bool-cases (ltb_ℤ (pos 0) remaining)) [
      | inr stop ↦ (
        (done, rows),
        merge_loop_stop (suc fuel) org remaining done rows stop,
        Absorbed-here org remaining done rows p t (inr (zero_of remaining p stop)),
      )
      | inl more ↦ elim (Option-cases (next_holding_bucket_tx org rows)) [
        | inl empty ↦ (
          (done, rows),
          merge_loop_empty (suc fuel) org remaining done rows more empty,
          Absorbed-here org remaining done rows p t
              (inl (sum_where-none _ rows (first_by_seq-none _ rows empty))),
        )
        | inr (h, found) ↦
            let (m, hit) = first_by_seq-Has (selects org holding) rows found in
            let amount : IsAmount h.amount = All-Has InRange rows t.amounts m in
            elim (Bool-cases (ltb_ℤ remaining h.amount)) [
              | inl less ↦ (
                (
                  i64 (done +ℤ remaining),
                  update_escrow_bucket_tx h.id (i64 (h.amount -ℤ remaining)) holding rows,
                ),
                merge_loop_round (suc fuel) org remaining done rows more found
                    ∙ (rw (take_part remaining h.amount less, absorb_part h remaining rows less)
                        (merge_loop_stop fuel org (i64 (remaining -ℤ remaining))
                          (i64 (done +ℤ remaining)) _ (stops remaining))),
                Absorbed-part org remaining done rows h p q r t m hit less,
              )
              | inr fit ↦
                  let le : h.amount ≤ℤ remaining = ground arith in
                  let rows' = update_escrow_bucket_tx h.id (pos 0) merged rows in
                  let fewer =
                    count_where-update (selects org holding) h (pos 0) merged rows t.ids m hit
                      (ground arith) in
                  let (out, runs, rest) =
                    merge_loop-Absorbed (suc fuel) org (i64 (remaining -ℤ h.amount))
                      (i64 (done +ℤ h.amount)) rows' (omega (arith, fewer))
                      (omega (i64_laws, amount.0, amount.1)) (omega (i64_laws, amount.0, amount.1))
                      (omega (i64_laws, amount.0, amount.1))
                      (write-IsTable org h rows t m hit (pos 0) merged (omega arith)) in
                  (
                    out,
                    merge_loop_round (suc fuel) org remaining done rows more found
                        ∙ rw (take_all remaining h.amount fit, absorb_all h rows) runs,
                    Absorbed-all org remaining done rows h p q r t m hit out fit rest,
                  )
            ]
      ]
    ]
