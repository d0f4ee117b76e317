-- ===== src/Escrow/Merge.antt =====
-- repo/escrow.go: MergeHoldingIntoActiveTx, which moves holding buckets into the window bucket,
-- oldest first. The loop takes fuel; `none` means that the fuel ran out.
mod Round
mod Loop
pub mod Law
use nexusapi_enterprise.Prelude.{ℕ, zero, suc, true, false, Option, none, some, if◌then◌else◌}
use nexusapi_enterprise.Prelude.Int.{ℤ, pos, ◌+ℤ◌, ◌-ℤ◌, ltb_ℤ, leb_ℤ}
use nexusapi_enterprise.Prelude.Int64.{i64}
use nexusapi_enterprise.Escrow.{
  EscrowBucket, Buckets, active, holding, merged, get_active_escrow_bucket_tx,
  next_holding_bucket_tx, update_escrow_bucket_tx, selects,
}
use nexusapi_enterprise.Escrow.Select.{count_where}

-- take := h.Amount; if take > remaining { take = remaining }
abbrev pub take_of : ℤ → ℤ → ℤ
take_of remaining amount = if ltb_ℤ remaining amount then remaining else amount

-- The UPDATE of one round: the bucket is emptied, or keeps the rest.
abbrev pub absorb : EscrowBucket → ℤ → Buckets → Buckets
absorb h take rows =
    if leb_ℤ h.amount take
    then update_escrow_bucket_tx h.id (pos 0) merged rows
    else update_escrow_bucket_tx h.id (i64 (h.amount -ℤ take)) holding rows

-- for remaining > 0 { ... }
unfoldable pub merge_loop : ℕ → ℕ → ℤ → ℤ → Buckets → Option (ℤ × Buckets)
merge_loop zero org remaining done rows = none
merge_loop (suc fuel) org remaining done rows = elim (ltb_ℤ (pos 0) remaining) [
  | false ↦ some (done, rows)
  | true ↦ elim (next_holding_bucket_tx org rows) [
    | none ↦ some (done, rows)
    | some h ↦
        merge_loop fuel org (i64 (remaining -ℤ take_of remaining h.amount))
          (i64 (done +ℤ take_of remaining h.amount)) (absorb h (take_of remaining h.amount) rows)
  ]
]

-- if merged > 0 { UPDATE the window bucket }
abbrev pub credit : EscrowBucket → ℤ × Buckets → ℤ × Buckets
credit a (done, rows) =
    if ltb_ℤ (pos 0) done
    then (done, update_escrow_bucket_tx a.id (i64 (a.amount +ℤ done)) active rows)
    else (done, rows)

-- Two rounds more than there are holding buckets.
abbrev pub merge_fuel : ℕ → Buckets → ℕ
merge_fuel org rows = suc (suc (count_where (selects org holding) rows))

unfoldable pub merge_holding_into_active_tx : ℕ → ℤ → Buckets → Option (ℤ × Buckets)
merge_holding_into_active_tx org max_merge rows =
    if leb_ℤ max_merge (pos 0)
    then some (pos 0, rows)
    else elim (get_active_escrow_bucket_tx org rows) [
      | none ↦ some (pos 0, rows)
      | some a ↦ elim (merge_loop (merge_fuel org rows) org max_merge (pos 0) rows) [
        | none ↦ none
        | some out ↦ some (credit a out)
      ]
    ]
