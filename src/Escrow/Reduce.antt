-- ===== src/Escrow/Reduce.antt =====
-- repo/escrow.go: ReduceEscrowTx, which takes a refund out of the holding buckets, the newest first,
-- and what they lack out of the window bucket.
mod Row
mod Loop
mod Sorted
mod Window
pub mod Law
use nexusapi_enterprise.Prelude.{
  Option, none, some, [], ◌∷◌, ltb, if◌then◌else◌, ℕ, Result, ok, err,
}
use nexusapi_enterprise.Prelude.Int.{ℤ, pos, ◌-ℤ◌, ltb_ℤ, leb_ℤ, eqb_ℤ}
use nexusapi_enterprise.Prelude.Int64.{i64}
use nexusapi_enterprise.Errors.{RepoError, insufficient_balance}
use nexusapi_enterprise.Escrow.{
  EscrowBucket, EscrowStatus, Buckets, active, holding, merged, get_active_escrow_bucket_tx,
  update_escrow_bucket_tx, selects,
}

-- WHERE org_id = ? AND status = 'holding' ORDER BY seq DESC
unfoldable pub insert_desc : EscrowBucket → Buckets → Buckets
insert_desc b [] = b ∷ []
insert_desc b (c ∷ cs) =
    let rest = insert_desc b cs in if ltb b.seq c.seq then c ∷ rest else b ∷ c ∷ cs

unfoldable pub holdings_desc : ℕ → Buckets → Buckets
holdings_desc org [] = []
holdings_desc org (b ∷ bs) =
    let rest = holdings_desc org bs in if selects org holding b then insert_desc b rest else rest

-- dec := remaining; if dec > amount { dec = amount }
abbrev pub dec_of : ℤ → ℤ → ℤ
dec_of remaining amount = if ltb_ℤ amount remaining then amount else remaining

-- A holding bucket that is emptied is marked merged.
abbrev pub reduced_status : ℤ → EscrowStatus
reduced_status left = if eqb_ℤ left (pos 0) then merged else holding

abbrev pub reduce_row : EscrowBucket → ℤ → Buckets → Buckets
reduce_row h dec rows =
    update_escrow_bucket_tx h.id (i64 (h.amount -ℤ dec)) (reduced_status (i64 (h.amount -ℤ dec)))
      rows

-- for _, h := range holdings { ... }: what remains to be taken, and the table.
unfoldable pub reduce_loop : Buckets → ℤ → Buckets → ℤ × Buckets
reduce_loop [] remaining rows = (remaining, rows)
reduce_loop (h ∷ hs) remaining rows =
    let rest =
      reduce_loop hs (i64 (remaining -ℤ dec_of remaining h.amount))
        (reduce_row h (dec_of remaining h.amount) rows) in
    if leb_ℤ remaining (pos 0) then (remaining, rows) else rest

-- The part that the window bucket gives.
abbrev pub reduce_window : EscrowBucket → ℤ → Buckets → Result RepoError (ℤ × Buckets)
reduce_window a remaining rows =
    if ltb_ℤ (pos 0) (i64 (remaining -ℤ dec_of remaining a.amount))
    then err insufficient_balance
    else ok (
      dec_of remaining a.amount,
      update_escrow_bucket_tx a.id (i64 (a.amount -ℤ dec_of remaining a.amount)) active rows,
    )

abbrev pub reduce_rest : ℕ → ℤ × Buckets → Result RepoError (ℤ × Buckets)
reduce_rest org (remaining, rows) =
    if ltb_ℤ (pos 0) remaining
    then elim (get_active_escrow_bucket_tx org rows) [
      | none ↦ err insufficient_balance
      | some a ↦ reduce_window a remaining rows
    ]
    else ok (pos 0, rows)

-- The result is what the window gave, and the table.
unfoldable pub reduce_escrow_tx : ℕ → ℤ → Buckets → Result RepoError (ℤ × Buckets)
reduce_escrow_tx org amount rows =
    reduce_rest org (reduce_loop (holdings_desc org rows) amount rows)
