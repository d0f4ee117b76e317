-- ===== src/Escrow/Write.antt =====
-- One UPDATE of a holding bucket or of the window bucket, and the sums of every organization.
use nexusapi_enterprise.Prelude.{ℕ, ◌≡◌, ◌≢◌, ◌⊎◌, refl, ◌∙◌, inl, inr, true, false, arith, Has}
use nexusapi_enterprise.Prelude.Int.{ℤ, pos, ◌+ℤ◌, int_laws}
use nexusapi_enterprise.Escrow.{
  first_by_seq, EscrowBucket, EscrowStatus, Buckets, active, holding, merged, sum_where,
  update_escrow_bucket_tx, selects, sum_holding_escrow,
}
use nexusapi_enterprise.Escrow.Select.{first_by_seq-update_away}
use nexusapi_enterprise.Escrow.Table.{
  IsAmount, IsTable, written, sum_where-update, sum_where-update_away, update-IsTable, update-Has,
  Has-unique,
}

selects_away :
    (org o : ℕ) (s st : EscrowStatus) (h : EscrowBucket)
    → h.org_id ≡ org
    → s ≡ h.status
    → s ≢ active
    → (o ≢ org) ⊎ (st ≡ active)
    → selects o st h ≡ false
selects_away org o active st h e f ns side = absurd (ns refl)
selects_away org o holding st h e f ns (inl ne) = ground arith
selects_away org o holding st h e f ns (inr a) = ground arith
selects_away org o merged st h e f ns (inl ne) = ground arith
selects_away org o merged st h e f ns (inr a) = ground arith

selects_org :
    (org : ℕ) (st : EscrowStatus) (h : EscrowBucket) → selects org st h ≡ true → h.org_id ≡ org
selects_org org st h e = ground arith

selects_status : (org : ℕ) (h : EscrowBucket) → selects org holding h ≡ true → holding ≡ h.status
selects_status org h e = ground arith

add_zero : (x : ℤ) → x +ℤ pos 0 ≡ x
add_zero x = omega int_laws

-- One UPDATE of a holding row of the organization.
module _ (org : ℕ) (h : EscrowBucket) (rows : Buckets) (t : IsTable rows) (m : Has h rows)
    (hit : selects org holding h ≡ true) where
  -- It moves no sum but those of the organization's holding and merged rows.
  pub write-others :
      (a : ℤ) (s : EscrowStatus)
      → s ≢ active
      → (o : ℕ) (st : EscrowStatus) → (o ≢ org) ⊎ (st ≡ active)
      → sum_where (selects o st) (update_escrow_bucket_tx h.id a s rows)
        ≡ sum_where (selects o st) rows
  write-others a s ns o st side =
      let at_org = selects_org org holding h hit in
      let old = selects_away org o holding st h at_org (selects_status org h hit) (λ e. cc) side in
      let new = selects_away org o s st (written h a s) at_org refl ns side in
      sum_where-update_away (selects o st) h a s rows t.ids m old new

  -- It changes no organization's window bucket.
  pub write-window :
      (a : ℤ) (s : EscrowStatus)
      → s ≢ active
      → first_by_seq (selects org active) (update_escrow_bucket_tx h.id a s rows)
        ≡ first_by_seq (selects org active) rows
  write-window a s ns =
      let at_org = selects_org org holding h hit in
      first_by_seq-update_away (selects org active) h a s rows t.ids m
        (selects_away org org holding active h at_org (selects_status org h hit) (λ e. cc)
          (inr refl))
        (selects_away org org s active (written h a s) at_org refl ns (inr refl))

  -- Kept as holding, it takes the difference out of the holding sum.
  pub write-holding :
      (a : ℤ)
      → sum_holding_escrow org (update_escrow_bucket_tx h.id a holding rows) +ℤ h.amount
        ≡ sum_holding_escrow org rows +ℤ a
  write-holding a =
      let law = sum_where-update (selects org holding) h a holding rows t.ids m in
      let new : selects org holding (written h a holding) ≡ true = ground arith in
      rw (hit, new) at law

  -- Marked merged, it takes its whole amount out.
  pub write-merged :
      sum_holding_escrow org (update_escrow_bucket_tx h.id (pos 0) merged rows) +ℤ h.amount
      ≡ sum_holding_escrow org rows
  write-merged =
      let law = sum_where-update (selects org holding) h (pos 0) merged rows t.ids m in
      let new : selects org holding (written h (pos 0) merged) ≡ false = ground arith in
      (rw (hit, new) at law) ∙ add_zero _

  pub write-keeps :
      (a : ℤ) (s : EscrowStatus) (b : EscrowBucket)
      → Has b rows
      → selects org holding b ≡ false
      → Has b (update_escrow_bucket_tx h.id a s rows)
  write-keeps a s b mb miss = update-Has b h.id a s rows mb λ e.
      let same : b ≡ h = Has-unique b h rows t.ids mb m e in
      let hit' : selects org holding b ≡ true = rw same hit in cc

  pub write-IsTable :
      (a : ℤ) (s : EscrowStatus) → IsAmount a → IsTable (update_escrow_bucket_tx h.id a s rows)
  write-IsTable a s k = update-IsTable h.id a s rows k t

window_away :
    (org o : ℕ) (st : EscrowStatus) (h : EscrowBucket)
    → h.org_id ≡ org
    → active ≡ h.status
    → (o ≢ org) ⊎ (st ≡ holding)
    → selects o st h ≡ false
window_away org o st h e f (inl ne) = ground arith
window_away org o st h e f (inr a) = ground arith

window_status : (org : ℕ) (h : EscrowBucket) → selects org active h ≡ true → active ≡ h.status
window_status org h e = ground arith

-- One UPDATE of the window bucket.
module _ (org : ℕ) (h : EscrowBucket) (a : ℤ) (rows : Buckets) (t : IsTable rows) (m : Has h rows)
    (hit : selects org active h ≡ true) where
  pub write-active :
      sum_where (selects org active) (update_escrow_bucket_tx h.id a active rows) +ℤ h.amount
      ≡ sum_where (selects org active) rows +ℤ a
  write-active =
      let law = sum_where-update (selects org active) h a active rows t.ids m in
      let new : selects org active (written h a active) ≡ true = ground arith in
      rw (hit, new) at law

  pub write-active_others :
      (o : ℕ) (st : EscrowStatus)
      → (o ≢ org) ⊎ (st ≡ holding)
      → sum_where (selects o st) (update_escrow_bucket_tx h.id a active rows)
        ≡ sum_where (selects o st) rows
  write-active_others o st side =
      sum_where-update_away (selects o st) h a active rows t.ids m
        (window_away org o st h (selects_org org active h hit) (window_status org h hit) side)
        (window_away org o st (written h a active) (selects_org org active h hit) refl side)
