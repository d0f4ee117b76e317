-- ===== src/Escrow/Merge/Round.antt =====
-- One round of the loop of MergeHoldingIntoActiveTx.
use nexusapi_enterprise.Prelude.{ℕ, ◌≡◌, ◌≢◌, ◌⊎◌, refl, ap, ◌∙◌, inl, inr, true, false, arith, Has}
use nexusapi_enterprise.Prelude.Int.{ℤ, pos, ◌+ℤ◌, ◌-ℤ◌, ◌≤ℤ◌, int_laws, ltb_ℤ, pos_part, neg_part}
use nexusapi_enterprise.Prelude.Int64.{i64, i64_laws}
use nexusapi_enterprise.Escrow.{
  EscrowBucket, EscrowStatus, Buckets, active, holding, merged, sum_where, update_escrow_bucket_tx,
  selects, sum_holding_escrow,
}
use nexusapi_enterprise.Escrow.Table.{InRange, IsAmount, IsTable, All-Has}
use nexusapi_enterprise.Escrow.Write.{
  write-others, write-holding, write-merged, write-keeps, write-IsTable,
}
use nexusapi_enterprise.Escrow.Merge.{take_of, absorb}

-- What the loop leaves, from `done` merged so far and room for `remaining` more.
pub record Absorbed (org : ℕ) (remaining done : ℤ) (rows : Buckets) (out : ℤ × Buckets)
    : Type 0 where
  pub table : IsTable out.1
  pub total : out.0 +ℤ sum_holding_escrow org out.1 ≡ done +ℤ sum_holding_escrow org rows
  pub exact :
      ((sum_holding_escrow org out.1 ≡ pos 0) × (out.0 ≤ℤ done +ℤ remaining))
      ⊎ (out.0 ≡ done +ℤ remaining)
  pub grows : done ≤ℤ out.0
  pub others :
      (o : ℕ) (st : EscrowStatus)
      → (o ≢ org) ⊎ (st ≡ active)
      → sum_where (selects o st) out.1 ≡ sum_where (selects o st) rows
  pub keeps : (b : EscrowBucket) → Has b rows → selects org holding b ≡ false → Has b out.1

pub take_all :
    (remaining amount : ℤ) → ltb_ℤ remaining amount ≡ false → take_of remaining amount ≡ amount
take_all remaining amount e = ground arith

pub take_part :
    (remaining amount : ℤ) → ltb_ℤ remaining amount ≡ true → take_of remaining amount ≡ remaining
take_part remaining amount e = ground arith

pub absorb_all :
    (h : EscrowBucket) (rows : Buckets)
    → absorb h h.amount rows ≡ update_escrow_bucket_tx h.id (pos 0) merged rows
absorb_all h rows = ground arith

pub absorb_part :
    (h : EscrowBucket) (take : ℤ) (rows : Buckets)
    → ltb_ℤ take h.amount ≡ true
    → absorb h take rows ≡ update_escrow_bucket_tx h.id (i64 (h.amount -ℤ take)) holding rows
absorb_part h take rows e = ground arith

-- Nothing is moved.
pub Absorbed-here :
    (org : ℕ) (remaining done : ℤ) (rows : Buckets)
    → pos 0 ≤ℤ remaining
    → IsTable rows
    → (sum_holding_escrow org rows ≡ pos 0) ⊎ (remaining ≡ pos 0)
    → Absorbed org remaining done rows (done, rows)
Absorbed-here org remaining done rows p t why = record {
  table = t;
  total = refl;
  exact = elim why [
    | inl empty ↦ inl (empty, omega int_laws)
    | inr full ↦ inr (rw full (omega int_laws))
  ];
  grows = omega arith;
  others = λ o st side. refl;
  keeps = λ b m miss. m;
}

module _ (org : ℕ) (remaining done : ℤ) (rows : Buckets) (h : EscrowBucket) (p : pos 0 ≤ℤ remaining)
    (q : pos 0 ≤ℤ done) (r : IsAmount (done +ℤ remaining)) (t : IsTable rows) (m : Has h rows)
    (hit : selects org holding h ≡ true) where
  -- The bucket holds more than there is room for: the room is filled and the bucket keeps the rest.
  pub Absorbed-part :
      ltb_ℤ remaining h.amount ≡ true
      → Absorbed org remaining done rows (
        i64 (done +ℤ remaining),
        update_escrow_bucket_tx h.id (i64 (h.amount -ℤ remaining)) holding rows,
      )
  Absorbed-part less =
      let amount : IsAmount h.amount = All-Has InRange rows t.amounts m in
      let lt : remaining ≤ℤ h.amount = ground arith in
      let law = write-holding org h rows t m hit (i64 (h.amount -ℤ remaining)) in
      record {
        table =
            write-IsTable org h rows t m hit (i64 (h.amount -ℤ remaining)) holding
              (omega (i64_laws, amount.0, amount.1));
        total = omega (i64_laws, amount.0, amount.1, ap pos_part law, ap neg_part law);
        exact = inr (omega i64_laws);
        grows = omega i64_laws;
        others = write-others org h rows t m hit (i64 (h.amount -ℤ remaining)) holding (λ e. cc);
        keeps = write-keeps org h rows t m hit (i64 (h.amount -ℤ remaining)) holding;
      }

  -- The bucket fits: it is emptied, and the rest of the loop has the smaller room.
  pub Absorbed-all :
      (out : ℤ × Buckets)
      → ltb_ℤ remaining h.amount ≡ false
      → Absorbed org
          (i64 (remaining -ℤ h.amount))
          (i64 (done +ℤ h.amount))
          (update_escrow_bucket_tx h.id (pos 0) merged rows)
          out
      → Absorbed org remaining done rows out
  Absorbed-all out fit rest =
      let amount : IsAmount h.amount = All-Has InRange rows t.amounts m in
      let le : h.amount ≤ℤ remaining = ground arith in
      let law = write-merged org h rows t m hit in
      record {
        table = rest.table;
        total = omega (
          i64_laws,
          amount.0,
          amount.1,
          ap pos_part law,
          ap neg_part law,
          ap pos_part rest.total,
          ap neg_part rest.total,
        );
        exact = elim rest.exact [
          | inl e ↦ inl (e.0, omega (i64_laws, amount.0, amount.1, e.1))
          | inr e ↦ inr (omega (i64_laws, amount.0, amount.1, ap pos_part e, ap neg_part e))
        ];
        grows = omega (i64_laws, amount.0, amount.1, rest.grows);
        others = λ o st side.
            rest.others o st side
            ∙ write-others org h rows t m hit (pos 0) merged (λ e. cc) o st side;
        keeps = λ b mb miss.
            rest.keeps b (write-keeps org h rows t m hit (pos 0) merged b mb miss) miss;
      }
