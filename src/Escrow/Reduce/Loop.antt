-- ===== src/Escrow/Reduce/Loop.antt =====
-- The loop of ReduceEscrowTx over the holding buckets.
use nexusapi_enterprise.Prelude.{
  ℕ, ◌≡◌, ◌≢◌, ◌⊎◌, refl, ap, ◌∙◌, inl, inr, Bool, true, false, [], ◌∷◌, arith, All, Has,
  Bool-cases,
}
use nexusapi_enterprise.Prelude.Int.{
  ℤ, pos, ◌+ℤ◌, ◌-ℤ◌, ◌≤ℤ◌, int_laws, leb_ℤ, ltb_ℤ, pos_part, neg_part,
}
use nexusapi_enterprise.Prelude.Int64.{i64_id, i64-IsInt64, IsInt64, i64}
use nexusapi_enterprise.Escrow.{
  EscrowBucket, EscrowStatus, Buckets, active, holding, sum_where, first_by_seq, selects,
  sum_holding_escrow,
}
use nexusapi_enterprise.Escrow.Table.{IdsUnique, IsTable, update-Has}
use nexusapi_enterprise.Escrow.Reduce.{dec_of, reduce_row, reduce_loop}
use nexusapi_enterprise.Escrow.Reduce.Row.{
  reduce_row-others, reduce_row-IsTable, reduce_row-window, reduce_row-held, dec_range, sum_nil,
}

-- The buckets still to be visited stand in the table, and no two are one.
abbrev pub IsPending : ℕ → Buckets → Buckets → Type 0
IsPending org hs rows = All (λ h. Has h rows × (selects org holding h ≡ true)) hs × IdsUnique hs

pub record Reduced (org : ℕ) (hs : Buckets) (remaining : ℤ) (rows : Buckets) (out : ℤ × Buckets)
    : Type 0 where
  pub table : IsTable out.1
  pub held : sum_holding_escrow org out.1 +ℤ remaining ≡ sum_holding_escrow org rows +ℤ out.0
  pub left : (out.0 ≡ pos 0) ⊎ (out.0 +ℤ sum_where (selects org holding) hs ≡ remaining)
  pub nonneg : pos 0 ≤ℤ out.0
  pub lowers : out.0 ≤ℤ remaining
  pub others :
      (o : ℕ) (st : EscrowStatus)
      → (o ≢ org) ⊎ (st ≡ active)
      → sum_where (selects o st) out.1 ≡ sum_where (selects o st) rows
  pub window : first_by_seq (selects org active) out.1 ≡ first_by_seq (selects org active) rows

-- The buckets that are not visited yet are not written.
IsPending-reduce_row :
    (org : ℕ) (h : EscrowBucket) (dec : ℤ) (hs rows : Buckets)
    → All (λ c. c.id ≢ h.id) hs
    → All (λ c. Has c rows × (selects org holding c ≡ true)) hs
    → All (λ c. Has c (reduce_row h dec rows) × (selects org holding c ≡ true)) hs
IsPending-reduce_row org h dec [] rows u a = tt
IsPending-reduce_row org h dec (c ∷ hs) rows u a =
    ((update-Has c h.id _ _ rows a.0.0 u.0, a.0.1), IsPending-reduce_row org h dec hs rows u.1 a.1)

module _ (org : ℕ) (h : EscrowBucket) (hs : Buckets) (remaining : ℤ) (rows : Buckets) where
  reduce_loop_stop :
      leb_ℤ remaining (pos 0) ≡ true → reduce_loop (h ∷ hs) remaining rows ≡ (remaining, rows)
  unfolding reduce_loop
  reduce_loop_stop e = rw e

  reduce_loop_round :
      leb_ℤ remaining (pos 0) ≡ false
      → reduce_loop (h ∷ hs) remaining rows
        ≡ reduce_loop hs
            (i64 (remaining -ℤ dec_of remaining h.amount))
            (reduce_row h (dec_of remaining h.amount) rows)
  unfolding reduce_loop
  reduce_loop_round e = rw e

sum_where-cons :
    (p : EscrowBucket → Bool) (b : EscrowBucket) (bs : Buckets)
    → p b ≡ true
    → sum_where p (b ∷ bs) ≡ b.amount +ℤ sum_where p bs
unfolding sum_where
sum_where-cons p b bs e = rw e

reduce_loop_nil :
    (remaining : ℤ) (rows : Buckets) → reduce_loop [] remaining rows ≡ (remaining, rows)
unfolding reduce_loop
reduce_loop_nil remaining rows = refl

-- What is left after one bucket and the rest is what is left after all.
left_step :
    (remaining amount total out rest : ℤ)
    → rest ≡ remaining -ℤ dec_of remaining amount
    → pos 0 ≤ℤ out
    → out ≤ℤ rest
    → (out ≡ pos 0) ⊎ (out +ℤ total ≡ rest)
    → (out ≡ pos 0) ⊎ (out +ℤ (amount +ℤ total) ≡ remaining)
left_step remaining amount total out rest e n l (inl z) = inl z
left_step remaining amount total out rest e n l (inr s) =
    elim (Bool-cases (ltb_ℤ amount remaining)) [
      | inl less ↦
          let d : dec_of remaining amount ≡ amount = rw less in
          inr (
            omega (
              int_laws,
              ap pos_part e,
              ap neg_part e,
              ap pos_part d,
              ap neg_part d,
              ap pos_part s,
              ap neg_part s,
            ))
      | inr covers ↦
          let d : dec_of remaining amount ≡ remaining = rw covers in
          inl (omega (int_laws, ap pos_part e, ap neg_part e, ap pos_part d, ap neg_part d))
    ]

module _ (org : ℕ) (h : EscrowBucket) (hs : Buckets) (remaining : ℤ) (rows : Buckets)
    (p : pos 0 ≤ℤ remaining) (t : IsTable rows) (m : Has h rows)
    (hit : selects org holding h ≡ true) (out : ℤ × Buckets)
    (rest_eq : i64 (remaining -ℤ dec_of remaining h.amount)
      ≡ remaining -ℤ dec_of remaining h.amount) where
  Reduced-step :
      Reduced org hs
        (i64 (remaining -ℤ dec_of remaining h.amount))
        (reduce_row h (dec_of remaining h.amount) rows)
        out
      → Reduced org (h ∷ hs) remaining rows out
  Reduced-step ih =
      let law = reduce_row-held org remaining rows h p t m hit in
      let range = dec_range org remaining rows h p t m hit in
      record {
        table = ih.table;
        held = omega (
          int_laws,
          ap pos_part law,
          ap neg_part law,
          ap pos_part ih.held,
          ap neg_part ih.held,
          ap pos_part rest_eq,
          ap neg_part rest_eq,
        );
        left =
            rw (sum_where-cons (selects org holding) h hs hit)
              (left_step remaining h.amount _ out.0 _ rest_eq ih.nonneg ih.lowers ih.left);
        nonneg = ih.nonneg;
        lowers = omega (int_laws, range, ih.lowers, ap pos_part rest_eq, ap neg_part rest_eq);
        others = λ o st side.
            ih.others o st side ∙ reduce_row-others org remaining rows h p t m hit o st side;
        window = ih.window ∙ reduce_row-window org remaining rows h p t m hit;
      }

-- The loop takes what it can get, out of the pending buckets alone.
pub reduce_loop-Reduced :
    (org : ℕ) (hs : Buckets) (remaining : ℤ) (rows : Buckets)
    → pos 0 ≤ℤ remaining
    → IsInt64 remaining
    → IsTable rows
    → IsPending org hs rows
    → Reduced org hs remaining rows (reduce_loop hs remaining rows)
reduce_loop-Reduced org [] remaining rows p r t pend = rw (reduce_loop_nil remaining rows) (record {
  table = t;
  held = refl;
  left = inr (sum_nil org remaining);
  nonneg = p;
  lowers = omega arith;
  others = λ o st side. refl;
  window = refl;
})
reduce_loop-Reduced org (h ∷ hs) remaining rows p r t pend =
    elim (Bool-cases (leb_ℤ remaining (pos 0))) [
      | inl stop ↦ rw (reduce_loop_stop org h hs remaining rows stop) (record {
        table = t;
        held = refl;
        left = inl (ground arith);
        nonneg = p;
        lowers = omega arith;
        others = λ o st side. refl;
        window = refl;
      })
      | inr more ↦
          let (m, hit) = pend.0.0 in
          let range = dec_range org remaining rows h p t m hit in
          let rest_eq : i64 (remaining -ℤ dec_of remaining h.amount)
              ≡ remaining -ℤ dec_of remaining h.amount =
            i64_id _ (omega (int_laws, range, r)) in
          rw (reduce_loop_round org h hs remaining rows more) (
            Reduced-step org h hs remaining rows p t m hit _ rest_eq (
              reduce_loop-Reduced org hs (i64 (remaining -ℤ dec_of remaining h.amount))
                (reduce_row h (dec_of remaining h.amount) rows)
                (rw rest_eq (omega (int_laws, range))) (i64-IsInt64 _)
                (reduce_row-IsTable org remaining rows h p t m hit)
                (
                  IsPending-reduce_row org h (dec_of remaining h.amount) hs rows pend.1.0 pend.0.1,
                  pend.1.1,
                )))
    ]
