-- ===== src/Escrow/Merge/Law.antt =====
-- What MergeHoldingIntoActiveTx promises.
use nexusapi_enterprise.Prelude.{
  ℕ, ◌≡◌, ◌≢◌, ◌⊎◌, refl, ap, ◌∙◌, inl, inr, true, false, some, arith, Has, Bool-cases,
}
use nexusapi_enterprise.Prelude.Int.{
  zero_of, ℤ, pos, ◌+ℤ◌, ◌≤ℤ◌, ◌<ℤ◌, int_laws, ltb_ℤ, pos_part, neg_part,
}
use nexusapi_enterprise.Prelude.Int64.{i64_id, i64}
use nexusapi_enterprise.Escrow.{
  released, escrowed, EscrowBucket, EscrowStatus, Buckets, active, holding, sum_where,
  update_escrow_bucket_tx, selects, sum_holding_escrow, get_active_escrow_bucket_tx,
}
use nexusapi_enterprise.Escrow.Table.{InRange, IsAmount, IsTable, All-Has, update-IsTable}
use nexusapi_enterprise.Escrow.Select.{first_by_seq-Has, sum_where-nonneg, amount-le-sum_where}
use nexusapi_enterprise.Escrow.Write.{write-active, write-active_others}
use nexusapi_enterprise.Escrow.Merge.{take_of, credit, merge_fuel, merge_holding_into_active_tx}
use nexusapi_enterprise.Escrow.Merge.Round.{Absorbed, take_all, take_part}
use nexusapi_enterprise.Escrow.Merge.Loop.{merge_loop-Absorbed}

-- The promise: the lesser of the room and the holdings is moved, from the holdings into the window,
-- and no other organization's sum changes.
pub record Moved (org : ℕ) (room : ℤ) (rows : Buckets) (out : ℤ × Buckets) : Type 0 where
  pub table : IsTable out.1
  pub amount : out.0 ≡ take_of room (sum_holding_escrow org rows)
  pub window : released org out.1 ≡ released org rows +ℤ out.0
  pub held : sum_holding_escrow org out.1 +ℤ out.0 ≡ sum_holding_escrow org rows
  pub others :
      (o : ℕ) (st : EscrowStatus)
      → o ≢ org
      → sum_where (selects o st) out.1 ≡ sum_where (selects o st) rows

amount_of :
    (room held held' out : ℤ)
    → pos 0 ≤ℤ held'
    → out +ℤ held' ≡ pos 0 +ℤ held
    → ((held' ≡ pos 0) × (out ≤ℤ pos 0 +ℤ room)) ⊎ (out ≡ pos 0 +ℤ room)
    → out ≡ take_of room held
amount_of room held held' out n e (inl (z, le)) = elim (Bool-cases (ltb_ℤ room held)) [
  | inl less ↦
      let lt : room <ℤ held = ground arith in
      absurd (omega (int_laws, ap pos_part e, ap neg_part e, ap pos_part z, ap neg_part z))
  | inr fit ↦
      rw (take_all room held fit)
        (omega (int_laws, ap pos_part e, ap neg_part e, ap pos_part z, ap neg_part z))
]
amount_of room held held' out n e (inr full) = elim (Bool-cases (ltb_ℤ room held)) [
  | inl less ↦ rw (take_part room held less) (omega (int_laws, ap pos_part full, ap neg_part full))
  | inr fit ↦
      let le : held ≤ℤ room = ground arith in
      rw (take_all room held fit)
        (omega (int_laws, ap pos_part e, ap neg_part e, ap pos_part full, ap neg_part full))
]

credit_some :
    (a : EscrowBucket) (out : ℤ × Buckets)
    → ltb_ℤ (pos 0) out.0 ≡ true
    → credit a out ≡ (out.0, update_escrow_bucket_tx a.id (i64 (a.amount +ℤ out.0)) active out.1)
credit_some a out e = ground arith

credit_none :
    (a : EscrowBucket) (out : ℤ × Buckets) → ltb_ℤ (pos 0) out.0 ≡ false → credit a out ≡ out
credit_none a out e = ground arith

not_holding :
    (org : ℕ) (a : EscrowBucket) → selects org active a ≡ true → selects org holding a ≡ false
not_holding org a e = ground arith

module _ (org : ℕ) (room : ℤ) (rows : Buckets) (a : EscrowBucket) (t : IsTable rows)
    (m : Has a rows) (hit : selects org active a ≡ true) (bound : IsAmount (escrowed org rows))
    (out : ℤ × Buckets) (ab : Absorbed org room (pos 0) rows out) where
  -- The amount that the window bucket gets is an int64 that is not negative.
  credited : IsAmount (a.amount +ℤ out.0)
  credited = omega (
    int_laws,
    amount-le-sum_where (selects org active) a rows t.amounts m hit,
    (All-Has InRange rows t.amounts m).0,
    sum_where-nonneg (selects org holding) out.1 ab.table.amounts,
    ab.grows,
    bound.0,
    bound.1,
    ap pos_part ab.total,
    ap neg_part ab.total,
  )

  credit-Moved : Moved org room rows (credit a out)
  credit-Moved = elim (Bool-cases (ltb_ℤ (pos 0) out.0)) [
    | inl some_moved ↦
        let value = i64 (a.amount +ℤ out.0) in
        let value_eq : value ≡ a.amount +ℤ out.0 = i64_id _ (omega (int_laws, credited)) in
        let ma = ab.keeps a m (not_holding org a hit) in
        let law = write-active org a value out.1 ab.table ma hit in
        let same = ab.others org active (inr refl) in
        let held = write-active_others org a value out.1 ab.table ma hit in
        rw (credit_some a out some_moved) (record {
          table = update-IsTable a.id value active out.1 (rw value_eq credited) ab.table;
          amount =
              amount_of room _ _ out.0 (sum_where-nonneg _ out.1 ab.table.amounts) ab.total
                ab.exact;
          window = omega (
            int_laws,
            ap pos_part law,
            ap neg_part law,
            ap pos_part same,
            ap neg_part same,
            ap pos_part value_eq,
            ap neg_part value_eq,
          );
          held =
              rw (held org holding (inr refl))
                (omega (int_laws, ap pos_part ab.total, ap neg_part ab.total));
          others = λ o st ne. held o st (inl ne) ∙ ab.others o st (inl ne);
        })
    | inr none_moved ↦
        let zero_moved : out.0 ≡ pos 0 = zero_of out.0 ab.grows none_moved in
        rw (credit_none a out none_moved) (record {
          table = ab.table;
          amount =
              amount_of room _ _ out.0 (sum_where-nonneg _ out.1 ab.table.amounts) ab.total
                ab.exact;
          window = ab.others org active (inr refl) ∙ (rw zero_moved (omega int_laws));
          held = omega (int_laws, ap pos_part ab.total, ap neg_part ab.total);
          others = λ o st ne. ab.others o st (inl ne);
        })
  ]

-- MergeHoldingIntoActiveTx, for an organization with a window bucket and room in the window, when the
-- organization's sum is an int64: the loop ends, the lesser of the room and the holdings is moved
-- from the holdings into the window bucket, and no other organization's sums change.
pub merge_holding_into_active_tx-Moved :
    (org : ℕ) (room : ℤ) (rows : Buckets) (a : EscrowBucket)
    → IsTable rows
    → get_active_escrow_bucket_tx org rows ≡ some a
    → pos 0 <ℤ room
    → IsAmount room
    → IsAmount (escrowed org rows)
    → (out : ℤ × Buckets) × (merge_holding_into_active_tx org room rows ≡ some out)
      × Moved org room rows out
unfolding merge_holding_into_active_tx get_active_escrow_bucket_tx
merge_holding_into_active_tx-Moved org room rows a t e p amount bound =
    let (out, runs, ab) =
      merge_loop-Absorbed (merge_fuel org rows) org room (pos 0) rows (omega arith) (omega arith)
        (omega arith) (omega (int_laws, amount)) t in
    let (m, hit) = first_by_seq-Has (selects org active) rows e in
    (credit a out, ground (arith, runs, e, p), credit-Moved org room rows a t m hit bound out ab)
