-- ===== src/Escrow/Reduce/Law.antt =====
-- What ReduceEscrowTx promises.
use nexusapi_enterprise.Prelude.{
  ok, err, ℕ, ◌≡◌, ◌≢◌, refl, ap, sym, ◌∙◌, inl, inr, true, false, some, none, arith, Bool-cases,
  Option-cases, Result, ok_injective,
}
use nexusapi_enterprise.Prelude.Int.{
  lt→ltb_ℤ, zero_of, ℤ, pos, ◌+ℤ◌, ◌-ℤ◌, ◌≤ℤ◌, ◌<ℤ◌, ◌<ℤ◌, int_laws, ltb_ℤ, pos_part, neg_part,
}
use nexusapi_enterprise.Prelude.Int64.{i64_id, IsInt64, i64}
use nexusapi_enterprise.Escrow.{
  EscrowBucket, EscrowStatus, Buckets, active, holding, sum_where, update_escrow_bucket_tx, selects,
  sum_holding_escrow, get_active_escrow_bucket_tx,
}
use nexusapi_enterprise.Escrow.Table.{InRange, IsAmount, IsTable, All-Has, update-IsTable}
use nexusapi_enterprise.Escrow.Select.{first_by_seq-Has, sum_where-nonneg}
use nexusapi_enterprise.Escrow.Write.{write-active, write-active_others}
use nexusapi_enterprise.Escrow.Reduce.{
  dec_of, reduce_loop, reduce_rest, reduce_escrow_tx, holdings_desc,
}
use nexusapi_enterprise.Escrow.Reduce.Loop.{Reduced, reduce_loop-Reduced}
use nexusapi_enterprise.Escrow.Reduce.Sorted.{holdings_desc-IsPending, sum_where-holdings_desc}
use nexusapi_enterprise.Escrow.{released, escrowed}
use nexusapi_enterprise.Errors.{RepoError, insufficient_balance}
use mathlib.Core.Path.{subst}
use nexusapi_enterprise.Escrow.Reduce.Window.{
  rest_of, reduce_rest_window, reduce_window_covers, reduce_window_short,
}

-- The promise: the amount is taken in full, out of the holdings as far as they reach, and what the
-- window gave is reported. No other organization's sum changes.
pub record Refunded (org : ℕ) (amount : ℤ) (rows : Buckets) (out : ℤ × Buckets) : Type 0 where
  pub table : IsTable out.1
  pub taken : escrowed org out.1 +ℤ amount ≡ escrowed org rows
  pub window : released org out.1 +ℤ out.0 ≡ released org rows
  pub reported : out.0 ≡ amount -ℤ dec_of amount (sum_holding_escrow org rows)
  pub others :
      (o : ℕ) (st : EscrowStatus)
      → o ≢ org
      → sum_where (selects o st) out.1 ≡ sum_where (selects o st) rows

module _ (org : ℕ) (amount : ℤ) (rows : Buckets) (p : pos 0 ≤ℤ amount) (r : IsInt64 amount)
    (t : IsTable rows) where
  looped : ℤ × Buckets
  looped = reduce_loop (holdings_desc org rows) amount rows

  loop_law : Reduced org (holdings_desc org rows) amount rows looped
  unfolding looped
  loop_law =
      reduce_loop-Reduced org (holdings_desc org rows) amount rows p r t
        (holdings_desc-IsPending org rows t.ids)

  looped_rest : looped.0 ≡ amount -ℤ dec_of amount (sum_holding_escrow org rows)
  looped_rest =
      rest_of amount _ _ looped.0 (sum_where-nonneg _ looped.1 loop_law.table.amounts)
        loop_law.nonneg loop_law.held (rw (sum_where-holdings_desc org rows) at loop_law.left)

  -- The holding buckets cover the amount: the window gives nothing.
  reduce_covered :
      ltb_ℤ (pos 0) looped.0 ≡ false
      → (reduce_escrow_tx org amount rows ≡ ok (pos 0, looped.1))
        × Refunded org amount rows (pos 0, looped.1)
  unfolding reduce_escrow_tx looped
  reduce_covered e =
      let z : looped.0 ≡ pos 0 = zero_of looped.0 loop_law.nonneg e in
      let same = loop_law.others org active (inr refl) in
      let rest = looped_rest in
      (
        rw e,
        record {
          table = loop_law.table;
          taken = rw same (
              omega (
                int_laws,
                ap pos_part loop_law.held,
                ap neg_part loop_law.held,
                ap pos_part z,
                ap neg_part z,
              ));
          window = rw same (omega int_laws);
          reported = sym z ∙ looped_rest;
          others = λ o st ne. loop_law.others o st (inl ne);
        },
      )

  -- The window bucket covers what the holding buckets lack.
  reduce_from_window :
      (a : EscrowBucket)
      → get_active_escrow_bucket_tx org rows ≡ some a
      → ltb_ℤ (pos 0) looped.0 ≡ true
      → amount ≤ℤ a.amount +ℤ sum_holding_escrow org rows
      → let rows' = update_escrow_bucket_tx a.id (i64 (a.amount -ℤ looped.0)) active looped.1 in
        (reduce_escrow_tx org amount rows ≡ ok (looped.0, rows'))
        × Refunded org amount rows (looped.0, rows')
  unfolding reduce_escrow_tx looped get_active_escrow_bucket_tx
  reduce_from_window a found more le =
      let found' = loop_law.window ∙ found in
      let (m, hit) = first_by_seq-Has (selects org active) looped.1 found' in
      let a_range : IsAmount a.amount = All-Has InRange looped.1 loop_law.table.amounts m in
      let short : looped.0 ≤ℤ a.amount = elim loop_law.left [
        | inl z ↦ omega (int_laws, a_range, ap pos_part z, ap neg_part z)
        | inr s ↦ omega (
          int_laws,
          le,
          ap pos_part s,
          ap neg_part s,
          ap pos_part (sum_where-holdings_desc org rows),
          ap neg_part (sum_where-holdings_desc org rows),
        )
      ] in
      let value_eq : i64 (a.amount -ℤ looped.0) ≡ a.amount -ℤ looped.0 =
        i64_id _ (omega (int_laws, a_range, loop_law.nonneg, short)) in
      let law = write-active org a (i64 (a.amount -ℤ looped.0)) looped.1 loop_law.table m hit in
      let held =
        write-active_others org a (i64 (a.amount -ℤ looped.0)) looped.1 loop_law.table m hit in
      let same = loop_law.others org active (inr refl) in
      (
        reduce_rest_window org a looped more found'
            ∙ reduce_window_covers a looped.0 looped.1 short,
        record {
          table =
              update-IsTable a.id (i64 (a.amount -ℤ looped.0)) active looped.1
                (rw value_eq (omega (int_laws, a_range, loop_law.nonneg, short))) loop_law.table;
          taken = rw (held org holding (inr refl)) (
              omega (
                int_laws,
                ap pos_part loop_law.held,
                ap neg_part loop_law.held,
                ap pos_part law,
                ap neg_part law,
                ap pos_part same,
                ap neg_part same,
                ap pos_part value_eq,
                ap neg_part value_eq,
              ));
          window = omega (
            int_laws,
            ap pos_part law,
            ap neg_part law,
            ap pos_part same,
            ap neg_part same,
            ap pos_part value_eq,
            ap neg_part value_eq,
          );
          reported = looped_rest;
          others = λ o st ne. held o st (inl ne) ∙ loop_law.others o st (inl ne);
        },
      )

  -- More than the holdings and the window together is refused.
  reduce_short :
      (a : EscrowBucket)
      → get_active_escrow_bucket_tx org rows ≡ some a
      → a.amount +ℤ sum_holding_escrow org rows <ℤ amount
      → reduce_escrow_tx org amount rows ≡ err insufficient_balance
  unfolding reduce_escrow_tx looped get_active_escrow_bucket_tx
  reduce_short a found gt =
      let found' = loop_law.window ∙ found in
      let (m, hit) = first_by_seq-Has (selects org active) looped.1 found' in
      let a_range : IsAmount a.amount = All-Has InRange looped.1 loop_law.table.amounts m in
      let held_eq = sum_where-holdings_desc org rows in
      let held_nonneg = sum_where-nonneg (selects org holding) rows t.amounts in
      let held_left = sum_where-nonneg (selects org holding) looped.1 loop_law.table.amounts in
      let lt : a.amount <ℤ looped.0 = elim loop_law.left [
        | inl z ↦ absurd (
            omega (
              int_laws,
              a_range,
              gt,
              held_left,
              ap pos_part z,
              ap neg_part z,
              ap pos_part loop_law.held,
              ap neg_part loop_law.held,
            ))
        | inr s ↦
            omega
              (int_laws, gt, ap pos_part s, ap neg_part s, ap pos_part held_eq, ap neg_part held_eq)
      ] in
      let more : ltb_ℤ (pos 0) looped.0 ≡ true =
        lt→ltb_ℤ (pos 0) looped.0 (omega (int_laws, a_range, lt)) in
      reduce_rest_window org a looped more found'
      ∙ reduce_window_short a looped.0 looped.1
          (omega (int_laws, r, loop_law.lowers, loop_law.nonneg)) a_range lt

-- ReduceEscrowTx, for an organization with a window bucket and an int64 amount that is not negative
-- and that the window bucket and the holdings cover: it returns, the amount is taken in full, out of
-- the holdings as far as they reach, what the window gave is reported, and no other organization's
-- sums change.
pub reduce_escrow_tx-Refunded :
    (org : ℕ) (amount : ℤ) (rows : Buckets) (a : EscrowBucket)
    → pos 0 ≤ℤ amount
    → IsInt64 amount
    → IsTable rows
    → get_active_escrow_bucket_tx org rows ≡ some a
    → amount ≤ℤ a.amount +ℤ sum_holding_escrow org rows
    → (out : ℤ × Buckets) × (reduce_escrow_tx org amount rows ≡ ok out)
      × Refunded org amount rows out
reduce_escrow_tx-Refunded org amount rows a p r t found le =
    elim (Bool-cases (ltb_ℤ (pos 0) (looped org amount rows p r t).0)) [
      | inl more ↦
          let (runs, law) = reduce_from_window org amount rows p r t a found more le in
          (_, runs, law)
      | inr covered ↦
          let (runs, law) = reduce_covered org amount rows p r t covered in (_, runs, law)
    ]

-- ReduceEscrowTx, for an organization with a window bucket, refuses an amount that is more than the
-- window bucket and the holdings together.
pub reduce_escrow_tx-insufficient :
    (org : ℕ) (amount : ℤ) (rows : Buckets) (a : EscrowBucket)
    → pos 0 ≤ℤ amount
    → IsInt64 amount
    → IsTable rows
    → get_active_escrow_bucket_tx org rows ≡ some a
    → a.amount +ℤ sum_holding_escrow org rows <ℤ amount
    → reduce_escrow_tx org amount rows ≡ err insufficient_balance
reduce_escrow_tx-insufficient org amount rows a p r t found gt =
    reduce_short org amount rows p r t a found gt

reduce_rest_missing :
    (org : ℕ) (out : ℤ × Buckets)
    → ltb_ℤ (pos 0) out.0 ≡ true
    → get_active_escrow_bucket_tx org out.1 ≡ none
    → reduce_rest org out ≡ err insufficient_balance
reduce_rest_missing org out e f = rw e (rw f)

refused : {A : Type 0} {m : Result RepoError A} {e : RepoError} {a : A} → m ≡ err e → m ≡ ok a → ⊥
refused e k = cc

-- Whatever the table, a refund that is accepted keeps the promise.
module _ (org : ℕ) (amount : ℤ) (rows : Buckets) (p : pos 0 ≤ℤ amount) (r : IsInt64 amount)
    (t : IsTable rows) {out : ℤ × Buckets} (e : reduce_escrow_tx org amount rows ≡ ok out) where
  accepted_from :
      {out' : ℤ × Buckets}
      → (reduce_escrow_tx org amount rows ≡ ok out') × Refunded org amount rows out'
      → Refunded org amount rows out
  accepted_from (runs, law) = subst (Refunded org amount rows) (ok_injective (sym runs ∙ e)) law

  accepted_with :
      (a : EscrowBucket)
      → get_active_escrow_bucket_tx org rows ≡ some a
      → Refunded org amount rows out
  accepted_with a found =
      elim (Bool-cases (ltb_ℤ (a.amount +ℤ sum_holding_escrow org rows) amount)) [
        | inl gt ↦ absurd (refused (reduce_short org amount rows p r t a found (ground arith)) e)
        | inr le ↦
            let (out', runs, law) =
              reduce_escrow_tx-Refunded org amount rows a p r t found (ground arith) in
            accepted_from (runs, law)
      ]

  accepted_without : get_active_escrow_bucket_tx org rows ≡ none → Refunded org amount rows out
  unfolding reduce_escrow_tx looped get_active_escrow_bucket_tx
  accepted_without missing = elim (Bool-cases (ltb_ℤ (pos 0) (looped org amount rows p r t).0)) [
    | inl more ↦ absurd (
        refused
          (reduce_rest_missing org (looped org amount rows p r t) more
            ((loop_law org amount rows p r t).window ∙ missing))
          e)
    | inr covered ↦ accepted_from (reduce_covered org amount rows p r t covered)
  ]

  pub reduce_escrow_tx-accepted : Refunded org amount rows out
  reduce_escrow_tx-accepted = elim (Option-cases (get_active_escrow_bucket_tx org rows)) [
    | inl missing ↦ accepted_without missing
    | inr (a, found) ↦ accepted_with a found
  ]
