-- ===== src/Funding/Split.antt =====
-- What the buckets of an organization are after a recharge was split over them.
use nexusapi_enterprise.Prelude.{
  ℕ, ◌≡◌, refl, ap, sym, ◌∙◌, inl, inr, Bool, some, Bool-cases, Option-cases, ok, ok_injective,
  >>=-eq-ok,
}
use mathlib.Core.Path.{subst}
use nexusapi_enterprise.Prelude.Int.{
  ℤ, pos, ◌+ℤ◌, ◌≤ℤ◌, int_laws, ltb_ℤ, pos_part, neg_part, zero_of,
}
use nexusapi_enterprise.Prelude.Int64.{i64, i64_id}
use nexusapi_enterprise.Escrow.{
  EscrowBucket, Buckets, active, holding, selects, escrowed, update_escrow_bucket_tx,
  get_active_escrow_bucket_tx,
}
use nexusapi_enterprise.Escrow.Table.{InRange, IsAmount, IsTable, All-Has, update-IsTable}
use nexusapi_enterprise.Escrow.Select.{first_by_seq-Has, sum_where-nonneg, amount-le-sum_where}
use nexusapi_enterprise.Escrow.Write.{write-active, write-active_others}
use nexusapi_enterprise.Funding.{create, raise_window, hold_rest, split_recharge}
use nexusapi_enterprise.Funding.Grown.{
  Grown, create_lem, new-IsTable, new-others, new-own, new-own_other,
}

-- The first recharge: the window bucket is created.
create_window-Grown :
    (org seq : ℕ) (amount : ℤ) (rows : Buckets) {rows' : Buckets}
    → IsAmount amount
    → IsTable rows
    → create org seq amount active rows ≡ ok rows'
    → Grown org amount (pos 0) rows rows'
create_window-Grown org seq amount rows range t e =
    subst (Grown org amount (pos 0) rows) (sym (create_lem org seq amount active rows e)) (record {
      table = new-IsTable org seq amount active rows range t;
      released_by = new-own org seq amount active rows;
      held_by = new-own_other org seq amount active holding rows (λ x. cc);
      others = new-others org seq amount active rows;
    })

create_holding-Grown :
    (org seq : ℕ) (amount : ℤ) (rows : Buckets) {rows' : Buckets}
    → IsAmount amount
    → IsTable rows
    → create org seq amount holding rows ≡ ok rows'
    → Grown org (pos 0) amount rows rows'
create_holding-Grown org seq amount rows range t e =
    subst (Grown org (pos 0) amount rows) (sym (create_lem org seq amount holding rows e)) (record {
      table = new-IsTable org seq amount holding rows range t;
      released_by = new-own_other org seq amount holding active rows (λ x. cc);
      held_by = new-own org seq amount holding rows;
      others = new-others org seq amount holding rows;
    })

-- A later recharge: the window bucket is raised.
raised-Grown :
    (org : ℕ) (fit : ℤ) (rows : Buckets) (a : EscrowBucket)
    → IsTable rows
    → pos 0 ≤ℤ fit
    → IsAmount (escrowed org rows +ℤ fit)
    → get_active_escrow_bucket_tx org rows ≡ some a
    → Grown org fit (pos 0) rows (update_escrow_bucket_tx a.id (i64 (a.amount +ℤ fit)) active rows)
unfolding get_active_escrow_bucket_tx
raised-Grown org fit rows a t p bound found =
    let (m, hit) = first_by_seq-Has (selects org active) rows found in
    let range = All-Has InRange rows t.amounts m in
    let held_nonneg = sum_where-nonneg (selects org holding) rows t.amounts in
    let le = amount-le-sum_where (selects org active) a rows t.amounts m hit in
    let value = i64 (a.amount +ℤ fit) in
    let sum_range : IsAmount (a.amount +ℤ fit) =
      omega (int_laws, range, p, held_nonneg, le, bound.0, bound.1) in
    let value_eq : value ≡ a.amount +ℤ fit = i64_id _ (omega (int_laws, sum_range)) in
    let law = write-active org a value rows t m hit in
    let kept = write-active_others org a value rows t m hit in
    record {
      table = update-IsTable a.id value active rows (rw value_eq sum_range) t;
      released_by =
          omega (
            int_laws,
            ap pos_part law,
            ap neg_part law,
            ap pos_part value_eq,
            ap neg_part value_eq,
          );
      held_by = kept org holding (inr refl) ∙ (omega int_laws);
      others = λ o st ne. kept o st (inl ne);
    }

raise_window-Grown :
    (org : ℕ) (fit : ℤ) (rows : Buckets) {out : Bool × Buckets}
    → IsTable rows
    → pos 0 ≤ℤ fit
    → IsAmount (escrowed org rows +ℤ fit)
    → raise_window org fit rows ≡ ok out
    → Grown org fit (pos 0) rows out.1
raise_window-Grown org fit rows {out} t p bound e =
    elim (Option-cases (get_active_escrow_bucket_tx org rows)) [
      | inl missing ↦
          let (rows', made, same) =
            >>=-eq-ok (create org 1 fit active rows) _ (rw (missing, raise_window) at e) in
          let nonneg = sum_where-nonneg (selects org active) rows t.amounts in
          let nonneg' = sum_where-nonneg (selects org holding) rows t.amounts in
          subst (λ x. Grown org fit (pos 0) rows x.1) (ok_injective same)
            (create_window-Grown org 1 fit rows (omega (int_laws, bound, p, nonneg, nonneg')) t
              made)
      | inr (a, found) ↦
          subst (λ x. Grown org fit (pos 0) rows x.1) (ok_injective (rw (found, raise_window) at e))
            (raised-Grown org fit rows a t p bound found)
    ]

same-Grown : (org : ℕ) (rows : Buckets) → IsTable rows → Grown org (pos 0) (pos 0) rows rows
same-Grown org rows t = record {
  table = t;
  released_by = omega int_laws;
  held_by = omega int_laws;
  others = λ o st ne. refl;
}

hold_rest-Grown :
    (org : ℕ) (rest : ℤ) (first_time : Bool) (rows : Buckets) {rows' : Buckets}
    → IsTable rows
    → IsAmount rest
    → hold_rest org rest (first_time, rows) ≡ ok rows'
    → Grown org (pos 0) rest rows rows'
hold_rest-Grown org rest first_time rows t range e = elim (Bool-cases (ltb_ℤ (pos 0) rest)) [
  | inl more ↦ create_holding-Grown org _ rest rows range t (rw (more, hold_rest) at e)
  | inr none_left ↦
      let z : rest ≡ pos 0 = zero_of rest (omega (int_laws, range)) none_left in
      subst (Grown org (pos 0) rest rows) (ok_injective (rw (none_left, hold_rest) at e))
        (rw z (same-Grown org rows t))
]

Grown-twice :
    (org : ℕ) (fit rest : ℤ) (rows mid rows' : Buckets)
    → Grown org fit (pos 0) rows mid
    → Grown org (pos 0) rest mid rows'
    → Grown org fit rest rows rows'
Grown-twice org fit rest rows mid rows' g h = record {
  table = h.table;
  released_by = h.released_by ∙ (rw (g.released_by) (omega int_laws));
  held_by = h.held_by ∙ (rw (g.held_by) (omega int_laws));
  others = λ o st ne. h.others o st ne ∙ g.others o st ne;
}

-- The window bucket takes what fits, a new holding bucket the rest.
pub split_recharge-Grown :
    (org : ℕ) (fit rest : ℤ) (rows : Buckets) {rows' : Buckets}
    → IsTable rows
    → pos 0 ≤ℤ fit
    → IsAmount rest
    → IsAmount (escrowed org rows +ℤ fit)
    → split_recharge org fit rest rows ≡ ok rows'
    → Grown org fit rest rows rows'
unfolding split_recharge
split_recharge-Grown org fit rest rows t p range bound e =
    let (out, raised, k) = >>=-eq-ok (raise_window org fit rows) _ e in
    let g = raise_window-Grown org fit rows t p bound raised in
    Grown-twice org fit rest rows out.1 _ g (hold_rest-Grown org rest out.0 out.1 g.table range k)
