-- ===== src/Funding/Merged.antt =====
-- The transaction of refillToWindow on books that agree.
use nexusapi_enterprise.Prelude.{
  ℕ, ◌≡◌, ◌≢◌, refl, ap, sym, ◌∙◌, inl, inr, none, some, arith, Bool-cases, Option-cases, ok, ◌==◌,
}
use mathlib.Core.Path.{subst}
use nexusapi_enterprise.Prelude.Int.{ℤ, pos, ◌+ℤ◌, ◌≤ℤ◌, ◌<ℤ◌, int_laws, leb_ℤ, pos_part, neg_part}
use nexusapi_enterprise.Escrow.{
  Buckets, active, holding, sum_holding_escrow, released, escrowed, get_active_escrow_bucket_tx,
}
use nexusapi_enterprise.Escrow.Table.{IsAmount, IsTable}
use nexusapi_enterprise.Escrow.Merge.{take_of, merge_holding_into_active_tx}
use nexusapi_enterprise.Escrow.Merge.Law.{Moved, merge_holding_into_active_tx-Moved}
use nexusapi_enterprise.Funding.{Store, refill_tx}
use nexusapi_enterprise.Funding.Sound.{IsSound, escrowed-IsAmount}

-- The transaction of a refill always returns: the loop's fuel is enough.
pub record MergedTx (org : ℕ) (room : ℤ) (s : Store) (out : ℤ × Store) : Type 0 where
  pub sound : IsSound out.1
  pub accounts : out.1.accounts ≡ s.accounts
  pub window : released org out.1.buckets ≡ released org s.buckets +ℤ out.0
  pub total : (o : ℕ) → escrowed o out.1.buckets ≡ escrowed o s.buckets
  pub bound : out.0 ≤ℤ room

take_of-le : (room held : ℤ) → take_of room held ≤ℤ room
take_of-le room held = ground arith

Moved-total :
    (org : ℕ) (room : ℤ) (rows : Buckets) (out : ℤ × Buckets)
    → Moved org room rows out
    → (o : ℕ) → escrowed o out.1 ≡ escrowed o rows
Moved-total org room rows out m o = elim (Bool-cases (o == org)) [
  | inl same ↦
      let e : o ≡ org = ground arith in
      subst (λ x. escrowed x out.1 ≡ escrowed x rows) (sym e)
        (omega (
          int_laws,
          ap pos_part m.window,
          ap neg_part m.window,
          ap pos_part m.held,
          ap neg_part m.held,
        ))
  | inr other ↦
      let ne : o ≢ org = ground arith in rw (m.others o active ne) (rw (m.others o holding ne))
]

merged-IsSound :
    (s : Store) (rows : Buckets)
    → IsSound s
    → IsTable rows
    → ((o : ℕ) → escrowed o rows ≡ escrowed o s.buckets)
    → IsSound (record s { buckets = rows })
merged-IsSound s rows sound t same = record {
  table = t;
  books = λ o. record {
    escrow = same o ∙ (sound.books o).escrow;
    balance = (sound.books o).balance;
    recharged = (sound.books o).recharged;
    refunded = (sound.books o).refunded;
  };
}

merge_missing :
    (org : ℕ) (room : ℤ) (rows : Buckets)
    → get_active_escrow_bucket_tx org rows ≡ none
    → merge_holding_into_active_tx org room rows ≡ some (pos 0, rows)
unfolding merge_holding_into_active_tx
merge_missing org room rows missing = elim (Bool-cases (leb_ℤ room (pos 0))) [
  | inl full ↦ rw full
  | inr open_room ↦ rw open_room (rw missing)
]

pub refill_tx-MergedTx :
    (org : ℕ) (room : ℤ) (s : Store)
    → IsSound s
    → pos 0 <ℤ room
    → IsAmount room
    → (out : ℤ × Store) × (refill_tx org room s ≡ ok out) × MergedTx org room s out
refill_tx-MergedTx org room s sound p range =
    elim (Option-cases (get_active_escrow_bucket_tx org s.buckets)) [
      | inl missing ↦ (
        (pos 0, s),
        rw (merge_missing org room s.buckets missing, refill_tx),
        record {
          sound = sound;
          accounts = refl;
          window = omega int_laws;
          total = λ o. refl;
          bound = omega (int_laws, p);
        },
      )
      | inr (a, found) ↦
          let (out, runs, m) =
            merge_holding_into_active_tx-Moved org room s.buckets a sound.table found p range
              (escrowed-IsAmount org s sound) in
          let total = Moved-total org room s.buckets out m in
          (
            (out.0, record s { buckets = out.1 }),
            rw (runs, refill_tx),
            record {
              sound = merged-IsSound s out.1 sound m.table total;
              accounts = refl;
              window = m.window;
              total = total;
              bound = rw (m.amount) (take_of-le room (sum_holding_escrow org s.buckets));
            },
          )
    ]
