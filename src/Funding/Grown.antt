-- ===== src/Funding/Grown.antt =====
-- Tables that grow by a new bucket.
use nexusapi_enterprise.Prelude.{
  ℕ, suc, ◌≤◌, ◌≡◌, ◌≢◌, sym, ◌∙◌, inl, inr, true, false, ◌&&◌, [], ◌∷◌, arith, All, Bool-cases, ok,
  ok_injective, if◌then◌else◌, ltb, ◌==◌,
}
use nexusapi_enterprise.Prelude.Int.{ℤ, pos, ◌+ℤ◌, int_laws}
use nexusapi_enterprise.Escrow.{
  EscrowBucket, EscrowStatus, Buckets, same_status, selects, sum_where, sum_holding_escrow,
  released, auto_increment, seq_taken, create_escrow_bucket_tx,
}
use nexusapi_enterprise.Escrow.Table.{IsAmount, IsTable}
use nexusapi_enterprise.Funding.{escrow_default_threshold, create}

-- The sums of an organization raised by two amounts, those of the others kept.
pub record Grown (org : ℕ) (window rest : ℤ) (rows rows' : Buckets) : Type 0 where
  pub table : IsTable rows'
  pub released_by : released org rows' ≡ released org rows +ℤ window
  pub held_by : sum_holding_escrow org rows' ≡ sum_holding_escrow org rows +ℤ rest
  pub others :
      (o : ℕ) (st : EscrowStatus)
      → o ≢ org
      → sum_where (selects o st) rows' ≡ sum_where (selects o st) rows

ids_below : (n : ℕ) (rows : Buckets) → auto_increment rows ≤ n → All (λ b. b.id ≢ n) rows
unfolding auto_increment
ids_below n [] h = tt
ids_below n (b ∷ bs) h = elim (Bool-cases (ltb b.id (auto_increment bs))) [
  | inl less ↦ let h' : auto_increment bs ≤ n = rw less at h in (ground arith, ids_below n bs h')
  | inr not_less ↦
      let h' : suc b.id ≤ n = rw not_less at h in (ground arith, ids_below n bs (ground arith))
]

-- The row that an INSERT adds.
abbrev pub new_row : ℕ → ℕ → ℤ → EscrowStatus → Buckets → EscrowBucket
new_row org seq amount st rows = record {
  id = auto_increment rows;
  org_id = org;
  seq = seq;
  amount = amount;
  status = st;
  threshold = escrow_default_threshold;
}

pub create_lem :
    (org seq : ℕ) (amount : ℤ) (st : EscrowStatus) (rows : Buckets) {rows' : Buckets}
    → create org seq amount st rows ≡ ok rows'
    → rows' ≡ new_row org seq amount st rows ∷ rows
unfolding create_escrow_bucket_tx
create_lem org seq amount st rows e = elim (Bool-cases (seq_taken org seq rows)) [
  | inl taken ↦ absurd (ground arith)
  | inr free ↦ sym (ok_injective (rw (free, create) at e))
]

sum_new :
    (o org seq : ℕ) (amount : ℤ) (st st' : EscrowStatus) (rows : Buckets)
    → sum_where (selects o st') (new_row org seq amount st rows ∷ rows)
      ≡ sum_where (selects o st') rows
        +ℤ (if (org == o) && same_status st st' then amount else pos 0)
unfolding sum_where
sum_new o org seq amount st st' rows = elim (Bool-cases ((org == o) && same_status st st')) [
  | inl hit ↦ rw hit (omega int_laws)
  | inr miss ↦ rw miss (omega int_laws)
]

pub new-IsTable :
    (org seq : ℕ) (amount : ℤ) (st : EscrowStatus) (rows : Buckets)
    → IsAmount amount
    → IsTable rows
    → IsTable (new_row org seq amount st rows ∷ rows)
new-IsTable org seq amount st rows range t = record {
  ids = (ids_below (auto_increment rows) rows (omega arith), t.ids);
  amounts = (range, t.amounts);
}

pub new-others :
    (org seq : ℕ) (amount : ℤ) (st : EscrowStatus) (rows : Buckets) (o : ℕ) (st' : EscrowStatus)
    → o ≢ org
    → sum_where (selects o st') (new_row org seq amount st rows ∷ rows)
      ≡ sum_where (selects o st') rows
new-others org seq amount st rows o st' ne =
    let miss : ((org == o) && same_status st st') ≡ false = ground arith in
    (rw miss at (sum_new o org seq amount st st' rows)) ∙ (omega int_laws)

pub new-own :
    (org seq : ℕ) (amount : ℤ) (st : EscrowStatus) (rows : Buckets)
    → sum_where (selects org st) (new_row org seq amount st rows ∷ rows)
      ≡ sum_where (selects org st) rows +ℤ amount
new-own org seq amount st rows =
    let hit : ((org == org) && same_status st st) ≡ true = ground arith in
    rw hit at (sum_new org org seq amount st st rows)

pub new-own_other :
    (org seq : ℕ) (amount : ℤ) (st st' : EscrowStatus) (rows : Buckets)
    → st ≢ st'
    → sum_where (selects org st') (new_row org seq amount st rows ∷ rows)
      ≡ sum_where (selects org st') rows +ℤ pos 0
new-own_other org seq amount st st' rows ne =
    let miss : ((org == org) && same_status st st') ≡ false = ground arith in
    rw miss at (sum_new org org seq amount st st' rows)
