-- ===== src/Escrow/Table.antt =====
-- Lemmas on the escrow_bucket table of repo/escrow.go: what an UPDATE by primary key does to the
-- rows and to their sums.
use mathlib.Core.Path.{subst}
use nexusapi_enterprise.Prelude.{
  ℕ, ◌+◌, ◌≤◌, ◌<◌, ◌≡◌, ◌≢◌, refl, ap, sym, ◌∙◌, inl, inr, Bool, false, [], ◌∷◌, arith, All, Has,
}
use nexusapi_enterprise.Prelude.Int.{ℤ, pos, ◌+ℤ◌, int_laws, pos_part, neg_part}
use nexusapi_enterprise.Prelude.Int64.{two_63}
use nexusapi_enterprise.Escrow.{
  EscrowBucket, EscrowStatus, Buckets, amount_if, sum_where, write_row, update_escrow_bucket_tx,
}

-- PRIMARY KEY (id)
abbrev pub IdsUnique : Buckets → Type 0
IdsUnique [] = Unit
IdsUnique (b ∷ bs) = All (λ c. c.id ≢ b.id) bs × IdsUnique bs

-- An amount of a bucket: an int64 that is not negative.
abbrev pub IsAmount : ℤ → Type 0
IsAmount z = (neg_part z ≤ pos_part z) × (pos_part z < two_63 + neg_part z)

abbrev pub InRange : EscrowBucket → Type 0
InRange b = IsAmount b.amount

-- The row that an UPDATE leaves.
abbrev pub written : EscrowBucket → ℤ → EscrowStatus → EscrowBucket
written h a st = record h { amount = a; status = st }

-- A row other than the one with the key is not written.
pub update-fresh :
    (id : ℕ) (a : ℤ) (st : EscrowStatus) (rows : Buckets)
    → All (λ c. c.id ≢ id) rows
    → update_escrow_bucket_tx id a st rows ≡ rows
unfolding update_escrow_bucket_tx
update-fresh id a st [] h = refl
update-fresh id a st (b ∷ bs) h = ground (arith, update-fresh id a st bs h.1)

-- A row that stands in the table has what every row has.
pub All-Has :
    (P : EscrowBucket → Type 0) {h : EscrowBucket} (rows : Buckets) → All P rows → Has h rows → P h
All-Has P [] a m = absurd m
All-Has P (b ∷ bs) a (inl e) = subst P e a.0
All-Has P (b ∷ bs) a (inr m) = All-Has P bs a.1 m

pub write_row_hit :
    (h : EscrowBucket) (a : ℤ) (st : EscrowStatus) → write_row h.id a st h ≡ written h a st
write_row_hit h a st = ground arith

pub write_row_miss :
    (id : ℕ) (a : ℤ) (st : EscrowStatus) (b : EscrowBucket) → id ≢ b.id → write_row id a st b ≡ b
write_row_miss id a st b ne = ground arith

write_row-id :
    (id : ℕ) (a : ℤ) (st : EscrowStatus) (b : EscrowBucket) → (write_row id a st b).id ≡ b.id
write_row-id id a st b = ground arith

swap_ends : (x s o : ℤ) → x +ℤ s +ℤ o ≡ o +ℤ s +ℤ x
swap_ends x s o = omega int_laws

carry : (o x y z w : ℤ) → x +ℤ y ≡ z +ℤ w → o +ℤ x +ℤ y ≡ o +ℤ z +ℤ w
carry o x y z w e = omega (int_laws, ap pos_part e, ap neg_part e)

-- An UPDATE by key moves a sum by the row's old and new share of it.
pub sum_where-update :
    (p : EscrowBucket → Bool) (h : EscrowBucket) (a : ℤ) (st : EscrowStatus) (rows : Buckets)
    → IdsUnique rows
    → Has h rows
    → sum_where p (update_escrow_bucket_tx h.id a st rows) +ℤ amount_if (p h) h
      ≡ sum_where p rows +ℤ amount_if (p (written h a st)) (written h a st)
unfolding update_escrow_bucket_tx sum_where
sum_where-update p h a st [] u m = absurd m
sum_where-update p h a st (b ∷ bs) u (inl e) =
    let others : All (λ c. c.id ≢ h.id) bs = subst (λ x. All (λ c. c.id ≢ x.id) bs) e u.0 in
    rw (e, write_row_hit h a st, update-fresh h.id a st bs others)
      (swap_ends (amount_if (p (written h a st)) (written h a st)) (sum_where p bs)
        (amount_if (p h) h))
sum_where-update p h a st (b ∷ bs) u (inr m) =
    rw (write_row_miss h.id a st b (All-Has (λ c. c.id ≢ b.id) bs u.0 m)) (
      carry (amount_if (p b) b) (sum_where p (update_escrow_bucket_tx h.id a st bs))
        (amount_if (p h) h) (sum_where p bs) (amount_if (p (written h a st)) (written h a st))
        (sum_where-update p h a st bs u.1 m))

drop_zeros : (x y : ℤ) → x +ℤ pos 0 ≡ y +ℤ pos 0 → x ≡ y
drop_zeros x y e = omega (int_laws, ap pos_part e, ap neg_part e)

-- A row that the test passes over before and after moves no sum.
pub sum_where-update_away :
    (p : EscrowBucket → Bool) (h : EscrowBucket) (a : ℤ) (st : EscrowStatus) (rows : Buckets)
    → IdsUnique rows
    → Has h rows
    → p h ≡ false
    → p (written h a st) ≡ false
    → sum_where p (update_escrow_bucket_tx h.id a st rows) ≡ sum_where p rows
sum_where-update_away p h a st rows u m old new =
    drop_zeros _ _ (rw (old, new) at (sum_where-update p h a st rows u m))

-- An UPDATE keeps the keys.
update-fresh_ids :
    (k id : ℕ) (a : ℤ) (st : EscrowStatus) (rows : Buckets)
    → All (λ c. c.id ≢ k) rows
    → All (λ c. c.id ≢ k) (update_escrow_bucket_tx id a st rows)
unfolding update_escrow_bucket_tx
update-fresh_ids k id a st [] h = h
update-fresh_ids k id a st (b ∷ bs) h = ground (arith, update-fresh_ids k id a st bs h.1)

update-IdsUnique :
    (id : ℕ) (a : ℤ) (st : EscrowStatus) (rows : Buckets)
    → IdsUnique rows
    → IdsUnique (update_escrow_bucket_tx id a st rows)
unfolding update_escrow_bucket_tx
update-IdsUnique id a st [] u = u
update-IdsUnique id a st (b ∷ bs) u = (
  rw (write_row-id id a st b) (update-fresh_ids b.id id a st bs u.0),
  update-IdsUnique id a st bs u.1,
)

update-InRange :
    (id : ℕ) (a : ℤ) (st : EscrowStatus) (rows : Buckets)
    → IsAmount a
    → All InRange rows
    → All InRange (update_escrow_bucket_tx id a st rows)
unfolding update_escrow_bucket_tx
update-InRange id a st [] p n = n
update-InRange id a st (b ∷ bs) p n = ground (arith, update-InRange id a st bs p n.1)

-- A row with another key stays.
pub update-Has :
    (h : EscrowBucket) (id : ℕ) (a : ℤ) (st : EscrowStatus) (rows : Buckets)
    → Has h rows
    → h.id ≢ id
    → Has h (update_escrow_bucket_tx id a st rows)
unfolding update_escrow_bucket_tx
update-Has h id a st [] m ne = m
update-Has h id a st (b ∷ bs) (inl e) ne = inl (rw e (write_row_miss id a st h (λ q. ne (sym q))))
update-Has h id a st (b ∷ bs) (inr m) ne = inr (update-Has h id a st bs m ne)

-- Two rows of the table with one key are one row.
pub Has-unique :
    (g h : EscrowBucket) (rows : Buckets)
    → IdsUnique rows
    → Has g rows
    → Has h rows
    → g.id ≡ h.id
    → g ≡ h
Has-unique g h [] u m n e = absurd m
Has-unique g h (b ∷ bs) u (inl p) (inl q) e = sym p ∙ q
Has-unique g h (b ∷ bs) u (inl p) (inr n) e = absurd (All-Has (λ c. c.id ≢ b.id) bs u.0 n (cc))
Has-unique g h (b ∷ bs) u (inr m) (inl q) e = absurd (All-Has (λ c. c.id ≢ b.id) bs u.0 m (cc))
Has-unique g h (b ∷ bs) u (inr m) (inr n) e = Has-unique g h bs u.1 m n e

-- The primary keys are unique and every amount is an int64 that is not negative.
pub record IsTable (rows : Buckets) : Type 0 where
  pub ids : IdsUnique rows
  pub amounts : All InRange rows

pub update-IsTable :
    (id : ℕ) (a : ℤ) (st : EscrowStatus) (rows : Buckets)
    → IsAmount a
    → IsTable rows
    → IsTable (update_escrow_bucket_tx id a st rows)
update-IsTable id a st rows k t = record {
  ids = update-IdsUnique id a st rows t.ids;
  amounts = update-InRange id a st rows k t.amounts;
}
