-- ===== src/Escrow/Select.antt =====
-- Lemmas on the SELECT statements of repo/escrow.go: the row that ORDER BY seq LIMIT 1 returns, and
-- the bounds of a SUM.
use mathlib.Core.Path.{subst}
use nexusapi_enterprise.Prelude.{
  ℕ, suc, ◌≤◌, ◌<◌, ◌≡◌, ◌≢◌, refl, inl, inr, Bool, true, false, none, some, [], ◌∷◌, arith, All,
  Has, Bool-cases, Option-cases, if◌then◌else◌,
}
use nexusapi_enterprise.Prelude.Int.{ℤ, pos, ◌≤ℤ◌, int_laws}
use nexusapi_enterprise.Escrow.{
  EscrowBucket, EscrowStatus, Buckets, sum_where, update_escrow_bucket_tx, first_by_seq,
}
use nexusapi_enterprise.Escrow.Table.{
  IdsUnique, InRange, All-Has, written, write_row_hit, write_row_miss, update-fresh,
}

-- The row that `first_by_seq` returns stands in the table and passes the test.
pub first_by_seq-Has :
    (p : EscrowBucket → Bool) {h : EscrowBucket} (rows : Buckets)
    → first_by_seq p rows ≡ some h
    → Has h rows × (p h ≡ true)
unfolding first_by_seq
first_by_seq-Has p [] e = cc
first_by_seq-Has p {h} (b ∷ bs) e = elim (Option-cases (first_by_seq p bs)) [
  | inl empty ↦ ground arith
  | inr (c, found) ↦ let ih = first_by_seq-Has p bs found in ground (arith, ih)
]

-- An UPDATE of a row that the test passes over before and after changes no answer.
pub first_by_seq-update_away :
    (p : EscrowBucket → Bool) (h : EscrowBucket) (a : ℤ) (st : EscrowStatus) (rows : Buckets)
    → IdsUnique rows
    → Has h rows
    → p h ≡ false
    → p (written h a st) ≡ false
    → first_by_seq p (update_escrow_bucket_tx h.id a st rows) ≡ first_by_seq p rows
unfolding first_by_seq update_escrow_bucket_tx
first_by_seq-update_away p h a st [] u m old new = refl
first_by_seq-update_away p h a st (b ∷ bs) u (inl e) old new =
    let others : All (λ c. c.id ≢ h.id) bs = subst (λ x. All (λ c. c.id ≢ x.id) bs) e u.0 in
    rw (e, write_row_hit h a st, update-fresh h.id a st bs others, old, new)
first_by_seq-update_away p h a st (b ∷ bs) u (inr m) old new = rw (
  write_row_miss h.id a st b (All-Has (λ c. c.id ≢ b.id) bs u.0 m),
  first_by_seq-update_away p h a st bs u.1 m old new,
)

-- No row passes the test where it returns none.
pub first_by_seq-none :
    (p : EscrowBucket → Bool) (rows : Buckets)
    → first_by_seq p rows ≡ none
    → All (λ b. p b ≡ false) rows
unfolding first_by_seq
first_by_seq-none p [] e = tt
first_by_seq-none p (b ∷ bs) e = elim (Option-cases (first_by_seq p bs)) [
  | inl empty ↦ (ground arith, first_by_seq-none p bs empty)
  | inr (c, found) ↦ ground arith
]

-- Every row that passes the test has a seq that is as large.
abbrev pub IsLeast : (EscrowBucket → Bool) → ℕ → Buckets → Type 0
IsLeast p k rows = All (λ b. p b ≡ true → k ≤ b.seq) rows

IsLeast-le :
    (p : EscrowBucket → Bool) (k n : ℕ) (rows : Buckets)
    → k ≤ n
    → IsLeast p n rows
    → IsLeast p k rows
IsLeast-le p k n [] h l = tt
IsLeast-le p k n (b ∷ bs) h l = ((λ e. ground (arith, l.0 e)), IsLeast-le p k n bs h l.1)

IsLeast-none :
    (p : EscrowBucket → Bool) (k : ℕ) (rows : Buckets)
    → All (λ b. p b ≡ false) rows
    → IsLeast p k rows
IsLeast-none p k [] h = tt
IsLeast-none p k (b ∷ bs) h = ((λ e. ground arith), IsLeast-none p k bs h.1)

first_by_seq-IsLeast :
    (p : EscrowBucket → Bool) {h : EscrowBucket} (rows : Buckets)
    → first_by_seq p rows ≡ some h
    → IsLeast p h.seq rows
unfolding first_by_seq
first_by_seq-IsLeast p [] e = tt
first_by_seq-IsLeast p {h} (b ∷ bs) e = elim (Option-cases (first_by_seq p bs)) [
  | inl empty ↦ ((λ t. ground arith), IsLeast-none p h.seq bs (first_by_seq-none p bs empty))
  | inr (c, found) ↦ (
    (λ t. ground arith),
    IsLeast-le p h.seq c.seq bs (ground arith) (first_by_seq-IsLeast p bs found),
  )
]

-- The sum over rows that never pass the test is 0.
pub sum_where-none :
    (p : EscrowBucket → Bool) (rows : Buckets)
    → All (λ b. p b ≡ false) rows
    → sum_where p rows ≡ pos 0
unfolding sum_where
sum_where-none p [] h = refl
sum_where-none p (b ∷ bs) h = rw (h.0, sum_where-none p bs h.1) (omega int_laws)

-- A sum of amounts that are not negative is not negative, and no row's share exceeds it.
pub sum_where-nonneg :
    (p : EscrowBucket → Bool) (rows : Buckets) → All InRange rows → pos 0 ≤ℤ sum_where p rows
unfolding sum_where
sum_where-nonneg p [] n = omega arith
sum_where-nonneg p (b ∷ bs) n = elim (Bool-cases (p b)) [
  | inl hit ↦ rw hit (omega (int_laws, sum_where-nonneg p bs n.1))
  | inr miss ↦ rw miss (omega (int_laws, sum_where-nonneg p bs n.1))
]

pub amount-le-sum_where :
    (p : EscrowBucket → Bool) (h : EscrowBucket) (rows : Buckets)
    → All InRange rows
    → Has h rows
    → p h ≡ true
    → h.amount ≤ℤ sum_where p rows
unfolding sum_where
amount-le-sum_where p h [] n m e = absurd m
amount-le-sum_where p h (b ∷ bs) n (inl same) e =
    rw (same, e) (omega (int_laws, sum_where-nonneg p bs n.1))
amount-le-sum_where p h (b ∷ bs) n (inr m) e = elim (Bool-cases (p b)) [
  | inl hit ↦ rw hit (omega (int_laws, n.0.0, amount-le-sum_where p h bs n.1 m e))
  | inr miss ↦ rw miss (omega (int_laws, amount-le-sum_where p h bs n.1 m e))
]

unfoldable pub count_where : (EscrowBucket → Bool) → Buckets → ℕ
count_where p [] = 0
count_where p (b ∷ bs) = let rest = count_where p bs in if p b then suc rest else rest

-- A row that passes the test and is written so that it fails it is one row fewer.
pub count_where-update :
    (p : EscrowBucket → Bool) (h : EscrowBucket) (a : ℤ) (st : EscrowStatus) (rows : Buckets)
    → IdsUnique rows
    → Has h rows
    → p h ≡ true
    → p (written h a st) ≡ false
    → count_where p (update_escrow_bucket_tx h.id a st rows) < count_where p rows
unfolding update_escrow_bucket_tx count_where
count_where-update p h a st [] u m hit miss = absurd m
count_where-update p h a st (b ∷ bs) u (inl e) hit miss =
    let others : All (λ c. c.id ≢ h.id) bs = subst (λ x. All (λ c. c.id ≢ x.id) bs) e u.0 in
    rw (e, write_row_hit h a st, update-fresh h.id a st bs others, hit, miss) (omega arith)
count_where-update p h a st (b ∷ bs) u (inr m) hit miss =
    rw (write_row_miss h.id a st b (All-Has (λ c. c.id ≢ b.id) bs u.0 m))
      (ground (arith, count_where-update p h a st bs u.1 m hit miss))
