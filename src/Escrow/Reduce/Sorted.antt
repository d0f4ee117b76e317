-- ===== src/Escrow/Reduce/Sorted.antt =====
-- The holding buckets of an organization in descending order: each stands in the table, and their
-- amounts are the organization's holdings.
use nexusapi_enterprise.Prelude.{
  ℕ, ◌≡◌, ◌≢◌, refl, ap, sym, ◌∙◌, inl, inr, Bool, true, [], ◌∷◌, All, Has, Bool-cases, ltb,
}
use nexusapi_enterprise.Prelude.Int.{ℤ, pos, ◌+ℤ◌, int_laws, pos_part, neg_part}
use nexusapi_enterprise.Escrow.{
  EscrowBucket, Buckets, holding, amount_if, sum_where, selects, sum_holding_escrow,
}
use nexusapi_enterprise.Escrow.Table.{IdsUnique}
use nexusapi_enterprise.Escrow.Reduce.{insert_desc, holdings_desc}
use nexusapi_enterprise.Escrow.Reduce.Loop.{IsPending}
use nexusapi_enterprise.Escrow.{amount_if}

All-insert_desc :
    (P : EscrowBucket → Type 0) (b : EscrowBucket) (cs : Buckets)
    → P b
    → All P cs
    → All P (insert_desc b cs)
unfolding insert_desc
All-insert_desc P b [] p a = (p, tt)
All-insert_desc P b (c ∷ cs) p a = elim (Bool-cases (ltb b.seq c.seq)) [
  | inl later ↦ rw later (a.0, All-insert_desc P b cs p a.1)
  | inr first ↦ rw first (p, a)
]

insert_desc-IdsUnique :
    (b : EscrowBucket) (cs : Buckets)
    → All (λ c. c.id ≢ b.id) cs
    → IdsUnique cs
    → IdsUnique (insert_desc b cs)
unfolding insert_desc
insert_desc-IdsUnique b [] a u = (tt, tt)
insert_desc-IdsUnique b (c ∷ cs) a u = elim (Bool-cases (ltb b.seq c.seq)) [
  | inl later ↦ rw later (
    All-insert_desc (λ x. x.id ≢ c.id) b cs (λ e. a.0 (sym e)) u.0,
    insert_desc-IdsUnique b cs a.1 u.1,
  )
  | inr first ↦ rw first (a, u)
]

swap_first : (x y s t : ℤ) → s ≡ x +ℤ t → y +ℤ s ≡ x +ℤ (y +ℤ t)
swap_first x y s t e = omega (int_laws, ap pos_part e, ap neg_part e)

sum_where-insert_desc :
    (p : EscrowBucket → Bool) (b : EscrowBucket) (cs : Buckets)
    → sum_where p (insert_desc b cs) ≡ amount_if (p b) b +ℤ sum_where p cs
unfolding insert_desc sum_where
sum_where-insert_desc p b [] = refl
sum_where-insert_desc p b (c ∷ cs) = elim (Bool-cases (ltb b.seq c.seq)) [
  | inl later ↦ rw later (
      swap_first (amount_if (p b) b) (amount_if (p c) c) _ (sum_where p cs)
        (sum_where-insert_desc p b cs))
  | inr first ↦ rw first
]

All-holdings_desc :
    (P : EscrowBucket → Type 0) (org : ℕ) (bs : Buckets) → All P bs → All P (holdings_desc org bs)
unfolding holdings_desc
All-holdings_desc P org [] a = tt
All-holdings_desc P org (b ∷ bs) a = elim (Bool-cases (selects org holding b)) [
  | inl hit ↦ rw hit (All-insert_desc P b _ a.0 (All-holdings_desc P org bs a.1))
  | inr miss ↦ rw miss (All-holdings_desc P org bs a.1)
]

holdings_desc-IdsUnique : (org : ℕ) (bs : Buckets) → IdsUnique bs → IdsUnique (holdings_desc org bs)
unfolding holdings_desc
holdings_desc-IdsUnique org [] u = tt
holdings_desc-IdsUnique org (b ∷ bs) u = elim (Bool-cases (selects org holding b)) [
  | inl hit ↦ rw hit (
      insert_desc-IdsUnique b _ (All-holdings_desc (λ c. c.id ≢ b.id) org bs u.0)
        (holdings_desc-IdsUnique org bs u.1))
  | inr miss ↦ rw miss (holdings_desc-IdsUnique org bs u.1)
]

-- A sorted bucket stands in the table and is a holding bucket of the organization.
abbrev IsHeld : ℕ → Buckets → EscrowBucket → Type 0
IsHeld org rows h = Has h rows × (selects org holding h ≡ true)

All-later :
    (org : ℕ) (b : EscrowBucket) (rows hs : Buckets)
    → All (IsHeld org rows) hs
    → All (IsHeld org (b ∷ rows)) hs
All-later org b rows [] a = tt
All-later org b rows (h ∷ hs) a = ((inr a.0.0, a.0.1), All-later org b rows hs a.1)

holdings_desc-IsHeld : (org : ℕ) (rows : Buckets) → All (IsHeld org rows) (holdings_desc org rows)
unfolding holdings_desc
holdings_desc-IsHeld org [] = tt
holdings_desc-IsHeld org (b ∷ bs) = elim (Bool-cases (selects org holding b)) [
  | inl hit ↦ rw hit (
      All-insert_desc (IsHeld org (b ∷ bs)) b _ (inl refl, hit)
        (All-later org b bs _ (holdings_desc-IsHeld org bs)))
  | inr miss ↦ rw miss (All-later org b bs _ (holdings_desc-IsHeld org bs))
]

pub holdings_desc-IsPending :
    (org : ℕ) (rows : Buckets) → IdsUnique rows → IsPending org (holdings_desc org rows) rows
holdings_desc-IsPending org rows u =
    (holdings_desc-IsHeld org rows, holdings_desc-IdsUnique org rows u)

zero_first : (x : ℤ) → pos 0 +ℤ x ≡ x
zero_first x = omega int_laws

pub sum_where-holdings_desc :
    (org : ℕ) (rows : Buckets)
    → sum_where (selects org holding) (holdings_desc org rows) ≡ sum_holding_escrow org rows
unfolding holdings_desc sum_where
sum_where-holdings_desc org [] = refl
sum_where-holdings_desc org (b ∷ bs) = elim (Bool-cases (selects org holding b)) [
  | inl hit ↦ rw (
    hit,
    sum_where-insert_desc (selects org holding) b (holdings_desc org bs),
    hit,
    sum_where-holdings_desc org bs,
  )
  | inr miss ↦ rw miss (sum_where-holdings_desc org bs ∙ sym (zero_first _))
]
