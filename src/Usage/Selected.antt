-- ===== src/Usage/Selected.antt =====
-- The entries that pass a filter: their order, their sums and that none stands twice.
use nexusapi_enterprise.Prelude.{
  ℕ, ◌≡◌, refl, ap, inl, inr, Bool, true, false, List, [], ◌∷◌, ◌++◌, ◌==◌, arith, Bool-cases, All,
}
use nexusapi_enterprise.Prelude.Int.{pos, ◌+ℤ◌, ◌≤ℤ◌, int_laws, pos_part, neg_part}
use nexusapi_enterprise.Settlement.{LogEntry}
use nexusapi_enterprise.Settlement.Streams.{select}
use nexusapi_enterprise.Usage.Batch.{NoneFree, sum_quotas, has_entry, NoneTwice}
use nexusapi_enterprise.Usage.Run.{is_costly}

pub select-append :
    (p : LogEntry → Bool) (xs ys : List LogEntry) → select p (xs ++ ys) ≡ select p xs ++ select p ys
unfolding select
select-append p [] ys = refl
select-append p (x ∷ xs) ys = elim (Bool-cases (p x)) [
  | inl yes_it ↦ rw yes_it (ap (λ t. x ∷ t) (select-append p xs ys))
  | inr not_it ↦ rw not_it (select-append p xs ys)
]

-- What a filter keeps satisfies what all entries do, and the filter.
pub select-All {κ} :
    (P : LogEntry → Type κ) (p : LogEntry → Bool) (xs : List LogEntry)
    → All P xs
    → All (λ e. P e × (p e ≡ true)) (select p xs)
unfolding select
select-All P p [] h = tt
select-All P p (x ∷ xs) h = elim (Bool-cases (p x)) [
  | inl kept ↦ rw kept ((h.0, kept), select-All P p xs h.1)
  | inr dropped ↦ rw dropped (select-All P p xs h.1)
]

has_entry-select :
    (id : ℕ) (p : LogEntry → Bool) (xs : List LogEntry)
    → has_entry id xs ≡ false
    → has_entry id (select p xs) ≡ false
unfolding select has_entry
has_entry-select id p [] h = refl
has_entry-select id p (x ∷ xs) h = ground (arith, has_entry-select id p xs)

pub NoneTwice-select :
    (p : LogEntry → Bool) (xs : List LogEntry) → NoneTwice xs → NoneTwice (select p xs)
unfolding select NoneTwice
NoneTwice-select p [] h = tt
NoneTwice-select p (x ∷ xs) h = elim (Bool-cases (p x)) [
  | inl kept ↦ rw kept (has_entry-select x.id p xs h.0, NoneTwice-select p xs h.1)
  | inr dropped ↦ rw dropped (NoneTwice-select p xs h.1)
]

has_entry-append :
    (id : ℕ) (xs ys : List LogEntry)
    → has_entry id xs ≡ false
    → has_entry id ys ≡ false
    → has_entry id (xs ++ ys) ≡ false
unfolding has_entry
has_entry-append id [] ys h k = k
has_entry-append id (x ∷ xs) ys h k = ground (arith, has_entry-append id xs ys)

pub NoneTwice-append :
    (xs ys : List LogEntry)
    → NoneTwice xs
    → NoneTwice ys
    → All (λ e. has_entry e.id ys ≡ false) xs
    → NoneTwice (xs ++ ys)
unfolding NoneTwice
NoneTwice-append [] ys h k apart = k
NoneTwice-append (x ∷ xs) ys h k apart =
    (has_entry-append x.id xs ys h.0 apart.0, NoneTwice-append xs ys h.1 k apart.1)

-- An entry that differs from all has none of their ids.
pub has_entry-none :
    (id : ℕ) (ys : List LogEntry) → All (λ e. (e.id == id) ≡ false) ys → has_entry id ys ≡ false
unfolding has_entry
has_entry-none id [] h = refl
has_entry-none id (y ∷ ys) h = rw (h.0) (has_entry-none id ys h.1)

pub sum_quotas-append :
    (xs ys : List LogEntry) → sum_quotas (xs ++ ys) ≡ sum_quotas xs +ℤ sum_quotas ys
unfolding sum_quotas
sum_quotas-append [] ys = omega int_laws
sum_quotas-append (x ∷ xs) ys =
    let ih = sum_quotas-append xs ys in omega (int_laws, ap pos_part ih, ap neg_part ih)

is_costly-pos : (e : LogEntry) → is_costly e ≡ true → pos 0 ≤ℤ e.quota
is_costly-pos e h = ground arith

pub costly-NoneFree : (xs : List LogEntry) → NoneFree (select is_costly xs)
unfolding select
costly-NoneFree [] = tt
costly-NoneFree (x ∷ xs) = elim (Bool-cases (is_costly x)) [
  | inl kept ↦ rw kept (is_costly-pos x kept, costly-NoneFree xs)
  | inr dropped ↦ rw dropped (costly-NoneFree xs)
]

sum_quotas-cons_le :
    (x : LogEntry) (xs ys : List LogEntry)
    → sum_quotas xs ≤ℤ sum_quotas ys
    → sum_quotas (x ∷ xs) ≤ℤ sum_quotas (x ∷ ys)
unfolding sum_quotas
sum_quotas-cons_le x xs ys le = omega (int_laws, le)

sum_quotas-skip_le :
    (x : LogEntry) (xs ys : List LogEntry)
    → pos 0 ≤ℤ x.quota
    → sum_quotas xs ≤ℤ sum_quotas ys
    → sum_quotas xs ≤ℤ sum_quotas (x ∷ ys)
unfolding sum_quotas
sum_quotas-skip_le x xs ys q le = omega (int_laws, q, le)

-- A filter that passes costly entries only keeps no more than the quotas of the costly ones.
pub sum_quotas-select :
    (p : LogEntry → Bool) (xs : List LogEntry)
    → ((e : LogEntry) → p e ≡ true → is_costly e ≡ true)
    → sum_quotas (select p xs) ≤ℤ sum_quotas (select is_costly xs)
unfolding select
sum_quotas-select p [] f = omega arith
sum_quotas-select p (x ∷ xs) f = elim (Bool-cases (p x)) [
  | inl kept ↦ rw kept (rw (f x kept) (sum_quotas-cons_le x _ _ (sum_quotas-select p xs f)))
  | inr dropped ↦ rw dropped (elim (Bool-cases (is_costly x)) [
    | inl costs ↦
        rw costs (sum_quotas-skip_le x _ _ (is_costly-pos x costs) (sum_quotas-select p xs f))
    | inr free ↦ rw free (sum_quotas-select p xs f)
  ])
]

-- Two filters after one another keep no more than the second's argument.
pub sum_quotas-select_le :
    (p : LogEntry → Bool) (xs : List LogEntry)
    → NoneFree xs
    → sum_quotas (select p xs) ≤ℤ sum_quotas xs
unfolding select
sum_quotas-select_le p [] q = omega arith
sum_quotas-select_le p (x ∷ xs) q = elim (Bool-cases (p x)) [
  | inl kept ↦ rw kept (sum_quotas-cons_le x _ _ (sum_quotas-select_le p xs q.1))
  | inr dropped ↦ rw dropped (sum_quotas-skip_le x _ _ q.0 (sum_quotas-select_le p xs q.1))
]

pub NoneFree-select :
    (p : LogEntry → Bool) (xs : List LogEntry) → NoneFree xs → NoneFree (select p xs)
unfolding select
NoneFree-select p [] q = tt
NoneFree-select p (x ∷ xs) q = elim (Bool-cases (p x)) [
  | inl kept ↦ rw kept (q.0, NoneFree-select p xs q.1)
  | inr dropped ↦ rw dropped (NoneFree-select p xs q.1)
]
