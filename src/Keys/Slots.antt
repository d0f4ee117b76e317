-- ===== src/Keys/Slots.antt =====
-- The keys of a member: their ids, the one primary key, and the one current token of each.
use nexusapi_enterprise.Prelude.{
  ℕ, ◌≤◌, ◌<◌, ◌≡◌, refl, sym, ◌∙◌, ◌⊎◌, inl, inr, true, false, Option, none, some, List, [], ◌∷◌,
  ltb, Bool-cases, Option-cases, some_injective, Has, Result, ok, err, ok_injective,
}
use mathlib.Core.Path.{subst}
use nexusapi_enterprise.Errors.{RepoError}
use nexusapi_enterprise.Keys.{
  KeySlot, KeyToken, KeyTables, NewToken, find_token, token_row, insert_key_token_tx, with_token,
  select_primary, lower_id, is_primary_of,
}
use nexusapi_enterprise.Keys.Tokens.{count_current}

-- The key of a token, with the token's owner.
abbrev pub IsOwned : List KeySlot → KeyToken → Type 0
IsOwned slots t =
    (s : KeySlot) × Has s slots
    × (s.id ≡ t.key_id)
    × (s.org_id ≡ t.org_id)
    × (s.member_id ≡ t.member_id)

pub record AreKeys (k : KeyTables) : Type 0 where
  pub below : (s : KeySlot) → Has s k.slots → s.id < k.next_id
  pub unique : (s u : KeySlot) → Has s k.slots → Has u k.slots → s.id ≡ u.id → s ≡ u
  pub one_primary :
      (org member : ℕ) (s u : KeySlot)
      → Has s k.slots
      → Has u k.slots
      → is_primary_of org member s ≡ true
      → is_primary_of org member u ≡ true
      → s ≡ u
  pub one_current : (s : KeySlot) → Has s k.slots → count_current s.id k.tokens ≡ 1
  pub none_above : (id : ℕ) → k.next_id ≤ id → count_current id k.tokens ≡ 0
  pub owned : (t : KeyToken) → Has t k.tokens → IsOwned k.slots t

lower_id-cases : (s : KeySlot) (o : Option KeySlot) → (lower_id s o ≡ s) ⊎ (o ≡ some (lower_id s o))
lower_id-cases s none = inl refl
lower_id-cases s (some t) = elim (Bool-cases (ltb s.id t.id)) [
  | inl lower ↦ inl (rw lower refl)
  | inr higher ↦ inr (rw higher refl)
]

pub select_primary-found :
    (org member : ℕ) (ss : List KeySlot) {s : KeySlot}
    → select_primary org member ss ≡ some s
    → Has s ss × (is_primary_of org member s ≡ true)
unfolding select_primary
select_primary-found org member [] e = cc
select_primary-found org member (x ∷ xs) {s} e = elim (Bool-cases (is_primary_of org member x)) [
  | inl hit ↦ elim (lower_id-cases x (select_primary org member xs)) [
    | inl this ↦
        let at : x ≡ s = sym this ∙ some_injective (rw hit at e) in
        (inl at, subst (λ y. is_primary_of org member y ≡ true) at hit)
    | inr that ↦
        let (held, prime) = select_primary-found org member xs (that ∙ rw hit at e) in
        (inr held, prime)
  ]
  | inr miss ↦
      let (held, prime) = select_primary-found org member xs (rw miss at e) in (inr held, prime)
]

pub select_primary-none :
    (org member : ℕ) (ss : List KeySlot) (s : KeySlot)
    → select_primary org member ss ≡ none
    → Has s ss
    → is_primary_of org member s ≡ false
unfolding select_primary
select_primary-none org member [] s e h = absurd h
select_primary-none org member (x ∷ xs) s e h = elim (Bool-cases (is_primary_of org member x)) [
  | inl hit ↦ absurd (nothing (rw hit at e))
  | inr miss ↦ elim h [
    | inl at ↦ subst (λ y. is_primary_of org member y ≡ false) at miss
    | inr later ↦ select_primary-none org member xs s (rw miss at e) later
  ]
]
  where
    nothing : {u : KeySlot} → ◌≡◌ {A = Option KeySlot} (some u) none → ⊥
    nothing e = cc

pub with_token-ok :
    (org member key_id : ℕ) (n : NewToken) (k : KeyTables) {out : ℕ × KeyTables}
    → with_token org member n (key_id, k) ≡ ok out
    → (find_token n.newapi_token_id k.tokens ≡ none)
      × (out ≡ (key_id, record k { tokens = token_row key_id org member n ∷ k.tokens }))
unfolding insert_key_token_tx
with_token-ok org member key_id n k {out} h =
    elim (Option-cases (find_token n.newapi_token_id k.tokens)) [
      | inl free ↦ (free, sym (ok_injective (rw (free, insert_key_token_tx) at h)))
      | inr (t, taken) ↦ absurd (refused (rw (taken, insert_key_token_tx) at h))
    ]
  where
    refused : {e : RepoError} → ◌≡◌ {A = Result RepoError (ℕ × KeyTables)} (err e) (ok out) → ⊥
    refused e = cc
