-- ===== src/Keys/Kept.antt =====
-- A new key and a rotation keep the tables of keys in order.
use nexusapi_enterprise.Prelude.{
  ℕ, suc, ◌<◌, ◌≡◌, refl, ap, sym, ◌∙◌, inl, inr, Bool, true, false, ◌&&◌, none, List, ◌∷◌, ◌==◌,
  arith, Bool-cases, Option-cases, Has, ok,
}
use mathlib.Core.Path.{subst}
use nexusapi_enterprise.Keys.{
  KeySlot, KeyToken, KeyTables, NewToken, supersede, supersede_row, token_row,
  ensure_primary_key_tx, create_additional_key, rotate_primary_key_tx, select_primary,
  is_primary_of,
}
use nexusapi_enterprise.Keys.Tokens.{
  count_current, count_current-supersede_same, count_current-supersede_other, Has-supersede,
}
use nexusapi_enterprise.Keys.Slots.{
  IsOwned, AreKeys, select_primary-none, select_primary-found, with_token-ok,
}

count_current-first :
    (key_id org member : ℕ) (n : NewToken) (ts : List KeyToken)
    → count_current key_id (token_row key_id org member n ∷ ts) ≡ suc (count_current key_id ts)
unfolding count_current
count_current-first key_id org member n ts = ground arith

count_current-later :
    (other key_id org member : ℕ) (n : NewToken) (ts : List KeyToken)
    → (other == key_id) ≡ false
    → count_current other (token_row key_id org member n ∷ ts) ≡ count_current other ts
unfolding count_current
count_current-later other key_id org member n ts apart = ground arith

IsOwned-superseded :
    (key_id : ℕ) (slots : List KeySlot) (t : KeyToken)
    → IsOwned slots t
    → IsOwned slots (supersede_row key_id t)
IsOwned-superseded key_id slots t w = elim (Bool-cases (t.key_id == key_id && t.is_current)) [
  | inl hit ↦ rw hit w
  | inr miss ↦ rw miss w
]

pub owner_of_primary :
    (org member : ℕ) (s : KeySlot)
    → is_primary_of org member s ≡ true
    → (s.org_id ≡ org) × (s.member_id ≡ member)
owner_of_primary org member s prime = (ground arith, ground arith)

module _ (org member : ℕ) (n : NewToken) (k : KeyTables) (w : AreKeys k) where
  abbrev pub inserted : Bool → KeyTables
  inserted primary = record {
    slots =
        record { id = k.next_id; org_id = org; member_id = member; is_primary = primary } ∷ k.slots;
    next_id = suc k.next_id;
    tokens = token_row k.next_id org member n ∷ k.tokens;
  }

  older-apart : (s : KeySlot) → Has s k.slots → (s.id == k.next_id) ≡ false
  older-apart s h = let lt = w.below s h in ground arith

  no_other :
      (primary : Bool)
      → (primary ≡ true → select_primary org member k.slots ≡ none)
      → (o m : ℕ) (u : KeySlot) → Has u k.slots
      → is_primary_of o m
          (record { id = k.next_id; org_id = org; member_id = member; is_primary = primary })
        ≡ true
      → is_primary_of o m u ≡ true
      → ⊥
  no_other primary only o m u held new old =
      let prime : primary ≡ true = ground arith in
      let not_it = select_primary-none org member k.slots u (only prime) held in ground arith

  inserted-AreKeys :
      (primary : Bool)
      → (primary ≡ true → select_primary org member k.slots ≡ none)
      → AreKeys (inserted primary)
  inserted-AreKeys primary only = record {
    below = λ s h. elim h [
      | inl at ↦ subst (λ x. x.id < suc k.next_id) at (omega arith)
      | inr old ↦ let lt = w.below s old in omega arith
    ];
    unique = λ s u hs hu same. elim hs [
      | inl at ↦ elim hu [
        | inl at' ↦ sym at ∙ at'
        | inr old' ↦
            let lt = w.below u old' in
            let id = ap (λ x. x.id) at in absurd (omega (arith, lt, id, same))
      ]
      | inr old ↦ elim hu [
        | inl at' ↦
            let lt = w.below s old in
            let id = ap (λ x. x.id) at' in absurd (omega (arith, lt, id, same))
        | inr old' ↦ w.unique s u old old' same
      ]
    ];
    one_primary = λ o m s u hs hu ps pu. elim hs [
      | inl at ↦ elim hu [
        | inl at' ↦ sym at ∙ at'
        | inr old' ↦ absurd (
            no_other primary only o m u old' (subst (λ x. is_primary_of o m x ≡ true) (sym at) ps)
              pu)
      ]
      | inr old ↦ elim hu [
        | inl at' ↦ absurd (
            no_other primary only o m s old (subst (λ x. is_primary_of o m x ≡ true) (sym at') pu)
              ps)
        | inr old' ↦ w.one_primary o m s u old old' ps pu
      ]
    ];
    one_current = λ s h. elim h [
      | inl at ↦
          subst (λ x. count_current x.id (token_row k.next_id org member n ∷ k.tokens) ≡ 1) at
            (count_current-first k.next_id org member n k.tokens
              ∙ ap suc (w.none_above k.next_id (omega arith)))
      | inr old ↦
          count_current-later s.id k.next_id org member n k.tokens (older-apart s old)
          ∙ w.one_current s old
    ];
    none_above = λ id high.
        count_current-later id k.next_id org member n k.tokens (ground arith)
        ∙ w.none_above id (omega arith);
    owned = λ t h. elim h [
      | inl at ↦ subst (IsOwned (inserted primary).slots) at (
        record { id = k.next_id; org_id = org; member_id = member; is_primary = primary },
        inl refl,
        refl,
        refl,
        refl,
      )
      | inr old ↦ let (s, held, id, o, m) = w.owned t old in (s, inr held, id, o, m)
    ];
  }

  abbrev pub rotated : KeySlot → KeyTables
  rotated s = record k { tokens = token_row s.id org member n ∷ supersede s.id k.tokens }

  rotated-AreKeys :
      (s : KeySlot) → Has s k.slots → is_primary_of org member s ≡ true → AreKeys (rotated s)
  rotated-AreKeys s held prime = record {
    below = w.below;
    unique = w.unique;
    one_primary = w.one_primary;
    one_current = λ u h. elim (Bool-cases (u.id == s.id)) [
      | inl same ↦
          let id : s.id ≡ u.id = ground arith in
          subst (λ x. count_current x (token_row s.id org member n ∷ supersede s.id k.tokens) ≡ 1)
            id
            (count_current-first s.id org member n (supersede s.id k.tokens)
              ∙ ap suc (count_current-supersede_same s.id k.tokens))
      | inr apart ↦
          count_current-later u.id s.id org member n (supersede s.id k.tokens) apart
          ∙ count_current-supersede_other s.id u.id k.tokens apart
          ∙ w.one_current u h
    ];
    none_above = λ id high.
        let lt = w.below s held in
        let apart : (id == s.id) ≡ false = ground arith in
        count_current-later id s.id org member n (supersede s.id k.tokens) apart
        ∙ count_current-supersede_other s.id id k.tokens apart
        ∙ w.none_above id high;
    owned = λ t h. elim h [
      | inl at ↦
          let (o, m) = owner_of_primary org member s prime in
          subst (IsOwned k.slots) at (s, held, refl, o, m)
      | inr old ↦
          let (u, was, e) = Has-supersede s.id k.tokens t old in
          subst (IsOwned k.slots) e (IsOwned-superseded s.id k.slots u (w.owned u was))
    ];
  }

  -- CreateAdditionalKey
  pub create_additional_key-AreKeys :
      {out : ℕ × KeyTables} → create_additional_key org member n k ≡ ok out → AreKeys out.1
  create_additional_key-AreKeys h =
      subst (λ x. AreKeys x.1) (sym (with_token-ok org member k.next_id n _ h).1)
        (inserted-AreKeys false (λ e. cc))

  -- ensurePrimaryKeyTx for a member without a primary key.
  pub ensure_primary_key_tx-AreKeys :
      {out : ℕ × KeyTables}
      → select_primary org member k.slots ≡ none
      → ensure_primary_key_tx org member n k ≡ ok out
      → AreKeys out.1
  ensure_primary_key_tx-AreKeys first h =
      subst (λ x. AreKeys x.1) (sym (with_token-ok org member k.next_id n _ h).1)
        (inserted-AreKeys true (λ e. first))

  pub rotate_primary_key_tx-AreKeys :
      {out : ℕ × KeyTables} → rotate_primary_key_tx org member n k ≡ ok out → AreKeys out.1
  unfolding rotate_primary_key_tx
  rotate_primary_key_tx-AreKeys h = elim (Option-cases (select_primary org member k.slots)) [
    | inl first ↦ ensure_primary_key_tx-AreKeys first (rw (first, rotate_primary_key_tx) at h)
    | inr (s, found) ↦
        let (held, prime) = select_primary-found org member k.slots found in
        subst (λ x. AreKeys x.1)
          (sym (with_token-ok org member s.id n _ (rw (found, rotate_primary_key_tx) at h)).1)
          (rotated-AreKeys s held prime)
  ]
