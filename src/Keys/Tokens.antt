-- ===== src/Keys/Tokens.antt =====
-- The tokens of a key: which of them are current, and what a rotation leaves of the others.
use nexusapi_enterprise.Prelude.{
  ℕ, suc, ◌≡◌, refl, ap, ◌∙◌, inl, inr, true, false, ◌&&◌, Option, none, some, List, [], ◌∷◌, ◌==◌,
  if◌then◌else◌, arith, Bool-cases, Has,
}
use nexusapi_enterprise.Keys.{
  KeyToken, find_token, key_of_token, get_key_id_by_newapi_token_id, supersede, supersede_row,
}

-- How many current tokens a key has.
unfoldable pub count_current : ℕ → List KeyToken → ℕ
count_current key_id [] = 0
count_current key_id (t ∷ ts) =
    let rest = count_current key_id ts in
    if t.key_id == key_id && t.is_current then suc rest else rest

pub count_current-supersede_same :
    (key_id : ℕ) (ts : List KeyToken) → count_current key_id (supersede key_id ts) ≡ 0
unfolding count_current supersede
count_current-supersede_same key_id [] = refl
count_current-supersede_same key_id (t ∷ ts) =
    elim (Bool-cases (t.key_id == key_id && t.is_current)) [
      | inl hit ↦ rw hit (ground (arith, count_current-supersede_same key_id ts))
      | inr miss ↦ rw miss (rw miss (count_current-supersede_same key_id ts))
    ]

pub count_current-supersede_other :
    (key_id other : ℕ) (ts : List KeyToken)
    → (other == key_id) ≡ false
    → count_current other (supersede key_id ts) ≡ count_current other ts
unfolding count_current supersede
count_current-supersede_other key_id other [] apart = refl
count_current-supersede_other key_id other (t ∷ ts) apart =
    ground (arith, count_current-supersede_other key_id other ts apart)

supersede_row-same :
    (key_id : ℕ) (t : KeyToken)
    → ((supersede_row key_id t).newapi_token_id ≡ t.newapi_token_id)
      × ((supersede_row key_id t).key_id ≡ t.key_id)
supersede_row-same key_id t = elim (Bool-cases (t.key_id == key_id && t.is_current)) [
  | inl hit ↦ (rw hit refl, rw hit refl)
  | inr miss ↦ (rw miss refl, rw miss refl)
]

abbrev pub superseded_of : ℕ → Option KeyToken → Option KeyToken
superseded_of key_id none = none
superseded_of key_id (some t) = some (supersede_row key_id t)

pub find_token-supersede :
    (key_id id : ℕ) (ts : List KeyToken)
    → find_token id (supersede key_id ts) ≡ superseded_of key_id (find_token id ts)
unfolding find_token supersede
find_token-supersede key_id id [] = refl
find_token-supersede key_id id (t ∷ ts) =
    let same : (supersede_row key_id t).newapi_token_id ≡ t.newapi_token_id =
      (supersede_row-same key_id t).0 in
    elim (Bool-cases (t.newapi_token_id == id)) [
      | inl hit ↦
          let hit' : (supersede_row key_id t).newapi_token_id == id ≡ true =
            ap (λ x. x == id) same ∙ hit in
          rw hit' (rw hit refl)
      | inr miss ↦
          let miss' : (supersede_row key_id t).newapi_token_id == id ≡ false =
            ap (λ x. x == id) same ∙ miss in
          rw miss' (rw miss (find_token-supersede key_id id ts))
    ]

pub Has-supersede :
    (key_id : ℕ) (ts : List KeyToken) (t : KeyToken)
    → Has t (supersede key_id ts)
    → (u : KeyToken) × Has u ts × (supersede_row key_id u ≡ t)
unfolding supersede
Has-supersede key_id [] t h = absurd h
Has-supersede key_id (x ∷ xs) t (inl e) = (x, inl refl, e)
Has-supersede key_id (x ∷ xs) t (inr h) =
    let (u, held, e) = Has-supersede key_id xs t h in (u, inr held, e)

key_of_token-supersede :
    (key_id : ℕ) (o : Option KeyToken) → key_of_token (superseded_of key_id o) ≡ key_of_token o
key_of_token-supersede key_id none = refl
key_of_token-supersede key_id (some t) = ap some (supersede_row-same key_id t).1

pub get_key_id-supersede :
    (key_id id : ℕ) (ts : List KeyToken)
    → get_key_id_by_newapi_token_id id (supersede key_id ts) ≡ get_key_id_by_newapi_token_id id ts
get_key_id-supersede key_id id ts =
    ap key_of_token (find_token-supersede key_id id ts)
    ∙ key_of_token-supersede key_id (find_token id ts)
