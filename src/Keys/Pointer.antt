-- ===== src/Keys/Pointer.antt =====
-- The pointer of a member: it names the current token of the member's primary key.
use nexusapi_enterprise.Prelude.{
  ℕ, ◌≡◌, refl, ap, sym, ◌∙◌, inl, inr, Bool, true, false, ◌&&◌, Option, none, some, List, [], ◌∷◌,
  ◌==◌, arith, Bool-cases, Has, All,
}
use mathlib.Core.Path.{subst}
use nexusapi_enterprise.Keys.{
  KeySlot, KeyToken, KeyTables, NewToken, find_token, supersede, supersede_row, token_row,
  is_primary_of, MemberRow, is_member, update_member,
}
use nexusapi_enterprise.Keys.Tokens.{superseded_of, find_token-supersede}
use nexusapi_enterprise.Keys.Slots.{AreKeys}
use nexusapi_enterprise.Keys.Kept.{inserted, rotated}

abbrev pub Pointed : KeyTables → ℕ → ℕ → ℕ → Type 0
Pointed k org member id =
    (t : KeyToken) × (s : KeySlot) × (find_token id k.tokens ≡ some t)
    × (t.is_current ≡ true)
    × Has s k.slots
    × (s.id ≡ t.key_id)
    × (is_primary_of org member s ≡ true)

abbrev pub Points : KeyTables → ℕ → ℕ → Option ℕ → Type 0
Points k org member none = Unit
Points k org member (some id) = Pointed k org member id

-- A token that was found is found past a token with an id that was not.
pub find_token-past :
    (id key_id org member : ℕ) (n : NewToken) (ts : List KeyToken) {t : KeyToken}
    → find_token n.newapi_token_id ts ≡ none
    → find_token id ts ≡ some t
    → find_token id (token_row key_id org member n ∷ ts) ≡ some t
unfolding find_token
find_token-past id key_id org member n ts {t} free found =
    elim (Bool-cases (n.newapi_token_id == id)) [
      | inl same ↦
          let at : n.newapi_token_id ≡ id = ground arith in
          absurd (both (subst (λ x. find_token x ts ≡ none) at free))
      | inr apart ↦ rw apart found
    ]
  where
    both : find_token id ts ≡ none → ⊥
    both e = nothing (sym found ∙ e)
      where
        nothing : ◌≡◌ {A = Option KeyToken} (some t) none → ⊥
        nothing e = cc

pub find_token-first :
    (key_id org member : ℕ) (n : NewToken) (ts : List KeyToken)
    → find_token n.newapi_token_id (token_row key_id org member n ∷ ts)
      ≡ some (token_row key_id org member n)
unfolding find_token
find_token-first key_id org member n ts = ground arith

supersede_row-other :
    (key_id : ℕ) (t : KeyToken) → (t.key_id == key_id) ≡ false → supersede_row key_id t ≡ t
supersede_row-other key_id t apart = rw apart refl

module _ (org member : ℕ) (n : NewToken) (k : KeyTables) (w : AreKeys k) where
  pub Points-inserted :
      (primary : Bool) (o m : ℕ) (p : Option ℕ)
      → find_token n.newapi_token_id k.tokens ≡ none
      → Points k o m p
      → Points (inserted org member n k w primary) o m p
  Points-inserted primary o m none free h = tt
  Points-inserted primary o m (some id) free (t, s, found, current, held, at, prime) = (
    t,
    s,
    find_token-past id k.next_id org member n k.tokens free found,
    current,
    inr held,
    at,
    prime,
  )

  pub Points-inserted_new :
      Points (inserted org member n k w true) org member (some (n.newapi_token_id))
  Points-inserted_new = (
    token_row k.next_id org member n,
    record { id = k.next_id; org_id = org; member_id = member; is_primary = true },
    find_token-first k.next_id org member n k.tokens,
    refl,
    inl refl,
    refl,
    ground arith,
  )

  module _ (s : KeySlot) (held : Has s k.slots) (prime : is_primary_of org member s ≡ true)
      (free : find_token n.newapi_token_id (supersede s.id k.tokens) ≡ none) where
    pub Points-rotated :
        (o m : ℕ) (p : Option ℕ)
        → (m == member && o == org) ≡ false
        → Points k o m p
        → Points (rotated org member n k w s) o m p
    Points-rotated o m none apart h = tt
    Points-rotated o m (some id) apart (t, u, found, current, kept, at, prime') =
        elim (Bool-cases (t.key_id == s.id)) [
          | inl same ↦
              let one = w.unique u s kept held (at ∙ ground arith) in
              let prime'' : is_primary_of o m s ≡ true =
                subst (λ x. is_primary_of o m x ≡ true) one prime' in
              absurd (ground arith)
          | inr other ↦
              let still : find_token id (supersede s.id k.tokens) ≡ some t =
                find_token-supersede s.id id k.tokens
                ∙ ap (superseded_of s.id) found
                ∙ ap some (supersede_row-other s.id t other) in
              (
                t,
                u,
                find_token-past id s.id org member n (supersede s.id k.tokens) free still,
                current,
                kept,
                at,
                prime',
              )
        ]

    pub Points-rotated_new :
        Points (rotated org member n k w s) org member (some (n.newapi_token_id))
    Points-rotated_new = (
      token_row s.id org member n,
      s,
      find_token-first s.id org member n (supersede s.id k.tokens),
      refl,
      held,
      refl,
      prime,
    )

-- The pointers of all members.
abbrev pub ArePointed : KeyTables → List MemberRow → Type 0
ArePointed k ms = All (λ m. Points k m.org_id m.id m.newapi_token_id) ms

pub update_member-ArePointed :
    (org member : ℕ) (change : MemberRow → MemberRow) (k k' : KeyTables) (ms : List MemberRow)
    → ((m : MemberRow)
        → is_member org member m ≡ true
        → Points k m.org_id m.id m.newapi_token_id
        → Points k' (change m).org_id (change m).id (change m).newapi_token_id)
    → ((m : MemberRow)
        → is_member org member m ≡ false
        → Points k m.org_id m.id m.newapi_token_id
        → Points k' m.org_id m.id m.newapi_token_id)
    → ArePointed k ms
    → ArePointed k' (update_member org member change ms)
unfolding update_member
update_member-ArePointed org member change k k' [] changed kept h = tt
update_member-ArePointed org member change k k' (m ∷ ms) changed kept h =
    elim (Bool-cases (is_member org member m)) [
      | inl it ↦
          rw it
            (changed m it h.0, update_member-ArePointed org member change k k' ms changed kept h.1)
      | inr other ↦
          rw other
            (kept m other h.0, update_member-ArePointed org member change k k' ms changed kept h.1)
    ]
