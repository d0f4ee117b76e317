-- ===== src/Keys/Attribution.antt =====
-- What a token was attributed to stays: the settlement charges old logs as it did.
use nexusapi_enterprise.Prelude.{
  ℕ, ◌≡◌, refl, ap, sym, ◌∙◌, ◌&&◌, inl, inr, true, false, Option, none, some, some_injective, List,
  [], ◌∷◌, ◌==◌, if◌then◌else◌, arith, Bool-cases, Option-cases, Result, ok, err, ok_injective,
  >>=-eq-ok,
}
use mathlib.Core.Path.{subst}
use nexusapi_enterprise.Errors.{RepoError}
use nexusapi_enterprise.Keys.{
  KeyToken, KeyTables, NewToken, MemberRow, MemberStore, ensure_primary_key_tx,
  rotate_primary_key_tx, select_primary, insert_slot, supersede, supersede_row, with_token,
  find_token, create_member_provisional, has_email, provisional_member, finalize_bootstrap,
  bootstrapped, update_member_key, point_to, without_token, offboard, restore, update_member,
  is_member, find_member, member_and_key, member_of_token, get_member_by_newapi_token_id,
}
use nexusapi_enterprise.Keys.Tokens.{superseded_of, find_token-supersede}
use nexusapi_enterprise.Keys.Slots.{with_token-ok}
use nexusapi_enterprise.Keys.Pointer.{find_token-past}
use nexusapi_enterprise.Keys.Steps.{
  KeyStep, creates, finalizes, updates, adds, clears, offboards, restores, KeyRun, stays, then_key,
}

abbrev SameOwner : KeyToken → KeyToken → Type 0
SameOwner t u = (t.key_id ≡ u.key_id) × (t.org_id ≡ u.org_id) × (t.member_id ≡ u.member_id)

-- Each token is found, with the same key and owner.
abbrev Stays : List KeyToken → List KeyToken → Type 0
Stays ts us =
    (id : ℕ) (t : KeyToken)
    → find_token id ts ≡ some t
    → (u : KeyToken) × (find_token id us ≡ some u) × SameOwner u t

Stays-supersede : (key_id : ℕ) (ts : List KeyToken) → Stays ts (supersede key_id ts)
Stays-supersede key_id ts id t found = (
  supersede_row key_id t,
  find_token-supersede key_id id ts ∙ ap (superseded_of key_id) found,
  same,
)
  where
    same : SameOwner (supersede_row key_id t) t
    same = elim (Bool-cases (t.key_id == key_id && t.is_current)) [
      | inl hit ↦ rw hit (refl, refl, refl)
      | inr miss ↦ rw miss (refl, refl, refl)
    ]

with_token-Stays :
    (org member key_id : ℕ) (n : NewToken) (k : KeyTables) (ts : List KeyToken)
    {out : ℕ × KeyTables}
    → Stays ts k.tokens
    → with_token org member n (key_id, k) ≡ ok out
    → Stays ts out.1.tokens
with_token-Stays org member key_id n k ts before h id t found =
    let (free, same) = with_token-ok org member key_id n k h in
    let (u, found', owner) = before id t found in
    subst (λ x. (u : KeyToken) × (find_token id x.1.tokens ≡ some u) × SameOwner u t) (sym same)
      (u, find_token-past id key_id org member n k.tokens free found', owner)

Stays-refl : (ts : List KeyToken) → Stays ts ts
Stays-refl ts id t found = (t, found, (refl, refl, refl))

rotate-Stays :
    (org member : ℕ) (n : NewToken) (k : KeyTables) {out : ℕ × KeyTables}
    → rotate_primary_key_tx org member n k ≡ ok out
    → Stays k.tokens out.1.tokens
unfolding rotate_primary_key_tx
rotate-Stays org member n k h = elim (Option-cases (select_primary org member k.slots)) [
  | inl first ↦
      with_token-Stays org member k.next_id n (insert_slot org member true k).1 k.tokens
        (Stays-refl k.tokens) (rw (first, rotate_primary_key_tx) at h)
  | inr (s, found) ↦
      with_token-Stays org member s.id n (record k { tokens = supersede s.id k.tokens }) k.tokens
        (Stays-supersede s.id k.tokens) (rw (found, rotate_primary_key_tx) at h)
]

-- The member is found, also when it is deleted.
abbrev IsKnown : ℕ → ℕ → List MemberRow → Type 0
IsKnown org id ms = (m : MemberRow) × (find_member org id ms ≡ some m)

find_member-owner :
    (org id : ℕ) (ms : List MemberRow) {m : MemberRow}
    → find_member org id ms ≡ some m
    → (m.org_id ≡ org) × (m.id ≡ id)
unfolding find_member
find_member-owner org id [] e = cc
find_member-owner org id (x ∷ xs) {m} e = elim (Bool-cases (is_member org id x)) [
  | inl it ↦
      subst (λ y. (y.org_id ≡ org) × (y.id ≡ id)) (some_injective (rw it at e))
        (ground arith, ground arith)
  | inr other ↦ find_member-owner org id xs (rw other at e)
]

update_member-IsKnown :
    (org member : ℕ) (change : MemberRow → MemberRow) (o i : ℕ) (ms : List MemberRow)
    → ((m : MemberRow) → ((change m).org_id ≡ m.org_id) × ((change m).id ≡ m.id))
    → IsKnown o i ms
    → IsKnown o i (update_member org member change ms)
unfolding find_member update_member
update_member-IsKnown org member change o i [] keeps (m, e) = cc
update_member-IsKnown org member change o i (x ∷ xs) keeps (m, e) =
    elim (Bool-cases (is_member o i x)) [
      | inl it ↦ let it' : is_member o i changed ≡ true = same ∙ it in (changed, rw it' refl)
      | inr other ↦
          let (u, found) =
            update_member-IsKnown org member change o i xs keeps (m, rw other at e) in
          let other' : is_member o i changed ≡ false = same ∙ other in (u, rw other' found)
    ]
  where
    changed : MemberRow
    changed = if is_member org member x then change x else x

    owner : (changed.org_id ≡ x.org_id) × (changed.id ≡ x.id)
    owner = elim (Bool-cases (is_member org member x)) [
      | inl hit ↦ rw hit (keeps x)
      | inr miss ↦ rw miss (refl, refl)
    ]

    same : is_member o i changed ≡ is_member o i x
    same = rw (owner.0) (rw (owner.1) refl)

offboard_owner : (m : MemberRow) → ((offboard m).org_id ≡ m.org_id) × ((offboard m).id ≡ m.id)
offboard_owner m = elim (Bool-cases (m.is_deleted)) [
  | inl gone ↦ rw gone (refl, refl)
  | inr here ↦ rw here (refl, refl)
]

restore_owner : (m : MemberRow) → ((restore m).org_id ≡ m.org_id) × ((restore m).id ≡ m.id)
restore_owner m = elim (Bool-cases (m.is_deleted)) [
  | inl gone ↦ rw gone (refl, refl)
  | inr here ↦ rw here (refl, refl)
]

IsKnown-later :
    (o i : ℕ) (x : MemberRow) (ms : List MemberRow) → IsKnown o i ms → IsKnown o i (x ∷ ms)
unfolding find_member
IsKnown-later o i x ms (m, e) = elim (Bool-cases (is_member o i x)) [
  | inl it ↦ (x, rw it refl)
  | inr other ↦ (m, rw other e)
]

record Attributed (s s' : MemberStore) : Type 0 where
  pub tokens : Stays s.keys.tokens s'.keys.tokens
  pub known : (o i : ℕ) → IsKnown o i s.members → IsKnown o i s'.members

KeyStep-Attributed : {s s' : MemberStore} → KeyStep s s' → Attributed s s'
unfolding create_member_provisional finalize_bootstrap update_member_key
KeyStep-Attributed {s} {s'} (creates {id = id} org email h) =
    elim (Bool-cases (has_email org email s.members)) [
      | inl taken ↦ absurd (refused (rw (taken, create_member_provisional) at h))
      | inr free ↦
          subst (Attributed s)
            (ap (λ x. x.1) (ok_injective (rw (free, create_member_provisional) at h)))
            (record {
              tokens = Stays-refl s.keys.tokens;
              known =
                  λ o i. IsKnown-later o i (provisional_member org s.next_member email) s.members;
            })
    ]
  where
    refused :
        {e : RepoError} {v : ℕ × MemberStore}
        → ◌≡◌ {A = Result RepoError (ℕ × MemberStore)} (err e) (ok v)
        → ⊥
    refused k = cc
KeyStep-Attributed {s} (finalizes org member n h) =
    let (out, e, k) = >>=-eq-ok (ensure_primary_key_tx org member n s.keys) _ h in
    subst (Attributed s) (ok_injective k) (record {
      tokens =
          with_token-Stays org member s.keys.next_id n (insert_slot org member true s.keys).1
            s.keys.tokens (Stays-refl s.keys.tokens) e;
      known = λ o i.
          update_member-IsKnown org member (bootstrapped n) o i s.members (λ m. (refl, refl));
    })
KeyStep-Attributed {s} (updates org member n h) =
    let (out, e, k) = >>=-eq-ok (rotate_primary_key_tx org member n s.keys) _ h in
    subst (Attributed s) (ok_injective k) (record {
      tokens = rotate-Stays org member n s.keys e;
      known =
          λ o i. update_member-IsKnown org member (point_to n) o i s.members (λ m. (refl, refl));
    })
KeyStep-Attributed {s} (adds org member n h) = record {
  tokens =
      with_token-Stays org member s.keys.next_id n (insert_slot org member false s.keys).1
        s.keys.tokens (Stays-refl s.keys.tokens) h;
  known = λ o i here. here;
}
KeyStep-Attributed {s} (clears org member) = record {
  tokens = Stays-refl s.keys.tokens;
  known = λ o i. update_member-IsKnown org member without_token o i s.members (λ m. (refl, refl));
}
KeyStep-Attributed {s} (offboards org member) = record {
  tokens = Stays-refl s.keys.tokens;
  known = λ o i. update_member-IsKnown org member offboard o i s.members offboard_owner;
}
KeyStep-Attributed {s} (restores org member) = record {
  tokens = Stays-refl s.keys.tokens;
  known = λ o i. update_member-IsKnown org member restore o i s.members restore_owner;
}

KeyRun-Attributed : {s s' : MemberStore} → KeyRun s s' → Attributed s s'
KeyRun-Attributed {s} stays = record { tokens = Stays-refl s.keys.tokens; known = λ o i here. here }
KeyRun-Attributed (then_key run step) =
    let a = KeyRun-Attributed run in
    let b = KeyStep-Attributed step in
    record {
      tokens = λ id t found.
          let (u, found', (k, o, m)) = a.tokens id t found in
          let (v, found'', (k', o', m')) = b.tokens id u found' in
          (v, found'', (k' ∙ k, o' ∙ o, m' ∙ m));
      known = λ o i here. b.known o i (a.known o i here);
    }

-- The token of an answer, and its owner.
answer-token :
    (id : ℕ) (s : MemberStore) {m : MemberRow} {key : ℕ}
    → get_member_by_newapi_token_id id s ≡ some (m, key)
    → (t : KeyToken) × (find_token id s.keys.tokens ≡ some t)
      × (t.key_id ≡ key)
      × (find_member t.org_id t.member_id s.members ≡ some m)
answer-token id s {m} {key} e = of_token (find_token id s.keys.tokens) e
  where
    of_member :
        (o : Option MemberRow) (k : ℕ)
        → member_and_key o k ≡ some (m, key)
        → (k ≡ key) × (o ≡ some m)
    of_member none k h = cc
    of_member (some x) k h =
        (ap (λ y. y.1) (some_injective h), ap (λ y. some (y.0)) (some_injective h))

    of_token :
        (o : Option KeyToken)
        → member_of_token o s.members ≡ some (m, key)
        → (t : KeyToken) × (o ≡ some t)
          × (t.key_id ≡ key)
          × (find_member t.org_id t.member_id s.members ≡ some m)
    of_token none h = cc
    of_token (some t) h =
        let (at, whose) = of_member (find_member t.org_id t.member_id s.members) t.key_id h in
        (t, refl, at, whose)

-- After any sequence of the operations, a token that was attributed to a member and a key is
-- attributed to the same member and the same key: rotations, further keys and the departure of the
-- member change nothing for its old logs.
pub attribution_stays :
    {s s' : MemberStore} (id : ℕ) (m : MemberRow) (key : ℕ)
    → KeyRun s s'
    → get_member_by_newapi_token_id id s ≡ some (m, key)
    → (u : MemberRow) × (get_member_by_newapi_token_id id s' ≡ some (u, key))
      × (u.org_id ≡ m.org_id)
      × (u.id ≡ m.id)
attribution_stays {s} {s'} id m key run e =
    let w = KeyRun-Attributed run in
    let (t, found, at, whose) = answer-token id s e in
    let (o, i) = find_member-owner t.org_id t.member_id s.members whose in
    let (t', found', (k', o', m')) = w.tokens id t found in
    let (u, there) = w.known t.org_id t.member_id (m, whose) in
    let (o2, i2) = find_member-owner t.org_id t.member_id s'.members there in
    let answer =
      ap (λ x. member_of_token x s'.members) found'
      ∙ ap (λ x. member_and_key (find_member x t'.member_id s'.members) t'.key_id) o'
      ∙ ap (λ x. member_and_key (find_member t.org_id x s'.members) t'.key_id) m'
      ∙ ap (λ x. member_and_key x t'.key_id) there
      ∙ ap (λ x. some (u, x)) (k' ∙ at) in
    (u, answer, o2 ∙ sym o, i2 ∙ sym i)
