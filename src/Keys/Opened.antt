-- ===== src/Keys/Opened.antt =====
-- A member has a primary key only when it is bootstrapped, as long as the services make the
-- transactions in their order.
use nexusapi_enterprise.Prelude.{
  ℕ, ◌<◌, ◌≡◌, ◌⊎◌, refl, ap, sym, ◌∙◌, inl, inr, Bool, true, ◌&&◌, Option, none, some,
  some_injective, List, [], ◌∷◌, ◌==◌, arith, Bool-cases, Option-cases, All, Has, if◌then◌else◌, ok,
}
use mathlib.Core.Path.{subst}
use nexusapi_enterprise.Keys.{
  KeySlot, KeyTables, NewToken, bootstrap_done, member_active, MemberRow, MemberStore, is_member,
  find_member, is_primary_of, select_primary, insert_slot, supersede, ensure_primary_key_tx,
  rotate_primary_key_tx, update_member,
}
use nexusapi_enterprise.Keys.Slots.{with_token-ok}
use nexusapi_enterprise.Keys.Steps.{HasState}

abbrev pub IsInUse : MemberRow → Type 0
IsInUse m = (m.status ≡ member_active) ⊎ (m.is_deleted ≡ true)

pub record AreOpened (s : MemberStore) : Type 0 where
  pub ids : All (λ m. m.id < s.next_member) s.members
  pub primary_done :
      (org member : ℕ) (t : KeySlot)
      → Has t s.keys.slots
      → is_primary_of org member t ≡ true
      → HasState s org member bootstrap_done
  pub in_use_done :
      (org member : ℕ) (m : MemberRow)
      → find_member org member s.members ≡ some m
      → IsInUse m
      → m.bootstrap_state ≡ bootstrap_done

abbrev pub changed : ℕ → ℕ → (MemberRow → MemberRow) → MemberRow → MemberRow
changed org member change m = if is_member org member m then change m else m

abbrev pub changed_option : ℕ → ℕ → (MemberRow → MemberRow) → Option MemberRow → Option MemberRow
changed_option org member change none = none
changed_option org member change (some m) = some (changed org member change m)

abbrev pub KeepsOwner : (MemberRow → MemberRow) → Type 0
KeepsOwner change = (m : MemberRow) → ((change m).org_id ≡ m.org_id) × ((change m).id ≡ m.id)

pub find_member-is :
    (org member : ℕ) (ms : List MemberRow) {m : MemberRow}
    → find_member org member ms ≡ some m
    → is_member org member m ≡ true
unfolding find_member
find_member-is org member [] e = cc
find_member-is org member (x ∷ xs) {m} e = elim (Bool-cases (is_member org member x)) [
  | inl it ↦ subst (λ y. is_member org member y ≡ true) (some_injective (rw it at e)) it
  | inr other ↦ find_member-is org member xs (rw other at e)
]

changed-is_member :
    (org member o i : ℕ) (change : MemberRow → MemberRow)
    → KeepsOwner change
    → (m : MemberRow) → is_member o i (changed org member change m) ≡ is_member o i m
changed-is_member org member o i change keeps m = elim (Bool-cases (is_member org member m)) [
  | inl it ↦ rw it (
      ap (λ x. x == i && (change m).org_id == o) (keeps m).1
      ∙ ap (λ x. m.id == i && x == o) (keeps m).0)
  | inr other ↦ rw other refl
]

pub find_member-changed :
    (org member o i : ℕ) (change : MemberRow → MemberRow)
    → KeepsOwner change
    → (ms : List MemberRow)
    → find_member o i (update_member org member change ms)
      ≡ changed_option org member change (find_member o i ms)
unfolding find_member update_member
find_member-changed org member o i change keeps [] = refl
find_member-changed org member o i change keeps (x ∷ xs) =
    let same = changed-is_member org member o i change keeps x in
    elim (Bool-cases (is_member o i x)) [
      | inl it ↦ rw it (rw (same ∙ it) refl)
      | inr other ↦
          rw other (rw (same ∙ other) (find_member-changed org member o i change keeps xs))
    ]

pub ids-changed :
    (org member next : ℕ) (change : MemberRow → MemberRow)
    → KeepsOwner change
    → (ms : List MemberRow) → All (λ m. m.id < next) ms
    → All (λ m. m.id < next) (update_member org member change ms)
unfolding update_member
ids-changed org member next change keeps [] h = tt
ids-changed org member next change keeps (x ∷ xs) h = (
  elim (Bool-cases (is_member org member x)) [
    | inl it ↦ rw it (subst (λ y. y < next) (sym (keeps x).1) h.0)
    | inr other ↦ rw other (h.0)
  ],
  ids-changed org member next change keeps xs h.1,
)

pub HasState-changed :
    (org member : ℕ) (change : MemberRow → MemberRow) (s : MemberStore) (k : KeyTables)
    → KeepsOwner change
    → ((m : MemberRow)
        → m.bootstrap_state ≡ bootstrap_done
        → (change m).bootstrap_state ≡ bootstrap_done)
    → (o i : ℕ) → HasState s o i bootstrap_done
    → HasState
        (record s { members = update_member org member change s.members; keys = k })
        o
        i
        bootstrap_done
HasState-changed org member change s k keeps stays o i (m, found, done) = (
  changed org member change m,
  find_member-changed org member o i change keeps s.members
      ∙ ap (changed_option org member change) found,
  elim (Bool-cases (is_member org member m)) [
    | inl it ↦ rw it (stays m done)
    | inr other ↦ rw other done
  ],
)

-- A slot of the new tables was there, is of the member, or is no primary one.
abbrev pub ComesFrom : ℕ → ℕ → KeyTables → KeyTables → Type 0
ComesFrom org member k k' =
    (t : KeySlot)
    → Has t k'.slots
    → Has t k.slots ⊎ ((o i : ℕ) → is_primary_of o i t ≡ true → (o ≡ org) × (i ≡ member))

pub inserted-ComesFrom :
    (org member : ℕ) (primary : Bool) (k : KeyTables)
    → ComesFrom org member k (insert_slot org member primary k).1
inserted-ComesFrom org member primary k t (inr h) = inl h
inserted-ComesFrom org member primary k t (inl same) =
    inr λ o i prime. owner o i (subst (λ x. is_primary_of o i x ≡ true) (sym same) prime)
  where
    owner : (o i : ℕ) → (member == i && org == o && primary) ≡ true → (o ≡ org) × (i ≡ member)
    owner o i h = (ground arith, ground arith)

pub ensure-ComesFrom :
    (org member : ℕ) (n : NewToken) (k : KeyTables) {out : ℕ × KeyTables}
    → ensure_primary_key_tx org member n k ≡ ok out
    → ComesFrom org member k out.1
ensure-ComesFrom org member n k h =
    let (free, same) = with_token-ok org member k.next_id n (insert_slot org member true k).1 h in
    subst (λ x. ComesFrom org member k x.1) (sym same) (inserted-ComesFrom org member true k)

pub rotate-ComesFrom :
    (org member : ℕ) (n : NewToken) (k : KeyTables) {out : ℕ × KeyTables}
    → rotate_primary_key_tx org member n k ≡ ok out
    → ComesFrom org member k out.1
unfolding rotate_primary_key_tx
rotate-ComesFrom org member n k h = elim (Option-cases (select_primary org member k.slots)) [
  | inl first ↦ ensure-ComesFrom org member n k (rw (first, rotate_primary_key_tx) at h)
  | inr (t, found) ↦
      let (free, same) =
        with_token-ok org member t.id n (record k { tokens = supersede t.id k.tokens })
          (rw (found, rotate_primary_key_tx) at h) in
      subst (λ x. ComesFrom org member k x.1) (sym same) (λ u held. inl held)
]
