-- ===== src/Keys/Guarded.antt =====
-- Each transaction that the services make keeps a member without a primary key until it is
-- bootstrapped.
use nexusapi_enterprise.Prelude.{
  ℕ, suc, ◌<◌, ◌≡◌, ◌⊎◌, refl, ap, sym, ◌∙◌, inl, inr, true, false, ◌&&◌, Option, none, some,
  some_injective, List, [], ◌∷◌, ◌==◌, arith, Bool-cases, Option-cases, All, All-map, Has, Result,
  ok, err, ok_injective, >>=-eq-ok,
}
use mathlib.Core.Path.{subst}
use nexusapi_enterprise.Errors.{RepoError}
use nexusapi_enterprise.Keys.{
  KeySlot, KeyTables, NewToken, bootstrap_pending, bootstrap_done, MemberRow, MemberStore,
  is_member, find_member, is_primary_of, select_primary, insert_slot, ensure_primary_key_tx,
  rotate_primary_key_tx, create_member_provisional, has_email, provisional_member,
  finalize_bootstrap, bootstrapped, update_member_key, point_to, without_token, offboard, restore,
  update_member,
}
use nexusapi_enterprise.Keys.Slots.{with_token-ok, select_primary-found}
use nexusapi_enterprise.Keys.Steps.{
  KeyStep, creates, finalizes, updates, adds, clears, offboards, restores, HasState, IsGuarded,
  ServiceRun, begins, then_service,
}
use nexusapi_enterprise.Keys.Opened.{
  IsInUse, AreOpened, changed_option, KeepsOwner, find_member-is, find_member-changed, ids-changed,
  HasState-changed, ComesFrom, ensure-ComesFrom, rotate-ComesFrom,
}

-- A change of the rows of one member, which is bootstrapped after it if it gets a slot.
module _ (org member : ℕ) (change : MemberRow → MemberRow) (s : MemberStore) (w : AreOpened s)
    (keeps : KeepsOwner change)
    (stays : (m : MemberRow)
      → m.bootstrap_state ≡ bootstrap_done
      → (change m).bootstrap_state ≡ bootstrap_done) where
  abbrev pub after : KeyTables → MemberStore
  after k = record s { members = update_member org member change s.members; keys = k }

  pub changed-AreOpened :
      (k : KeyTables)
      → ComesFrom org member s.keys k
      → (HasState (after k) org member bootstrap_done
          ⊎ ((t : KeySlot) → Has t k.slots → Has t s.keys.slots))
      → ((m : MemberRow)
          → find_member org member s.members ≡ some m
          → IsInUse (change m)
          → (change m).bootstrap_state ≡ bootstrap_done)
      → AreOpened (after k)
  changed-AreOpened k comes done used = record {
    ids = ids-changed org member s.next_member change keeps s.members w.ids;
    primary_done = λ o i t held prime. primary o i t held prime done;
    in_use_done = λ o i m found in_use.
        of o i (find_member o i s.members) refl m
          (sym (find_member-changed org member o i change keeps s.members) ∙ found) in_use;
  }
    where
      primary :
          (o i : ℕ) (t : KeySlot)
          → Has t k.slots
          → is_primary_of o i t ≡ true
          → HasState (after k) org member bootstrap_done
            ⊎ ((u : KeySlot) → Has u k.slots → Has u s.keys.slots)
          → HasState (after k) o i bootstrap_done
      primary o i t held prime (inr old) =
          HasState-changed org member change s k keeps stays o i
            (w.primary_done o i t (old t held) prime)
      primary o i t held prime (inl is) = elim (comes t held) [
        | inl before ↦
            HasState-changed org member change s k keeps stays o i
              (w.primary_done o i t before prime)
        | inr own ↦
            let (eo, ei) = own o i prime in
            subst (λ x. HasState (after k) x i bootstrap_done) (sym eo)
              (subst (λ x. HasState (after k) org x bootstrap_done) (sym ei) is)
      ]

      of :
          (o i : ℕ) (x : Option MemberRow)
          → find_member o i s.members ≡ x
          → (m : MemberRow) → changed_option org member change x ≡ some m
          → IsInUse m
          → m.bootstrap_state ≡ bootstrap_done
      of o i none e m h in_use = cc
      of o i (some x) e m h in_use = elim (Bool-cases (is_member org member x)) [
        | inr other ↦
            let at : x ≡ m = some_injective (rw other at h) in
            subst (λ y. y.bootstrap_state ≡ bootstrap_done) at
              (w.in_use_done o i x e (subst IsInUse (sym at) in_use))
        | inl it ↦
            let at : change x ≡ m = some_injective (rw it at h) in
            let is = find_member-is o i s.members e in
            let eo : o ≡ org = ground arith in
            let ei : i ≡ member = ground arith in
            let here =
              subst (λ y. find_member y member s.members ≡ some x) eo
                (subst (λ y. find_member o y s.members ≡ some x) ei e) in
            subst (λ y. y.bootstrap_state ≡ bootstrap_done) at
              (used x here (subst IsInUse (sym at) in_use))
      ]

-- A member that is not bootstrapped has no primary key.
pub pending-select_primary :
    (s : MemberStore) (org member : ℕ)
    → AreOpened s
    → HasState s org member bootstrap_pending
    → select_primary org member s.keys.slots ≡ none
pending-select_primary s org member w (m, found, pending) =
    elim (Option-cases (select_primary org member s.keys.slots)) [
      | inl nothing ↦ nothing
      | inr (t, some_t) ↦
          let (held, prime) = select_primary-found org member s.keys.slots some_t in
          let (x, found', done) = w.primary_done org member t held prime in
          let same : x ≡ m = some_injective (sym found' ∙ found) in
          absurd (unlike (sym pending ∙ ap (λ y. y.bootstrap_state) (sym same) ∙ done))
    ]
  where
    unlike : bootstrap_pending ≡ bootstrap_done → ⊥
    unlike e = cc

-- A change of one row and no slot.
pub row-AreOpened :
    (org member : ℕ) (change : MemberRow → MemberRow) (s : MemberStore)
    → AreOpened s
    → KeepsOwner change
    → ((m : MemberRow) → (change m).bootstrap_state ≡ m.bootstrap_state)
    → ((m : MemberRow)
        → find_member org member s.members ≡ some m
        → IsInUse (change m)
        → m.bootstrap_state ≡ bootstrap_done)
    → AreOpened (record s { members = update_member org member change s.members })
row-AreOpened org member change s w keeps same used =
    changed-AreOpened org member change s w keeps (λ m done. same m ∙ done) s.keys
      (λ t held. inl held) (inr λ t held. held) (λ m found in_use. same m ∙ used m found in_use)

pub point_to-AreOpened :
    (org member : ℕ) (n : NewToken) (s : MemberStore) (k : KeyTables)
    → AreOpened s
    → HasState s org member bootstrap_done
    → ComesFrom org member s.keys k
    → AreOpened (record s { members = update_member org member (point_to n) s.members; keys = k })
point_to-AreOpened org member n s k w guard comes =
    changed-AreOpened org member (point_to n) s w (λ m. (refl, refl)) (λ m done. done) k comes
      (inl (
        HasState-changed org member (point_to n) s k (λ m. (refl, refl)) (λ m done. done) org member
          guard))
      (λ m found in_use. w.in_use_done org member m found in_use)

pub bootstrapped-HasState :
    (org member : ℕ) (n : NewToken) (s : MemberStore) (k : KeyTables)
    → HasState s org member bootstrap_pending
    → HasState
        (record s { members = update_member org member (bootstrapped n) s.members; keys = k })
        org
        member
        bootstrap_done
bootstrapped-HasState org member n s k (m, found, pending) =
    let it = find_member-is org member s.members found in
    (
      bootstrapped n m,
      find_member-changed org member org member (bootstrapped n) (λ x. (refl, refl)) s.members
          ∙ ap (changed_option org member (bootstrapped n)) found
          ∙ rw it refl,
      refl,
    )

found-below :
    (org member n : ℕ) (ms : List MemberRow) {m : MemberRow}
    → All (λ x. x.id < n) ms
    → find_member org member ms ≡ some m
    → member < n
unfolding find_member
found-below org member n [] h e = cc
found-below org member n (x ∷ xs) h e = elim (Bool-cases (is_member org member x)) [
  | inl it ↦ let same : x.id ≡ member = ground arith in subst (λ y. y < n) same h.0
  | inr other ↦ found-below org member n xs h.1 (rw other at e)
]

unlike_new :
    (o i org : ℕ) (email : List ℕ) (n : ℕ)
    → i < n
    → is_member o i (provisional_member org n email) ≡ false
unlike_new o i org email n lt = ground arith

HasState-later :
    (s : MemberStore) (org : ℕ) (email : List ℕ) (o i : ℕ)
    → AreOpened s
    → HasState s o i bootstrap_done
    → HasState
        (record s {
          members = provisional_member org s.next_member email ∷ s.members;
          next_member = suc s.next_member;
        })
        o
        i
        bootstrap_done
unfolding find_member
HasState-later s org email o i w (m, found, done) =
    let other =
      unlike_new o i org email s.next_member
        (found-below o i s.next_member s.members w.ids found) in
    (m, rw other found, done)

created-AreOpened :
    (s : MemberStore) (org : ℕ) (email : List ℕ)
    → AreOpened s
    → AreOpened (record s {
      members = provisional_member org s.next_member email ∷ s.members;
      next_member = suc s.next_member;
    })
unfolding find_member
created-AreOpened s org email w = record {
  ids = (
    omega arith,
    All-map (λ m. m.id < s.next_member) (λ m. m.id < suc s.next_member) s.members
        (λ m h. omega (arith, h)) w.ids,
  );
  primary_done =
      λ o i t held prime. HasState-later s org email o i w (w.primary_done o i t held prime);
  in_use_done = λ o i m found in_use.
      elim (Bool-cases (is_member o i (provisional_member org s.next_member email))) [
        | inl it ↦ absurd (unused (subst IsInUse (sym (some_injective (rw it at found))) in_use))
        | inr other ↦ w.in_use_done o i m (rw other at found) in_use
      ];
}
  where
    unused : IsInUse (provisional_member org s.next_member email) → ⊥
    unused (inl e) = cc
    unused (inr e) = cc

offboard-used :
    (org member : ℕ) (s : MemberStore)
    → HasState s org member bootstrap_done
    → (m : MemberRow) → find_member org member s.members ≡ some m
    → m.bootstrap_state ≡ bootstrap_done
offboard-used org member s (x, found, done) m e =
    subst (λ y. y.bootstrap_state ≡ bootstrap_done) (some_injective (sym found ∙ e)) done

offboard-row :
    (m : MemberRow)
    → ((offboard m).org_id ≡ m.org_id)
      × ((offboard m).id ≡ m.id)
      × ((offboard m).bootstrap_state ≡ m.bootstrap_state)
offboard-row m = elim (Bool-cases (m.is_deleted)) [
  | inl gone ↦ rw gone (refl, refl, refl)
  | inr here ↦ rw here (refl, refl, refl)
]

restore-row :
    (m : MemberRow)
    → ((restore m).org_id ≡ m.org_id)
      × ((restore m).id ≡ m.id)
      × ((restore m).bootstrap_state ≡ m.bootstrap_state)
      × (IsInUse (restore m) → IsInUse m)
restore-row m = elim (Bool-cases (m.is_deleted)) [
  | inl gone ↦ rw gone (refl, refl, refl, λ in_use. inr refl)
  | inr here ↦ rw here (refl, refl, refl, λ in_use. in_use)
]

KeyStep-AreOpened :
    {s s' : MemberStore} (step : KeyStep s s') → IsGuarded step → AreOpened s → AreOpened s'
unfolding create_member_provisional finalize_bootstrap update_member_key
KeyStep-AreOpened {s} {s'} (creates org email h) guard w =
    elim (Bool-cases (has_email org email s.members)) [
      | inl taken ↦ absurd (refused (rw (taken, create_member_provisional) at h))
      | inr free ↦
          subst AreOpened (ap (λ x. x.1) (ok_injective (rw (free, create_member_provisional) at h)))
            (created-AreOpened s org email w)
    ]
  where
    refused :
        {e : RepoError} {v : ℕ × MemberStore}
        → ◌≡◌ {A = Result RepoError (ℕ × MemberStore)} (err e) (ok v)
        → ⊥
    refused k = cc
KeyStep-AreOpened {s} (finalizes org member n h) guard w =
    let (out, e, k) = >>=-eq-ok (ensure_primary_key_tx org member n s.keys) _ h in
    subst AreOpened (ok_injective k) (
      changed-AreOpened org member (bootstrapped n) s w (λ m. (refl, refl)) (λ m done. refl) out.1
        (ensure-ComesFrom org member n s.keys e)
        (inl (bootstrapped-HasState org member n s out.1 guard)) (λ m found in_use. refl))
KeyStep-AreOpened {s} (updates org member n h) guard w =
    let (out, e, k) = >>=-eq-ok (rotate_primary_key_tx org member n s.keys) _ h in
    subst AreOpened (ok_injective k)
      (point_to-AreOpened org member n s out.1 w guard (rotate-ComesFrom org member n s.keys e))
KeyStep-AreOpened {s} (adds {out} org member n h) guard w =
    let (free, same) =
      with_token-ok org member s.keys.next_id n (insert_slot org member false s.keys).1 h in
    record {
      ids = w.ids;
      primary_done = λ o i t held prime.
          w.primary_done o i t (old o i t (subst (λ x. Has t x.1.slots) same held) prime) prime;
      in_use_done = w.in_use_done;
    }
  where
    old :
        (o i : ℕ) (t : KeySlot)
        → Has t (insert_slot org member false s.keys).1.slots
        → is_primary_of o i t ≡ true
        → Has t s.keys.slots
    old o i t (inr held) prime = held
    old o i t (inl new) prime =
        absurd (spare o i (subst (λ x. is_primary_of o i x ≡ true) (sym new) prime))
      where
        spare : (o i : ℕ) → (member == i && org == o && false) ≡ true → ⊥
        spare o i e = ground arith
KeyStep-AreOpened {s} (clears org member) guard w =
    row-AreOpened org member without_token s w (λ m. (refl, refl)) (λ m. refl)
      (λ m found in_use. w.in_use_done org member m found in_use)
KeyStep-AreOpened {s} (offboards org member) guard w =
    row-AreOpened org member offboard s w (λ m. ((offboard-row m).0, (offboard-row m).1))
      (λ m. (offboard-row m).2) (λ m found in_use. offboard-used org member s guard m found)
KeyStep-AreOpened {s} (restores org member) guard w =
    row-AreOpened org member restore s w (λ m. ((restore-row m).0, (restore-row m).1))
      (λ m. (restore-row m).2)
      (λ m found in_use. w.in_use_done org member m found ((restore-row m).3 in_use))

pub ServiceRun-AreOpened : {s : MemberStore} → ServiceRun s → AreOpened s
unfolding find_member
ServiceRun-AreOpened begins = record {
  ids = tt;
  primary_done = λ o i t held prime. absurd held;
  in_use_done = λ o i m found in_use. absurd (nobody found);
}
  where
    nobody : {m : MemberRow} → ◌≡◌ {A = Option MemberRow} none (some m) → ⊥
    nobody e = cc
ServiceRun-AreOpened (then_service run step guard) =
    KeyStep-AreOpened step guard (ServiceRun-AreOpened run)
