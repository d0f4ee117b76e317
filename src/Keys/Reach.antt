-- ===== src/Keys/Reach.antt =====
-- The tables of members and keys after any sequence of the operations.
use nexusapi_enterprise.Prelude.{
  ℕ, ◌≡◌, refl, ap, sym, ◌∙◌, ◌&&◌, All-map, inl, inr, true, false, Option, none, some, ◌==◌, arith,
  Bool-cases, Option-cases, Has, Result, ok, err, ok_injective, >>=-eq-ok,
}
use mathlib.Core.Path.{subst}
use nexusapi_enterprise.Errors.{RepoError}
use nexusapi_enterprise.Keys.{
  bootstrap_done, member_active, find_member, KeySlot, KeyTables, NewToken, MemberRow, MemberStore,
  ensure_primary_key_tx, rotate_primary_key_tx, select_primary, is_primary_of, insert_slot,
  supersede, create_member_provisional, has_email, finalize_bootstrap, bootstrapped,
  update_member_key, point_to, without_token, offboard, restore, update_member,
}
use nexusapi_enterprise.Keys.Tokens.{count_current}
use nexusapi_enterprise.Keys.Slots.{AreKeys, select_primary-found, with_token-ok}
use nexusapi_enterprise.Keys.Kept.{
  inserted, rotated, create_additional_key-AreKeys, ensure_primary_key_tx-AreKeys,
  rotate_primary_key_tx-AreKeys,
}
use nexusapi_enterprise.Keys.Steps.{
  KeyStep, creates, finalizes, updates, adds, clears, offboards, restores, IsGuarded, ServiceRun,
  begins, then_service,
}
use nexusapi_enterprise.Keys.Opened.{AreOpened}
use nexusapi_enterprise.Keys.Guarded.{pending-select_primary, ServiceRun-AreOpened}
use nexusapi_enterprise.Keys.Pointer.{
  Points, Points-inserted, Points-inserted_new, Points-rotated, Points-rotated_new, ArePointed,
  update_member-ArePointed,
}

pub record AreAgreed (s : MemberStore) : Type 0 where
  pub keys : AreKeys s.keys
  pub pointed : ArePointed s.keys s.members

Points-at :
    (k : KeyTables) (org member o i : ℕ) (p q : Option ℕ)
    → o ≡ org
    → i ≡ member
    → p ≡ q
    → Points k org member q
    → Points k o i p
Points-at k org member o i p q eo ei ep h =
    subst (λ x. Points k x i p) (sym eo)
      (subst (λ x. Points k org x p) (sym ei) (subst (λ x. Points k org member x) (sym ep) h))

module _ (org member : ℕ) (n : NewToken) (s : MemberStore) (w : AreAgreed s)
    (change : MemberRow → MemberRow)
    (keeps_owner : (m : MemberRow) → ((change m).org_id ≡ m.org_id) × ((change m).id ≡ m.id))
    (points : (m : MemberRow) → (change m).newapi_token_id ≡ some (n.newapi_token_id)) where
  -- The member's pointer follows, when the new token has the key that the member's pointer may name.
  set_pointer :
      (k : KeyTables)
      → Points k org member (some (n.newapi_token_id))
      → ((o i : ℕ) (p : Option ℕ)
          → (i == member && o == org) ≡ false
          → Points s.keys o i p
          → Points k o i p)
      → ArePointed k (update_member org member change s.members)
  set_pointer k new others =
      update_member-ArePointed org member change s.keys k s.members
        (λ m it h.
          Points-at k org member (change m).org_id (change m).id (change m).newapi_token_id
            (some (n.newapi_token_id)) ((keeps_owner m).0 ∙ ground arith)
            ((keeps_owner m).1 ∙ ground arith) (points m) new)
        (λ m other. others m.org_id m.id m.newapi_token_id other) w.pointed

  ensured-AreAgreed :
      {out : ℕ × KeyTables}
      → select_primary org member s.keys.slots ≡ none
      → ensure_primary_key_tx org member n s.keys ≡ ok out
      → AreAgreed (record s { members = update_member org member change s.members; keys = out.1 })
  ensured-AreAgreed first h =
      let (free, same) =
        with_token-ok org member s.keys.next_id n (insert_slot org member true s.keys).1 h in
      record {
        keys = ensure_primary_key_tx-AreKeys org member n s.keys w.keys first h;
        pointed =
            subst (λ x. ArePointed x.1 (update_member org member change s.members)) (sym same)
              (set_pointer (inserted org member n s.keys w.keys true)
                (Points-inserted_new org member n s.keys w.keys)
                (λ o i p apart. Points-inserted org member n s.keys w.keys true o i p free));
      }

  rotated-AreAgreed :
      {out : ℕ × KeyTables}
      → rotate_primary_key_tx org member n s.keys ≡ ok out
      → AreAgreed (record s { members = update_member org member change s.members; keys = out.1 })
  unfolding rotate_primary_key_tx
  rotated-AreAgreed h = elim (Option-cases (select_primary org member s.keys.slots)) [
    | inl first ↦ ensured-AreAgreed first (rw (first, rotate_primary_key_tx) at h)
    | inr (t, found) ↦
        let (held, prime) = select_primary-found org member s.keys.slots found in
        let (free, same) =
          with_token-ok org member t.id n
            (record (s.keys) { tokens = supersede t.id s.keys.tokens })
            (rw (found, rotate_primary_key_tx) at h) in
        record {
          keys = rotate_primary_key_tx-AreKeys org member n s.keys w.keys h;
          pointed =
              subst (λ x. ArePointed x.1 (update_member org member change s.members)) (sym same)
                (set_pointer (rotated org member n s.keys w.keys t)
                  (Points-rotated_new org member n s.keys w.keys t held prime free)
                  (λ o i p apart.
                    Points-rotated org member n s.keys w.keys t held prime free o i p apart));
        }
  ]

-- A change that leaves a pointer or drops it.
dropped-AreAgreed :
    (org member : ℕ) (s : MemberStore) (change : MemberRow → MemberRow)
    → ((m : MemberRow)
        → Points s.keys m.org_id m.id m.newapi_token_id
        → Points s.keys (change m).org_id (change m).id (change m).newapi_token_id)
    → AreAgreed s
    → AreAgreed (record s { members = update_member org member change s.members })
dropped-AreAgreed org member s change drops w = record {
  keys = w.keys;
  pointed =
      update_member-ArePointed org member change s.keys s.keys s.members (λ m it. drops m)
        (λ m other h. h) w.pointed;
}

offboard-Points :
    (k : KeyTables) (m : MemberRow)
    → Points k m.org_id m.id m.newapi_token_id
    → Points k (offboard m).org_id (offboard m).id (offboard m).newapi_token_id
offboard-Points k m h = elim (Bool-cases (m.is_deleted)) [
  | inl gone ↦ rw gone h
  | inr here ↦ rw here tt
]

restore-Points :
    (k : KeyTables) (m : MemberRow)
    → Points k m.org_id m.id m.newapi_token_id
    → Points k (restore m).org_id (restore m).id (restore m).newapi_token_id
restore-Points k m h = elim (Bool-cases (m.is_deleted)) [
  | inl gone ↦ rw gone h
  | inr here ↦ rw here h
]

KeyStep-AreAgreed :
    {s s' : MemberStore} (step : KeyStep s s')
    → IsGuarded step
    → AreOpened s
    → AreAgreed s
    → AreAgreed s'
unfolding create_member_provisional finalize_bootstrap update_member_key
KeyStep-AreAgreed {s} {s'} (creates org email h) guard opened w =
    elim (Bool-cases (has_email org email s.members)) [
      | inl taken ↦ absurd (refused (rw (taken, create_member_provisional) at h))
      | inr free ↦
          subst AreAgreed (ap (λ x. x.1) (ok_injective (rw (free, create_member_provisional) at h)))
            (record { keys = w.keys; pointed = (tt, w.pointed) })
    ]
  where
    refused :
        {e : RepoError} {v : ℕ × MemberStore}
        → ◌≡◌ {A = Result RepoError (ℕ × MemberStore)} (err e) (ok v)
        → ⊥
    refused k = cc
KeyStep-AreAgreed {s} (finalizes org member n h) guard opened w =
    let (out, e, k) = >>=-eq-ok (ensure_primary_key_tx org member n s.keys) _ h in
    let first = pending-select_primary s org member opened guard in
    subst AreAgreed (ok_injective k)
      (ensured-AreAgreed org member n s w (bootstrapped n) (λ m. (refl, refl)) (λ m. refl) first e)
KeyStep-AreAgreed {s} (updates org member n h) guard opened w =
    let (out, e, k) = >>=-eq-ok (rotate_primary_key_tx org member n s.keys) _ h in
    subst AreAgreed (ok_injective k)
      (rotated-AreAgreed org member n s w (point_to n) (λ m. (refl, refl)) (λ m. refl) e)
KeyStep-AreAgreed {s} (adds org member n h) guard opened w =
    let (free, same) =
      with_token-ok org member s.keys.next_id n (insert_slot org member false s.keys).1 h in
    record {
      keys = create_additional_key-AreKeys org member n s.keys w.keys h;
      pointed =
          subst (λ x. ArePointed x.1 s.members) (sym same)
            (All-map _ _ s.members
              (λ m.
                Points-inserted org member n s.keys w.keys false m.org_id m.id m.newapi_token_id
                  free)
              w.pointed);
    }
KeyStep-AreAgreed {s} (clears org member) guard opened w =
    dropped-AreAgreed org member s without_token (λ m h. tt) w
KeyStep-AreAgreed {s} (offboards org member) guard opened w =
    dropped-AreAgreed org member s offboard (offboard-Points s.keys) w
KeyStep-AreAgreed {s} (restores org member) guard opened w =
    dropped-AreAgreed org member s restore (restore-Points s.keys) w

pub ServiceRun-AreAgreed : {s : MemberStore} → ServiceRun s → AreAgreed s
unfolding count_current
ServiceRun-AreAgreed begins = record {
  keys = record {
    below = λ s h. absurd h;
    unique = λ s u h. absurd h;
    one_primary = λ o m s u h. absurd h;
    one_current = λ s h. absurd h;
    none_above = λ id high. refl;
    owned = λ t h. absurd h;
  };
  pointed = tt;
}
ServiceRun-AreAgreed (then_service run step guard) =
    KeyStep-AreAgreed step guard (ServiceRun-AreOpened run) (ServiceRun-AreAgreed run)

-- What the tables of members and keys promise.
pub record KeysAgree (s : MemberStore) : Type 0 where
  pub one_current : (t : KeySlot) → Has t s.keys.slots → count_current t.id s.keys.tokens ≡ 1
  pub one_primary :
      (org member : ℕ) (t u : KeySlot)
      → Has t s.keys.slots
      → Has u s.keys.slots
      → is_primary_of org member t ≡ true
      → is_primary_of org member u ≡ true
      → t ≡ u
  pub pointed : ArePointed s.keys s.members
  pub active_done :
      (org member : ℕ) (m : MemberRow)
      → find_member org member s.members ≡ some m
      → m.status ≡ member_active
      → m.bootstrap_state ≡ bootstrap_done

-- Whatever members were created, finalized, rotated, given further keys, cleared, offboarded and
-- restored, in whatever order, where a member is finalized only while its bootstrap is pending, and
-- given its next token or offboarded only when it is bootstrapped: each key has exactly one current
-- token, a member has at most one primary key, a member that points to a token points to the current
-- token of that key, and an active member is bootstrapped.
pub keys_agree : {s : MemberStore} → ServiceRun s → KeysAgree s
keys_agree run =
    let w = ServiceRun-AreAgreed run in
    record {
      one_current = w.keys.one_current;
      one_primary = w.keys.one_primary;
      pointed = w.pointed;
      active_done = λ org member m found active.
          (ServiceRun-AreOpened run).in_use_done org member m found (inl active);
    }
