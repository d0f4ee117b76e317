-- ===== src/Keys/Steps.antt =====
-- The transactions on members and keys, and the order in which the services of service/member.go,
-- service/org.go and service/quota.go make them.
use nexusapi_enterprise.Prelude.{ℕ, ◌≡◌, some, List, [], ok}
use nexusapi_enterprise.Keys.{
  KeyTables, NewToken, BootstrapState, bootstrap_pending, bootstrap_done, MemberRow, MemberStore,
  find_member, create_additional_key, create_member_provisional, finalize_bootstrap,
  update_member_key, clear_member_token, offboard_member, restore_offboarded_member,
}

-- One transaction on the tables.
pub data KeyStep : MemberStore → MemberStore → Type 0 where
  creates :
      {s s' : MemberStore} {id : ℕ} (org : ℕ) (email : List ℕ)
      → create_member_provisional org email s ≡ ok (id, s')
      → KeyStep s s'
  finalizes :
      {s s' : MemberStore} (org member : ℕ) (n : NewToken)
      → finalize_bootstrap org member n s ≡ ok s'
      → KeyStep s s'
  updates :
      {s s' : MemberStore} (org member : ℕ) (n : NewToken)
      → update_member_key org member n s ≡ ok s'
      → KeyStep s s'
  adds :
      {s : MemberStore} {out : ℕ × KeyTables} (org member : ℕ) (n : NewToken)
      → create_additional_key org member n s.keys ≡ ok out
      → KeyStep s (record s { keys = out.1 })
  clears : {s : MemberStore} (org member : ℕ) → KeyStep s (clear_member_token org member s)
  offboards : {s : MemberStore} (org member : ℕ) → KeyStep s (offboard_member org member s)
  restores : {s : MemberStore} (org member : ℕ) → KeyStep s (restore_offboarded_member org member s)

pub data KeyRun (s : MemberStore) : MemberStore → Type 0 where
  stays : KeyRun s s
  then_key : {t u : MemberStore} → KeyRun s t → KeyStep t u → KeyRun s u

abbrev pub empty_member_store : MemberStore
empty_member_store = record {
  members = [];
  next_member = 1;
  keys = record { slots = []; next_id = 1; tokens = [] };
}

-- The member is there, in the state.
abbrev pub HasState : MemberStore → ℕ → ℕ → BootstrapState → Type 0
HasState s org member st =
    (m : MemberRow) × (find_member org member s.members ≡ some m) × (m.bootstrap_state ≡ st)

-- What the services ask for. OpenMember and the import of tokens finalize the member that they have
-- just created, so it is pending; RotateKey and OffboardMember ask for a bootstrapped member,
-- CreateMemberToken for an active one. No operation makes a bootstrapped member pending again.
abbrev pub IsGuarded : {s s' : MemberStore} → KeyStep s s' → Type 0
IsGuarded (creates org email h) = Unit
IsGuarded {s} (finalizes org member n h) = HasState s org member bootstrap_pending
IsGuarded {s} (updates org member n h) = HasState s org member bootstrap_done
IsGuarded (adds org member n h) = Unit
IsGuarded (clears org member) = Unit
IsGuarded {s} (offboards org member) = HasState s org member bootstrap_done
IsGuarded (restores org member) = Unit

-- The stores that the services reach.
pub data ServiceRun : MemberStore → Type 0 where
  begins : ServiceRun empty_member_store
  then_service :
      {t u : MemberStore} → ServiceRun t → (step : KeyStep t u) → IsGuarded step → ServiceRun u
