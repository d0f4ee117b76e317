-- ===== src/Keys.antt =====
-- Members and their keys: repo/member_key.go and the statements of repo/member.go that write the
-- pointer of a member to its token. Each operation is one transaction.
pub mod Tokens
pub mod Slots
pub mod Kept
pub mod Pointer
pub mod Steps
pub mod Opened
pub mod Guarded
pub mod Reach
pub mod Attribution
pub mod Samples
mod Tests
use nexusapi_enterprise.Prelude.{
  ℕ, suc, Bool, true, false, not, ◌&&◌, Option, none, some, List, [], ◌∷◌, ltb, ◌==◌, same_text,
  if◌then◌else◌, Result, ok, err, ◌>>=◌, raise_if, ◌>>◌,
}
use nexusapi_enterprise.Errors.{RepoError, conflict, database}

-- A row of member_key_slot: the stable key of a member. Its id is the key_id of the reports. The
-- code writes no status but 'active'.
pub record KeySlot : Type 0 where
  pub id : ℕ
  pub org_id : ℕ
  pub member_id : ℕ
  pub is_primary : Bool

pub data KeyTokenStatus : Type 0 where
  key_active superseded : KeyTokenStatus

-- A row of member_key_token: one token of new-api that a key had or has.
pub record KeyToken : Type 0 where
  pub key_id : ℕ
  pub org_id : ℕ
  pub member_id : ℕ
  pub newapi_token_id : ℕ
  pub token_name : List ℕ
  pub is_current : Bool
  pub key_masked : List ℕ
  pub rotation : ℕ
  pub status : KeyTokenStatus

-- The two tables and the next id of the first.
pub record KeyTables : Type 0 where
  pub slots : List KeySlot
  pub next_id : ℕ
  pub tokens : List KeyToken

-- What is written of a token: its id in new-api, its name, its masked key and its rotation.
pub record NewToken : Type 0 where
  pub newapi_token_id : ℕ
  pub token_name : List ℕ
  pub key_masked : List ℕ
  pub rotation : ℕ

-- SELECT ... FROM member_key_token WHERE newapi_token_id = ?
unfoldable pub find_token : ℕ → List KeyToken → Option KeyToken
find_token id [] = none
find_token id (t ∷ ts) =
    let rest = find_token id ts in if t.newapi_token_id == id then some t else rest

abbrev pub key_of_token : Option KeyToken → Option ℕ
key_of_token none = none
key_of_token (some t) = some (t.key_id)

-- GetKeyIDByNewapiTokenID
abbrev pub get_key_id_by_newapi_token_id : ℕ → List KeyToken → Option ℕ
get_key_id_by_newapi_token_id id ts = key_of_token (find_token id ts)

abbrev pub token_row : ℕ → ℕ → ℕ → NewToken → KeyToken
token_row key_id org member n = record {
  key_id = key_id;
  org_id = org;
  member_id = member;
  newapi_token_id = n.newapi_token_id;
  token_name = n.token_name;
  is_current = true;
  key_masked = n.key_masked;
  rotation = n.rotation;
  status = key_active;
}

-- insertKeyTokenTx: newapi_token_id is unique.
unfoldable pub insert_key_token_tx : ℕ → ℕ → ℕ → NewToken → KeyTables → Result RepoError KeyTables
insert_key_token_tx key_id org member n k = elim (find_token n.newapi_token_id k.tokens) [
  | some t ↦ err database
  | none ↦ ok (record k { tokens = token_row key_id org member n ∷ k.tokens })
]

-- INSERT INTO member_key_slot, with LastInsertId.
abbrev pub insert_slot : ℕ → ℕ → Bool → KeyTables → ℕ × KeyTables
insert_slot org member primary k = (
  k.next_id,
  record k {
    slots =
        record { id = k.next_id; org_id = org; member_id = member; is_primary = primary } ∷ k.slots;
    next_id = suc k.next_id;
  },
)

abbrev pub with_token : ℕ → ℕ → NewToken → ℕ × KeyTables → Result RepoError (ℕ × KeyTables)
with_token org member n (key_id, k) =
    insert_key_token_tx key_id org member n k >>= λ k'. ok (key_id, k')

-- ensurePrimaryKeyTx: the key_id and the tables.
abbrev pub ensure_primary_key_tx : ℕ → ℕ → NewToken → KeyTables → Result RepoError (ℕ × KeyTables)
ensure_primary_key_tx org member n k = with_token org member n (insert_slot org member true k)

-- CreateAdditionalKey
abbrev pub create_additional_key : ℕ → ℕ → NewToken → KeyTables → Result RepoError (ℕ × KeyTables)
create_additional_key org member n k = with_token org member n (insert_slot org member false k)

abbrev pub is_primary_of : ℕ → ℕ → KeySlot → Bool
is_primary_of org member s = s.member_id == member && s.org_id == org && s.is_primary

abbrev pub lower_id : KeySlot → Option KeySlot → KeySlot
lower_id s none = s
lower_id s (some t) = if ltb s.id t.id then s else t

-- SELECT id ... WHERE member_id = ? AND org_id = ? AND is_primary = 1 ... ORDER BY id LIMIT 1
unfoldable pub select_primary : ℕ → ℕ → List KeySlot → Option KeySlot
select_primary org member [] = none
select_primary org member (s ∷ ss) =
    let rest = select_primary org member ss in
    if is_primary_of org member s then some (lower_id s rest) else rest

abbrev pub supersede_row : ℕ → KeyToken → KeyToken
supersede_row key_id t =
    if t.key_id == key_id && t.is_current
    then (record t { is_current = false; status = superseded })
    else t

-- UPDATE member_key_token SET is_current = 0, ... WHERE key_id = ? AND is_current = 1
unfoldable pub supersede : ℕ → List KeyToken → List KeyToken
supersede key_id [] = []
supersede key_id (t ∷ ts) = supersede_row key_id t ∷ supersede key_id ts

-- rotatePrimaryKeyTx
unfoldable pub rotate_primary_key_tx :
    ℕ → ℕ → NewToken → KeyTables → Result RepoError (ℕ × KeyTables)
rotate_primary_key_tx org member n k = elim (select_primary org member k.slots) [
  | none ↦ ensure_primary_key_tx org member n k
  | some s ↦ with_token org member n (s.id, record k { tokens = supersede s.id k.tokens })
]

pub data BootstrapState : Type 0 where
  bootstrap_pending bootstrap_done bootstrap_failed : BootstrapState

pub data MemberStatus : Type 0 where
  member_active disabled offboarded expired member_pending provisioning : MemberStatus

-- A row of member, as far as its bootstrap and its keys need it.
pub record MemberRow : Type 0 where
  pub id : ℕ
  pub org_id : ℕ
  pub login_email : List ℕ
  pub status : MemberStatus
  pub bootstrap_state : BootstrapState
  pub newapi_token_id : Option ℕ
  pub key_masked : List ℕ
  pub key_rotation : ℕ
  pub is_deleted : Bool

pub record MemberStore : Type 0 where
  pub members : List MemberRow
  pub next_member : ℕ
  pub keys : KeyTables

abbrev pub is_member : ℕ → ℕ → MemberRow → Bool
is_member org id m = m.id == id && m.org_id == org

-- SELECT ... FROM member WHERE id = ? AND org_id = ?, also a deleted one.
unfoldable pub find_member : ℕ → ℕ → List MemberRow → Option MemberRow
find_member org id [] = none
find_member org id (m ∷ ms) =
    let rest = find_member org id ms in if is_member org id m then some m else rest

abbrev pub member_and_key : Option MemberRow → ℕ → Option (MemberRow × ℕ)
member_and_key none key_id = none
member_and_key (some m) key_id = some (m, key_id)

abbrev pub member_of_token : Option KeyToken → List MemberRow → Option (MemberRow × ℕ)
member_of_token none ms = none
member_of_token (some t) ms = member_and_key (find_member t.org_id t.member_id ms) t.key_id

-- GetMemberByNewapiTokenID: whom the settlement charges a token to, with the key_id.
abbrev pub get_member_by_newapi_token_id : ℕ → MemberStore → Option (MemberRow × ℕ)
get_member_by_newapi_token_id id s = member_of_token (find_token id s.keys.tokens) s.members

-- UPDATE member SET ... WHERE id = ? AND org_id = ?
unfoldable pub update_member : ℕ → ℕ → (MemberRow → MemberRow) → List MemberRow → List MemberRow
update_member org id change [] = []
update_member org id change (m ∷ ms) =
    (if is_member org id m then change m else m) ∷ update_member org id change ms

unfoldable pub has_email : ℕ → List ℕ → List MemberRow → Bool
has_email org email [] = false
has_email org email (m ∷ ms) =
    let rest = has_email org email ms in
    if m.org_id == org && same_text m.login_email email then true else rest

abbrev pub provisional_member : ℕ → ℕ → List ℕ → MemberRow
provisional_member org id email = record {
  id = id;
  org_id = org;
  login_email = email;
  status = provisioning;
  bootstrap_state = bootstrap_pending;
  newapi_token_id = none;
  key_masked = [];
  key_rotation = 0;
  is_deleted = false;
}

-- CreateMemberProvisional: the id and the store. (org_id, login_email) is unique.
unfoldable pub create_member_provisional :
    ℕ → List ℕ → MemberStore → Result RepoError (ℕ × MemberStore)
create_member_provisional org email s =
    if has_email org email s.members
    then err conflict
    else ok (
      s.next_member,
      record s {
        members = provisional_member org s.next_member email ∷ s.members;
        next_member = suc s.next_member;
      },
    )

abbrev pub point_to : NewToken → MemberRow → MemberRow
point_to n m = record m {
  newapi_token_id = some (n.newapi_token_id);
  key_masked = n.key_masked;
  key_rotation = n.rotation;
}

abbrev pub bootstrapped : NewToken → MemberRow → MemberRow
bootstrapped n m = record m {
  newapi_token_id = some (n.newapi_token_id);
  key_masked = n.key_masked;
  key_rotation = n.rotation;
  bootstrap_state = bootstrap_done;
  status = member_active;
}

-- FinalizeBootstrap, which is called with a token.
unfoldable pub finalize_bootstrap : ℕ → ℕ → NewToken → MemberStore → Result RepoError MemberStore
finalize_bootstrap org member n s = ensure_primary_key_tx org member n s.keys >>= λ out.
    ok (record s { members = update_member org member (bootstrapped n) s.members; keys = out.1 })

-- UpdateMemberKey
unfoldable pub update_member_key : ℕ → ℕ → NewToken → MemberStore → Result RepoError MemberStore
update_member_key org member n s = rotate_primary_key_tx org member n s.keys >>= λ out.
    ok (record s { members = update_member org member (point_to n) s.members; keys = out.1 })

abbrev pub without_token : MemberRow → MemberRow
without_token m = record m { newapi_token_id = none; key_masked = [] }

-- ClearMemberToken
abbrev pub clear_member_token : ℕ → ℕ → MemberStore → MemberStore
clear_member_token org member s = record s {
  members = update_member org member without_token s.members;
}

-- OffboardMember: AND deleted_at IS NULL.
abbrev pub offboard : MemberRow → MemberRow
offboard m = if m.is_deleted then m else (record m {
  is_deleted = true;
  status = offboarded;
  newapi_token_id = none;
  key_masked = [];
})

abbrev pub offboard_member : ℕ → ℕ → MemberStore → MemberStore
offboard_member org member s = record s { members = update_member org member offboard s.members }

-- RestoreOffboardedMember: AND deleted_at IS NOT NULL.
abbrev pub restore : MemberRow → MemberRow
restore m = if m.is_deleted then (record m { is_deleted = false; status = member_active }) else m

abbrev pub restore_offboarded_member : ℕ → ℕ → MemberStore → MemberStore
restore_offboarded_member org member s = record s {
  members = update_member org member restore s.members;
}
