-- ===== src/Credentials/Rotation.antt =====
-- RotateKey and CreateMemberToken of service/member.go: a member's own key, its next token in new-api
-- and the tables of keys. The audit is left out.
use nexusapi_enterprise.Prelude.{
  ℕ, suc, ◌-◌, Bool, true, false, not, ◌&&◌, Option, none, some, List, [], ◌∷◌, ◌++◌, length, leb,
  ◌==◌, if◌then◌else◌, Result, ok, err, ◌>>=◌, ◌>>◌, raise_if, same_text,
}
use nexusapi_enterprise.Errors.{
  RepoError, AppError, internal, forbidden, invalid_param, invalid_state, not_found_error,
  from_upstream,
}
use nexusapi_enterprise.Newapi.Classify.{UpstreamError}
use nexusapi_enterprise.Rbac.{Claims, assert_org_scope}
use nexusapi_enterprise.Keys.{
  NewToken, MemberRow, MemberStore, MemberStatus, member_active, BootstrapState, bootstrap_done,
  is_member, update_member_key,
}
use nexusapi_enterprise.Credentials.{
  CallError, map_upstream, OrgAccount, CredEnv, CredOp, with_org_cred,
}
use nexusapi_enterprise.Credentials.Tokens.{
  TokenApi, TokenRequest, create_and_reveal, rotate_token, as_call,
}

-- What a handler of keys reads and writes: the tables, the account of the organization, the calls.
pub record KeyWorld : Type 0 where
  pub store : MemberStore
  pub account : OrgAccount
  pub calls : List TokenRequest

-- The environment: `member_reads` is false when GetMember fails, deriveTokenName prints numbers.
pub record KeyEnv : Type 0 where
  pub cred : CredEnv
  pub api : TokenApi
  pub member_reads : Bool
  pub derive_token_name : ℕ → ℕ → List ℕ
  pub org_usable_groups : Result UpstreamError (List (List ℕ))

-- GetMember: AND deleted_at IS NULL.
unfoldable pub find_live_member : ℕ → ℕ → List MemberRow → Option MemberRow
find_live_member org id [] = none
find_live_member org id (m ∷ ms) =
    let rest = find_live_member org id ms in
    if is_member org id m && not m.is_deleted then some m else rest

abbrev pub or_missing : Option MemberRow → Result AppError MemberRow
or_missing none = err not_found_error
or_missing (some m) = ok m

abbrev pub get_member : KeyEnv → ℕ → ℕ → KeyWorld → Result AppError MemberRow
get_member env org member w =
    if env.member_reads
    then or_missing (find_live_member org member w.store.members)
    else err internal

abbrev pub is_active_member : MemberStatus → Bool
is_active_member member_active = true
is_active_member _ = false

abbrev pub is_bootstrapped : BootstrapState → Bool
is_bootstrapped bootstrap_done = true
is_bootstrapped _ = false

abbrev pub token_pointer : Option ℕ → Result AppError ℕ
token_pointer none = err invalid_state
token_pointer (some id) = ok id

unfoldable pub last_four : List ℕ → List ℕ
last_four [] = []
last_four (b ∷ bs) = let rest = last_four bs in if leb (length (b ∷ bs)) 4 then b ∷ bs else rest

unfoldable pub first_bytes : ℕ → List ℕ → List ℕ
first_bytes n [] = []
first_bytes n (b ∷ bs) = let rest = first_bytes (n - 1) bs in if n == 0 then [] else b ∷ rest

-- The bytes of "••••".
abbrev pub dots : List ℕ
dots = 226 ∷ 128 ∷ 162 ∷ 226 ∷ 128 ∷ 162 ∷ 226 ∷ 128 ∷ 162 ∷ 226 ∷ 128 ∷ 162 ∷ []

-- maskKey
unfoldable pub mask_key : List ℕ → List ℕ
mask_key plaintext =
    if leb (length plaintext) 8
    then dots
    else first_bytes 8 plaintext ++ dots ++ last_four plaintext

abbrev pub new_token : KeyEnv → MemberRow → ℕ × List ℕ → NewToken
new_token env m (id, key) = record {
  newapi_token_id = id;
  token_name = env.derive_token_name m.id (suc m.key_rotation);
  key_masked = mask_key key;
  rotation = suc m.key_rotation;
}

-- The member's row and pointer, when its key may be rotated.
abbrev pub may_rotate : Claims → KeyEnv → ℕ → ℕ → KeyWorld → Result AppError (MemberRow × ℕ)
may_rotate c env org member w = do
  assert_org_scope c org
  raise_if (not (c.member_id == member)) forbidden
  m ← get_member env org member w
  raise_if (not (is_active_member m.status)) forbidden
  raise_if (not (is_bootstrapped m.bootstrap_state)) invalid_state
  old ← token_pointer m.newapi_token_id
  ok (m, old)

-- UpdateMemberKey: the plaintext key is answered once, when the tables hold the new token.
abbrev pub saved :
    List ℕ → KeyWorld → Result RepoError MemberStore → Result AppError (List ℕ) × KeyWorld
saved key w (err e) = (err internal, w)
saved key w (ok store) = (ok key, record w { store = store })

abbrev pub save_token :
    KeyEnv
    → ℕ
    → MemberRow
    → KeyWorld
    → Result CallError (ℕ × List ℕ) × OrgAccount × List TokenRequest
    → Result AppError (List ℕ) × KeyWorld
save_token env org m w (err e, account, calls) =
    (err (map_upstream e), record w { account = account; calls = calls })
save_token env org m w (ok made, account, calls) =
    saved made.1 (record w { account = account; calls = calls })
      (update_member_key org m.id (new_token env m made) w.store)

abbrev pub rotate_op : KeyEnv → MemberRow → ℕ → CredOp (List TokenRequest) (ℕ × List ℕ)
rotate_op env m old cred calls =
    as_call (rotate_token env.api cred old (env.derive_token_name m.id (suc m.key_rotation)) calls)

abbrev pub rotated_key :
    KeyEnv → ℕ → KeyWorld → Result AppError (MemberRow × ℕ) → Result AppError (List ℕ) × KeyWorld
rotated_key env org w (err e) = (err e, w)
rotated_key env org w (ok (m, old)) =
    save_token env org m w (with_org_cred env.cred w.account (rotate_op env m old) w.calls)

-- RotateKey
unfoldable pub rotate_key : Claims → KeyEnv → ℕ → ℕ → KeyWorld → Result AppError (List ℕ) × KeyWorld
rotate_key c env org member w = rotated_key env org w (may_rotate c env org member w)

unfoldable pub has_group : List ℕ → List (List ℕ) → Bool
has_group group [] = false
has_group group (g ∷ gs) = let rest = has_group group gs in if same_text g group then true else rest

abbrev pub group_usable : Result UpstreamError (List (List ℕ)) → List ℕ → Result AppError (Unit {0})
group_usable (err u) group = err (from_upstream u.platform_code)
group_usable (ok usable) group = raise_if (not (has_group group usable)) invalid_param

-- "default"
abbrev pub default_group : List ℕ
default_group = 100 ∷ 101 ∷ 102 ∷ 97 ∷ 117 ∷ 108 ∷ 116 ∷ []

abbrev pub is_empty_text : List ℕ → Bool
is_empty_text [] = true
is_empty_text (_ ∷ _) = false

abbrev pub may_create : Claims → KeyEnv → ℕ → List ℕ → KeyWorld → Result AppError MemberRow
may_create c env member group w = do
  raise_if (not (c.member_id == member)) forbidden
  raise_if (is_empty_text group) invalid_param
  m ← get_member env c.org_id member w
  raise_if (not (is_active_member m.status)) forbidden
  (if same_text group default_group then ok tt else group_usable env.org_usable_groups group)
  ok m

-- The first token of a member, or the next one.
abbrev pub create_op : KeyEnv → MemberRow → Option ℕ → CredOp (List TokenRequest) (ℕ × List ℕ)
create_op env m none cred calls =
    as_call (create_and_reveal env.api cred (env.derive_token_name m.id (suc m.key_rotation)) calls)
create_op env m (some old) cred calls = rotate_op env m old cred calls

abbrev pub created_key :
    KeyEnv → ℕ → KeyWorld → Result AppError MemberRow → Result AppError (List ℕ) × KeyWorld
created_key env org w (err e) = (err e, w)
created_key env org w (ok m) =
    save_token env org m w
      (with_org_cred env.cred w.account (create_op env m m.newapi_token_id) w.calls)

-- CreateMemberToken
unfoldable pub create_member_token :
    Claims → KeyEnv → ℕ → List ℕ → KeyWorld → Result AppError (List ℕ) × KeyWorld
create_member_token c env member group w =
    created_key env c.org_id w (may_create c env member group w)
