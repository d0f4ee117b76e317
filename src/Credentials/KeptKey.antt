-- ===== src/Credentials/KeptKey.antt =====
-- A rotation gives the member's key its next token, and the key stays.
use nexusapi_enterprise.Prelude.{ℕ, ◌≡◌, some}
use nexusapi_enterprise.Keys.{MemberRow, MemberStore, get_key_id_by_newapi_token_id}
use nexusapi_enterprise.Credentials.Rotation.{find_live_member}

-- What a rotation keeps: the token that the member pointed to and the one that it points to then have
-- the same key, before and after.
pub record KeepsKey (org member : ℕ) (before after : MemberStore) : Type 0 where
  pub old : ℕ
  pub new : ℕ
  pub key_id : ℕ
  pub row_before : MemberRow
  pub row : MemberRow
  pub found_before : find_live_member org member before.members ≡ some row_before
  pub pointed : row_before.newapi_token_id ≡ some old
  pub was : get_key_id_by_newapi_token_id old before.keys.tokens ≡ some key_id
  pub next : get_key_id_by_newapi_token_id new after.keys.tokens ≡ some key_id
  pub still : get_key_id_by_newapi_token_id old after.keys.tokens ≡ some key_id
  pub found : find_live_member org member after.members ≡ some row
  pub points : row.newapi_token_id ≡ some new
