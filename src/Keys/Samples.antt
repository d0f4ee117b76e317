-- ===== src/Keys/Samples.antt =====
-- Sample tables: a member that is opened and rotates its key.
use nexusapi_enterprise.Prelude.{true, ℕ, ◌≡◌, refl, [], ◌∷◌, ok}
use nexusapi_enterprise.Keys.{
  NewToken, MemberStore, KeyTables, bootstrap_pending, find_member, provisional_member, find_token,
  create_member_provisional, has_email, finalize_bootstrap, update_member_key, insert_key_token_tx,
  rotate_primary_key_tx, select_primary, supersede, update_member, token_row, bootstrapped,
  point_to, supersede_row,
}
use nexusapi_enterprise.Keys.Steps.{
  ServiceRun, begins, then_service, creates, finalizes, empty_member_store, HasState,
}

abbrev pub token_of : ℕ → ℕ → NewToken
token_of id rotation = record {
  newapi_token_id = id;
  token_name = rotation ∷ [];
  key_masked = [];
  rotation = rotation;
}

abbrev pub created : MemberStore
created = record {
  members = provisional_member 3 1 (5 ∷ []) ∷ [];
  next_member = 2;
  keys = empty_member_store.keys;
}

pub create_member : create_member_provisional 3 (5 ∷ []) empty_member_store ≡ ok (1, created)
unfolding create_member_provisional has_email
create_member = refl

abbrev pub first_keys : KeyTables
first_keys = record {
  slots = record { id = 1; org_id = 3; member_id = 1; is_primary = true } ∷ [];
  next_id = 2;
  tokens = token_row 1 3 1 (token_of 70 1) ∷ [];
}

abbrev pub finalized : MemberStore
finalized = record {
  members = bootstrapped (token_of 70 1) (provisional_member 3 1 (5 ∷ [])) ∷ [];
  next_member = 2;
  keys = first_keys;
}

pub finalize_member : finalize_bootstrap 3 1 (token_of 70 1) created ≡ ok finalized
unfolding finalize_bootstrap insert_key_token_tx update_member find_token
finalize_member = refl

abbrev pub rotated_store : MemberStore
rotated_store = record {
  members =
      point_to (token_of 71 2) (bootstrapped (token_of 70 1) (provisional_member 3 1 (5 ∷ [])))
      ∷ [];
  next_member = 2;
  keys = record first_keys {
    tokens =
        token_row 1 3 1 (token_of 71 2) ∷ supersede_row 1 (token_row 1 3 1 (token_of 70 1)) ∷ [];
  };
}

pub rotate_member : update_member_key 3 1 (token_of 71 2) finalized ≡ ok rotated_store
unfolding update_member_key rotate_primary_key_tx select_primary supersede insert_key_token_tx
    update_member find_token
rotate_member = refl

pub created_pending : HasState created 3 1 bootstrap_pending
unfolding find_member
created_pending = (provisional_member 3 1 (5 ∷ []), refl, refl)

abbrev pub opened_run : ServiceRun finalized
opened_run =
    then_service (then_service begins (creates 3 (5 ∷ []) create_member) tt)
      (finalizes 3 1 (token_of 70 1) finalize_member) created_pending
