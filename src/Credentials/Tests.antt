-- ===== src/Credentials/Tests.antt =====
-- An expired credential that is renewed, and a member that rotates its key.
use nexusapi_enterprise.Prelude.{
  ℕ, ◌≡◌, refl, true, false, Option, none, some, some_injective, List, [], ◌∷◌, ◌==◌, if◌then◌else◌,
  ok, err,
}
use mathlib.Core.Path.{subst}
use nexusapi_enterprise.Newapi.Classify.{auth_expired_class}
use nexusapi_enterprise.Quota.{org_active}
use nexusapi_enterprise.Rbac.{Claims, member}
use nexusapi_enterprise.Keys.Samples.{finalized}
use nexusapi_enterprise.Credentials.{
  upstream, OrgAccount, MemberCred, KeyringApi, CredEnv, CredOp, with_org_cred,
}
use nexusapi_enterprise.Credentials.Law.{IsKeyring, Ran, with_org_cred-Ran}
use nexusapi_enterprise.Credentials.Tokens.{TokenApi, TokenRequest}
use nexusapi_enterprise.Credentials.Rotation.{KeyWorld, KeyEnv}

abbrev sample_decrypt : List ℕ → Option (List ℕ)
sample_decrypt [] = none
sample_decrypt (b ∷ bs) = some bs

abbrev ring : KeyringApi
ring = record { encrypt_string = λ x. some (1 ∷ x); decrypt_string = sample_decrypt }

ring-IsKeyring : IsKeyring ring
ring-IsKeyring plain cipher e = subst (λ x. sample_decrypt x ≡ some plain) (some_injective e) refl

abbrev sample_account : OrgAccount
sample_account = record {
  status = org_active;
  user = some (record {
    newapi_user_id = 8;
    newapi_username = none;
    access_token_enc = 1 ∷ 4 ∷ [];
    password_enc = 1 ∷ 6 ∷ [];
  });
}

abbrev sample_env : CredEnv
sample_env = record {
  keyring = ring;
  org_reads = true;
  cred_reads = true;
  lock_works = true;
  fresh_reads = ok tt;
  password_reads = true;
  name_reads = true;
  derived_username = 3 ∷ [];
  writes = true;
  probe_access_token = λ c. false;
  refresh_access_token = λ name pw. ok (9 ∷ []);
}

-- The first call is refused with 401, the second is answered.
abbrev refused_once : CredOp ℕ ℕ
refused_once cred calls =
    if calls == 0
    then (
      err (
          upstream
            (record { http_status = 401; platform_code = 50301; class = auth_expired_class })),
      1,
    )
    else (ok 5, 2)

with_org_cred-Ran_example :
    Ran sample_env sample_account refused_once 0
      (with_org_cred sample_env sample_account refused_once 0)
with_org_cred-Ran_example =
    with_org_cred-Ran sample_env sample_account refused_once 0 ring-IsKeyring

abbrev listed : List TokenRequest → List (List ℕ × ℕ)
listed [] = []
listed (c ∷ cs) = (2 ∷ [], 71) ∷ []

abbrev sample_api : TokenApi
sample_api = record {
  max_retries = 2;
  ends_call = λ calls. none;
  token_list = λ cred calls. ok (listed calls);
  post_token = λ cred name calls. ok tt;
  token_key = λ cred id calls. ok (20 ∷ []);
}

abbrev sample_cred : MemberCred
sample_cred = record { newapi_user_id = 8; access_token = 4 ∷ [] }

abbrev key_env : KeyEnv
key_env = record {
  cred = sample_env;
  api = sample_api;
  member_reads = true;
  derive_token_name = λ m rotation. rotation ∷ [];
  org_usable_groups = ok [];
}

abbrev key_world : KeyWorld
key_world = record { store = finalized; account = sample_account; calls = [] }

abbrev owner_claims : Claims
owner_claims = record {
  member_id = 1;
  org_id = 3;
  team_id = 0;
  role = member;
  support_session_id = 0;
}
