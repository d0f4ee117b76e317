-- ===== src/Quota/Tests.antt =====
-- A member with two grants, and a stopped organization.
use nexusapi_enterprise.Prelude.{
  ◌≡◌, refl, true, false, none, some, List, [], ◌∷◌, All, Result, ok, err,
}
use nexusapi_enterprise.Prelude.Int.{pos, negsuc, ◌+ℤ◌, ◌≤ℤ◌}
use nexusapi_enterprise.Prelude.Int64.{i64}
use nexusapi_enterprise.Quota.{
  gate_by_org_status, add_grants, Answers, Member, org_stopped, scope_member, compute_override,
  resolve_base_quota, explicit_override, scoped_limit,
}
use nexusapi_enterprise.Quota.Apply.{TokenCall, PushEnv, apply_member_override}
use nexusapi_enterprise.Newapi.Classify.{UpstreamError, auth_expired_class}
use nexusapi_enterprise.Credentials.{
  OrgAccount, MemberCred, with_org_cred, ensure_fresh_cred, load_org_cred, org_cred, refresh_cred,
}
use nexusapi_enterprise.Quota.Pushed.{Reports}
use nexusapi_enterprise.Quota.Law.{
  IsHardStop, quota_of, apply_member_override-Reports, apply_member_override-writes,
}

abbrev stopped_org : Answers
stopped_org = record {
  policies = ok (
      record {
        scope = scope_member;
        scope_id = 4;
        period = none;
        limit_quota = pos 1000;
        is_active = true;
      }
      ∷ []);
  team_tier = λ team. ok none;
  organization = ok (record { status = org_stopped; default_tier_id = none });
  tier =
      λ id. ok (record { daily_limit = none; weekly_limit = none; monthly_limit = some (pos 9) });
  grants = ok (pos 50 ∷ negsuc 199 ∷ []);
  hard_stop_enabled = ok true;
  lock_free = true;
}

abbrev first_fails : MemberCred → List TokenCall → Result UpstreamError (Unit {0})
first_fails cred [] =
    err (record { http_status = 401; platform_code = 50301; class = auth_expired_class })
first_fails cred (c ∷ cs) = ok tt

abbrev account : OrgAccount
account = record {
  status = org_stopped;
  user = some (record {
    newapi_user_id = 9;
    newapi_username = none;
    access_token_enc = 1 ∷ [];
    password_enc = 2 ∷ [];
  });
}

-- The first call finds the authorization expired, the second works.
abbrev stale_token : PushEnv
stale_token = record {
  cred = record {
    keyring = record { encrypt_string = λ t. some t; decrypt_string = λ t. some t };
    org_reads = true;
    cred_reads = true;
    lock_works = true;
    fresh_reads = ok tt;
    password_reads = true;
    name_reads = true;
    derived_username = 3 ∷ [];
    writes = true;
    probe_access_token = λ cred. false;
    refresh_access_token = λ name pw. ok (4 ∷ []);
  };
  account = account;
  updates = first_fails;
}

abbrev fourth : Member
fourth = record { id = 4; team_id = some 2; tier_id = none; token_id = some 77 }

stopped-IsHardStop : IsHardStop stopped_org
stopped-IsHardStop = record {
  org = record { status = org_stopped; default_tier_id = none };
  reads = refl;
  stopped = refl;
  enabled = refl;
}

apply_member_override-Reports_example :
    (pos 0 ≤ℤ pos 0)
    × Reports false stale_token fourth
        (pos 0)
        (apply_member_override false stopped_org stale_token fourth).1
unfolding apply_member_override compute_override gate_by_org_status resolve_base_quota
    explicit_override scoped_limit add_grants i64 ◌+ℤ◌ with_org_cred ensure_fresh_cred load_org_cred
    org_cred refresh_cred
apply_member_override-Reports_example =
    apply_member_override-Reports false stopped_org stale_token fourth refl

apply_member_override-writes_example :
    All (λ c. quota_of c ≡ pos 0) (apply_member_override false stopped_org stale_token fourth).1
apply_member_override-writes_example =
    apply_member_override-writes stopped_org stale_token fourth stopped-IsHardStop
