-- ===== src/Rbac/Tests.antt =====
-- A team leader's claims, and the theorems at them.
use nexusapi_enterprise.Prelude.{◌≡◌, ◌≢◌, ◌↔◌, ◌⊎◌, some, ok, err}
use nexusapi_enterprise.Errors.{forbidden}
use nexusapi_enterprise.Rbac.{Claims, team_leader, member, assert_team_scope, assert_self}
use nexusapi_enterprise.Rbac.Law.{assert_team_scope-decides, assert_self-decides}

abbrev leader : Claims
leader = record {
  member_id = 4;
  org_id = 7;
  team_id = 2;
  role = team_leader;
  support_session_id = 0;
}

assert_team_scope-decides_example :
    ((assert_team_scope leader (some 3) ≡ ok tt)
      ↔ ((team_leader ≢ team_leader) ⊎ ((leader.team_id ≢ 0) × (some 3 ≡ some leader.team_id))))
    × ((assert_team_scope leader (some 3) ≡ ok tt)
        ⊎ (assert_team_scope leader (some 3) ≡ err forbidden))
assert_team_scope-decides_example = assert_team_scope-decides leader (some 3)

assert_self-decides_example :
    ((assert_self leader 5 ≡ ok tt) ↔ ((team_leader ≢ member) ⊎ (leader.member_id ≡ 5)))
    × ((assert_self leader 5 ≡ ok tt) ⊎ (assert_self leader 5 ≡ err forbidden))
assert_self-decides_example = assert_self-decides leader 5
