-- ===== src/Approval/Tests.antt =====
-- A request with two reviews, and the theorems at it.
use nexusapi_enterprise.Prelude.{ℕ, ◌≡◌, refl, true, false, Option, some, none, List, [], ◌∷◌, err}
use nexusapi_enterprise.Errors.{approval_handled}
use nexusapi_enterprise.Rbac.{Claims, Role, org_admin, team_leader, assert_role, assert_team_scope}
use nexusapi_enterprise.Approval.{
  pending, l1_approved, Approval, DispatchEnv, Applicant, not_dispatched, Decided, decide_approval,
  get_approval, advance_approval, decided_state,
}
use nexusapi_enterprise.Approval.Once.{decide_approval-once}

abbrev claims_of : ℕ → Role → Claims
claims_of id role = record {
  member_id = id;
  org_id = 7;
  team_id = 2;
  role = role;
  support_session_id = 0;
}

abbrev open_request : Approval
open_request = record {
  id = 5;
  org_id = 7;
  applicant_id = 30;
  team_id = some 2;
  state = pending;
  is_model_open = false;
  is_level2 = true;
  l1_reviewer_id = none;
  l2_reviewer_id = none;
}

abbrev all_works : DispatchEnv
all_works = record { expiry_reads = true; grant_inserts = true; override_works = true }

abbrev applicant : Option Applicant
applicant = some (record { is_provisioned = true })

abbrev requests : List Approval
requests = open_request ∷ []

abbrev reviewed_once : Decided
reviewed_once = record {
  rows = record open_request { state = l1_approved; l1_reviewer_id = some 40 } ∷ [];
  dispatched = not_dispatched;
}

decide_approval-once_example :
    decide_approval all_works none (claims_of 41 org_admin) 5 false true requests reviewed_once.rows
    ≡ err approval_handled
unfolding decide_approval get_approval assert_role assert_team_scope advance_approval decided_state
decide_approval-once_example =
    decide_approval-once all_works all_works applicant none (claims_of 40 team_leader)
      (claims_of 41 org_admin) 5 true false true requests requests refl refl refl
