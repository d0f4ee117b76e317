-- ===== src/Approval.antt =====
-- service/approval.go and repo/approval.go: requests for more quota or for a model. A table is the
-- list of its rows. The row is read and later written by an UPDATE that names the state read, so
-- the table may have changed in between; the two tables are separate arguments.
pub mod Law
pub mod Once
mod Tests
use nexusapi_enterprise.Prelude.{
  ℕ, Bool, true, false, not, ◌&&◌, ◌||◌, Option, none, some, List, [], ◌∷◌, ◌==◌, leb,
  if◌then◌else◌, Result, ok, err, ◌>>=◌, ◌>>◌, raise_if,
}
use nexusapi_enterprise.Prelude.Int.{ℤ, pos, leb_ℤ}
use nexusapi_enterprise.Errors.{AppError, approval_handled, not_found_error, invalid_param}
use nexusapi_enterprise.Rbac.{
  Claims, org_admin, team_leader, same_role, assert_role, assert_team_scope,
}

pub data ApprovalState : Type 0 where
  pending l1_approved approved rejected auto_approved cancelled : ApprovalState

pub record Approval : Type 0 where
  pub id : ℕ
  pub org_id : ℕ
  pub applicant_id : ℕ
  pub team_id : Option ℕ
  pub state : ApprovalState
  pub is_model_open : Bool
  pub is_level2 : Bool
  pub l1_reviewer_id : Option ℕ
  pub l2_reviewer_id : Option ℕ

-- The configured limits, or the constants if they cannot be read.
pub record ApprovalRules : Type 0 where
  pub auto_max_quota : ℤ
  pub auto_max_days : ℕ
  pub l1_max_quota : ℤ

abbrev pub default_rules : ApprovalRules
default_rules = record {
  auto_max_quota = pos 50000000000;
  auto_max_days = 1;
  l1_max_quota = pos 150000000000;
}

abbrev pub rules_or_default : Option ApprovalRules → ApprovalRules
rules_or_default none = default_rules
rules_or_default (some rules) = rules

-- The tier of SubmitApproval: the state and whether a second review is wanted.
unfoldable pub submit_tier : ApprovalRules → Bool → ℤ → ℕ → ApprovalState × Bool
submit_tier rules new_model amount days =
    if not new_model && leb_ℤ amount rules.auto_max_quota && leb days rules.auto_max_days
    then (auto_approved, false)
    else if not new_model && leb_ℤ amount rules.l1_max_quota
    then (pending, false)
    else (pending, true)

abbrev pub same_state : ApprovalState → ApprovalState → Bool
same_state pending pending = true
same_state l1_approved l1_approved = true
same_state approved approved = true
same_state rejected rejected = true
same_state auto_approved auto_approved = true
same_state cancelled cancelled = true
same_state _ _ = false

-- SELECT ... WHERE id = ? AND org_id = ?
unfoldable pub get_approval : ℕ → ℕ → List Approval → Option Approval
get_approval org id [] = none
get_approval org id (a ∷ as_) =
    let rest = get_approval org id as_ in if a.id == id && a.org_id == org then some a else rest

abbrev pub require : Option Approval → Result AppError Approval
require none = err not_found_error
require (some a) = ok a

-- The column of the reviewer: "l1" or "l2".
pub data ReviewerColumn : Type 0 where
  col_l1 col_l2 : ReviewerColumn

abbrev pub reviewed : ReviewerColumn → ℕ → ApprovalState → Approval → Approval
reviewed col_l1 reviewer to a = record a { state = to; l1_reviewer_id = some reviewer }
reviewed col_l2 reviewer to a = record a { state = to; l2_reviewer_id = some reviewer }

-- AdvanceApproval: UPDATE ... WHERE id = ? AND state = ?; true if the row was hit.
unfoldable pub advance_approval :
    ℕ → ApprovalState → ApprovalState → ReviewerColumn → ℕ → List Approval → Bool × List Approval
advance_approval id from to col reviewer [] = (false, [])
advance_approval id from to col reviewer (a ∷ rows) =
    let rest = advance_approval id from to col reviewer rows in
    if a.id == id && same_state a.state from
    then (true, reviewed col reviewer to a ∷ rest.1)
    else (rest.0, a ∷ rest.1)

-- Who may decide in which state.
abbrev pub may_decide : Claims → Approval → Result AppError (Unit {0})
may_decide c a = elim a.state [
  | pending ↦
      assert_role c (org_admin ∷ team_leader ∷ [])
      >> (if same_role c.role team_leader then assert_team_scope c a.team_id else ok tt)
  | l1_approved ↦ assert_role c (org_admin ∷ [])
  | _ ↦ err approval_handled
]

abbrev pub column_of : ApprovalState → ReviewerColumn
column_of l1_approved = col_l2
column_of _ = col_l1

abbrev pub is_pending : ApprovalState → Bool
is_pending st = same_state st pending

-- The state that a decision leads to.
abbrev pub decided_of : Bool → ApprovalState → Bool → ApprovalState
decided_of approves st level2 =
    if not approves then rejected else if is_pending st && level2 then l1_approved else approved

unfoldable pub decided_state : Bool → Approval → ApprovalState
decided_state approves a = decided_of approves a.state a.is_level2

-- What dispatchApproval meets: whether the duration can be read, whether CreateGrant inserts its row
-- and whether applyMemberOverride works.
pub record DispatchEnv : Type 0 where
  pub expiry_reads : Bool
  pub grant_inserts : Bool
  pub override_works : Bool

-- The applicant, as far as a dispatch needs it: whether it is bootstrapped and has a token.
pub record Applicant : Type 0 where
  pub is_provisioned : Bool

-- Whether the row of the grant was inserted, and whether the dispatch has succeeded.
pub record Dispatched : Type 0 where
  pub has_grant : Bool
  pub succeeds : Bool

abbrev pub not_dispatched : Dispatched
not_dispatched = record { has_grant = false; succeeds = false }

-- dispatchApproval
unfoldable pub dispatch_approval : DispatchEnv → Approval → Applicant → Dispatched
dispatch_approval env a applicant =
    if not env.expiry_reads
    then not_dispatched
    else if not env.grant_inserts
    then not_dispatched
    else if a.is_model_open
    then record { has_grant = true; succeeds = true }
    else record {
      has_grant = true;
      succeeds = if applicant.is_provisioned then env.override_works else true;
    }

-- What follows the UPDATE of an approval: GetMember for the applicant, none if that fails, then the
-- dispatch.
abbrev pub dispatch_approved :
    DispatchEnv → Approval → Option Applicant → ApprovalState → Dispatched
dispatch_approved env a none to = not_dispatched
dispatch_approved env a (some applicant) to =
    if same_state to approved then dispatch_approval env a applicant else not_dispatched

-- What a decision leaves: the rows, and what was dispatched, which the notice and the audit tell.
pub record Decided : Type 0 where
  pub rows : List Approval
  pub dispatched : Dispatched

-- DecideApproval. `now_rows` is the table at the time of the UPDATE, `comment_fits` the check of the
-- comment, `applicant` what GetMember answers after the UPDATE. The reading back of the row, the
-- notice and the audit are left out.
unfoldable pub decide_approval :
    DispatchEnv
    → Option Applicant
    → Claims
    → ℕ
    → Bool
    → Bool
    → List Approval
    → List Approval
    → Result AppError Decided
decide_approval env applicant c id approves comment_fits read_rows now_rows = do
  raise_if (not comment_fits) invalid_param
  a ← require (get_approval c.org_id id read_rows)
  may_decide c a
  let out =
      advance_approval id a.state (decided_state approves a) (column_of a.state) c.member_id
        now_rows
  raise_if (not out.0) approval_handled
  ok (record {
    rows = out.1;
    dispatched = dispatch_approved env a applicant (decided_state approves a);
  })
