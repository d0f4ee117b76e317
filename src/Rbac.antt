-- ===== src/Rbac.antt =====
-- service/rbac.go: who may call what. Claims are the fields of pkg/session's token that the checks
-- read; a team or a support session of 0 is none.
pub mod Law
mod Tests
use nexusapi_enterprise.Prelude.{
  ℕ, Bool, true, false, not, ◌&&◌, ◌||◌, Option, none, some, List, [], ◌∷◌, ◌==◌, if◌then◌else◌,
  Result, ok, err, raise_if,
}
use nexusapi_enterprise.Errors.{AppError, forbidden, not_found_error}

pub data Role : Type 0 where
  operator org_admin team_leader member : Role

pub record Claims : Type 0 where
  pub member_id : ℕ
  pub org_id : ℕ
  pub team_id : ℕ
  pub role : Role
  pub support_session_id : ℕ

abbrev pub same_role : Role → Role → Bool
same_role operator operator = true
same_role org_admin org_admin = true
same_role team_leader team_leader = true
same_role member member = true
same_role _ _ = false

-- assertRole
unfoldable pub assert_role : Claims → List Role → Result AppError (Unit {0})
assert_role c [] = err forbidden
assert_role c (r ∷ allowed) =
    let rest = assert_role c allowed in if same_role c.role r then ok tt else rest

-- assertOrgScope
unfoldable pub assert_org_scope : Claims → ℕ → Result AppError (Unit {0})
assert_org_scope c target =
    if same_role c.role operator
    then ok tt
    else if not (c.org_id == target)
    then err not_found_error
    else ok tt

-- mvpPriceHidden
unfoldable pub mvp_price_hidden : Bool → Claims → Bool
mvp_price_hidden observe_mode c =
    observe_mode && not (same_role c.role operator) && c.support_session_id == 0

-- mvpHidePrice
unfoldable pub mvp_hide_price : Bool → Claims → Result AppError (Unit {0})
mvp_hide_price observe_mode c =
    if mvp_price_hidden observe_mode c then err not_found_error else ok tt

-- targetTeamID == nil || c.TeamID == 0 || *targetTeamID != c.TeamID
abbrev pub outside_team : Claims → Option ℕ → Bool
outside_team c none = true
outside_team c (some team) = c.team_id == 0 || not (team == c.team_id)

-- assertTeamScope
unfoldable pub assert_team_scope : Claims → Option ℕ → Result AppError (Unit {0})
assert_team_scope c team =
    if not (same_role c.role team_leader)
    then ok tt
    else if outside_team c team
    then err forbidden
    else ok tt

-- assertSelf
unfoldable pub assert_self : Claims → ℕ → Result AppError (Unit {0})
assert_self c target =
    if same_role c.role member && not (c.member_id == target) then err forbidden else ok tt
