-- ===== src/Quota.antt =====
-- service/quota.go: the quota of a member, from the policies, the tiers and the grants to the token
-- limit of a member. What the database answers is an argument. Quota.Apply is applyMemberOverride,
-- which holds the per-organization lock all the time.
pub mod Law
pub mod Apply
pub mod Pushed
mod Tests
use nexusapi_enterprise.Prelude.{
  ℕ, Bool, true, false, ◌&&◌, Option, none, some, List, [], ◌∷◌, ◌==◌, if◌then◌else◌, Result, ok,
  err, ◌>>=◌, ◌>>◌, raise_if, not,
}
use nexusapi_enterprise.Prelude.Int.{ℤ, pos, ◌+ℤ◌, ltb_ℤ}
use nexusapi_enterprise.Prelude.Int64.{i64}

pub data Scope : Type 0 where
  scope_org scope_team scope_member : Scope

-- A period that is neither daily nor weekly is read as monthly.
pub data Period : Type 0 where
  daily weekly monthly : Period

pub record QuotaPolicy : Type 0 where
  pub scope : Scope
  pub scope_id : ℕ
  pub period : Option Period
  pub limit_quota : ℤ
  pub is_active : Bool

pub record Tier : Type 0 where
  pub daily_limit : Option ℤ
  pub weekly_limit : Option ℤ
  pub monthly_limit : Option ℤ

pub data OrgStatus : Type 0 where
  org_active org_low org_stopped org_hard_stopped : OrgStatus

pub record Organization : Type 0 where
  pub status : OrgStatus
  pub default_tier_id : Option ℕ

pub record Member : Type 0 where
  pub id : ℕ
  pub team_id : Option ℕ
  pub tier_id : Option ℕ
  pub token_id : Option ℕ

-- Any error: of the database, of the lock or of new-api, or a missing configuration.
pub data QuotaError : Type 0 where
  failed : QuotaError

-- What the database answers.
pub record Answers : Type 0 where
  pub policies : Result QuotaError (List QuotaPolicy)
  pub team_tier : ℕ → Result QuotaError (Option ℕ)
  pub organization : Result QuotaError Organization
  pub tier : ℕ → Result QuotaError Tier
  pub grants : Result QuotaError (List ℤ)
  pub hard_stop_enabled : Result QuotaError Bool
  pub lock_free : Bool

abbrev pub same_scope : Scope → Scope → Bool
same_scope scope_org scope_org = true
same_scope scope_team scope_team = true
same_scope scope_member scope_member = true
same_scope _ _ = false

-- orgPeriod
unfoldable pub org_period : List QuotaPolicy → Period
org_period [] = monthly
org_period (p ∷ ps) =
    let rest = org_period ps in
    if same_scope p.scope scope_org
    then elim p.period [ some period ↦ period | none ↦ rest ]
    else rest

-- for _, p := range policies { if scope, id and status match { return p.LimitQuota } }
unfoldable pub scoped_limit : Scope → ℕ → List QuotaPolicy → Option ℤ
scoped_limit scope id [] = none
scoped_limit scope id (p ∷ ps) =
    let rest = scoped_limit scope id ps in
    if same_scope p.scope scope && p.scope_id == id && p.is_active then some p.limit_quota else rest

-- explicitOverride
unfoldable pub explicit_override : List QuotaPolicy → ℕ → Option ℕ → Option ℤ
explicit_override policies member_id team_id = elim (scoped_limit scope_member member_id policies) [
  | some limit ↦ some limit
  | none ↦ elim team_id [ some team ↦ scoped_limit scope_team team policies | none ↦ none ]
]

abbrev pub or_else : Option ℤ → Option ℤ → Option ℤ
or_else (some v) rest = some v
or_else none rest = rest

abbrev pub pick : Period → Tier → Option ℤ
pick daily t = t.daily_limit
pick weekly t = t.weekly_limit
pick monthly t = t.monthly_limit

-- tierPeriodLimit
unfoldable pub tier_period_limit : Tier → Period → Option ℤ
tier_period_limit t period =
    or_else (pick period t) (or_else t.monthly_limit (or_else t.weekly_limit t.daily_limit))

-- The tier of the member's team, if it can be read.
abbrev pub team_default : Answers → Option ℕ → Option ℕ
team_default a none = none
team_default a (some team) = elim (a.team_tier team) [ ok tier_id ↦ tier_id | err e ↦ none ]

-- member.tier ?? team.tier
abbrev pub member_or_team_tier : Answers → Member → Option ℕ
member_or_team_tier a m = elim m.tier_id [
  | some tier_id ↦ some tier_id
  | none ↦ team_default a m.team_id
]

-- tierID == nil: the organization's default
abbrev pub chain_tier : Answers → Member → Result QuotaError (Option ℕ)
chain_tier a m = elim (member_or_team_tier a m) [
  | some tier_id ↦ ok (some tier_id)
  | none ↦ a.organization >>= λ org. ok org.default_tier_id
]

abbrev pub require_some : {A : Type 0} → Option A → Result QuotaError A
require_some none = err failed
require_some (some v) = ok v

-- resolveBaseQuota
unfoldable pub resolve_base_quota : Answers → Member → Result QuotaError ℤ
resolve_base_quota a m = do
  policies ← a.policies
  elim (explicit_override policies m.id m.team_id) [
    | some limit ↦ ok limit
    | none ↦ do
      chain ← chain_tier a m
      tier_id ← require_some chain
      tier ← a.tier tier_id
      require_some (tier_period_limit tier (org_period policies))
  ]

-- for _, g := range grants { override += g.Payload.Delta }
unfoldable pub add_grants : ℤ → List ℤ → ℤ
add_grants override [] = override
add_grants override (delta ∷ ds) = add_grants (i64 (override +ℤ delta)) ds

abbrev pub clamp_0 : ℤ → ℤ
clamp_0 v = if ltb_ℤ v (pos 0) then pos 0 else v

-- computeOverride
unfoldable pub compute_override : Answers → Member → Result QuotaError ℤ
compute_override a m = do
  base ← resolve_base_quota a m
  grants ← a.grants
  ok (clamp_0 (add_grants base grants))

abbrev pub is_stopped : OrgStatus → Bool
is_stopped org_stopped = true
is_stopped _ = false

abbrev pub stop_value : Bool → ℤ → ℤ
stop_value true override = pos 0
stop_value false override = override

-- The part of gateByOrgStatus below the status.
abbrev pub gate_stopped : Answers → ℤ → Bool → Result QuotaError ℤ
gate_stopped a override false = ok override
gate_stopped a override true = a.hard_stop_enabled >>= λ enabled. ok (stop_value enabled override)

-- gateByOrgStatus
unfoldable pub gate_by_org_status : Bool → Answers → ℤ → Result QuotaError ℤ
gate_by_org_status observe_mode a override =
    if observe_mode
    then ok override
    else do org ← a.organization; gate_stopped a override (is_stopped org.status)
