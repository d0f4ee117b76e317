-- ===== src/Approval/Law.antt =====
-- The life of a request: which transitions a decision makes, by whom, and that it is made once.
use nexusapi_enterprise.Prelude.{
  ℕ, ◌≡◌, ◌↔◌, ◌⊎◌, refl, ap, sym, inl, inr, Bool, true, false, not, Option, none, some,
  some_injective, List, arith, ok, ok_injective, >>=-eq-ok, raise_if-eq-ok, ◌≤◌,
}
use mathlib.Core.Path.{subst}
use nexusapi_enterprise.Prelude.Int.{ℤ, ◌≤ℤ◌}
use nexusapi_enterprise.Errors.{approval_handled, invalid_param}
use nexusapi_enterprise.Rbac.{Claims, org_admin, team_leader, assert_role, assert_team_scope}
use nexusapi_enterprise.Approval.{
  ApprovalState, pending, l1_approved, approved, rejected, auto_approved, Approval, ApprovalRules,
  submit_tier, same_state, get_approval, advance_approval, may_decide, column_of, decided_of,
  require, decided_state, DispatchEnv, Applicant, Dispatched, dispatch_approval, dispatch_approved,
  Decided, decide_approval,
}

-- A request passes without a reviewer exactly if it asks for no new model, for no more than the
-- automatic limit and for no longer than the automatic time; a second review is wanted exactly
-- for a new model or above the limit of the first.
pub submit_tier-decides :
    (rules : ApprovalRules) (new_model : Bool) (amount : ℤ) (days : ℕ)
    → rules.auto_max_quota ≤ℤ rules.l1_max_quota
    → (((submit_tier rules new_model amount days).0 ≡ auto_approved)
        ↔ ((new_model ≡ false) × (amount ≤ℤ rules.auto_max_quota) × (days ≤ rules.auto_max_days)))
      × (((submit_tier rules new_model amount days).1 ≡ false)
          ↔ ((new_model ≡ false) × (amount ≤ℤ rules.l1_max_quota)))
unfolding submit_tier
submit_tier-decides rules new_model amount days le = ground arith

same_state_sound : (a b : ApprovalState) → same_state a b ≡ true → a ≡ b
same_state_sound a b e = ground arith

same_state_refl : (a : ApprovalState) → same_state a a ≡ true
same_state_refl a = ground arith

-- The transitions that there are.
pub data Transition : Bool → ApprovalState → ApprovalState → Type 0 where
  refuses : {level2 : Bool} → Transition level2 pending rejected
  refuses_second : {level2 : Bool} → Transition level2 l1_approved rejected
  passes_first : Transition true pending l1_approved
  passes : Transition false pending approved
  passes_second : {level2 : Bool} → Transition level2 l1_approved approved

-- Who makes them: an administrator of the organization, or in the first review the leader of the
-- team of the request.
unfoldable pub Authority : Claims → Approval → Type 0
Authority c a =
    ((a.state ≡ pending)
      × ((c.role ≡ org_admin) ⊎ ((c.role ≡ team_leader) × (a.team_id ≡ some c.team_id))))
    ⊎ ((a.state ≡ l1_approved) × (c.role ≡ org_admin))

may_decide-Authority : (c : Claims) (a : Approval) → may_decide c a ≡ ok tt → Authority c a
unfolding Authority assert_role assert_team_scope
may_decide-Authority c a e = ground arith

Transition-of_pending :
    (approves level2 : Bool) → Transition level2 pending (decided_of approves pending level2)
Transition-of_pending false level2 = refuses
Transition-of_pending true true = passes_first
Transition-of_pending true false = passes

Transition-of_second :
    (approves level2 : Bool)
    → Transition level2 l1_approved (decided_of approves l1_approved level2)
Transition-of_second false level2 = refuses_second
Transition-of_second true true = passes_second
Transition-of_second true false = passes_second

Transition-of :
    (approves : Bool) (c : Claims) (a : Approval)
    → Authority c a
    → Transition a.is_level2 a.state (decided_state approves a)
unfolding decided_state Authority
Transition-of approves c a (inl (e, who)) =
    subst (λ st. Transition a.is_level2 st (decided_of approves st a.is_level2)) (sym e)
      (Transition-of_pending approves a.is_level2)
Transition-of approves c a (inr (e, who)) =
    subst (λ st. Transition a.is_level2 st (decided_of approves st a.is_level2)) (sym e)
      (Transition-of_second approves a.is_level2)

-- The request that a decision reads, or one that nobody may decide.
abbrev pub request_of : Claims → ℕ → List Approval → Approval
request_of c id rows = elim (get_approval c.org_id id rows) [
  | some a ↦ a
  | none ↦ record {
    id = id;
    org_id = c.org_id;
    applicant_id = 0;
    team_id = none;
    state = rejected;
    is_model_open = false;
    is_level2 = false;
    l1_reviewer_id = none;
    l2_reviewer_id = none;
  }
]

-- When an approved request has its grant, and when it is reported as dispatched: the quota that a
-- grant adds must have reached new-api too, for a member that has a token.
pub record Dispatch (env : DispatchEnv) (applicant : Option Applicant) (a : Approval)
    (to : ApprovalState) (out : Dispatched) : Type 0 where
  pub granted : (out.has_grant ≡ true) ↔ (
      (to ≡ approved)
      × ((x : Applicant) × (applicant ≡ some x))
      × (env.expiry_reads ≡ true)
      × (env.grant_inserts ≡ true))
  pub reported :
      (x : Applicant)
      → applicant ≡ some x
      → (out.succeeds ≡ true) ↔ (
          (out.has_grant ≡ true)
          × ((a.is_model_open ≡ true) ⊎ (x.is_provisioned ≡ false) ⊎ (env.override_works ≡ true)))
  pub reported_only : out.succeeds ≡ true → out.has_grant ≡ true

dispatch_approval-granted :
    (env : DispatchEnv) (a : Approval) (x : Applicant)
    → ((dispatch_approval env a x).has_grant ≡ true)
      ↔ ((env.expiry_reads ≡ true) × (env.grant_inserts ≡ true))
unfolding dispatch_approval
dispatch_approval-granted env a x = ground arith

dispatch_approval-reported :
    (env : DispatchEnv) (a : Approval) (x : Applicant)
    → ((dispatch_approval env a x).succeeds ≡ true) ↔ (
        ((dispatch_approval env a x).has_grant ≡ true)
        × ((a.is_model_open ≡ true) ⊎ (x.is_provisioned ≡ false) ⊎ (env.override_works ≡ true)))
unfolding dispatch_approval
dispatch_approval-reported env a x = ground arith

approved_or : (to : ApprovalState) → (to ≡ approved) ⊎ (same_state to approved ≡ false)
approved_or to = ground arith

unlike_approved : (to : ApprovalState) → same_state to approved ≡ false → to ≡ approved → ⊥
unlike_approved to e h = ground arith

no_dispatch : {P : Type 0} → ◌≡◌ {A = Bool} false true → P
no_dispatch e = cc

dispatch_approved-Dispatch :
    (env : DispatchEnv) (applicant : Option Applicant) (a : Approval) (to : ApprovalState)
    → Dispatch env applicant a to (dispatch_approved env a applicant to)
dispatch_approved-Dispatch env none a to = record {
  granted = (no_dispatch, λ h. absurd (nobody h.1.0 h.1.1));
  reported = λ x e. absurd (nobody x e);
  reported_only = no_dispatch;
}
  where
    nobody : (x : Applicant) → ◌≡◌ {A = Option Applicant} none (some x) → ⊥
    nobody x e = cc
dispatch_approved-Dispatch env (some x) a to = elim (approved_or to) [
  | inl is ↦
      let (granted, back) = dispatch_approval-granted env a x in
      let same : same_state to approved ≡ true = rw is refl in
      rw (same, dispatch_approved)
        (record {
          granted = (λ h. (is, (x, refl), (granted h).0, (granted h).1), λ h. back (h.2, h.3));
          reported = λ y e.
              subst (λ z. Reported z) (some_injective e) (dispatch_approval-reported env a x);
          reported_only = λ h. ((dispatch_approval-reported env a x).0 h).0;
        })
  | inr other ↦
      rw (other, dispatch_approved)
        (record {
          granted = (no_dispatch, λ h. absurd (unlike_approved to other h.0));
          reported = λ y e. (no_dispatch, λ h. no_dispatch h.0);
          reported_only = no_dispatch;
        })
]
  where
    Reported : Applicant → Type 0
    Reported z = ((dispatch_approval env a x).succeeds ≡ true) ↔ (
        ((dispatch_approval env a x).has_grant ≡ true)
        × ((a.is_model_open ≡ true) ⊎ (z.is_provisioned ≡ false) ⊎ (env.override_works ≡ true)))

-- What an accepted decision has done.
pub record Decision (env : DispatchEnv) (applicant : Option Applicant) (c : Claims) (id : ℕ)
    (approves : Bool) (read_rows now_rows : List Approval) (out : Decided) : Type 0 where
  pub request : Approval
  pub read : get_approval c.org_id id read_rows ≡ some request
  pub authority : Authority c request
  pub transition : Transition request.is_level2 request.state (decided_state approves request)
  pub written :
      advance_approval id request.state
        (decided_state approves request)
        (column_of request.state)
        c.member_id
        now_rows
      ≡ (true, out.rows)
  pub dispatched : Dispatch env applicant request (decided_state approves request) out.dispatched

found_of : (o : Option Approval) {a : Approval} → require o ≡ ok a → o ≡ some a
found_of (some x) e = ap some (ok_injective e)
found_of none e = cc

pair_true : (p : Bool × List Approval) → not p.0 ≡ false → p ≡ (true, p.1)
pair_true p e = ground arith

pub decide_approval-Decision :
    (env : DispatchEnv) (applicant : Option Applicant) (c : Claims) (id : ℕ)
    (approves comment_fits : Bool) (read_rows now_rows : List Approval) {out : Decided}
    → decide_approval env applicant c id approves comment_fits read_rows now_rows ≡ ok out
    → Decision env applicant c id approves read_rows now_rows out
unfolding decide_approval
decide_approval-Decision env applicant c id approves comment_fits read_rows now_rows {out} e =
    let (fits, k1) = raise_if-eq-ok (not comment_fits) invalid_param _ e in
    let (a, e2, k2) = >>=-eq-ok (require (get_approval c.org_id id read_rows)) _ k1 in
    let (u, e3, k3) = >>=-eq-ok (may_decide c a) _ k2 in
    let step =
      advance_approval id a.state (decided_state approves a) (column_of a.state) c.member_id
        now_rows in
    let (hit, k4) = raise_if-eq-ok (not step.0) approval_handled _ k3 in
    let who = may_decide-Authority c a e3 in
    subst (Decision env applicant c id approves read_rows now_rows) (ok_injective k4) (record {
      request = a;
      read = found_of (get_approval c.org_id id read_rows) e2;
      authority = who;
      transition = Transition-of approves c a who;
      written = pair_true step hit;
      dispatched = dispatch_approved-Dispatch env applicant a (decided_state approves a);
    })
