-- ===== src/Rbac/Law.antt =====
-- What the checks of service/rbac.go let pass, against the matrix of roles written as predicates.
use nexusapi_enterprise.Prelude.{
  ℕ, ◌≡◌, ◌≢◌, ◌↔◌, ◌⊎◌, refl, inl, inr, Bool, true, Option, some, List, [], ◌∷◌, arith, Bool-cases,
  Has, ok, err,
}
use nexusapi_enterprise.Errors.{forbidden, not_found_error}
use nexusapi_enterprise.Rbac.{
  Role, Claims, operator, team_leader, member, same_role, assert_role, assert_org_scope,
  mvp_price_hidden, assert_team_scope, assert_self, mvp_hide_price,
}

same_role_sound : (r s : Role) → same_role r s ≡ true → r ≡ s
same_role_sound r s e = ground arith

same_role_refl : (r : Role) → same_role r r ≡ true
same_role_refl r = ground arith

pub assert_role-ok :
    (c : Claims) (allowed : List Role) → assert_role c allowed ≡ ok tt → Has c.role allowed
unfolding assert_role
assert_role-ok c [] e = cc
assert_role-ok c (r ∷ allowed) e = elim (Bool-cases (same_role c.role r)) [
  | inl same ↦ inl (ground (arith, same_role_sound c.role r same))
  | inr other ↦ inr (assert_role-ok c allowed (rw other at e))
]

assert_role-allows :
    (c : Claims) (allowed : List Role) → Has c.role allowed → assert_role c allowed ≡ ok tt
unfolding assert_role
assert_role-allows c [] h = absurd h
assert_role-allows c (r ∷ allowed) (inl e) = rw e (rw (same_role_refl c.role))
assert_role-allows c (r ∷ allowed) (inr h) = elim (Bool-cases (same_role c.role r)) [
  | inl same ↦ rw same
  | inr other ↦ rw other (assert_role-allows c allowed h)
]

assert_role-forbids :
    (c : Claims) (allowed : List Role)
    → (assert_role c allowed ≡ ok tt) ⊎ (assert_role c allowed ≡ err forbidden)
unfolding assert_role
assert_role-forbids c [] = inr refl
assert_role-forbids c (r ∷ allowed) = elim (Bool-cases (same_role c.role r)) [
  | inl same ↦ inl (rw same)
  | inr other ↦ rw other (assert_role-forbids c allowed)
]

-- A role is let pass exactly if it is on the list; any other is refused with 403.
assert_role-decides :
    (c : Claims) (allowed : List Role)
    → ((assert_role c allowed ≡ ok tt) ↔ Has c.role allowed)
      × ((assert_role c allowed ≡ ok tt) ⊎ (assert_role c allowed ≡ err forbidden))
assert_role-decides c allowed =
    ((assert_role-ok c allowed, assert_role-allows c allowed), assert_role-forbids c allowed)

-- Another organization is hidden from every role but the operator's: 404, not 403.
pub assert_org_scope-decides :
    (c : Claims) (target : ℕ)
    → ((assert_org_scope c target ≡ ok tt) ↔ ((c.role ≡ operator) ⊎ (c.org_id ≡ target)))
      × ((assert_org_scope c target ≡ ok tt) ⊎ (assert_org_scope c target ≡ err not_found_error))
unfolding assert_org_scope
assert_org_scope-decides c target = ground arith

-- A team leader reaches exactly the members of the one team led; the other roles are not bound.
pub assert_team_scope-decides :
    (c : Claims) (team : Option ℕ)
    → ((assert_team_scope c team ≡ ok tt)
        ↔ ((c.role ≢ team_leader) ⊎ ((c.team_id ≢ 0) × (team ≡ some c.team_id))))
      × ((assert_team_scope c team ≡ ok tt) ⊎ (assert_team_scope c team ≡ err forbidden))
unfolding assert_team_scope
assert_team_scope-decides c team = ground arith

-- A member acts on no member but himself.
pub assert_self-decides :
    (c : Claims) (target : ℕ)
    → ((assert_self c target ≡ ok tt) ↔ ((c.role ≢ member) ⊎ (c.member_id ≡ target)))
      × ((assert_self c target ≡ ok tt) ⊎ (assert_self c target ≡ err forbidden))
unfolding assert_self
assert_self-decides c target = ground arith

-- Prices are hidden exactly in observe mode, from a caller that is neither the operator nor an
-- operator in a support session.
mvp_hide_price-decides :
    (observe : Bool) (c : Claims)
    → ((mvp_hide_price observe c ≡ err not_found_error)
        ↔ ((observe ≡ true) × (c.role ≢ operator) × (c.support_session_id ≡ 0)))
      × ((mvp_hide_price observe c ≡ ok tt) ⊎ (mvp_hide_price observe c ≡ err not_found_error))
unfolding mvp_hide_price mvp_price_hidden
mvp_hide_price-decides observe c = ground arith
