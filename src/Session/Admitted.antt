-- ===== src/Session/Admitted.antt =====
-- What a request that requireAuth lets through has shown.
use nexusapi_enterprise.Prelude.{
  ℕ, suc, ◌<◌, ◌≡◌, ◌⊎◌, refl, ap, sym, ◌∙◌, inl, inr, Bool, true, false, not, ◌||◌, Option, none,
  some, some_injective, List, [], ◌∷◌, ltb, ◌==◌, arith, Bool-cases, if◌then◌else◌, Result, ok, err,
  >>=-eq-ok, raise_if, raise_if-eq-ok, ok_injective,
}
use mathlib.Core.Path.{subst}
use nexusapi_enterprise.Errors.{
  AppError, unauthenticated, forbidden, not_found_error, readonly_blocked,
}
use nexusapi_enterprise.Session.{SessionClaims, SessionError, Codec, Signer, verify}
use nexusapi_enterprise.Session.Law.{Signed, verify-Signed}
use nexusapi_enterprise.Session.Guard.{
  SessionMember, SupportSession, AuthStore, Method, find_session_member, is_session_member,
  find_support, validate_member, validate_session, is_read, is_readonly, is_money_or_key_redline,
  money_redline, guard_write, guard_support, check_support_guard, verified, require_bearer,
  require_auth, bump_epochs, bump_member_session_epoch,
}

-- The claims of a member's own session, of a reading and of a writing support session.
pub data Allowed (now : ℕ) (s : AuthStore) (c : SessionClaims) (method : Method) (path : List ℕ)
    : Type 0 where
  own_session :
      (m : SessionMember)
      → c.support_session_id ≡ 0
      → find_session_member c.org_id c.member_id s.members ≡ some m
      → m.is_active ≡ true
      → m.session_epoch ≡ c.epoch
      → Allowed now s c method path
  support_session :
      (x : SupportSession)
      → (c.support_session_id == 0) ≡ false
      → find_support c.support_session_id s.supports ≡ some x
      → x.is_active ≡ true
      → now < x.expire_at
      → x.org_id ≡ c.org_id
      → (is_read method ≡ true)
        ⊎ ((is_readonly c.support_scope ≡ false) × (is_money_or_key_redline method path ≡ false))
      → Allowed now s c method path

verified-ok :
    (r : Result SessionError SessionClaims) {c : SessionClaims} → verified r ≡ ok c → r ≡ ok c
verified-ok (err e) h = cc
verified-ok (ok d) h = ap ok (ok_injective h)

validate_member-own :
    (c : SessionClaims) (o : Option SessionMember) {u : Unit {0}}
    → validate_member c o ≡ ok u
    → (m : SessionMember) × (o ≡ some m) × (m.is_active ≡ true) × (m.session_epoch ≡ c.epoch)
validate_member-own c none h = cc
validate_member-own c (some m) h =
    let (active, h1) = raise_if-eq-ok (not m.is_active) unauthenticated _ h in
    (m, refl, ground arith, same (not (m.session_epoch == c.epoch)) refl h1)
  where
    same :
        (b : Bool) {u : Unit {0}}
        → not (m.session_epoch == c.epoch) ≡ b
        → raise_if b unauthenticated ≡ ok u
        → m.session_epoch ≡ c.epoch
    same true e k = cc
    same false e k = ground arith

raise_if-ok : (b : Bool) (e : AppError) {u : Unit {0}} → raise_if b e ≡ ok u → b ≡ false
raise_if-ok true e h = cc
raise_if-ok false e h = refl

guard_support-Allowed :
    (now : ℕ) (s : AuthStore) (c : SessionClaims) (method : Method) (path : List ℕ)
    (o : Option SupportSession) {u : Unit {0}}
    → (c.support_session_id == 0) ≡ false
    → find_support c.support_session_id s.supports ≡ o
    → guard_support now c method path o ≡ ok u
    → Allowed now s c method path
guard_support-Allowed now s c method path none sid e h = cc
guard_support-Allowed now s c method path (some x) sid e h =
    let (live, h1) = raise_if-eq-ok (not x.is_active || not (ltb now x.expire_at)) forbidden _ h in
    let (same, h2) = raise_if-eq-ok (not (x.org_id == c.org_id)) not_found_error _ h1 in
    support_session x sid e (ground arith) (ground arith) (ground arith)
      (way (is_read method) refl h2)
  where
    way :
        (b : Bool) {u : Unit {0}}
        → is_read method ≡ b
        → (if b then ok tt else guard_write c method path) ≡ ok u
        → (is_read method ≡ true)
          ⊎ ((is_readonly c.support_scope ≡ false) × (is_money_or_key_redline method path ≡ false))
    way true k h = inl k
    way false k h =
        let (scope, h1) = raise_if-eq-ok (is_readonly c.support_scope) readonly_blocked _ h in
        inr (scope, raise_if-ok (is_money_or_key_redline method path) money_redline h1)

-- A request that requireAuth lets through carries a token that the platform signed and that has not
-- expired. Either it is a member's own session: the member is there, active, and no change of its
-- rights has raised its epoch since; or it is a support session that is active, not expired and of the
-- claims' organization, and a write then is neither of a read-only session nor to one of the paths
-- that isMoneyOrKeyRedline lists. The reads of the database are taken to succeed.
pub require_auth-Allowed :
    (codec : Codec) (signer : Signer) (now : ℕ) (s : AuthStore) (bearer : Option (List ℕ))
    (method : Method) (path : List ℕ) {c : SessionClaims}
    → require_auth codec signer now s bearer method path ≡ ok c
    → (token : List ℕ) × (bearer ≡ some token)
      × Signed codec signer now token c
      × Allowed now s c method path
unfolding require_auth validate_session check_support_guard
require_auth-Allowed codec signer now s bearer method path {c} h =
    let (token, e1, h1) = >>=-eq-ok (require_bearer bearer) _ h in
    let (d, e2, h2) = >>=-eq-ok (verified (verify codec signer now token)) _ h1 in
    let (u3, e3, h3) = >>=-eq-ok (validate_session s d) _ h2 in
    let (u4, e4, h4) = >>=-eq-ok (check_support_guard now s d method path) _ h3 in
    let signed =
      verify-Signed codec signer now token (verified-ok (verify codec signer now token) e2) in
    let (signed', allowed') =
      subst (λ x. Signed codec signer now token x × Allowed now s x method path) (ok_injective h4)
        (signed, allowed d e3 e4) in
    (token, bearer-ok bearer e1, signed', allowed')
  where
    bearer-ok : (o : Option (List ℕ)) {t : List ℕ} → require_bearer o ≡ ok t → o ≡ some t
    bearer-ok none k = cc
    bearer-ok (some x) k = ap some (ok_injective k)

    allowed :
        (d : SessionClaims) {u v : Unit {0}}
        → validate_session s d ≡ ok u
        → check_support_guard now s d method path ≡ ok v
        → Allowed now s d method path
    allowed d k l = elim (Bool-cases (d.support_session_id == 0)) [
      | inl own ↦
          let (m, found, active, epoch) =
            validate_member-own d (find_session_member d.org_id d.member_id s.members)
              (rw (own, validate_session) at k) in
          own_session m (ground arith) found active epoch
      | inr support ↦
          guard_support-Allowed now s d method path (find_support d.support_session_id s.supports)
            support refl (rw (support, check_support_guard) at l)
    ]

find_session_member-bumped :
    (org id : ℕ) (ms : List SessionMember) {m : SessionMember}
    → find_session_member org id ms ≡ some m
    → find_session_member org id (bump_epochs org id ms)
      ≡ some (record m { session_epoch = suc m.session_epoch })
unfolding find_session_member bump_epochs
find_session_member-bumped org id [] e = cc
find_session_member-bumped org id (x ∷ xs) e = elim (Bool-cases (is_session_member org id x)) [
  | inl it ↦ elim (Bool-cases (x.is_deleted)) [
    | inl gone ↦
        rw it (rw it (rw gone (find_session_member-bumped org id xs (rw gone at (rw it at e)))))
    | inr here ↦ rw it (
        rw it (
          rw here (
            ap (λ (y : SessionMember). some (record y { session_epoch = suc y.session_epoch }))
              (some_injective (rw here at (rw it at e))))))
  ]
  | inr other ↦ rw other (rw other (find_session_member-bumped org id xs (rw other at e)))
]

-- When BumpMemberSessionEpoch has raised the epoch of a member, a request of the member's own session
-- is let through only with a token of the new epoch.
pub require_auth-epoch :
    (codec : Codec) (signer : Signer) (now org id : ℕ) (s : AuthStore) (bearer : Option (List ℕ))
    (method : Method) (path : List ℕ) (m : SessionMember) {c : SessionClaims}
    → find_session_member org id s.members ≡ some m
    → c.support_session_id ≡ 0
    → c.org_id ≡ org
    → c.member_id ≡ id
    → require_auth codec signer now (bump_member_session_epoch org id s) bearer method path ≡ ok c
    → c.epoch ≡ suc m.session_epoch
require_auth-epoch codec signer now org id s bearer method path m {c} found own at who h =
    let (token, _, _, allowed) =
      require_auth-Allowed codec signer now (bump_member_session_epoch org id s) bearer method path
        h in
    of allowed
  where
    bumped : AuthStore
    bumped = bump_member_session_epoch org id s

    of : Allowed now bumped c method path → c.epoch ≡ suc m.session_epoch
    of (own_session x zero_support found' active epoch) =
        let found'' =
          subst (λ y. find_session_member y id bumped.members ≡ some x) at
            (subst (λ y. find_session_member c.org_id y bumped.members ≡ some x) who found') in
        sym epoch
        ∙ ap (λ y. y.session_epoch)
            (some_injective (sym found'' ∙ find_session_member-bumped org id s.members found))
    of (support_session x sid found' active lives same way) = absurd (ground arith)
