-- ===== src/Credentials/Law.antt =====
-- How often withOrgCred runs its operation, and with which credential.
use nexusapi_enterprise.Prelude.{
  ℕ, ◌≡◌, refl, ap, sym, ◌∙◌, inl, inr, Bool, true, false, not, Option, none, some, some_injective,
  List, Bool-cases, Result, ok, err, >>=-eq-ok, ◌>>◌, raise_if, raise_if-eq-ok, ok_injective,
}
use mathlib.Core.Path.{subst}
use nexusapi_enterprise.Errors.{AppError, internal, forbidden}
use nexusapi_enterprise.Newapi.Classify.{UpstreamError, auth_expired}
use nexusapi_enterprise.Credentials.{
  CallError, upstream, app, OrgUser, OrgAccount, MemberCred, KeyringApi, CredEnv, CredOp, cred_of,
  crypto_result, org_cred, load_org_cred, refresh_cred, stored_cred, renew, ensure_fresh_cred,
  retry_fresh, heal, run_with, is_hard_stopped, may_act, user_cred, loaded_cred, renew_locked,
  with_org_cred, load_read, refreshed, org_newapi_username,
}

-- What was encrypted is decrypted.
abbrev pub IsKeyring : KeyringApi → Type 0
IsKeyring ring =
    (plain cipher : List ℕ)
    → ring.encrypt_string plain ≡ some cipher
    → ring.decrypt_string cipher ≡ some plain

-- The credential that the account stores.
abbrev pub Stores : KeyringApi → OrgAccount → MemberCred → Type 0
Stores ring org cred = (u : OrgUser) × (org.user ≡ some u) × (cred_of ring u ≡ ok cred)

pub data Ran {S A : Type 0} (env : CredEnv) (org : OrgAccount) (op : CredOp S A) (s : S)
    : Result CallError A × OrgAccount × S → Type 0 where
  refused : (e : AppError) → Ran env org op s (err (app e), org, s)
  ran_once :
      (cred : MemberCred)
      → is_hard_stopped org ≡ false
      → Stores env.keyring org cred
      → (org' : OrgAccount) → Ran env org op s ((op cred s).0, org', (op cred s).1)
  ran_twice :
      (cred fresh : MemberCred) (u : UpstreamError) (org' : OrgAccount)
      → is_hard_stopped org ≡ false
      → Stores env.keyring org cred
      → (op cred s).0 ≡ err (upstream u)
      → auth_expired u ≡ true
      → Stores env.keyring org' fresh
      → Ran env org op s ((op fresh (op cred s).1).0, org', (op fresh (op cred s).1).1)

refresh_cred-encrypts :
    (env : CredEnv) (u : OrgUser) {token cipher : List ℕ}
    → refresh_cred env u ≡ ok (token, cipher)
    → env.keyring.encrypt_string token ≡ some cipher
unfolding refresh_cred
refresh_cred-encrypts env u {token} {cipher} h =
    let (_, h1) = raise_if-eq-ok (not env.password_reads) _ _ h in
    let (pw, e2, h2) = >>=-eq-ok (crypto_result (env.keyring.decrypt_string u.password_enc)) _ h1 in
    let (t, e3, h3) =
      >>=-eq-ok (refreshed (env.refresh_access_token (org_newapi_username env u) pw)) _ h2 in
    let (c, e4, h4) = >>=-eq-ok (crypto_result (env.keyring.encrypt_string t)) _ h3 in
    let (_, h5) = raise_if-eq-ok (not env.writes) _ _ h4 in
    subst (λ x. env.keyring.encrypt_string x.0 ≡ some (x.1)) (ok_injective h5)
      (encrypted (env.keyring.encrypt_string t) e4)
  where
    encrypted : {A : Type 0} (o : Option A) {v : A} → crypto_result o ≡ ok v → o ≡ some v
    encrypted none e = cc
    encrypted (some x) e = ap some (ok_injective e)

cred_of-decrypted :
    (ring : KeyringApi) (u : OrgUser) {token : List ℕ}
    → ring.decrypt_string u.access_token_enc ≡ some token
    → cred_of ring u ≡ ok (record { newapi_user_id = u.newapi_user_id; access_token = token })
cred_of-decrypted ring u e = rw e refl

stored_cred-Stores :
    (env : CredEnv) (org : OrgAccount) (u : OrgUser) {fresh : MemberCred}
    → IsKeyring env.keyring
    → (stored_cred org u (refresh_cred env u)).0 ≡ ok fresh
    → Stores env.keyring (stored_cred org u (refresh_cred env u)).1 fresh
stored_cred-Stores env org u {fresh} law h = of (refresh_cred env u) refl h
  where
    of :
        (r : Result AppError (List ℕ × List ℕ))
        → refresh_cred env u ≡ r
        → (stored_cred org u r).0 ≡ ok fresh
        → Stores env.keyring (stored_cred org u r).1 fresh
    of (err e) k h = cc
    of (ok (token, cipher)) k h = (
      record u { access_token_enc = cipher },
      refl,
      cred_of-decrypted env.keyring (record u { access_token_enc = cipher })
            (law token cipher (refresh_cred-encrypts env u k))
          ∙ h,
    )

load_org_cred-Stores :
    (env : CredEnv) (org : OrgAccount) {u : OrgUser} {cred : MemberCred}
    → load_org_cred env org ≡ ok (some (u, cred))
    → (org.user ≡ some u) × (cred_of env.keyring u ≡ ok cred)
unfolding load_org_cred
load_org_cred-Stores env org {u} {cred} h =
    let (v, e1, h1) = >>=-eq-ok (load_read env.fresh_reads) _ h in of org.user h1
  where
    of :
        (o : Option OrgUser)
        → loaded_cred env.keyring o ≡ ok (some (u, cred))
        → (o ≡ some u) × (cred_of env.keyring u ≡ ok cred)
    of none k = absurd (nothing (ok_injective k))
      where
        nothing : ◌≡◌ {A = Option (OrgUser × MemberCred)} none (some (u, cred)) → ⊥
        nothing k = cc
    of (some x) k =
        let (c, e, k1) = >>=-eq-ok (cred_of env.keyring x) _ k in
        let same = some_injective (ok_injective k1) in
        let at : x ≡ u = ap (λ y. y.0) same in
        let read : c ≡ cred = ap (λ y. y.1) same in
        (ap some at, subst (λ y. cred_of env.keyring y ≡ ok cred) at (e ∙ ap ok read))

renew-Stores :
    (env : CredEnv) (org : OrgAccount)
    → IsKeyring env.keyring
    → (r : Result AppError (Option (OrgUser × MemberCred))) → load_org_cred env org ≡ r
    → {fresh : MemberCred} → (renew env org r).0 ≡ ok fresh
    → Stores env.keyring (renew env org r).1 fresh
renew-Stores env org law (err e) loads h = cc
renew-Stores env org law (ok none) loads h = cc
renew-Stores env org law (ok (some (u, cred))) loads {fresh} h =
    elim (Bool-cases (env.probe_access_token cred)) [
      | inl valid ↦
          let (at, whose) = load_org_cred-Stores env org loads in
          rw valid (u, at, whose ∙ rw valid at h)
      | inr stale ↦ rw stale (stored_cred-Stores env org u law (rw stale at h))
    ]

ensure_fresh_cred-Stores :
    (env : CredEnv) (org : OrgAccount)
    → IsKeyring env.keyring
    → {fresh : MemberCred} → (ensure_fresh_cred env org).0 ≡ ok fresh
    → Stores env.keyring (ensure_fresh_cred env org).1 fresh
unfolding ensure_fresh_cred
ensure_fresh_cred-Stores env org law {fresh} h = of env.lock_works h
  where
    of :
        (b : Bool)
        → (renew_locked env org b).0 ≡ ok fresh
        → Stores env.keyring (renew_locked env org b).1 fresh
    of true k = renew-Stores env org law (load_org_cred env org) refl k
    of false k = cc

may_act-Stores :
    (env : CredEnv) (org : OrgAccount) {cred : MemberCred}
    → may_act env org ≡ ok cred
    → (is_hard_stopped org ≡ false) × Stores env.keyring org cred
unfolding org_cred
may_act-Stores env org {cred} h =
    let (_, h1) =
      raise_if-eq-ok (not env.org_reads) internal
        (raise_if (is_hard_stopped org) forbidden >> org_cred env org) h in
    let (free, h2) = raise_if-eq-ok (is_hard_stopped org) forbidden (org_cred env org) h1 in
    let (_, h3) =
      raise_if-eq-ok (not env.cred_reads) internal (user_cred env.keyring org.user) h2 in
    (free, of org.user refl h3)
  where
    of :
        (o : Option OrgUser)
        → org.user ≡ o
        → user_cred env.keyring o ≡ ok cred
        → Stores env.keyring org cred
    of none at k = cc
    of (some x) at k = (x, at, k)

module _ {S A : Type 0} (env : CredEnv) (org : OrgAccount) (op : CredOp S A) (s : S)
    (law : IsKeyring env.keyring) (cred : MemberCred) (free : is_hard_stopped org ≡ false)
    (stores : Stores env.keyring org cred) where
  retry_fresh-Ran :
      (u : UpstreamError)
      → op cred s ≡ (err (upstream u), (op cred s).1)
      → auth_expired u ≡ true
      → (r : Result AppError MemberCred × OrgAccount) → ensure_fresh_cred env org ≡ r
      → Ran env org op s (retry_fresh op u (op cred s).1 r)
  retry_fresh-Ran u first old (err e, org') k =
      subst (λ x. Ran env org op s (x, org', (op cred s).1)) (ap (λ y. y.0) first)
        (ran_once cred free stores org')
  retry_fresh-Ran u first old (ok fresh, org') k =
      ran_twice cred fresh u org' free stores (ap (λ y. y.0) first) old (
        subst (λ x. Stores env.keyring x.1 fresh) k
          (ensure_fresh_cred-Stores env org law (ap (λ y. y.0) k)))

  heal-Ran : (r : Result CallError A × S) → op cred s ≡ r → Ran env org op s (heal env org op r)
  heal-Ran (ok v, s') k =
      subst (λ x. Ran env org op s (x.0, org, x.1)) k (ran_once cred free stores org)
  heal-Ran (err (app e), s') k =
      subst (λ x. Ran env org op s (x.0, org, x.1)) k (ran_once cred free stores org)
  heal-Ran (err (upstream u), s') k = elim (Bool-cases (auth_expired u)) [
    | inl old ↦ rw old (
        subst (λ x. Ran env org op s (retry_fresh op u x (ensure_fresh_cred env org)))
          (ap (λ y. y.1) k)
          (retry_fresh-Ran u (k ∙ ap (λ x. (err (upstream u), x)) (sym (ap (λ y. y.1) k))) old
            (ensure_fresh_cred env org) refl))
    | inr other ↦
        rw other (subst (λ x. Ran env org op s (x.0, org, x.1)) k (ran_once cred free stores org))
  ]

-- withOrgCred runs the operation never, with an error of the platform; or once, with the credential
-- that the organization stores; or a second time after an expired authorization, with the credential
-- that the organization stores then. It never runs for an organization that is hard-stopped. The
-- keyring decrypts what it encrypted.
pub with_org_cred-Ran :
    {S A : Type 0} (env : CredEnv) (org : OrgAccount) (op : CredOp S A) (s : S)
    → IsKeyring env.keyring
    → Ran env org op s (with_org_cred env org op s)
unfolding with_org_cred
with_org_cred-Ran env org op s law = of (may_act env org) refl
  where
    of :
        (r : Result AppError MemberCred)
        → may_act env org ≡ r
        → Ran env org op s (run_with env org op s r)
    of (err e) k = refused e
    of (ok cred) k =
        let (free, stores) = may_act-Stores env org k in
        heal-Ran env org op s law cred free stores (op cred s) refl
