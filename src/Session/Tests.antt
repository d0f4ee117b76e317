-- ===== src/Session/Tests.antt =====
-- A token that is issued and verified, and a member whose epoch was raised.
use nexusapi_enterprise.Prelude.{
  ℕ, ◌+◌, ◌-◌, ◌≡◌, refl, ap, ◌∙◌, true, false, Option, none, some, some_injective, List, [], ◌∷◌,
  ◌++◌, ◌==◌, arith, if◌then◌else◌, ok,
}
use mathlib.Core.Path.{subst}
use nexusapi_enterprise.Prelude.Split.{IsWhole, split}
use nexusapi_enterprise.Rbac.{Role, operator, org_admin, team_leader, member}
use nexusapi_enterprise.Session.{
  SupportScope, no_scope, support_readonly, support_assist, SessionClaims, Codec, Signer, dot,
  with_times, issue, verify, is_blank_text,
}
use nexusapi_enterprise.Session.Law.{IsCodec, Signed, verify-issue}
use nexusapi_enterprise.Session.Guard.{
  SessionMember, AuthStore, method_post, find_session_member, validate_session, check_support_guard,
  require_auth, bump_epochs, bump_member_session_epoch,
}
use nexusapi_enterprise.Session.Admitted.{Allowed, require_auth-Allowed, require_auth-epoch}

abbrev shifted : List ℕ → List ℕ
shifted [] = []
shifted (b ∷ bs) = (b + 100) ∷ shifted bs

abbrev unshifted : List ℕ → List ℕ
unshifted [] = []
unshifted (b ∷ bs) = (b - 100) ∷ unshifted bs

unshifted-shifted : (t : List ℕ) → unshifted (shifted t) ≡ t
unshifted-shifted [] = refl
unshifted-shifted (b ∷ bs) = ground (arith, unshifted-shifted bs)

shifted-IsWhole : (t : List ℕ) → IsWhole dot (shifted t)
shifted-IsWhole [] = tt
shifted-IsWhole (b ∷ bs) = (ground arith, shifted-IsWhole bs)

shifted_blank : (t : List ℕ) → is_blank_text (shifted t) ≡ is_blank_text t
shifted_blank [] = refl
shifted_blank (b ∷ bs) = refl

abbrev role_code : Option Role → ℕ
role_code none = 0
role_code (some operator) = 1
role_code (some org_admin) = 2
role_code (some team_leader) = 3
role_code (some member) = 4

abbrev role_of : ℕ → Option Role
role_of n =
    if n == 1
    then some operator
    else if n == 2
    then some org_admin
    else if n == 3
    then some team_leader
    else if n == 4
    then some member
    else none

role_of-role_code : (r : Option Role) → role_of (role_code r) ≡ r
role_of-role_code none = refl
role_of-role_code (some operator) = refl
role_of-role_code (some org_admin) = refl
role_of-role_code (some team_leader) = refl
role_of-role_code (some member) = refl

abbrev scope_code : SupportScope → ℕ
scope_code no_scope = 0
scope_code support_readonly = 1
scope_code support_assist = 2

abbrev scope_of : ℕ → SupportScope
scope_of n = if n == 1 then support_readonly else if n == 2 then support_assist else no_scope

scope_of-scope_code : (x : SupportScope) → scope_of (scope_code x) ≡ x
scope_of-scope_code no_scope = refl
scope_of-scope_code support_readonly = refl
scope_of-scope_code support_assist = refl

abbrev numbers_of : SessionClaims → List ℕ
numbers_of c =
    c.member_id
    ∷ c.org_id
    ∷ role_code c.role
    ∷ c.team_id
    ∷ c.support_session_id
    ∷ scope_code c.support_scope
    ∷ c.epoch
    ∷ c.issued_at
    ∷ c.expires_at
    ∷ []

abbrev claims_of : List ℕ → Option SessionClaims
claims_of (m ∷ o ∷ r ∷ t ∷ s ∷ x ∷ e ∷ i ∷ z ∷ []) = some (record {
  member_id = m;
  org_id = o;
  role = role_of r;
  team_id = t;
  support_session_id = s;
  support_scope = scope_of x;
  epoch = e;
  issued_at = i;
  expires_at = z;
})
claims_of _ = none

abbrev sample_codec : Codec
sample_codec = record {
  marshal = λ c. some (numbers_of c);
  unmarshal = claims_of;
  encode_url = shifted;
  decode_url = λ text. some (unshifted text);
  mac = λ key text. 7 ∷ [];
}

claims_of-numbers_of : (c : SessionClaims) → claims_of (numbers_of c) ≡ some c
claims_of-numbers_of c =
    ap
      (λ (r : Option Role).
        some (record c { role = r; support_scope = scope_of (scope_code c.support_scope) }))
      (role_of-role_code c.role)
    ∙ ap (λ (x : SupportScope). some (record c { support_scope = x }))
        (scope_of-scope_code c.support_scope)

sample_codec-IsCodec : IsCodec sample_codec
sample_codec-IsCodec = record {
  read_back =
      λ c text e. subst (λ x. claims_of x ≡ some c) (some_injective e) (claims_of-numbers_of c);
  not_blank = λ c text e. subst (λ x. is_blank_text x ≡ false) (some_injective e) refl;
  decoded = λ text. ap some (unshifted-shifted text);
  whole = shifted-IsWhole;
  shown = shifted_blank;
  mac_shown = λ key text. refl;
}

abbrev signer : Signer
signer = record { key = 5 ∷ []; ttl = 60 }

abbrev owner : ℕ → SessionClaims
owner epoch = record {
  member_id = 4;
  org_id = 3;
  role = some org_admin;
  team_id = 0;
  support_session_id = 0;
  support_scope = no_scope;
  epoch = epoch;
  issued_at = 0;
  expires_at = 0;
}

abbrev token_at : ℕ → List ℕ
token_at epoch = shifted (numbers_of (with_times signer 1000 (owner epoch))) ++ (dot ∷ 107 ∷ [])

issued : issue sample_codec signer 1000 (owner 2) ≡ some (token_at 2)
unfolding issue
issued = refl

verify-issue_example :
    verify sample_codec signer 1059 (token_at 2) ≡ ok (with_times signer 1000 (owner 2))
verify-issue_example =
    verify-issue sample_codec sample_codec-IsCodec signer 1000 1059 (owner 2) org_admin (token_at 2)
      issued refl

abbrev sample_store : ℕ → AuthStore
sample_store epoch = record {
  members =
      record { id = 4; org_id = 3; is_active = true; session_epoch = epoch; is_deleted = false }
      ∷ [];
  supports = [];
  next_support = 1;
}

let_through :
    require_auth sample_codec signer 1059 (sample_store 2) (some (token_at 2)) method_post (47 ∷ [])
    ≡ ok (with_times signer 1000 (owner 2))
unfolding require_auth verify split validate_session check_support_guard find_session_member
let_through = refl

require_auth-Allowed_example :
    (token : List ℕ) × (some (token_at 2) ≡ some token)
    × Signed sample_codec signer 1059 token (with_times signer 1000 (owner 2))
    × Allowed 1059 (sample_store 2) (with_times signer 1000 (owner 2)) method_post (47 ∷ [])
require_auth-Allowed_example =
    require_auth-Allowed sample_codec signer 1059 (sample_store 2) (some (token_at 2)) method_post
      (47 ∷ []) let_through

abbrev sample_member : SessionMember
sample_member = record {
  id = 4;
  org_id = 3;
  is_active = true;
  session_epoch = 1;
  is_deleted = false;
}

found_member : find_session_member 3 4 (sample_store 1).members ≡ some sample_member
unfolding find_session_member
found_member = refl

let_through_again :
    require_auth sample_codec signer 1059
      (bump_member_session_epoch 3 4 (sample_store 1))
      (some (token_at 2))
      method_post
      (47 ∷ [])
    ≡ ok (with_times signer 1000 (owner 2))
unfolding require_auth verify split validate_session check_support_guard find_session_member
    bump_epochs
let_through_again = refl

require_auth-epoch_example : (with_times signer 1000 (owner 2)).epoch ≡ 2
require_auth-epoch_example =
    require_auth-epoch sample_codec signer 1059 3 4 (sample_store 1) (some (token_at 2)) method_post
      (47 ∷ []) sample_member found_member refl refl refl let_through_again
