-- ===== src/Session/Law.antt =====
-- A token that was issued is verified until it expires, and only a signed token is verified.
use nexusapi_enterprise.Prelude.{
  ℕ, ◌<◌, ◌≡◌, refl, ap, sym, ◌∙◌, Bool, true, false, not, ◌||◌, Option, none, some, some_injective,
  List, [], ◌∷◌, ◌++◌, leb, same_text, same_text_refl, arith, if◌then◌else◌, ok, err, ◌>>=◌,
  >>=-eq-ok, ◌>>◌, raise_if, raise_if-eq-ok, ok_injective,
}
use mathlib.Core.Path.{subst}
use nexusapi_enterprise.Prelude.Split.{split, join, IsWhole, split-whole, split-append, join-split}
use nexusapi_enterprise.Rbac.{Role}
use nexusapi_enterprise.Session.{
  SessionClaims, invalid_token, token_expired, Codec, Signer, dot, sign, with_times, signed_token,
  issue, is_blank_text, token_parts, require_valid, check_claims, verify_parts, verify,
}

-- What Go documents of JSON, base64 and HMAC.
pub record IsCodec (codec : Codec) : Type 0 where
  pub read_back :
      (c : SessionClaims) (text : List ℕ)
      → codec.marshal c ≡ some text
      → codec.unmarshal text ≡ some c
  pub not_blank :
      (c : SessionClaims) (text : List ℕ) → codec.marshal c ≡ some text → is_blank_text text ≡ false
  pub decoded : (text : List ℕ) → codec.decode_url (codec.encode_url text) ≡ some text
  pub whole : (text : List ℕ) → IsWhole dot (codec.encode_url text)
  pub shown : (text : List ℕ) → is_blank_text (codec.encode_url text) ≡ is_blank_text text
  pub mac_shown : (key text : List ℕ) → is_blank_text (codec.mac key text) ≡ false

same_text-eq : (a b : List ℕ) → same_text a b ≡ true → a ≡ b
same_text-eq [] [] h = refl
same_text-eq (x ∷ xs) (y ∷ ys) h =
    let head : x ≡ y = ground arith in
    let rest : same_text xs ys ≡ true = ground arith in
    ap (λ z. z ∷ xs) head ∙ ap (λ z. y ∷ z) (same_text-eq xs ys rest)
same_text-eq [] (y ∷ ys) h = cc
same_text-eq (x ∷ xs) [] h = cc

module _ (codec : Codec) (law : IsCodec codec) where
  issued_parts :
      (s : Signer) (c : SessionClaims) (payload : List ℕ)
      → codec.marshal c ≡ some payload
      → token_parts
          (split dot (codec.encode_url payload ++ (dot ∷ sign codec s (codec.encode_url payload))))
        ≡ ok (codec.encode_url payload, sign codec s (codec.encode_url payload))
  issued_parts s c payload made =
      ap token_parts (
        split-append dot (codec.encode_url payload) (sign codec s (codec.encode_url payload))
          (law.whole payload)
        ∙ ap (λ x. codec.encode_url payload ∷ x)
            (split-whole dot (sign codec s (codec.encode_url payload))
              (law.whole (codec.mac s.key (codec.encode_url payload)))))
      ∙ rw (law.shown payload ∙ law.not_blank c payload made) (
          rw
            (law.shown (codec.mac s.key (codec.encode_url payload))
              ∙ law.mac_shown s.key (codec.encode_url payload))
            refl)

  verify_parts-signed :
      (s : Signer) (now : ℕ) (c : SessionClaims) (payload : List ℕ)
      → codec.marshal c ≡ some payload
      → verify_parts codec s now (codec.encode_url payload, sign codec s (codec.encode_url payload))
        ≡ check_claims now c
  verify_parts-signed s now c payload made =
      rw (same_text_refl (sign codec s (codec.encode_url payload)))
        (rw (law.decoded payload) (rw (law.read_back c payload made) refl))

  -- A token that was issued is verified until the time of its expiry, with the claims it was issued
  -- for and the times that were filled in, and is expired from then on. JSON, base64 and HMAC are as
  -- Go documents them.
  pub verify-issue :
      (s : Signer) (issued now : ℕ) (c : SessionClaims) (r : Role) (token : List ℕ)
      → issue codec s issued c ≡ some token
      → c.role ≡ some r
      → verify codec s now token ≡ (
          if leb (with_times s issued c).expires_at now
          then err token_expired
          else ok (with_times s issued c))
  unfolding verify issue
  verify-issue s issued now c r token made valid =
      of (codec.marshal (with_times s issued c)) refl made
    where
      checked :
          (d : SessionClaims)
          → d.role ≡ some r
          → check_claims now d ≡ (if leb d.expires_at now then err token_expired else ok d)
      checked d e =
          ap
            (λ o. require_valid o >>= λ role. raise_if (leb d.expires_at now) token_expired >> ok d)
            e
          ∙ either (leb d.expires_at now)
        where
          either :
              (b : Bool)
              → (raise_if b token_expired >> ok d) ≡ (if b then err token_expired else ok d)
          either true = refl
          either false = refl

      of :
          (o : Option (List ℕ))
          → codec.marshal (with_times s issued c) ≡ o
          → signed_token codec s o ≡ some token
          → verify codec s now token ≡ (
              if leb (with_times s issued c).expires_at now
              then err token_expired
              else ok (with_times s issued c))
      of none k h = cc
      of (some payload) k h =
          ap (verify codec s now) (sym (some_injective h))
          ∙ ap (λ x. x >>= λ parts. verify_parts codec s now parts)
              (issued_parts s (with_times s issued c) payload k)
          ∙ verify_parts-signed s now (with_times s issued c) payload k
          ∙ checked (with_times s issued c) valid

-- What a verified token is.
pub record Signed (codec : Codec) (s : Signer) (now : ℕ) (token : List ℕ) (c : SessionClaims)
    : Type 0 where
  pub payload64 : List ℕ
  pub payload : List ℕ
  pub role : Role
  pub is_signed : token ≡ payload64 ++ (dot ∷ sign codec s payload64)
  pub decodes : codec.decode_url payload64 ≡ some payload
  pub reads : codec.unmarshal payload ≡ some c
  pub has_role : c.role ≡ some role
  pub lives : now < c.expires_at

require_valid-ok : {A : Type 0} (o : Option A) {v : A} → require_valid o ≡ ok v → o ≡ some v
require_valid-ok none h = cc
require_valid-ok (some x) h = ap some (ok_injective h)

token_parts-two :
    (ps : List (List ℕ)) {parts : List ℕ × List ℕ}
    → token_parts ps ≡ ok parts
    → ps ≡ parts.0 ∷ parts.1 ∷ []
token_parts-two [] h = cc
token_parts-two (a ∷ []) h = cc
token_parts-two (a ∷ b ∷ c ∷ ps) h = cc
token_parts-two (a ∷ b ∷ []) {parts} h = of (is_blank_text a || is_blank_text b) h
  where
    of :
        (x : Bool)
        → (if x then err invalid_token else ok (a, b)) ≡ ok parts
        → a ∷ b ∷ [] ≡ parts.0 ∷ parts.1 ∷ []
    of true k = cc
    of false k = ap (λ p. p.0 ∷ p.1 ∷ []) (ok_injective k)

-- Whatever text is sent: if it is verified, it is a payload with the signature of that payload by the
-- platform's key, and its claims are read from the payload, have one of the four roles and have not
-- expired.
pub verify-Signed :
    (codec : Codec) (s : Signer) (now : ℕ) (token : List ℕ) {c : SessionClaims}
    → verify codec s now token ≡ ok c
    → Signed codec s now token c
unfolding verify join
verify-Signed codec s now token {c} h =
    let (parts, e1, h1) = >>=-eq-ok (token_parts (split dot token)) _ h in
    let (same, h2) =
      raise_if-eq-ok (not (same_text parts.1 (sign codec s parts.0))) invalid_token _ h1 in
    let (payload, e3, h3) = >>=-eq-ok (require_valid (codec.decode_url parts.0)) _ h2 in
    let (d, e4, h4) = >>=-eq-ok (require_valid (codec.unmarshal payload)) _ h3 in
    let (r, e5, h5) = >>=-eq-ok (require_valid d.role) _ h4 in
    let (lives, h6) = raise_if-eq-ok (leb d.expires_at now) token_expired _ h5 in
    let two = token_parts-two (split dot token) e1 in
    let signature = same_text-eq parts.1 (sign codec s parts.0) (ground arith) in
    subst (Signed codec s now token) (ok_injective h6) (record {
      payload64 = parts.0;
      payload = payload;
      role = r;
      is_signed =
          sym (join-split dot token) ∙ ap (join dot) two ∙ ap (λ x. parts.0 ++ (dot ∷ x)) signature;
      decodes = require_valid-ok (codec.decode_url parts.0) e3;
      reads = require_valid-ok (codec.unmarshal payload) e4;
      has_role = require_valid-ok d.role e5;
      lives = ground arith;
    })
