-- ===== src/Crypto/Law.antt =====
-- What was encrypted is decrypted, also by a later keyring that still has the key.
use nexusapi_enterprise.Prelude.{
  ℕ, ◌≡◌, refl, ap, sym, ◌∙◌, not, Option, none, some, List, [], ◌∷◌, ◌==◌, length, arith, ok,
  ◌>>=◌, >>=-eq-ok, raise_if-eq-ok, ok_injective,
}
use mathlib.Core.Path.{subst}
use nexusapi_enterprise.Prelude.Split.{split, join, IsWhole, split-whole, split-append}
use nexusapi_enterprise.Crypto.{
  CryptoError, empty_keyring, other_error, Cipher, Keyring, format_version, colon, key_size,
  lookup_key, all_sized, is_empty_keys, require_key, new_keyring, encrypt, parts_of, open_parts,
  decrypt, key_id_of, id_of_parts,
}

-- What Go documents of AES-GCM and of base64.
pub record IsCipher (box : Cipher) : Type 0 where
  pub opened :
      (key nonce text : List ℕ) → box.open_sealed key nonce (box.seal key nonce text) ≡ some text
  pub decoded : (text : List ℕ) → box.decode (box.encode text) ≡ some text
  pub whole : (text : List ℕ) → IsWhole colon (box.encode text)

require_key-ok :
    (e : CryptoError) (o : Option (List ℕ)) {k : List ℕ} → require_key e o ≡ ok k → o ≡ some k
require_key-ok e none h = cc
require_key-ok e (some x) h = ap some (ok_injective h)

-- A keyring that was accepted has its current key, of 32 bytes.
new_keyring-current :
    (current : List ℕ) (keys : List (List ℕ × List ℕ)) {kr : Keyring}
    → new_keyring current keys ≡ ok kr
    → (key : List ℕ) × (lookup_key kr.current_id kr.keys ≡ some key)
      × (length key ≡ 32)
      × (kr.current_id ≡ current)
unfolding new_keyring
new_keyring-current current keys {kr} h =
    let (_, h1) = raise_if-eq-ok (is_empty_keys keys) empty_keyring _ h in
    let (key, e2, h2) = >>=-eq-ok (require_key other_error (lookup_key current keys)) _ h1 in
    let (sized, h3) = raise_if-eq-ok (not (length key == key_size)) other_error _ h2 in
    let (_, h4) = raise_if-eq-ok (not (all_sized keys)) other_error _ h3 in
    let same = ok_injective h4 in
    let found = require_key-ok other_error (lookup_key current keys) e2 in
    (
      key,
      subst (λ x. lookup_key x.current_id x.keys ≡ some key) same found,
      ground arith,
      ap (λ x. x.current_id) (sym same),
    )

-- The four parts of what was joined.
split_parts :
    (id nonce sealed : List ℕ)
    → IsWhole colon id
    → IsWhole colon nonce
    → IsWhole colon sealed
    → split colon (join colon (format_version ∷ id ∷ nonce ∷ sealed ∷ []))
      ≡ format_version ∷ id ∷ nonce ∷ sealed ∷ []
unfolding join
split_parts id nonce sealed i n s =
    split-append colon format_version _ (refl, (refl, tt))
    ∙ ap (λ x. format_version ∷ x)
        (split-append colon id _ i
          ∙ ap (λ x. id ∷ x)
              (split-append colon nonce _ n ∙ ap (λ x. nonce ∷ x) (split-whole colon sealed s)))

module _ (box : Cipher) (law : IsCipher box) where
  open_parts-sealed :
      (kr : Keyring) (id key nonce text : List ℕ)
      → lookup_key id kr.keys ≡ some key
      → length key ≡ 32
      → length nonce ≡ 12
      → open_parts box kr (id, box.encode nonce, box.encode (box.seal key nonce text)) ≡ ok text
  open_parts-sealed kr id key nonce text found sized fits = rw found (
      rw (law.decoded nonce) (
        rw (law.decoded (box.seal key nonce text))
          (rw sized (rw fits (rw (law.opened key nonce text) refl)))))

  encrypt-sealed :
      (kr : Keyring) (key nonce text : List ℕ)
      → lookup_key kr.current_id kr.keys ≡ some key
      → length key ≡ 32
      → encrypt box kr (some nonce) text
        ≡ ok (
            join colon (
              format_version
              ∷ kr.current_id
              ∷ box.encode nonce
              ∷ box.encode (box.seal key nonce text)
              ∷ []))
  unfolding encrypt
  encrypt-sealed kr key nonce text found sized = rw found (rw sized refl)

  -- A keyring that NewKeyring accepted, whose key_id has no colon, encrypts every text, and a keyring
  -- that has the same key under that key_id, such as a later one with newer keys, decrypts it.
  -- AES-GCM opens what it sealed and base64 decodes what it encoded, without a colon.
  pub decrypt-encrypt :
      (kr later : Keyring) (current : List ℕ) (keys : List (List ℕ × List ℕ)) (nonce text : List ℕ)
      → new_keyring current keys ≡ ok kr
      → IsWhole colon current
      → length nonce ≡ 12
      → lookup_key kr.current_id later.keys ≡ lookup_key kr.current_id kr.keys
      → (sealed : List ℕ) × (encrypt box kr (some nonce) text ≡ ok sealed)
        × (decrypt box later sealed ≡ ok text)
        × (key_id_of sealed ≡ some current)
  unfolding encrypt decrypt key_id_of
  decrypt-encrypt kr later current keys nonce text accepted whole fits same =
      let (key, found, sized, at) = new_keyring-current current keys accepted in
      let id_whole : IsWhole colon kr.current_id = subst (IsWhole colon) (sym at) whole in
      let sealed = join colon (
        format_version
        ∷ kr.current_id
        ∷ box.encode nonce
        ∷ box.encode (box.seal key nonce text)
        ∷ []) in
      let parts =
        split_parts kr.current_id (box.encode nonce) (box.encode (box.seal key nonce text)) id_whole
          (law.whole nonce) (law.whole (box.seal key nonce text)) in
      let unsealed =
        ap (λ x. parts_of x >>= λ y. open_parts box later y) parts
        ∙ open_parts-sealed later kr.current_id key nonce text (same ∙ found) sized fits in
      (
        sealed,
        encrypt-sealed kr key nonce text found sized,
        unsealed,
        ap (λ x. id_of_parts (parts_of x)) parts ∙ ap some at,
      )
