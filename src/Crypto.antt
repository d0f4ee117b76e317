-- ===== src/Crypto.antt =====
-- pkg/crypto/crypto.go: the format v1:<key_id>:<nonce>:<ciphertext> of an encrypted field and the
-- keyring that reads and writes it. AES-GCM and base64 are of Go's standard library, and arguments.
pub mod Law
mod Tests
use nexusapi_enterprise.Prelude.{
  ℕ, Bool, true, false, not, ◌||◌, Option, none, some, List, [], ◌∷◌, ◌==◌, same_text, length,
  if◌then◌else◌, Result, ok, err, ◌>>=◌, ◌>>◌, raise_if,
}
use nexusapi_enterprise.Prelude.Split.{split, join}

-- ErrEmptyKeyring, ErrBadCiphertext, ErrUnknownKeyID, or an error of the standard library or of the
-- configuration.
pub data CryptoError : Type 0 where
  empty_keyring bad_ciphertext unknown_key_id other_error : CryptoError

-- AES-GCM's Seal and Open by key and nonce, and base64.StdEncoding.
pub record Cipher : Type 0 where
  pub seal : List ℕ → List ℕ → List ℕ → List ℕ
  pub open_sealed : List ℕ → List ℕ → List ℕ → Option (List ℕ)
  pub encode : List ℕ → List ℕ
  pub decode : List ℕ → Option (List ℕ)

pub record Keyring : Type 0 where
  pub keys : List (List ℕ × List ℕ)
  pub current_id : List ℕ

-- "v1", ":", KeySize and the size of a nonce.
abbrev pub format_version : List ℕ
format_version = 118 ∷ 49 ∷ []

abbrev pub colon : ℕ
colon = 58

abbrev pub key_size : ℕ
key_size = 32

abbrev pub nonce_size : ℕ
nonce_size = 12

unfoldable pub lookup_key : List ℕ → List (List ℕ × List ℕ) → Option (List ℕ)
lookup_key id [] = none
lookup_key id ((i, k) ∷ others) =
    let rest = lookup_key id others in if same_text i id then some k else rest

unfoldable pub all_sized : List (List ℕ × List ℕ) → Bool
all_sized [] = true
all_sized ((i, k) ∷ others) =
    let rest = all_sized others in if length k == key_size then rest else false

abbrev pub is_empty_keys : List (List ℕ × List ℕ) → Bool
is_empty_keys [] = true
is_empty_keys (_ ∷ _) = false

abbrev pub require_key : CryptoError → Option (List ℕ) → Result CryptoError (List ℕ)
require_key e none = err e
require_key e (some k) = ok k

-- NewKeyring
unfoldable pub new_keyring : List ℕ → List (List ℕ × List ℕ) → Result CryptoError Keyring
new_keyring current_id keys = do
  raise_if (is_empty_keys keys) empty_keyring
  cur ← require_key other_error (lookup_key current_id keys)
  raise_if (not (length cur == key_size)) other_error
  raise_if (not (all_sized keys)) other_error
  ok (record { keys = keys; current_id = current_id })

-- newGCM: aes.NewCipher takes keys of 16, 24 and 32 bytes.
abbrev pub new_gcm : List ℕ → Result CryptoError (Unit {0})
new_gcm key = raise_if (not (length key == 16 || length key == 24 || length key == 32)) other_error

abbrev pub key_or_nil : Option (List ℕ) → List ℕ
key_or_nil none = []
key_or_nil (some k) = k

-- Encrypt, with what rand.Read gives for the nonce.
unfoldable pub encrypt : Cipher → Keyring → Option (List ℕ) → List ℕ → Result CryptoError (List ℕ)
encrypt box kr random plaintext = do
  new_gcm (key_or_nil (lookup_key kr.current_id kr.keys))
  nonce ← require_key other_error random
  ok (
      join colon (
        format_version
        ∷ kr.current_id
        ∷ box.encode nonce
        ∷ box.encode (box.seal (key_or_nil (lookup_key kr.current_id kr.keys)) nonce plaintext)
        ∷ []))

-- The parts of a ciphertext: the key_id, the nonce and the sealed text.
abbrev pub parts_of : List (List ℕ) → Result CryptoError (List ℕ × List ℕ × List ℕ)
parts_of (version ∷ id ∷ nonce ∷ sealed ∷ []) =
    if same_text version format_version then ok (id, nonce, sealed) else err bad_ciphertext
parts_of _ = err bad_ciphertext

abbrev pub open_parts : Cipher → Keyring → List ℕ × List ℕ × List ℕ → Result CryptoError (List ℕ)
open_parts box kr (id, nonce64, sealed64) = do
  key ← require_key unknown_key_id (lookup_key id kr.keys)
  nonce ← require_key bad_ciphertext (box.decode nonce64)
  sealed ← require_key bad_ciphertext (box.decode sealed64)
  new_gcm key
  raise_if (not (length nonce == nonce_size)) bad_ciphertext
  require_key bad_ciphertext (box.open_sealed key nonce sealed)

-- Decrypt
unfoldable pub decrypt : Cipher → Keyring → List ℕ → Result CryptoError (List ℕ)
decrypt box kr s = parts_of (split colon s) >>= λ parts. open_parts box kr parts

abbrev pub id_of_parts : Result CryptoError (List ℕ × List ℕ × List ℕ) → Option (List ℕ)
id_of_parts (err e) = none
id_of_parts (ok (id, nonce, sealed)) = some id

-- KeyIDOf
unfoldable pub key_id_of : List ℕ → Option (List ℕ)
key_id_of s = id_of_parts (parts_of (split colon s))
