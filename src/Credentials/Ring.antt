-- ===== src/Credentials/Ring.antt =====
-- The keyring of pkg/crypto as the one that the credentials are kept with.
use nexusapi_enterprise.Prelude.{
  ℕ, ◌≡◌, refl, ap, sym, ◌∙◌, Option, none, some, some_injective, List, length, Result, ok, err,
}
use mathlib.Core.Path.{subst}
use nexusapi_enterprise.Prelude.Split.{IsWhole}
use nexusapi_enterprise.Crypto.{CryptoError, Cipher, Keyring, colon, new_keyring, encrypt, decrypt}
use nexusapi_enterprise.Crypto.Law.{IsCipher, decrypt-encrypt}
use nexusapi_enterprise.Credentials.{KeyringApi}
use nexusapi_enterprise.Credentials.Law.{IsKeyring}

abbrev pub to_option : {A : Type 0} → Result CryptoError A → Option A
to_option (ok v) = some v
to_option (err e) = none

-- EncryptString and DecryptString, with the nonce of the one encryption that withOrgCred may do.
abbrev pub keyring_api : Cipher → Keyring → List ℕ → KeyringApi
keyring_api box kr nonce = record {
  encrypt_string = λ text. to_option (encrypt box kr (some nonce) text);
  decrypt_string = λ sealed. to_option (decrypt box kr sealed);
}

-- The platform's keyring is one that decrypts what it encrypted.
pub keyring_api-IsKeyring :
    (box : Cipher) (kr : Keyring) (current : List ℕ) (keys : List (List ℕ × List ℕ))
    (nonce : List ℕ)
    → IsCipher box
    → new_keyring current keys ≡ ok kr
    → IsWhole colon current
    → length nonce ≡ 12
    → IsKeyring (keyring_api box kr nonce)
keyring_api-IsKeyring box kr current keys nonce law accepted whole fits plain cipher e =
    let (sealed, enc, dec, _) =
      decrypt-encrypt box law kr kr current keys nonce plain accepted whole fits refl in
    let at : sealed ≡ cipher = some_injective (sym (ap to_option enc) ∙ e) in
    subst (λ x. to_option (decrypt box kr x) ≡ some plain) at (ap to_option dec)
