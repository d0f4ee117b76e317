-- ===== src/Crypto/Tests.antt =====
-- A text that is encrypted under one key and decrypted by a keyring with a newer one.
use nexusapi_enterprise.Prelude.{ℕ, ◌+◌, ◌-◌, ◌≡◌, refl, ap, some, List, [], ◌∷◌, arith, ok}
use nexusapi_enterprise.Prelude.Split.{IsWhole}
use nexusapi_enterprise.Crypto.{
  Cipher, Keyring, colon, new_keyring, lookup_key, all_sized, encrypt, decrypt, key_id_of,
}
use nexusapi_enterprise.Crypto.Law.{IsCipher, decrypt-encrypt}

-- An encoding without a colon.
abbrev shift : List ℕ → List ℕ
shift [] = []
shift (b ∷ bs) = (b + 100) ∷ shift bs

abbrev unshift : List ℕ → List ℕ
unshift [] = []
unshift (b ∷ bs) = (b - 100) ∷ unshift bs

unshift-shift : (t : List ℕ) → unshift (shift t) ≡ t
unshift-shift [] = refl
unshift-shift (b ∷ bs) = ground (arith, unshift-shift bs)

shift-IsWhole : (t : List ℕ) → IsWhole colon (shift t)
shift-IsWhole [] = tt
shift-IsWhole (b ∷ bs) = (ground arith, shift-IsWhole bs)

abbrev box : Cipher
box = record {
  seal = λ key nonce text. text;
  open_sealed = λ key nonce text. some text;
  encode = shift;
  decode = λ text. some (unshift text);
}

box-IsCipher : IsCipher box
box-IsCipher = record {
  opened = λ key nonce text. refl;
  decoded = λ text. ap some (unshift-shift text);
  whole = shift-IsWhole;
}

abbrev four : List ℕ → List ℕ
four rest = 1 ∷ 2 ∷ 3 ∷ 4 ∷ rest

abbrev old_key : List ℕ
old_key = four (four (four (four (four (four (four (four [])))))))

abbrev old_keys : List (List ℕ × List ℕ)
old_keys = (118 ∷ 49 ∷ [], old_key) ∷ []

abbrev old_ring : Keyring
old_ring = record { keys = old_keys; current_id = 118 ∷ 49 ∷ [] }

abbrev new_ring : Keyring
new_ring = record { keys = (118 ∷ 50 ∷ [], old_key) ∷ old_keys; current_id = 118 ∷ 50 ∷ [] }

old_accepted : new_keyring (118 ∷ 49 ∷ []) old_keys ≡ ok old_ring
unfolding new_keyring lookup_key all_sized
old_accepted = refl

same_key : lookup_key (118 ∷ 49 ∷ []) new_ring.keys ≡ lookup_key (118 ∷ 49 ∷ []) old_keys
unfolding lookup_key
same_key = refl

decrypt-encrypt_example :
    (sealed : List ℕ) × (encrypt box old_ring (some (four (four (four [])))) (9 ∷ 8 ∷ [])
      ≡ ok sealed)
    × (decrypt box new_ring sealed ≡ ok (9 ∷ 8 ∷ []))
    × (key_id_of sealed ≡ some (118 ∷ 49 ∷ []))
decrypt-encrypt_example =
    decrypt-encrypt box box-IsCipher old_ring new_ring (118 ∷ 49 ∷ []) old_keys
      (four (four (four []))) (9 ∷ 8 ∷ []) old_accepted (refl, (refl, tt)) refl same_key
