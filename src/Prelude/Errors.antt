-- ===== src/Prelude/Errors.antt =====
-- What a fallible call returns: a value or an error.
use mathlib.Core.Path.{◌≡◌, refl}
use mathlib.Core.Bool.{Bool, true, false}
use mathlib.Core.Logic.{◌⊎◌, inl, inr}

pub data Result {ℓ κ} (E : Type κ) (A : Type ℓ) : Type (ℓ ⊔ κ) where
  ok : A → Result E A
  err : E → Result E A

-- The error of the first call that fails, or the value of the last.
abbrev pub ◌>>=◌ {ℓ κ ι} :
    {E : Type κ} {A : Type ℓ} {B : Type ι} → Result E A → (A → Result E B) → Result E B
err why >>= next = err why
ok value >>= next = next value

abbrev pub ◌>>◌ {ℓ κ} : {E : Type κ} {B : Type ℓ} → Result E (Unit {0}) → Result E B → Result E B
check >> rest = check >>= λ passed. rest

infixl 5 ◌>>◌ ◌>>=◌
-- if c { return e }
abbrev pub raise_if {κ} : {E : Type κ} → Bool → E → Result E (Unit {0})
raise_if true why = err why
raise_if false why = ok tt

pub Result-cases {ℓ κ} :
    {E : Type κ} {A : Type ℓ} (r : Result E A)
    → ((value : A) × (r ≡ ok value)) ⊎ ((why : E) × (r ≡ err why))
Result-cases (err why) = inr (why, refl)
Result-cases (ok value) = inl (value, refl)

pub ok_injective {ℓ κ} :
    {E : Type κ} {A : Type ℓ} {x y : A} → ◌≡◌ {A = Result E A} (ok x) (ok y) → x ≡ y
ok_injective same = cc

module _ {ℓ κ ι} {E : Type κ} {A : Type ℓ} {B : Type ι} where
  -- A chain that returned: what its first call returned.
  pub >>=-eq-ok :
      (run : Result E A) (next : A → Result E B) {last : B}
      → (run >>= next) ≡ ok last
      → (value : A) × (run ≡ ok value) × (next value ≡ ok last)
  >>=-eq-ok (err why) next returned = cc
  >>=-eq-ok (ok value) next returned = (value, refl, returned)

-- A guard that was passed.
pub raise_if-eq-ok {ℓ κ} :
    {E : Type κ} {B : Type ℓ} (c : Bool) (why : E) (rest : Result E B) {last : B}
    → (raise_if c why >> rest) ≡ ok last
    → (c ≡ false) × (rest ≡ ok last)
raise_if-eq-ok false why rest returned = (refl, returned)
raise_if-eq-ok true why rest returned = cc
