-- ===== src/Balance/Moves.antt =====
-- What the SET clauses of company_balance compute.
use nexusapi_enterprise.Prelude.{
  ℕ, ◌≡◌, refl, ap, sym, ◌∙◌, inl, inr, none, some, arith, Bool-cases, ok, ok_injective, >>=-eq-ok,
}
use mathlib.Core.Path.{subst}
use nexusapi_enterprise.Prelude.Int.{ℤ, pos, ◌+ℤ◌, ◌-ℤ◌, int_laws}
use nexusapi_enterprise.Prelude.Int64.{IsInt64, fits}
use nexusapi_enterprise.Balance.{
  bigint, Balance, Balances, zero_balance, set_recharged, set_refunded, set_consumed, balance_less,
}

-- The row of an organization, or the row that it would be given.
abbrev pub balance_of : ℕ → Balances → Balance
balance_of org bs = elim (bs org) [ none ↦ zero_balance | some b ↦ b ]

-- The balance is what was paid in less what was consumed and refunded.
abbrev pub IsConserved : Balance → Type 0
IsConserved b = b.balance ≡ b.total_recharged -ℤ b.total_consumed -ℤ b.total_refunded

-- What a writer leaves: the totals moved by the amounts, the balance conserved, the watermark kept.
pub record Moves (recharged consumed refunded : ℤ) (b b' : Balance) : Type 0 where
  pub conserved : IsConserved b'
  pub recharges : b'.total_recharged ≡ b.total_recharged +ℤ recharged
  pub consumes : b'.total_consumed ≡ b.total_consumed +ℤ consumed
  pub refunds : b'.total_refunded ≡ b.total_refunded +ℤ refunded
  pub watermark : b'.low_watermark ≡ b.low_watermark
  pub in_range : IsInt64 b'.total_recharged

bigint-eq-ok : (z : ℤ) {v : ℤ} → bigint z ≡ ok v → (v ≡ z) × IsInt64 z
bigint-eq-ok z {v} e = elim (Bool-cases (fits z)) [
  | inl within ↦ (sym (ok_injective (rw within at e)), ground arith)
  | inr outside ↦ absurd (ground arith)
]

pub set_recharged-Moves :
    (amount : ℤ) (b b' : Balance)
    → set_recharged amount b ≡ ok b'
    → Moves amount (pos 0) (pos 0) b b'
unfolding set_recharged
set_recharged-Moves amount b b' e =
    let (raised, e1, k1) = >>=-eq-ok (bigint (b.total_recharged +ℤ amount)) _ e in
    let (spent, e2, k2) = >>=-eq-ok (bigint (raised -ℤ b.total_consumed)) _ k1 in
    let (left, e3, k3) = >>=-eq-ok (bigint (spent -ℤ b.total_refunded)) _ k2 in
    let (next, e4, k4) = >>=-eq-ok (bigint (b.version +ℤ pos 1)) _ k3 in
    let v1 = bigint-eq-ok _ e1 in
    let v2 = bigint-eq-ok _ e2 in
    let v3 = bigint-eq-ok _ e3 in
    subst (Moves amount (pos 0) (pos 0) b) (ok_injective k4) (record {
      conserved = v3.0 ∙ ap (λ t. t -ℤ b.total_refunded) v2.0;
      recharges = v1.0;
      consumes = omega int_laws;
      refunds = omega int_laws;
      watermark = refl;
      in_range = rw (v1.0) v1.1;
    })

-- The balance that a refund or a deduction writes.
balance_less_lem :
    (amount : ℤ) (b : Balance) {v : ℤ}
    → balance_less amount b ≡ ok v
    → v ≡ b.total_recharged -ℤ b.total_consumed -ℤ b.total_refunded -ℤ amount
unfolding balance_less
balance_less_lem amount b e =
    let (spent, e1, k1) = >>=-eq-ok (bigint (b.total_recharged -ℤ b.total_consumed)) _ e in
    let (left, e2, k2) = >>=-eq-ok (bigint (spent -ℤ b.total_refunded)) _ k1 in
    let v1 = bigint-eq-ok _ e1 in
    let v2 = bigint-eq-ok _ e2 in
    let v3 = bigint-eq-ok _ k2 in
    v3.0 ∙ ap (λ t. t -ℤ amount) (v2.0 ∙ ap (λ t. t -ℤ b.total_refunded) v1.0)

less_refund : (r c f a : ℤ) → r -ℤ c -ℤ f -ℤ a ≡ r -ℤ c -ℤ (f +ℤ a)
less_refund r c f a = omega int_laws

less_consumption : (r c f a : ℤ) → r -ℤ c -ℤ f -ℤ a ≡ r -ℤ (c +ℤ a) -ℤ f
less_consumption r c f a = omega int_laws

pub set_refunded-Moves :
    (amount : ℤ) (b b' : Balance)
    → IsInt64 b.total_recharged
    → set_refunded amount b ≡ ok b'
    → Moves (pos 0) (pos 0) amount b b'
unfolding set_refunded
set_refunded-Moves amount b b' range e =
    let (left, e1, k1) = >>=-eq-ok (balance_less amount b) _ e in
    let (total, e2, k2) = >>=-eq-ok (bigint (b.total_refunded +ℤ amount)) _ k1 in
    let (next, e3, k3) = >>=-eq-ok (bigint (b.version +ℤ pos 1)) _ k2 in
    let v = bigint-eq-ok _ e2 in
    subst (Moves (pos 0) (pos 0) amount b) (ok_injective k3) (record {
      conserved =
          balance_less_lem amount b e1
          ∙ less_refund _ _ _ _
          ∙ ap (λ t. b.total_recharged -ℤ b.total_consumed -ℤ t) (sym v.0);
      recharges = omega int_laws;
      consumes = omega int_laws;
      refunds = v.0;
      watermark = refl;
      in_range = range;
    })

pub set_consumed-Moves :
    (amount : ℤ) (b b' : Balance)
    → IsInt64 b.total_recharged
    → set_consumed amount b ≡ ok b'
    → Moves (pos 0) amount (pos 0) b b'
unfolding set_consumed
set_consumed-Moves amount b b' range e =
    let (left, e1, k1) = >>=-eq-ok (balance_less amount b) _ e in
    let (total, e2, k2) = >>=-eq-ok (bigint (b.total_consumed +ℤ amount)) _ k1 in
    let (next, e3, k3) = >>=-eq-ok (bigint (b.version +ℤ pos 1)) _ k2 in
    let v = bigint-eq-ok _ e2 in
    subst (Moves (pos 0) amount (pos 0) b) (ok_injective k3) (record {
      conserved =
          balance_less_lem amount b e1
          ∙ less_consumption _ _ _ _
          ∙ ap (λ t. b.total_recharged -ℤ t -ℤ b.total_refunded) (sym v.0);
      recharges = omega int_laws;
      consumes = v.0;
      refunds = omega int_laws;
      watermark = refl;
      in_range = range;
    })
