-- ===== src/Escrow/Reduce/Window.antt =====
-- What the holding buckets lack, and the window bucket that gives it.
use nexusapi_enterprise.Prelude.{ok, err, ℕ, ◌≡◌, ◌⊎◌, ap, inl, inr, true, some, arith, Bool-cases}
use nexusapi_enterprise.Prelude.Int.{
  lt→ltb_ℤ, ℤ, pos, ◌+ℤ◌, ◌-ℤ◌, ◌≤ℤ◌, ◌<ℤ◌, ◌<ℤ◌, int_laws, ltb_ℤ, pos_part, neg_part,
}
use nexusapi_enterprise.Prelude.Int64.{stops, i64_id, IsInt64, i64}
use nexusapi_enterprise.Escrow.{
  EscrowBucket, Buckets, active, update_escrow_bucket_tx, get_active_escrow_bucket_tx,
}
use nexusapi_enterprise.Escrow.Table.{IsAmount}
use nexusapi_enterprise.Escrow.Reduce.{dec_of, reduce_window, reduce_rest}
use nexusapi_enterprise.Errors.{insufficient_balance}

-- What the holding buckets lack.
pub rest_of :
    (amount held held' r : ℤ)
    → pos 0 ≤ℤ held'
    → pos 0 ≤ℤ r
    → held' +ℤ amount ≡ held +ℤ r
    → (r ≡ pos 0) ⊎ (r +ℤ held ≡ amount)
    → r ≡ amount -ℤ dec_of amount held
rest_of amount held held' r n m e why = elim (Bool-cases (ltb_ℤ held amount)) [
  | inl less ↦
      let lt : held <ℤ amount = ground arith in
      rw less (elim why [
        | inl z ↦
            absurd (omega (int_laws, ap pos_part e, ap neg_part e, ap pos_part z, ap neg_part z))
        | inr s ↦ omega (int_laws, ap pos_part s, ap neg_part s)
      ])
  | inr covers ↦
      let le : amount ≤ℤ held = ground arith in
      rw covers (elim why [
        | inl z ↦ omega (int_laws, ap pos_part z, ap neg_part z)
        | inr s ↦ omega (int_laws, ap pos_part s, ap neg_part s)
      ])
]

dec_all : (remaining amount : ℤ) → remaining ≤ℤ amount → dec_of remaining amount ≡ remaining
dec_all remaining amount le = ground arith

dec_less : (remaining amount : ℤ) → amount <ℤ remaining → dec_of remaining amount ≡ amount
dec_less remaining amount lt = ground arith

pub reduce_rest_window :
    (org : ℕ) (a : EscrowBucket) (out : ℤ × Buckets)
    → ltb_ℤ (pos 0) out.0 ≡ true
    → get_active_escrow_bucket_tx org out.1 ≡ some a
    → reduce_rest org out ≡ reduce_window a out.0 out.1
reduce_rest_window org a out e f = rw e (rw f)

pub reduce_window_covers :
    (a : EscrowBucket) (remaining : ℤ) (rows : Buckets)
    → remaining ≤ℤ a.amount
    → reduce_window a remaining rows
      ≡ ok (remaining, update_escrow_bucket_tx a.id (i64 (a.amount -ℤ remaining)) active rows)
reduce_window_covers a remaining rows le = rw (dec_all remaining a.amount le) (rw (stops remaining))

pub reduce_window_short :
    (a : EscrowBucket) (remaining : ℤ) (rows : Buckets)
    → IsInt64 remaining
    → IsAmount a.amount
    → a.amount <ℤ remaining
    → reduce_window a remaining rows ≡ err insufficient_balance
reduce_window_short a remaining rows r k lt =
    let v : i64 (remaining -ℤ a.amount) ≡ remaining -ℤ a.amount =
      i64_id _ (omega (int_laws, r, k)) in
    let positive : ltb_ℤ (pos 0) (i64 (remaining -ℤ a.amount)) ≡ true =
      rw v (lt→ltb_ℤ (pos 0) (remaining -ℤ a.amount) (omega int_laws)) in
    rw (dec_less remaining a.amount lt) (rw positive)
