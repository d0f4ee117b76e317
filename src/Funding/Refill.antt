-- ===== src/Funding/Refill.antt =====
-- What refillToWindow leaves on every branch.
use nexusapi_enterprise.Prelude.{
  ℕ, ◌≡◌, ◌⊎◌, refl, ap, sym, ◌∙◌, inl, inr, [], arith, Bool-cases, Result, Result-cases, ok, err,
  ok_injective, >>=-eq-ok, ◌>>◌, not, raise_if-eq-ok, ◌||◌,
}
use mathlib.Core.Path.{subst, subst₂}
use nexusapi_enterprise.Prelude.Int.{ℤ, pos, ◌+ℤ◌, ◌-ℤ◌, ◌≤ℤ◌, ◌<ℤ◌, int_laws, leb_ℤ}
use nexusapi_enterprise.Prelude.Int64.{IsInt64, i64, i64-IsInt64}
use nexusapi_enterprise.Errors.{AppError, internal}
use nexusapi_enterprise.Escrow.{released, escrowed}
use nexusapi_enterprise.Funding.{
  Store, Answers, Outcome, refill_tx, refill_to_window, refill_room, refilled_outcome, refill_calls,
  locked_window, escrow_window_cap,
}
use nexusapi_enterprise.Funding.Sound.{IsSound}
use nexusapi_enterprise.Funding.Tx.{with_tx-cases}
use nexusapi_enterprise.Funding.Merged.{MergedTx, refill_tx-MergedTx}

-- The outcome of a refill: what it reports is moved from the holdings into the window bucket and
-- announced, and is no more than the window's room; a refused refill writes and announces nothing.
pub record Refilled (a : Answers) (org : ℕ) (s : Store) (out : Outcome AppError ℤ) : Type 0 where
  pub sound : IsSound out.store
  pub accounts : out.store.accounts ≡ s.accounts
  pub window :
      (merged : ℤ)
      → out.result ≡ ok merged
      → released org out.store.buckets ≡ released org s.buckets +ℤ merged
  pub total : (o : ℕ) → escrowed o out.store.buckets ≡ escrowed o s.buckets
  pub announced : (merged : ℤ) → out.result ≡ ok merged → out.calls ≡ refill_calls merged
  pub refused : (e : AppError) → out.result ≡ err e → (out.store ≡ s) × (out.calls ≡ [])
  pub capped :
      (w merged : ℤ)
      → a.window ≡ ok w
      → out.result ≡ ok merged
      → (merged ≡ pos 0) ⊎ (merged ≤ℤ i64 (escrow_window_cap -ℤ w))

untouched-Refilled :
    (a : Answers) (org : ℕ) (s : Store) (res : Result AppError ℤ)
    → IsSound s
    → ((merged : ℤ) → res ≡ ok merged → merged ≡ pos 0)
    → Refilled a org s (record { result = res; store = s; calls = [] })
untouched-Refilled a org s res sound z = record {
  sound = sound;
  accounts = refl;
  window = λ merged e. rw (z merged e) (omega int_laws);
  total = λ o. refl;
  announced = λ merged e. rw (z merged e) refl;
  refused = λ e k. (refl, refl);
  capped = λ w merged k e. inl (z merged e);
}

merged_outcome-Refilled :
    (a : Answers) (org : ℕ) (window : ℤ) (s : Store) (out : ℤ × Store)
    → a.window ≡ ok window
    → MergedTx org (i64 (escrow_window_cap -ℤ window)) s out
    → Refilled a org s (refilled_outcome (ok out.0, out.1))
merged_outcome-Refilled a org window s out read m = record {
  sound = m.sound;
  accounts = m.accounts;
  window = λ merged e. m.window ∙ ap (λ x. released org s.buckets +ℤ x) (ok_injective e);
  total = m.total;
  announced = λ merged e. rw (ok_injective e) refl;
  refused = λ e k. cc;
  capped = λ w merged k e. inr (
      subst₂ (λ x y. x ≤ℤ i64 (escrow_window_cap -ℤ y)) (ok_injective e)
        (ok_injective (sym read ∙ k)) m.bound);
}

refused_read : {e : AppError} {w : ℤ} → ◌≡◌ {A = Result AppError ℤ} (err e) (ok w) → ⊥
refused_read k = cc

locked_window-read :
    (a : Answers) (w : ℤ) → (a.credential >> locked_window a) ≡ ok w → a.window ≡ ok w
locked_window-read a w e =
    let (u, k0, k1) = >>=-eq-ok a.credential _ e in
    let (free, k2) = raise_if-eq-ok (not a.lock_free) internal _ k1 in
    elim (Result-cases a.window) [
      | inl (v, read) ↦ read ∙ ap ok (ok_injective (rw read at k2))
      | inr (c, failed) ↦ absurd (refused_read (rw failed at k2))
    ]

error_is_not_ok : {E A : Type 0} {e : E} {a b : A} → ◌≡◌ {A = Result E A} (err e) (ok a) → a ≡ b
error_is_not_ok k = cc

refill_room-Refilled :
    (a : Answers) (org : ℕ) (trigger window : ℤ) (s : Store)
    → IsSound s
    → a.window ≡ ok window
    → Refilled a org s (refill_room a org trigger window s)
refill_room-Refilled a org trigger window s sound read =
    elim (Bool-cases (leb_ℤ trigger window || leb_ℤ (i64 (escrow_window_cap -ℤ window)) (pos 0))) [
      | inl idle ↦
          rw (idle, refill_room)
            (untouched-Refilled a org s (ok (pos 0)) sound (λ m e. sym (ok_injective e)))
      | inr room_left ↦
          let room = i64 (escrow_window_cap -ℤ window) in
          let wide : IsInt64 room = i64-IsInt64 (escrow_window_cap -ℤ window) in
          let positive : pos 0 <ℤ room = ground arith in
          let (out, runs, m) =
            refill_tx-MergedTx org room s sound positive (omega (int_laws, wide, positive)) in
          elim (with_tx-cases a.commits (refill_tx org room) s) [
            | inl (out', runs', done) ↦
                rw (room_left, refill_room)
                  (rw done (
                    merged_outcome-Refilled a org window s out' read
                      (subst (MergedTx org room s) (ok_injective (sym runs ∙ runs')) m)))
            | inr (e, undone) ↦
                rw (room_left, refill_room)
                  (rw undone
                    (untouched-Refilled a org s (err internal) sound (λ m k. error_is_not_ok k)))
          ]
    ]

-- refillToWindow keeps both books whatever new-api, the lock and the commit answer, and moves
-- exactly what it reports from the holdings into the window.
pub refill_to_window-Refilled :
    (a : Answers) (org : ℕ) (trigger : ℤ) (s : Store)
    → IsSound s
    → Refilled a org s (refill_to_window a org trigger s)
unfolding refill_to_window
refill_to_window-Refilled a org trigger s sound =
    elim (Result-cases (a.credential >> locked_window a)) [
      | inr (e, stopped) ↦
          rw (stopped, refill_to_window)
            (untouched-Refilled a org s (err e) sound (λ m k. error_is_not_ok k))
      | inl (window, passed) ↦
          rw (passed, refill_to_window)
            (refill_room-Refilled a org trigger window s sound (locked_window-read a window passed))
    ]

-- The same as one outcome or the other.
unfoldable pub RefillOutcome : Answers → ℕ → Store → Outcome AppError ℤ → Type 0
RefillOutcome a org s out =
    IsSound out.store
    × (out.store.accounts ≡ s.accounts)
    × ((o : ℕ) → escrowed o out.store.buckets ≡ escrowed o s.buckets)
    × (((w : ℤ) × (merged : ℤ) × (a.window ≡ ok w)
          × (out.result ≡ ok merged)
          × (released org out.store.buckets ≡ released org s.buckets +ℤ merged)
          × (out.calls ≡ refill_calls merged)
          × ((merged ≡ pos 0) ⊎ (merged ≤ℤ i64 (escrow_window_cap -ℤ w))))
        ⊎ ((e : AppError) × (out.result ≡ err e) × (out.store ≡ s) × (out.calls ≡ [])))
