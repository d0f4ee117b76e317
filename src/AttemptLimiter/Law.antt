-- ===== src/AttemptLimiter/Law.antt =====
-- The locks that failures set, for any number of failures.
use nexusapi_enterprise.Prelude.{
  ℕ, zero, suc, ◌+◌, ◌-◌, ◌*◌, ◌^◌, ◌≤◌, ◌<◌, ◌≡◌, ◌≢◌, ◌↔◌, refl, ap, sym, ◌∙◌, inl, inr, Bool,
  true, false, ◌||◌, ◌&&◌, Option, none, some, ltb, leb, ◌==◌, if◌then◌else◌, arith, Bool-cases,
  Option-cases,
}
use native.Mathlib.Nat.{two-pow-succ}
use nexusapi_enterprise.Prelude.Int.{ℤ, pos, ◌+ℤ◌, ◌-ℤ◌, ◌≤ℤ◌, ◌<ℤ◌, ltb_ℤ, leb_ℤ, eqb_ℤ, int_laws}
use nexusapi_enterprise.Prelude.Int64.{i64}
use nexusapi_enterprise.AttemptLimiter.{
  AttemptState, Attempts, threshold, base_lock, max_lock, retry_after, lock_time, fails_before,
  locked_before, failed_state, fail, reset, gate,
}

unfoldable all_below : ℕ → (ℕ → Bool) → Bool
all_below zero p = true
all_below (suc n) p = p n && all_below n p

all_below-at : (n : ℕ) (p : ℕ → Bool) (k : ℕ) → all_below n p ≡ true → k < n → p k ≡ true
unfolding all_below
all_below-at zero p k e lt = absurd (omega (arith, lt))
all_below-at (suc n) p k e lt = elim (Bool-cases (k == n)) [
  | inl same ↦ let at_n : k ≡ n = ground arith in rw at_n (both e).0
  | inr other ↦ all_below-at n p k (both e).1 (ground arith)
]
  where
    both : (p n && all_below n p) ≡ true → (p n ≡ true) × (all_below n p ≡ true)
    both h = ground arith

abbrev expected_lock : ℕ → ℤ
expected_lock k = if ltb k 5 then pos (base_lock * 2 ^ k) else max_lock

-- Thirty shifts, evaluated.
first_shifts : all_below 30 (λ k. eqb_ℤ (lock_time k) (expected_lock k)) ≡ true
unfolding all_below lock_time i64
first_shifts = refl

same_ℤ : (a b : ℤ) → eqb_ℤ a b ≡ true → a ≡ b
same_ℤ a b e = ground arith

abbrev capped : ℤ → ℤ
capped d = if leb_ℤ d (pos 0) || ltb_ℤ max_lock d then max_lock else d

-- A multiple of 2^40 is 0 modulo 2^64, or negative, or above the cap.
wide_shift : (m : ℕ) → capped (i64 (pos (1099511627776 * m))) ≡ max_lock
unfolding i64
wide_shift m = ground arith

two_pow-add : (j : ℕ) → base_lock * 2 ^ (j + 30) ≡ 1099511627776 * (29296875 * 2 ^ j)
two_pow-add zero = refl
two_pow-add (suc j) =
    let e : 2 ^ (suc j + 30) ≡ 2 ^ (j + 30) + 2 ^ (j + 30) =
      ap (λ n. 2 ^ n) (suc_out j) ∙ two-pow-succ (j + 30) in
    omega (arith, e, two-pow-succ j, two_pow-add j)
  where
    suc_out : (n : ℕ) → suc n + 30 ≡ suc (n + 30)
    suc_out n = omega arith

late_shifts : (k : ℕ) → 30 ≤ k → lock_time k ≡ max_lock
unfolding lock_time
late_shifts k le =
    let split : base_lock * 2 ^ k ≡ 1099511627776 * (29296875 * 2 ^ (k - 30)) =
      ap (λ n. base_lock * 2 ^ n) (sum_back k le) ∙ two_pow-add (k - 30) in
    ap (λ x. capped (i64 (pos x))) split ∙ wide_shift (29296875 * 2 ^ (k - 30))
  where
    sum_back : (n : ℕ) → 30 ≤ n → n ≡ (n - 30) + 30
    sum_back n h = omega (arith, h)

-- The lock is 30 s doubled with each failure above the fifth, and 15 minutes from the fifth doubling
-- on.
pub lock_time-doubles :
    (k : ℕ) → lock_time k ≡ (if ltb k 5 then pos (base_lock * 2 ^ k) else max_lock)
lock_time-doubles k = elim (Bool-cases (ltb k 30)) [
  | inl early ↦
      same_ℤ (lock_time k) (expected_lock k)
        (all_below-at 30 (λ n. eqb_ℤ (lock_time n) (expected_lock n)) k first_shifts (ground arith))
  | inr late ↦
      let above : 30 ≤ k = ground arith in
      let big : ltb k 5 ≡ false = ground arith in rw big (late_shifts k above)
]

capped-positive : (d : ℤ) → pos 0 <ℤ capped d
capped-positive d = ground arith

lock_time-positive : (k : ℕ) → pos 0 <ℤ lock_time k
unfolding lock_time
lock_time-positive k = capped-positive (i64 (pos (base_lock * 2 ^ k)))

ahead : (now d : ℤ) → now +ℤ d -ℤ now ≡ d
ahead now d = omega int_laws

abbrev remaining : ℤ → AttemptState → ℤ
remaining now s = if ltb_ℤ (pos 0) (s.locked_until -ℤ now) then s.locked_until -ℤ now else pos 0

fail-others : (now : ℤ) (key : ℕ) (st : Attempts) (k : ℕ) → k ≢ key → fail now key st k ≡ st k
unfolding fail
fail-others now key st k ne = ground arith

fail-row :
    (now : ℤ) (key : ℕ) (st : Attempts) → fail now key st key ≡ some (failed_state now (st key))
unfolding fail
fail-row now key st = ground arith

retry_after-row :
    (now : ℤ) (key : ℕ) (st : Attempts) (s : AttemptState)
    → st key ≡ some s
    → retry_after now key st ≡ remaining now s
unfolding retry_after
retry_after-row now key st s e = rw (e, retry_after)

retry_after-missing :
    (now : ℤ) (key : ℕ) (st : Attempts) → st key ≡ none → retry_after now key st ≡ pos 0
unfolding retry_after
retry_after-missing now key st e = rw (e, retry_after)

remaining-locked :
    (now lock : ℤ) (n : ℕ)
    → pos 0 <ℤ lock
    → remaining now (record { fails = n; locked_until = now +ℤ lock }) ≡ lock
remaining-locked now lock n p =
    let more : ltb_ℤ (pos 0) lock ≡ true = ground arith in rw (ahead now lock) (rw more)

remaining-zero :
    (now : ℤ) (n : ℕ)
    → pos 0 ≤ℤ now
    → remaining now (record { fails = n; locked_until = pos 0 }) ≡ pos 0
remaining-zero now n p =
    let none_left : ltb_ℤ (pos 0) (pos 0 -ℤ now) ≡ false = not_more now p in rw none_left
  where
    not_more : (z : ℤ) → pos 0 ≤ℤ z → ltb_ℤ (pos 0) (pos 0 -ℤ z) ≡ false
    not_more z q = elim (Bool-cases (ltb_ℤ (pos 0) (pos 0 -ℤ z))) [
      | inr h ↦ h
      | inl h ↦ let lt : pos 0 <ℤ pos 0 -ℤ z = ground arith in absurd (omega (int_laws, lt, q))
    ]

failed-remaining :
    (now : ℤ) (old : Option AttemptState)
    → remaining now (failed_state now old) ≡ (
        if leb threshold (suc (fails_before old))
        then lock_time (suc (fails_before old) - threshold)
        else remaining now (record { fails = fails_before old; locked_until = locked_before old }))
failed-remaining now old = elim (Bool-cases (leb threshold (suc (fails_before old)))) [
  | inl reached ↦
      let lock = lock_time (suc (fails_before old) - threshold) in
      rw (reached, failed_state)
        (remaining-locked now lock (suc (fails_before old))
          (lock_time-positive (suc (fails_before old) - threshold)))
  | inr below ↦ rw (below, failed_state)
]

-- A failure raises the key's count by one. The key is then locked for the time of that count, if the
-- count is five or more, and otherwise as it was before. No other key changes. (The zero time stands at 0, not
-- after any time of a call.)
pub fail-locks :
    (now : ℤ) (key : ℕ) (st : Attempts)
    → pos 0 ≤ℤ now
    → (fails_before (fail now key st key) ≡ suc (fails_before (st key)))
      × (retry_after now key (fail now key st) ≡ (
          if leb threshold (suc (fails_before (st key)))
          then lock_time (suc (fails_before (st key)) - threshold)
          else retry_after now key st))
      × ((k : ℕ) → k ≢ key → fail now key st k ≡ st k)
fail-locks now key st p = (
  ap fails_before (fail-row now key st),
  retry_after-row now key (fail now key st) (failed_state now (st key)) (fail-row now key st)
      ∙ failed-remaining now (st key)
      ∙ ap
          (λ x.
            if leb threshold (suc (fails_before (st key)))
            then lock_time (suc (fails_before (st key)) - threshold)
            else x)
          before,
  fail-others now key st,
)
  where
    before :
        remaining now
          (record { fails = fails_before (st key); locked_until = locked_before (st key) })
        ≡ retry_after now key st
    before = elim (Option-cases (st key)) [
      | inl missing ↦
          rw (missing, fails_before, locked_before)
            (remaining-zero now 0 p ∙ sym (retry_after-missing now key st missing))
      | inr (s, found) ↦
          rw (found, fails_before, locked_before) (sym (retry_after-row now key st s found))
    ]

-- A success clears the count, and no other key changes.
pub reset-clears :
    (now : ℤ) (key : ℕ) (st : Attempts)
    → (retry_after now key (reset key st) ≡ pos 0)
      × (fails_before (reset key st key) ≡ 0)
      × ((k : ℕ) → k ≢ key → reset key st k ≡ st k)
unfolding reset
reset-clears now key st =
    (retry_after-missing now key (reset key st) (ground arith), ground arith, λ k ne. ground arith)

-- The gate is shut exactly while the account or the address is locked.
gate-decides :
    (now : ℤ) (account address : ℕ) (st : Attempts)
    → (gate now account address st ≡ none)
      ↔ ((retry_after now account st ≤ℤ pos 0) × (retry_after now address st ≤ℤ pos 0))
unfolding gate
gate-decides now account address st = ground arith
