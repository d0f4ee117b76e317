-- ===== src/Settlement/Windows.antt =====
-- The windows that are chosen can be read in full, and those of a backfill cover every second once.
use nexusapi_enterprise.Prelude.{
  ℕ, zero, suc, ◌+◌, ◌-◌, ◌/◌, ◌≤◌, ◌<◌, ◌≡◌, ◌⊎◌, inl, inr, ◌&&◌, ◌||◌, some, List, [], ◌∷◌, leb,
  if◌then◌else◌, arith, Bool-cases,
}
use nexusapi_enterprise.Prelude.Int.{pos, ltb_ℤ, ◌≤ℤ◌}
use nexusapi_enterprise.Settlement.{
  readable, choose_until, lower_bound, backfill_lower_bound, run_windows, window_read,
}

-- RunSettlement chooses a window that begins at `since`, is not empty, ends no later than asked, and
-- can be read in full unless it has shrunk to one second. The halving always ends.
pub choose_until-readable :
    (total : ℕ → ℕ) (fuel since until : ℕ)
    → since < until
    → until ≤ since + fuel
    → (u : ℕ) × (choose_until total fuel since until ≡ some u)
      × (since < u)
      × (u ≤ until)
      × ((total u ≤ 2000) ⊎ (u ≡ since + 1))
unfolding choose_until
choose_until-readable total zero since until lt le = absurd (omega (arith, lt, le))
choose_until-readable total (suc fuel) since until lt le =
    elim (Bool-cases (readable (total until) || leb until (since + 1))) [
      | inl stops ↦ (until, rw (stops, choose_until), lt, omega arith, ground arith)
      | inr halves ↦
          let wide : since + 1 < until = ground arith in
          let (u, runs, lo, hi, why) =
            choose_until-readable total fuel since (since + (until - since) / 2)
              (omega (arith, wide)) (omega (arith, wide, le)) in
          (u, rw (halves, choose_until) runs, lo, omega (arith, hi, wide), why)
    ]

lower_bound-readable :
    (total : ℕ → ℕ) (fuel lo hi : ℕ)
    → lo ≤ hi
    → hi < lo + fuel
    → (l : ℕ) × (lower_bound total fuel lo hi ≡ some l)
      × (l ≤ hi)
      × ((total l ≤ 2000) ⊎ (hi ≤ l + 1))
unfolding lower_bound
lower_bound-readable total zero lo hi le lt = absurd (omega (arith, le, lt))
lower_bound-readable total (suc fuel) lo hi le lt =
    elim (Bool-cases (readable (total lo) || leb (hi - 1) lo)) [
      | inl stops ↦ (lo, rw (stops, lower_bound), le, ground arith)
      | inr halves ↦
          let wide : lo < hi - 1 = ground arith in
          let (l, runs, in_range, why) =
            lower_bound-readable total fuel (hi - (hi - lo) / 2) hi (omega arith)
              (omega (arith, wide, lt)) in
          (l, rw (halves, lower_bound) runs, in_range, why)
    ]

-- A backfill window that ends at `hi` is always found, begins no later, and can be read in full
-- unless it has shrunk to the last two seconds.
pub backfill_lower_bound-readable :
    (total : ℕ → ℕ → ℕ) (hi : ℕ)
    → (lo : ℕ) × (backfill_lower_bound total hi ≡ some lo)
      × (lo ≤ hi)
      × ((total lo hi ≤ 2000) ⊎ (hi ≤ lo + 1))
backfill_lower_bound-readable total hi =
    lower_bound-readable (λ lo. total lo hi) (suc hi) 0 hi (omega arith) (omega arith)

-- How many of the windows hold a second.
unfoldable pub times_read : ℕ → List (ℕ × ℕ) → ℕ
times_read t [] = 0
times_read t (w ∷ ws) = (if leb w.0 t && leb t w.1 then 1 else 0) + times_read t ws

-- The cursor does not pass the upper end.
run_windows-le : (total : ℕ → ℕ → ℕ) (windows hi : ℕ) → (run_windows total windows hi).1 ≤ℤ pos hi
unfolding run_windows
run_windows-le total zero hi = omega arith
run_windows-le total (suc windows) zero = omega arith
run_windows-le total (suc windows) (suc h) =
    let (lo, found, in_range, why) = backfill_lower_bound-readable total (suc h) in
    rw (found, run_windows) (go (λ m. run_windows-le total windows m) lo in_range)
  where
    go :
        ((m : ℕ) → (run_windows total windows m).1 ≤ℤ pos m)
        → (lo : ℕ) → lo ≤ suc h
        → (window_read h lo (λ m. run_windows total windows m)).1 ≤ℤ pos (suc h)
    go ih zero le = omega arith
    go ih (suc m) le = omega (arith, ih m, le)

-- A slice of backfill reads every second above the cursor that it leaves exactly once, up to the
-- cursor that it began with, and no other second.
pub run_windows-once :
    (total : ℕ → ℕ → ℕ) (windows hi t : ℕ)
    → times_read t (run_windows total windows hi).0
      ≡ (if ltb_ℤ (run_windows total windows hi).1 (pos t) && leb t hi then 1 else 0)
unfolding run_windows times_read
run_windows-once total zero hi t = ground arith
run_windows-once total (suc windows) zero t = ground arith
run_windows-once total (suc windows) (suc h) t =
    let (lo, found, in_range, why) = backfill_lower_bound-readable total (suc h) in
    rw (found, run_windows) (go (λ m. run_windows-once total windows m t) lo in_range)
  where
    go :
        ((m : ℕ)
          → times_read t (run_windows total windows m).0
            ≡ (if ltb_ℤ (run_windows total windows m).1 (pos t) && leb t m then 1 else 0))
        → (lo : ℕ) → lo ≤ suc h
        → let out = window_read h lo (λ m. run_windows total windows m) in
          times_read t out.0 ≡ (if ltb_ℤ out.1 (pos t) && leb t (suc h) then 1 else 0)
    go ih zero le = ground arith
    go ih (suc m) le = ground (arith, ih m, run_windows-le total windows m, le)
