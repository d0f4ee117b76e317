-- ===== src/Usage/Backfilled.antt =====
-- A window of a backfill keeps the books of usage.
use nexusapi_enterprise.Prelude.{
  All-map, ℕ, ◌^◌, ◌≤◌, ◌<◌, ◌≡◌, ◌⊎◌, refl, ap, ◌∙◌, inl, inr, Bool, true, false, List, [], ◌∷◌,
  arith, Bool-cases, if◌then◌else◌, Result, Result-cases, ok, err, ok_injective, >>=-eq-ok, All,
}
use mathlib.Core.Path.{subst}
use nexusapi_enterprise.Prelude.Int.{pos, ◌≤ℤ◌, ◌<ℤ◌}
use nexusapi_enterprise.Prelude.Int64.{two_63}
use nexusapi_enterprise.Errors.{RepoError}
use nexusapi_enterprise.Funding.{ServiceError}
use nexusapi_enterprise.Settlement.{LogEntry, settlement_max_pages, belongs_to_backfill}
use nexusapi_enterprise.Settlement.Streams.{select}
use nexusapi_enterprise.Usage.{
  TokenAttr, empty_sink, detail_of, UsageTables, has_log, ingest_all, commit_usage_only,
  or_repo_error,
}
use nexusapi_enterprise.Usage.Batch.{NoneFree, sum_quotas}
use nexusapi_enterprise.Usage.Run.{
  Cursor, SettlementStore, get_or_create_cursor, is_missing, is_costly, collect_pages, is_empty,
}
use nexusapi_enterprise.Usage.Backfill.{
  BackfillJob, BackfillEnv, select_lower_bound, is_of_job, backfill_tx, read_window,
  backfill_one_window, is_blank, WindowReport, backfilled, write_window, window_report,
}
use nexusapi_enterprise.Usage.Reads.{pages_read, collect_pages-select}
use nexusapi_enterprise.Usage.Selected.{
  select-All, NoneTwice-select, sum_quotas-select, sum_quotas-select_le, NoneFree-select,
}
use nexusapi_enterprise.Usage.Commit.{IsFresh, commit_usage_only-IsSummed, commit_usage_only-All}
use nexusapi_enterprise.Usage.Settled.{InWindow, IsFaithful, IsBehind, IsTimed, is_missing-unheld}
use nexusapi_enterprise.Usage.Booked.{IsBooked, All_details, All_both}

pub if_either :
    {A : Type 0} (P : A → Type 0) (c : Bool) {x y : A} → P x → P y → P (if c then x else y)
if_either P true p q = p
if_either P false p q = q

or_repo_error-ok : {A : Type 0} (r : Result RepoError A) {v : A} → or_repo_error r ≡ ok v → r ≡ ok v
or_repo_error-ok (ok x) e = ap ok (ok_injective e)
or_repo_error-ok (err why) e = cc

-- The boundary of a backfill is not above the cursor.
abbrev pub IsBelow : BackfillJob → Cursor → Type 0
IsBelow job c =
    (job.boundary_ts < c.last_settled_ts)
    ⊎ ((job.boundary_ts ≡ c.last_settled_ts) × (job.boundary_log_id ≤ c.last_settled_log_id))

is_of_job-behind :
    (job : BackfillJob) (c : Cursor) (e : LogEntry)
    → IsBelow job c
    → is_of_job job e ≡ true
    → (e.created_at < c.last_settled_ts)
      ⊎ ((e.created_at ≡ c.last_settled_ts) × (e.id ≤ c.last_settled_log_id))
unfolding belongs_to_backfill
is_of_job-behind job c e (inl below) h = ground arith
is_of_job-behind job c e (inr (same, below)) h = ground arith

is_of_job-is_costly :
    (job : BackfillJob) (e : LogEntry) → is_of_job job e ≡ true → is_costly e ≡ true
unfolding belongs_to_backfill
is_of_job-is_costly job e h = ground arith

job_NoneFree : (job : BackfillJob) (xs : List LogEntry) → NoneFree (select (is_of_job job) xs)
unfolding select
job_NoneFree job [] = tt
job_NoneFree job (x ∷ xs) = elim (Bool-cases (is_of_job job x)) [
  | inl kept ↦ rw kept (positive x (is_of_job-is_costly job x kept), job_NoneFree job xs)
  | inr dropped ↦ rw dropped (job_NoneFree job xs)
]
  where
    positive : (e : LogEntry) → is_costly e ≡ true → pos 0 ≤ℤ e.quota
    positive e k = ground arith

read_window-select :
    (env : BackfillEnv) (job : BackfillJob) (hi : ℕ) {lo : ℕ} {keep : List LogEntry}
    → read_window env job hi ≡ ok (lo, keep)
    → keep ≡ select (is_of_job job) (pages_read (env.read_by_username lo hi) settlement_max_pages 1)
unfolding read_window
read_window-select env job hi {lo} {keep} h =
    let (low, e1, k1) = >>=-eq-ok (select_lower_bound env.read_by_username hi) _ h in
    let (es, e2, k2) =
      >>=-eq-ok (collect_pages (is_of_job job) (env.read_by_username low hi) settlement_max_pages 1)
        _ k1 in
    let same = ok_injective k2 in
    let got = collect_pages-select (is_of_job job) _ settlement_max_pages 1 e2 in
    subst
      (λ x.
        x.1
        ≡ select (is_of_job job) (pages_read (env.read_by_username x.0 hi) settlement_max_pages 1))
      same got

module _ (time_of : ℕ → ℕ) (env : BackfillEnv) (job : BackfillJob) (lo hi : ℕ)
    (faithful : IsFaithful time_of env.read_by_username) (s : SettlementStore)
    (below : IsBelow job (get_or_create_cursor s.cursor)) (w : IsBooked time_of s) where
  abbrev window : List LogEntry
  window = pages_read (env.read_by_username lo hi) settlement_max_pages 1

  abbrev kept : List LogEntry
  kept = select (is_missing s.tables) (select (is_of_job job) window)

  kept-IsFresh : IsFresh s.tables kept
  kept-IsFresh = record {
    free =
        NoneFree-select (is_missing s.tables) (select (is_of_job job) window)
          (job_NoneFree job window);
    once =
        NoneTwice-select (is_missing s.tables) (select (is_of_job job) window)
          (NoneTwice-select (is_of_job job) window (faithful.once lo hi 20));
    unheld =
        All-map (λ e. Unit {0} × (is_missing s.tables e ≡ true))
          (λ e. has_log e.id s.tables.details ≡ false) _ (λ e h. is_missing-unheld s.tables e h.1)
          (select-All (λ e. Unit {0}) (is_missing s.tables) (select (is_of_job job) window)
            (units (select (is_of_job job) window)));
    small =
        smaller
          (sum_quotas-select_le (is_missing s.tables) (select (is_of_job job) window)
            (job_NoneFree job window))
          (sum_quotas-select (is_of_job job) window (is_of_job-is_costly job))
          (faithful.small lo hi 20);
  }
    where
      units : (xs : List LogEntry) → All (λ e. Unit {0}) xs
      units [] = tt
      units (x ∷ xs) = (tt, units xs)

      smaller :
          sum_quotas kept ≤ℤ sum_quotas (select (is_of_job job) window)
          → sum_quotas (select (is_of_job job) window) ≤ℤ sum_quotas (select is_costly window)
          → sum_quotas (select is_costly window) <ℤ pos (2 ^ 62)
          → sum_quotas kept <ℤ pos two_63
      smaller p q r = omega (arith, p, q, r)

  kept_details :
      All
        (λ e.
          (m : TokenAttr)
          → IsBehind (get_or_create_cursor s.cursor) (detail_of m e)
            × IsTimed time_of (detail_of m e))
        kept
  kept_details =
      All-map
        (λ e.
          (InWindow time_of lo hi e × (is_of_job job e ≡ true)) × (is_missing s.tables e ≡ true))
        _ _
        (λ e h m.
          (is_of_job-behind job (get_or_create_cursor s.cursor) e below ((h.0).1), ((h.0).0).2))
        (select-All (λ e. InWindow time_of lo hi e × (is_of_job job e ≡ true)) (is_missing s.tables)
          (select (is_of_job job) window)
          (select-All (InWindow time_of lo hi) (is_of_job job) window (faithful.within lo hi 20)))

  backfill_tx-IsBooked :
      {t : UsageTables}
      → backfill_tx env.lookups (select (is_of_job job) window) s.tables ≡ ok t
      → IsBooked time_of (record s { tables = t })
  unfolding backfill_tx
  backfill_tx-IsBooked {t} h =
      let (sk, e1, k1) = >>=-eq-ok (ingest_all env.lookups kept (empty_sink true)) _ h in
      elim (Bool-cases (is_blank sk)) [
        | inl blank ↦
            subst (λ x. IsBooked time_of (record s { tables = x })) (ok_injective (rw blank at k1))
              w
        | inr written ↦
            let committed = or_repo_error-ok (commit_usage_only sk s.tables) (rw written at k1) in
            let both =
              commit_usage_only-All env.lookups true kept s.tables kept-IsFresh e1 committed
                (λ d. IsBehind (get_or_create_cursor s.cursor) d × IsTimed time_of d) kept_details
                (All_both _ _ s.tables.details w.behind w.timed) in
            record {
              summed =
                  commit_usage_only-IsSummed env.lookups true kept s.tables kept-IsFresh e1
                    committed w.summed;
              behind = All_details _ _ t.details (λ d p. p.0) both;
              timed = All_details _ _ t.details (λ d p. p.1) both;
            }
      ]

  written-IsBooked :
      (read : Result ServiceError (ℕ × List LogEntry))
      → read ≡ ok (lo, select (is_of_job job) window)
      → IsBooked time_of (record s { tables = (write_window env s.tables read).1 })
  written-IsBooked read e =
      rw (e, write_window)
        (if_either
          (λ (x : Result ServiceError WindowReport × UsageTables).
            IsBooked time_of (record s { tables = x.1 }))
          (is_empty (select (is_of_job job) window)) w
          (done env.commits (backfill_tx env.lookups (select (is_of_job job) window) s.tables)
            refl))
    where
      done :
          (commits : Bool) (r : Result ServiceError UsageTables)
          → backfill_tx env.lookups (select (is_of_job job) window) s.tables ≡ r
          → IsBooked time_of
              (record s { tables = (backfilled commits (window_report kept lo) s.tables r).1 })
      done commits (err why) k = w
      done true (ok t) k = backfill_tx-IsBooked k
      done false (ok t) k = w

pub backfill_one_window-IsBooked :
    (time_of : ℕ → ℕ) (env : BackfillEnv) (job : BackfillJob) (hi : ℕ) (s : SettlementStore)
    → IsFaithful time_of env.read_by_username
    → IsBelow job (get_or_create_cursor s.cursor)
    → IsBooked time_of s
    → IsBooked time_of
        (record s { tables = (backfill_one_window env (read_window env job hi) s.tables).1 })
unfolding backfill_one_window
backfill_one_window-IsBooked time_of env job hi s faithful below w =
    elim (Result-cases (read_window env job hi)) [
      | inr (e, fails) ↦ rw (fails, write_window) w
      | inl ((lo, keep), reads) ↦
          written-IsBooked time_of env job lo hi faithful s below w (read_window env job hi)
            (reads ∙ ap (λ x. ok (lo, x)) (read_window-select env job hi reads))
    ]
