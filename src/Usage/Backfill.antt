-- ===== src/Usage/Backfill.antt =====
-- backfillOneWindow of service/backfill.go: the history of one organization, window by window from
-- its boundary down. Its reads hold no lock; the part that checks and writes holds settlementMu and
-- one transaction, so it is one step.
use nexusapi_enterprise.Prelude.{
  ℕ, Bool, true, false, ◌&&◌, none, some, List, [], ◌∷◌, length, ltb, ◌==◌, if◌then◌else◌, Result,
  ok, err, ◌>>=◌,
}
use nexusapi_enterprise.Errors.{database, internal}
use nexusapi_enterprise.Funding.{ServiceError, repo_error, app_error}
use nexusapi_enterprise.Settlement.{
  LogEntry, settlement_max_pages, backfill_lower_bound, belongs_to_backfill,
}
use nexusapi_enterprise.Settlement.Streams.{select}
use nexusapi_enterprise.Usage.{
  Lookups, SettleSink, empty_sink, UsageTables, ingest_all, commit_usage_only, or_repo_error,
}
use nexusapi_enterprise.Usage.Run.{
  ReadLogs, or_upstream, probed_total, is_costly, collect_pages, is_missing, is_empty,
}

pub record BackfillJob : Type 0 where
  pub newapi_user_id : ℕ
  pub boundary_ts : ℕ
  pub boundary_log_id : ℕ

-- `read_by_username` is ReadConsumptionLogsByUsername for the job's user name; `commits` is false when
-- the transaction fails in its read of the existing ids or in its commit: both roll it back.
pub record BackfillEnv : Type 0 where
  pub read_by_username : ReadLogs
  pub lookups : Lookups
  pub commits : Bool

-- The rows that were new, the earliest time of them (0 if there is none) and the window's begin.
pub record WindowReport : Type 0 where
  pub rows : ℕ
  pub earliest : ℕ
  pub lo : ℕ

-- backfillLowerBound, which ends with the error of the read that failed, if one did. A bound is
-- always found: backfill_lower_bound has enough fuel.
unfoldable pub select_lower_bound : ReadLogs → ℕ → Result ServiceError ℕ
select_lower_bound read hi =
    elim (backfill_lower_bound (λ lo top. probed_total (read lo top 1)) hi) [
      | none ↦ err (app_error internal)
      | some lo ↦ or_upstream (read lo hi 1) >>= λ r. ok lo
    ]

-- The filter of the reads.
abbrev pub is_of_job : BackfillJob → LogEntry → Bool
is_of_job job e =
    is_costly e
    && e.user_id == job.newapi_user_id
    && belongs_to_backfill e.created_at e.id job.boundary_ts job.boundary_log_id

-- if earliest == 0 || e.CreatedAt < earliest { earliest = e.CreatedAt }
unfoldable pub earliest_of : List LogEntry → ℕ → ℕ
earliest_of [] earliest = earliest
earliest_of (e ∷ es) earliest = earliest_of es (
    if earliest == 0
    then e.created_at
    else if ltb e.created_at earliest
    then e.created_at
    else earliest)

abbrev pub is_blank : SettleSink → Bool
is_blank sk = elim (sk.aggs) [
  | [] ↦ elim (sk.details) [ [] ↦ true | d ∷ ds ↦ false ]
  | a ∷ others ↦ false
]

-- The function of the transaction, on the kept entries.
unfoldable pub backfill_tx : Lookups → List LogEntry → UsageTables → Result ServiceError UsageTables
backfill_tx l keep t = do
  sk ← ingest_all l (select (is_missing t) keep) (empty_sink true)
  if is_blank sk then ok t else or_repo_error (commit_usage_only sk t)

abbrev pub window_report : List LogEntry → ℕ → WindowReport
window_report fresh lo = record { rows = length fresh; earliest = earliest_of fresh 0; lo = lo }

abbrev pub backfilled :
    Bool
    → WindowReport
    → UsageTables
    → Result ServiceError UsageTables
    → Result ServiceError WindowReport × UsageTables
backfilled commits report t (err e) = (err e, t)
backfilled true report t (ok t') = (ok report, t')
backfilled false report t (ok t') = (err (repo_error database), t)

abbrev pub write_window :
    BackfillEnv
    → UsageTables
    → Result ServiceError (ℕ × List LogEntry)
    → Result ServiceError WindowReport × UsageTables
write_window env t (err e) = (err e, t)
write_window env t (ok (lo, keep)) =
    if is_empty keep
    then (ok (record { rows = 0; earliest = 0; lo = lo }), t)
    else backfilled env.commits (window_report (select (is_missing t) keep) lo) t
        (backfill_tx env.lookups keep t)

-- The reads of a window that ends at `hi`.
unfoldable pub read_window : BackfillEnv → BackfillJob → ℕ → Result ServiceError (ℕ × List LogEntry)
read_window env job hi = do
  lo ← select_lower_bound env.read_by_username hi
  keep ← collect_pages (is_of_job job) (env.read_by_username lo hi) settlement_max_pages 1
  ok (lo, keep)

-- backfillOneWindow. Other steps may stand between the reads and the write: the read is an argument.
unfoldable pub backfill_one_window :
    BackfillEnv
    → Result ServiceError (ℕ × List LogEntry)
    → UsageTables
    → Result ServiceError WindowReport × UsageTables
backfill_one_window env read t = write_window env t read
