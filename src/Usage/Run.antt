-- ===== src/Usage/Run.antt =====
-- RunSettlement of service/settlement.go with the cursor of repo/settlement.go, up to the statuses,
-- notices and audit rows that follow its commit. Each run holds settlementMu, so it is one step.
use nexusapi_enterprise.Prelude.{
  ℕ, zero, suc, ◌-◌, ◌*◌, Bool, true, false, not, Option, none, some, List, [], ◌∷◌, ◌++◌, leb,
  ◌==◌, if◌then◌else◌, Result, ok, err, ◌>>=◌, ◌>>◌, raise_if,
}
use nexusapi_enterprise.Prelude.Int.{ℤ, pos, leb_ℤ}
use nexusapi_enterprise.Errors.{RepoError, database, internal, from_upstream}
use nexusapi_enterprise.Balance.{Balances}
use nexusapi_enterprise.Funding.{ServiceError, repo_error, app_error}
use nexusapi_enterprise.Settlement.{LogEntry, settlement_max_pages, choose_until, ingest_window}
use nexusapi_enterprise.Settlement.Streams.{select}
use nexusapi_enterprise.Usage.{
  Lookups, SettleSink, empty_sink, UsageTables, later_of, has_log, ingest_all, commit_usage_only,
}
use nexusapi_enterprise.Usage.Deduct.{per_org, deduct_orgs}

pub record Cursor : Type 0 where
  pub last_settled_ts : ℕ
  pub last_settled_log_id : ℕ
  pub version : ℕ

-- The tables that a settlement writes.
pub record SettlementStore : Type 0 where
  pub tables : UsageTables
  pub balances : Balances
  pub cursor : Option Cursor

-- errConcurrentSettlement, or an error of a call.
pub data SettlementError : Type 0 where
  concurrent_settlement : SettlementError
  service_error : ServiceError → SettlementError

-- ReadConsumptionLogs for a window [since, until] and a page of 100: entries and the window's count.
abbrev pub ReadLogs : Type 0
ReadLogs = ℕ → ℕ → ℕ → Result ℕ (List LogEntry × ℕ)

pub record RunEnv : Type 0 where
  pub leader : Result RepoError Bool
  pub cursor_works : Bool
  pub now : ℕ
  pub observe_mode : Bool
  pub read_logs : ReadLogs
  pub lookups : Lookups
  pub filter_works : Bool
  pub commits : Bool

abbrev pub settlement_lag_sec : ℕ
settlement_lag_sec = 5

abbrev pub settlement_rescan_overlap_sec : ℕ
settlement_rescan_overlap_sec = 600

abbrev pub settlement_rescan_max_pages : ℕ
settlement_rescan_max_pages = 5

abbrev pub new_cursor : Cursor
new_cursor = record { last_settled_ts = 0; last_settled_log_id = 0; version = 0 }

-- GetOrCreateCursor: the cursor, and the table with its row.
abbrev pub get_or_create_cursor : Option Cursor → Cursor
get_or_create_cursor none = new_cursor
get_or_create_cursor (some c) = c

-- AdvanceCursorTx: GREATEST of the old and the new, if the version is still the one that was read.
unfoldable pub advance_cursor_tx : ℕ → ℕ → ℕ → Option Cursor → Bool × Option Cursor
advance_cursor_tx new_ts new_id version none = (false, none)
advance_cursor_tx new_ts new_id version (some c) =
    if c.version == version
    then (
      true,
      some (record {
        last_settled_ts = later_of c.last_settled_ts new_ts;
        last_settled_log_id = later_of c.last_settled_log_id new_id;
        version = suc c.version;
      }),
    )
    else (false, some c)

abbrev pub or_upstream : {A : Type 0} → Result ℕ A → Result ServiceError A
or_upstream (ok v) = ok v
or_upstream (err code) = err (app_error (from_upstream code))

-- What the loop over untilSub sees of a window: a read that fails ends it.
abbrev pub probed_total : Result ℕ (List LogEntry × ℕ) → ℕ
probed_total (ok r) = r.1
probed_total (err code) = 0

-- The loop over untilSub, which ends with the error of the read that failed, if one did. The window
-- is always found: choose_until has enough fuel.
unfoldable pub select_until : ReadLogs → ℕ → ℕ → Result ServiceError ℕ
select_until read since until =
    elim (choose_until (λ u. probed_total (read since u 1)) (suc (until - since)) since until) [
      | none ↦ err (app_error internal)
      | some u ↦ or_upstream (read since u 1) >>= λ r. ok u
    ]

-- if e.Quota > 0 { ... }
abbrev pub is_costly : LogEntry → Bool
is_costly e = not (leb_ℤ e.quota (pos 0))

-- A loop over pages that keeps the entries that pass a filter: of the rescan, and of a backfill.
unfoldable pub collect_pages :
    (LogEntry → Bool)
    → (ℕ → Result ℕ (List LogEntry × ℕ))
    → ℕ
    → ℕ
    → Result ServiceError (List LogEntry)
collect_pages keep read zero page = ok []
collect_pages keep read (suc left) page = or_upstream (read page) >>= λ r.
    let rest = collect_pages keep read left (suc page) in
    if leb r.1 (page * 100)
    then ok (select keep r.0)
    else (rest >>= λ more. ok (select keep r.0 ++ more))

-- if existing[e.ID] { continue }
abbrev pub is_missing : UsageTables → LogEntry → Bool
is_missing t e = not (has_log e.id t.details)

abbrev pub is_empty : List LogEntry → Bool
is_empty [] = true
is_empty (e ∷ es) = false

-- 1a: the late entries of the 600 s before the window.
unfoldable pub ingest_rescan :
    RunEnv → UsageTables → ℕ → SettleSink → Result ServiceError SettleSink
ingest_rescan env t since sk = do
  rescan ←
      collect_pages is_costly (env.read_logs (since - settlement_rescan_overlap_sec) (since - 1))
        settlement_rescan_max_pages 1
  raise_if (if is_empty rescan then false else not env.filter_works) (app_error internal)
  ingest_all env.lookups (select (is_missing t) rescan) sk

-- One page of the main window. Which entries are ingested does not depend on the sink.
abbrev pub ingest_page :
    Lookups → ℕ → List LogEntry → SettleSink × ℕ → Result ServiceError (SettleSink × ℕ)
ingest_page l mark entries (sk, max_id) =
    ingest_all l (ingest_window mark entries max_id).0 sk >>= λ sk'.
    ok (sk', (ingest_window mark entries max_id).1)

-- 1b: the loop over the pages of the main window.
unfoldable pub main_pages :
    Lookups
    → ℕ
    → (ℕ → Result ℕ (List LogEntry × ℕ))
    → ℕ
    → ℕ
    → SettleSink × ℕ
    → Result ServiceError (SettleSink × ℕ)
main_pages l mark read zero page acc = ok acc
main_pages l mark read (suc left) page acc = or_upstream (read page) >>= λ r.
    ingest_page l mark r.0 acc >>= λ acc'.
    let rest = main_pages l mark read left (suc page) acc' in
    if leb r.1 (page * 100) then ok acc' else rest

abbrev pub or_repo : {A : Type 0} → Result RepoError A → Result SettlementError A
or_repo (ok v) = ok v
or_repo (err e) = err (service_error (repo_error e))

-- WithTx: the writes of a function or of a commit that fails are rolled back.
abbrev pub settle_with_tx :
    {A : Type 0}
    → Bool
    → Result SettlementError (A × SettlementStore)
    → SettlementStore
    → Result SettlementError A × SettlementStore
settle_with_tx commits (err e) s = (err e, s)
settle_with_tx true (ok out) s = (ok out.0, out.1)
settle_with_tx false (ok out) s = (err (service_error (repo_error database)), s)

-- if !ok { return errConcurrentSettlement }
abbrev pub advanced :
    {A : Type 0}
    → A
    → UsageTables
    → Balances
    → Bool × Option Cursor
    → Result SettlementError (A × SettlementStore)
advanced v t bs (false, c) = err concurrent_settlement
advanced v t bs (true, c) = ok (v, record { tables = t; balances = bs; cursor = c })

-- 2: the transaction of a settlement.
unfoldable pub settle_tx :
    Bool → SettleSink → ℕ → ℕ → ℕ → SettlementStore → Result SettlementError (ℤ × SettlementStore)
settle_tx observe sk until_sub max_id version s = do
  t ← or_repo (commit_usage_only sk s.tables)
  out ← or_repo (
      if observe
      then ok (pos 0, s.balances)
      else deduct_orgs sk.flag_cache (per_org sk.aggs []) (pos 0) s.balances)
  advanced out.0 t out.1 (advance_cursor_tx until_sub max_id version s.cursor)

-- What the reads of a settlement prepare: the end of the window, the sink and the highest id.
unfoldable pub prepare :
    RunEnv → UsageTables → Cursor → ℕ → Result ServiceError (ℕ × SettleSink × ℕ)
prepare env t cur until = do
  until_sub ← select_until env.read_logs cur.last_settled_ts until
  late ← ingest_rescan env t cur.last_settled_ts (empty_sink false)
  acc ←
      main_pages env.lookups cur.last_settled_log_id (env.read_logs cur.last_settled_ts until_sub)
        settlement_max_pages 1 (late, cur.last_settled_log_id)
  ok (until_sub, acc.0, acc.1)

-- The first run sets the cursor and reads nothing.
abbrev pub baseline_tx : ℕ → ℕ → SettlementStore → Result SettlementError (ℤ × SettlementStore)
baseline_tx base version s =
    advanced (pos 0) s.tables s.balances (advance_cursor_tx base 0 version s.cursor)

abbrev pub settle_prepared :
    RunEnv
    → Cursor
    → SettlementStore
    → Result ServiceError (ℕ × SettleSink × ℕ)
    → Result SettlementError ℤ × SettlementStore
settle_prepared env cur s (err e) = (err (service_error e), s)
settle_prepared env cur s (ok (until_sub, sk, max_id)) =
    settle_with_tx env.commits (settle_tx env.observe_mode sk until_sub max_id cur.version s) s

unfoldable pub settle_from :
    RunEnv → Cursor → SettlementStore → Result SettlementError ℤ × SettlementStore
settle_from env cur s =
    if cur.last_settled_ts == 0
    then settle_with_tx env.commits (baseline_tx (env.now - settlement_lag_sec) cur.version s) s
    else if leb (env.now - settlement_lag_sec) cur.last_settled_ts
    then (ok (pos 0), s)
    else settle_prepared env cur s (prepare env s.tables cur (env.now - settlement_lag_sec))

-- The store with the row that GetOrCreateCursor leaves.
abbrev pub with_cursor : SettlementStore → SettlementStore
with_cursor s = record s { cursor = some (get_or_create_cursor s.cursor) }

abbrev pub run_as_leader :
    RunEnv → SettlementStore → Bool → Result SettlementError ℤ × SettlementStore
run_as_leader env s false = (ok (pos 0), s)
run_as_leader env s true =
    if env.cursor_works
    then settle_from env (get_or_create_cursor s.cursor) (with_cursor s)
    else (err (service_error (repo_error database)), s)

-- RunSettlement
unfoldable pub run_settlement :
    RunEnv → SettlementStore → Result SettlementError ℤ × SettlementStore
run_settlement env s = elim (or_repo env.leader) [
  | err e ↦ (err e, s)
  | ok leads ↦ run_as_leader env s leads
]
