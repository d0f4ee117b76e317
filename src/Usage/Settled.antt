-- ===== src/Usage/Settled.antt =====
-- A run of RunSettlement keeps the books of usage.
use nexusapi_enterprise.Prelude.{
  All-map, ℕ, ◌-◌, ◌^◌, ◌≤◌, ◌<◌, ◌≡◌, ◌⊎◌, refl, ap, sym, ◌∙◌, inl, inr, true, false, not, List,
  [], ◌∷◌, ◌++◌, ◌==◌, arith, Bool-cases, if◌then◌else◌, ok, ok_injective, >>=-eq-ok,
  raise_if-eq-ok, All,
}
use mathlib.Core.Path.{subst}
use nexusapi_enterprise.Prelude.Int.{pos, ◌<ℤ◌}
use nexusapi_enterprise.Errors.{internal}
use nexusapi_enterprise.Funding.{app_error}
use nexusapi_enterprise.Settlement.{LogEntry, settlement_max_pages}
use nexusapi_enterprise.Settlement.Streams.{select, is_new}
use nexusapi_enterprise.Usage.{DetailRow, SettleSink, empty_sink, UsageTables, has_log, ingest_all}
use nexusapi_enterprise.Usage.Batch.{NoneTwice, sum_quotas, has_entry}
use nexusapi_enterprise.Usage.Run.{
  Cursor, ReadLogs, RunEnv, select_until, is_costly, is_missing, is_empty, collect_pages,
  ingest_rescan, main_pages, prepare, settlement_rescan_max_pages, settlement_rescan_overlap_sec,
}
use nexusapi_enterprise.Usage.Reads.{
  pages_read, collect_pages-select, main_pages-select, ingest_all-append,
}
use nexusapi_enterprise.Usage.Selected.{has_entry-none}

abbrev pub InWindow : (ℕ → ℕ) → ℕ → ℕ → LogEntry → Type 0
InWindow time_of since until e =
    (since ≤ e.created_at) × (e.created_at ≤ until) × (e.created_at ≡ time_of e.id)

-- What new-api documents of its logs: a log keeps its time, a window lists the logs of its seconds,
-- and none twice; and no window is worth 2^62 or more.
pub record IsFaithful (time_of : ℕ → ℕ) (read : ReadLogs) : Type 0 where
  pub within :
      (since until n : ℕ) → All (InWindow time_of since until) (pages_read (read since until) n 1)
  pub once : (since until n : ℕ) → NoneTwice (pages_read (read since until) n 1)
  pub small :
      (since until n : ℕ)
      → sum_quotas (select is_costly (pages_read (read since until) n 1)) <ℤ pos (2 ^ 62)

-- The log of the detail is not above the cursor.
abbrev pub IsBehind : Cursor → DetailRow → Type 0
IsBehind c d =
    (d.log_ts < c.last_settled_ts)
    ⊎ ((d.log_ts ≡ c.last_settled_ts) × (d.newapi_log_id ≤ c.last_settled_log_id))

abbrev pub IsTimed : (ℕ → ℕ) → DetailRow → Type 0
IsTimed time_of d = d.log_ts ≡ time_of d.newapi_log_id

-- An entry above the mark in the window of a cursor has no detail yet.
pub unheld_above :
    (time_of : ℕ → ℕ) (c : Cursor) (e : LogEntry) (ds : List DetailRow)
    → c.last_settled_ts ≤ e.created_at
    → e.created_at ≡ time_of e.id
    → c.last_settled_log_id < e.id
    → All (IsBehind c) ds
    → All (IsTimed time_of) ds
    → has_log e.id ds ≡ false
unfolding has_log
unheld_above time_of c e [] since timed above behind times = refl
unheld_above time_of c e (d ∷ ds) since timed above behind times =
    elim (Bool-cases (d.newapi_log_id == e.id)) [
      | inl same ↦
          let id : d.newapi_log_id ≡ e.id = ground arith in
          let ts = times.0 ∙ ap time_of id ∙ sym timed in
          absurd (elim (behind.0) [
            | inl earlier ↦ omega (arith, earlier, ts, since)
            | inr (at, low) ↦ omega (arith, low, id, above)
          ])
      | inr other ↦ rw other (unheld_above time_of c e ds since timed above behind.1 times.1)
    ]

-- Entries of two windows that do not meet are different logs.
pub apart :
    (time_of : ℕ → ℕ) (e : LogEntry) (ys : List LogEntry) (mid : ℕ)
    → e.created_at < mid
    → e.created_at ≡ time_of e.id
    → All (λ y. (mid ≤ y.created_at) × (y.created_at ≡ time_of y.id)) ys
    → has_entry e.id ys ≡ false
apart time_of e ys mid early timed late = has_entry-none e.id ys (
    All-map (λ y. (mid ≤ y.created_at) × (y.created_at ≡ time_of y.id))
      (λ y. (y.id == e.id) ≡ false) ys differ late)
  where
    differ :
        (y : LogEntry)
        → (mid ≤ y.created_at) × (y.created_at ≡ time_of y.id)
        → (y.id == e.id) ≡ false
    differ y (after, time) = elim (Bool-cases (y.id == e.id)) [
      | inl same ↦
          let id : y.id ≡ e.id = ground arith in
          let ts = time ∙ ap time_of id ∙ sym timed in absurd (omega (arith, ts, after, early))
      | inr other ↦ other
    ]

pub is_new-is_costly : (mark : ℕ) (e : LogEntry) → is_new mark e ≡ true → is_costly e ≡ true
is_new-is_costly mark e h = ground arith

pub is_new-above : (mark : ℕ) (e : LogEntry) → is_new mark e ≡ true → mark < e.id
is_new-above mark e h = ground arith

pub is_missing-unheld :
    (t : UsageTables) (e : LogEntry) → is_missing t e ≡ true → has_log e.id t.details ≡ false
is_missing-unheld t e h = ground arith

-- The entries of one run: the late ones of the rescan, and the new ones of the main window.
abbrev pub late_entries : RunEnv → UsageTables → ℕ → List LogEntry
late_entries env t since = select (is_missing t) (
    select is_costly (
      pages_read (env.read_logs (since - settlement_rescan_overlap_sec) (since - 1))
        settlement_rescan_max_pages 1))

abbrev pub new_entries : RunEnv → Cursor → ℕ → List LogEntry
new_entries env cur until_sub =
    select (is_new cur.last_settled_log_id)
      (pages_read (env.read_logs cur.last_settled_ts until_sub) settlement_max_pages 1)

ingest_rescan-late :
    (env : RunEnv) (t : UsageTables) (since : ℕ) (sk : SettleSink) {sk' : SettleSink}
    → ingest_rescan env t since sk ≡ ok sk'
    → ingest_all env.lookups (late_entries env t since) sk ≡ ok sk'
unfolding ingest_rescan
ingest_rescan-late env t since sk {sk'} h =
    let (rescan, e1, k1) =
      >>=-eq-ok
        (collect_pages is_costly (env.read_logs (since - settlement_rescan_overlap_sec) (since - 1))
          settlement_rescan_max_pages 1)
        _ h in
    let (passed, k2) =
      raise_if-eq-ok (if is_empty rescan then false else not env.filter_works) (app_error internal)
        _ k1 in
    let same = collect_pages-select is_costly _ settlement_rescan_max_pages 1 e1 in
    subst (λ x. ingest_all env.lookups (select (is_missing t) x) sk ≡ ok sk') same k2

-- What the reads prepare.
pub record Prepared (env : RunEnv) (t : UsageTables) (cur : Cursor) (out : ℕ × SettleSink × ℕ)
    : Type 0 where
  pub ingested :
      ingest_all env.lookups
        (late_entries env t cur.last_settled_ts ++ new_entries env cur out.0)
        (empty_sink false)
      ≡ ok out.1
  pub raised : cur.last_settled_log_id ≤ out.2
  pub seen :
      All
        (λ e. e.id ≤ out.2)
        (pages_read (env.read_logs cur.last_settled_ts out.0) settlement_max_pages 1)

pub prepare-Prepared :
    (env : RunEnv) (t : UsageTables) (cur : Cursor) (until : ℕ) {out : ℕ × SettleSink × ℕ}
    → prepare env t cur until ≡ ok out
    → Prepared env t cur out
unfolding prepare
prepare-Prepared env t cur until {out} h =
    let (until_sub, e1, k1) =
      >>=-eq-ok (select_until env.read_logs cur.last_settled_ts until) _ h in
    let (late, e2, k2) =
      >>=-eq-ok (ingest_rescan env t cur.last_settled_ts (empty_sink false)) _ k1 in
    let (acc, e3, k3) =
      >>=-eq-ok
        (main_pages env.lookups cur.last_settled_log_id
          (env.read_logs cur.last_settled_ts until_sub) settlement_max_pages 1
          (late, cur.last_settled_log_id))
        _ k2 in
    let (ingested, raised, seen) =
      main_pages-select env.lookups cur.last_settled_log_id
        (env.read_logs cur.last_settled_ts until_sub) settlement_max_pages 1 late
        cur.last_settled_log_id (omega arith) e3 in
    subst (Prepared env t cur) (ok_injective k3) (record {
      ingested =
          ingest_all-append env.lookups (late_entries env t cur.last_settled_ts)
            (new_entries env cur until_sub) (empty_sink false)
            (ingest_rescan-late env t cur.last_settled_ts (empty_sink false) e2) ingested;
      raised = raised;
      seen = seen;
    })
