-- ===== src/Usage/Books.antt =====
-- In every order of settlements and backfill windows the ledger holds what the details add up to, and
-- no log is booked twice.
use nexusapi_enterprise.Prelude.{
  ℕ, ◌-◌, ◌<◌, ◌≡◌, refl, sym, inl, inr, Bool, true, false, none, some, List, [], leb, ◌==◌, arith,
  Bool-cases, Result, Result-cases,
}
use mathlib.Core.Path.{subst}
use nexusapi_enterprise.Prelude.Int.{ℤ, pos}
use nexusapi_enterprise.Balance.{Balances}
use nexusapi_enterprise.Usage.{BucketKey}
use nexusapi_enterprise.Usage.Ledger.{PicksRows, sum_ledger, sum_details, IsDistinct}
use nexusapi_enterprise.Usage.Run.{
  Cursor, SettlementStore, SettlementError, RunEnv, get_or_create_cursor, with_cursor, settle_tx,
  settle_prepared, settle_from, prepare, baseline_tx, or_repo, run_as_leader, run_settlement,
  settlement_lag_sec,
}
use nexusapi_enterprise.Usage.Backfill.{BackfillJob, BackfillEnv, read_window, backfill_one_window}
use nexusapi_enterprise.Usage.Settled.{IsFaithful}
use nexusapi_enterprise.Usage.Booked.{
  IsBooked, settle_with_tx-either, advanced-cursor, raise-IsBooked, settle_tx-IsBooked,
}
use nexusapi_enterprise.Usage.Backfilled.{if_either, IsBelow, backfill_one_window-IsBooked}

with_cursor-IsBooked :
    (time_of : ℕ → ℕ) (s : SettlementStore) → IsBooked time_of s → IsBooked time_of (with_cursor s)
with_cursor-IsBooked time_of s w = record { summed = w.summed; behind = w.behind; timed = w.timed }

settle_prepared-IsBooked :
    (time_of : ℕ → ℕ) (env : RunEnv) (cur : Cursor) (s : SettlementStore) (until : ℕ)
    → IsFaithful time_of env.read_logs
    → 0 < cur.last_settled_ts
    → s.cursor ≡ some cur
    → IsBooked time_of s
    → IsBooked time_of (settle_prepared env cur s (prepare env s.tables cur until)).1
settle_prepared-IsBooked time_of env cur s until faithful started at w =
    elim (Result-cases (prepare env s.tables cur until)) [
      | inr (e, fails) ↦ rw (fails, settle_prepared) w
      | inl (out, reads) ↦
          rw (reads, settle_prepared)
            (settle_with_tx-either (IsBooked time_of) env.commits
              (settle_tx env.observe_mode out.1 out.0 out.2 cur.version s) s w
              (settle_tx-IsBooked time_of env s cur faithful started at w until out reads))
    ]

settle_from-IsBooked :
    (time_of : ℕ → ℕ) (env : RunEnv) (cur : Cursor) (s : SettlementStore)
    → IsFaithful time_of env.read_logs
    → s.cursor ≡ some cur
    → IsBooked time_of s
    → IsBooked time_of (settle_from env cur s).1
unfolding settle_from
settle_from-IsBooked time_of env cur s faithful at w =
    elim (Bool-cases (cur.last_settled_ts == 0)) [
      | inl first ↦ rw first (
          settle_with_tx-either (IsBooked time_of) env.commits
            (baseline_tx (env.now - settlement_lag_sec) cur.version s) s w
            (λ out h.
              subst (IsBooked time_of)
                (sym (
                  advanced-cursor (pos 0) s.tables s.balances (env.now - settlement_lag_sec) 0
                    cur.version cur (rw at at h)))
                (raise-IsBooked time_of s cur (env.now - settlement_lag_sec) 0 s.balances
                  (rw at refl) w)))
      | inr later ↦
          rw later (elim (Bool-cases (leb (env.now - settlement_lag_sec) cur.last_settled_ts)) [
            | inl empty ↦ rw empty w
            | inr open_window ↦ rw open_window (
                settle_prepared-IsBooked time_of env cur s (env.now - settlement_lag_sec) faithful
                  (ground arith) at w)
          ])
    ]

run_as_leader-IsBooked :
    (time_of : ℕ → ℕ) (env : RunEnv) (s : SettlementStore) (leads : Bool)
    → IsFaithful time_of env.read_logs
    → IsBooked time_of s
    → IsBooked time_of (run_as_leader env s leads).1
run_as_leader-IsBooked time_of env s false faithful w = w
run_as_leader-IsBooked time_of env s true faithful w =
    if_either (λ (x : Result SettlementError ℤ × SettlementStore). IsBooked time_of x.1)
      env.cursor_works
      (settle_from-IsBooked time_of env (get_or_create_cursor s.cursor) (with_cursor s) faithful
        refl (with_cursor-IsBooked time_of s w))
      w

run_settlement-IsBooked :
    (time_of : ℕ → ℕ) (env : RunEnv) (s : SettlementStore)
    → IsFaithful time_of env.read_logs
    → IsBooked time_of s
    → IsBooked time_of (run_settlement env s).1
unfolding run_settlement
run_settlement-IsBooked time_of env s faithful w = elim (Result-cases (or_repo env.leader)) [
  | inr (e, fails) ↦ rw (fails, run_settlement) w
  | inl (leads, answers) ↦
      rw (answers, run_settlement) (run_as_leader-IsBooked time_of env s leads faithful w)
]

-- One step on the tables: a run of RunSettlement, a window of a backfill whose boundary was a cursor,
-- or another change of the balances. new-api's answers may differ from step to step.
pub data Step (time_of : ℕ → ℕ) : SettlementStore → SettlementStore → Type 0 where
  settles :
      {s : SettlementStore} (env : RunEnv)
      → IsFaithful time_of env.read_logs
      → Step time_of s (run_settlement env s).1
  backfills :
      {s : SettlementStore} (env : BackfillEnv) (job : BackfillJob) (hi : ℕ)
      → IsFaithful time_of env.read_by_username
      → IsBelow job (get_or_create_cursor s.cursor)
      → Step time_of s
          (record s { tables = (backfill_one_window env (read_window env job hi) s.tables).1 })
  funds : {s : SettlementStore} (bs : Balances) → Step time_of s (record s { balances = bs })

abbrev pub empty_settlement_store : (List ℕ → List ℕ) → Balances → SettlementStore
empty_settlement_store collate bs = record {
  tables = record { collate = collate; ledger = []; details = [] };
  balances = bs;
  cursor = none;
}

pub data Reach (time_of : ℕ → ℕ) : SettlementStore → Type 0 where
  start :
      (collate : List ℕ → List ℕ) (bs : Balances)
      → Reach time_of (empty_settlement_store collate bs)
  then_step : {s s' : SettlementStore} → Reach time_of s → Step time_of s s' → Reach time_of s'

Step-IsBooked :
    (time_of : ℕ → ℕ) {s s' : SettlementStore}
    → Step time_of s s'
    → IsBooked time_of s
    → IsBooked time_of s'
Step-IsBooked time_of {s} (settles env faithful) w =
    run_settlement-IsBooked time_of env s faithful w
Step-IsBooked time_of {s} (backfills env job hi faithful below) w =
    backfill_one_window-IsBooked time_of env job hi s faithful below w
Step-IsBooked time_of (funds bs) w = record {
  summed = w.summed;
  behind = w.behind;
  timed = w.timed;
}

Reach-IsBooked : (time_of : ℕ → ℕ) {s : SettlementStore} → Reach time_of s → IsBooked time_of s
unfolding sum_ledger sum_details IsDistinct
Reach-IsBooked time_of (start collate bs) = record {
  summed = record { sums = λ p picks. refl; distinct = tt };
  behind = tt;
  timed = tt;
}
Reach-IsBooked time_of (then_step r st) = Step-IsBooked time_of st (Reach-IsBooked time_of r)

-- Whatever settlements and backfill windows ran in whatever order, and whatever failed: for any
-- choice of rows of the ledger, where model names that its collation does not tell apart are one row,
-- the ledger holds what the details of these rows add up to, and no log has two details. It is supposed
-- that new-api lists in a window the logs of its seconds, none twice, that a log keeps its time, and
-- that the logs of no window are worth 2^62 or more.
pub ledger_is_details :
    (time_of : ℕ → ℕ) {s : SettlementStore}
    → Reach time_of s
    → ((p : BucketKey → Bool)
        → PicksRows s.tables.collate p
        → sum_ledger p s.tables.ledger ≡ sum_details p s.tables.details)
      × IsDistinct s.tables.details
ledger_is_details time_of r = let w = Reach-IsBooked time_of r in (w.summed.sums, w.summed.distinct)
