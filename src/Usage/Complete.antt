-- ===== src/Usage/Complete.antt =====
-- A settlement that succeeds leaves nothing of its window out, and moves on.
use nexusapi_enterprise.Prelude.{ℕ, ◌+◌, ◌-◌, ◌⊎◌, length, ◌≤◌, ◌<◌, ◌≡◌, true, List, All}
use nexusapi_enterprise.Settlement.{LogEntry}
use nexusapi_enterprise.Settlement.Streams.{select, is_new}
use nexusapi_enterprise.Usage.{has_log}
use nexusapi_enterprise.Usage.Run.{
  Cursor, SettlementStore, RunEnv, get_or_create_cursor, settlement_lag_sec,
}
use nexusapi_enterprise.Usage.Held.{IsOwned}

-- What a successful settlement with a window promises; the window was chosen so that its logs can be
-- read in full, unless it is one second.
pub record Settled (logs : ℕ → ℕ → List LogEntry) (env : RunEnv) (c : Cursor)
    (after : SettlementStore) : Type 0 where
  pub until_sub : ℕ
  pub fits :
      (length (logs c.last_settled_ts until_sub) ≤ 2000) ⊎ (until_sub ≡ c.last_settled_ts + 1)
  pub forward : c.last_settled_ts < until_sub
  pub no_later : until_sub ≤ env.now - settlement_lag_sec
  pub moved : (get_or_create_cursor after.cursor).last_settled_ts ≡ until_sub
  pub booked :
      length (logs c.last_settled_ts until_sub) ≤ 2000
      → All
          (λ e. IsOwned env.lookups e → has_log e.id after.tables.details ≡ true)
          (select (is_new c.last_settled_log_id) (logs c.last_settled_ts until_sub))
