-- ===== src/Usage/Tests.antt =====
-- One log of a member in the window of a second run, and the theorems at it.
use nexusapi_enterprise.Prelude.{
  ℕ, zero, suc, ◌≤◌, ◌⊎◌, ◌≡◌, refl, inl, inr, Bool, true, false, ◌&&◌, none, some, List, [], ◌∷◌,
  leb, length, arith, Bool-cases, if◌then◌else◌, ok, ◌>>=◌,
}
use nexusapi_enterprise.Prelude.Int.{pos, ◌+ℤ◌}
use nexusapi_enterprise.Prelude.Int64.{i64}
use nexusapi_enterprise.Settlement.{LogEntry, choose_until, ingest_window}
use nexusapi_enterprise.Settlement.Pages.{take, drop, page_of_logs}
use nexusapi_enterprise.Settlement.Streams.{select}
use nexusapi_enterprise.Usage.{
  Lookups, BucketKey, empty_sink, ingest_all, ingest_entry, cached, commit_usage_only, add_buckets,
  add_agg, add_to_ledger_bucket_tx, has_log, insert_usage_detail_tx,
}
use nexusapi_enterprise.Usage.Ledger.{PicksRows, sum_ledger, sum_details, IsDistinct}
use nexusapi_enterprise.Usage.Batch.{NoneTwice, has_entry, sum_quotas}
use nexusapi_enterprise.Usage.Cached.{ingest_plain, ingest_all-plain}
use nexusapi_enterprise.Usage.Run.{
  Cursor, SettlementStore, ReadLogs, RunEnv, run_settlement, settle_from, advance_cursor_tx,
  prepare, select_until, ingest_rescan, collect_pages, main_pages, settle_tx,
}
use nexusapi_enterprise.Usage.Deduct.{deduct_orgs, deduct_one, per_org, add_amount}
use nexusapi_enterprise.Usage.Reads.{pages_read}
use nexusapi_enterprise.Usage.Settled.{IsFaithful}
use nexusapi_enterprise.Usage.Books.{
  settles, start, then_step, empty_settlement_store, ledger_is_details,
}
use nexusapi_enterprise.Usage.Complete.{Settled}

abbrev one_log : LogEntry
one_log = record {
  id = 7;
  user_id = 3;
  created_at = 50;
  model_name = b'o' ∷ [];
  quota = pos 12;
  prompt_tokens = pos 4;
  completion_tokens = pos 8;
  token_id = 8;
}

abbrev logs_of : ℕ → ℕ → List LogEntry
logs_of since until = if leb since 50 && leb 50 until then one_log ∷ [] else []

abbrev read_one : ReadLogs
read_one since until page =
    ok (page_of_logs (logs_of since until) page, length (logs_of since until))

abbrev member_of_8 : Lookups
member_of_8 = record {
  member_by_token =
      λ token. ok (some (record { member_id = 4; org_id = 1; team_id = none; key_id = 9 }));
  org_by_user = λ user. ok none;
  billing_enabled = λ org. ok false;
}

one_page :
    (since until n : ℕ)
    → (pages_read (read_one since until) n 1 ≡ [])
      ⊎ ((pages_read (read_one since until) n 1 ≡ one_log ∷ []) × (since ≤ 50) × (50 ≤ until))
unfolding pages_read take drop
one_page since until zero = inl refl
one_page since until (suc n) = elim (Bool-cases (leb since 50 && leb 50 until)) [
  | inl inside ↦ inr (rw (inside, pages_read) refl, ground arith, ground arith)
  | inr outside ↦ inl (rw (outside, pages_read) refl)
]

read_one-IsFaithful : IsFaithful (λ id. 50) read_one
unfolding NoneTwice has_entry sum_quotas select ◌+ℤ◌
read_one-IsFaithful = record {
  within = λ since until n. elim (one_page since until n) [
    | inl none_read ↦ rw none_read tt
    | inr (read, from, to) ↦ rw read ((from, to, refl), tt)
  ];
  once = λ since until n. elim (one_page since until n) [
    | inl none_read ↦ rw none_read tt
    | inr (read, from, to) ↦ rw read (refl, tt)
  ];
  small = λ since until n. elim (one_page since until n) [
    | inl none_read ↦ rw none_read (omega arith)
    | inr (read, from, to) ↦ rw read (omega arith)
  ];
}

abbrev env_at : ℕ → RunEnv
env_at now = record {
  leader = ok true;
  cursor_works = true;
  now = now;
  observe_mode = false;
  read_logs = read_one;
  lookups = member_of_8;
  filter_works = true;
  commits = true;
}

abbrev first_run : SettlementStore
first_run = (run_settlement (env_at 25) (empty_settlement_store (λ name. name) (λ org. none))).1

abbrev second_run : SettlementStore
second_run = (run_settlement (env_at 100) first_run).1

ledger_is_details_example :
    ((p : BucketKey → Bool)
      → PicksRows second_run.tables.collate p
      → sum_ledger p second_run.tables.ledger ≡ sum_details p second_run.tables.details)
    × IsDistinct second_run.tables.details
ledger_is_details_example =
    ledger_is_details (λ id. 50)
      (then_step
        (then_step (start (λ name. name) (λ org. none)) (settles (env_at 25) read_one-IsFaithful))
        (settles (env_at 100) read_one-IsFaithful))

-- The log is really booked.
second_run_books : sum_ledger (λ k. true) second_run.tables.ledger ≡ pos 12
unfolding take drop run_settlement settle_from advance_cursor_tx prepare select_until choose_until
    ingest_rescan collect_pages select ingest_all main_pages ingest_window ingest_entry cached
    settle_tx commit_usage_only add_buckets deduct_orgs deduct_one per_org add_amount add_agg
    add_to_ledger_bucket_tx has_log insert_usage_detail_tx i64 ◌+ℤ◌ sum_ledger
second_run_books = refl

abbrev cursor_20 : Cursor
cursor_20 = record { last_settled_ts = 20; last_settled_log_id = 0; version = 1 }

ingest_all-plain_example :
    (ingest_all member_of_8 (one_log ∷ one_log ∷ []) (empty_sink false) >>= λ sk.
    ok (sk.aggs, sk.details))
    ≡ ingest_plain member_of_8 false (one_log ∷ one_log ∷ []) ([], [])
ingest_all-plain_example = ingest_all-plain member_of_8 false (one_log ∷ one_log ∷ [])
