-- ===== src/Settlement/Tests.antt =====
-- Windows, pages and streams of small logs, and the theorems at them.
use nexusapi_enterprise.Prelude.{
  ℕ, ◌+◌, ◌*◌, ◌≤◌, ◌<◌, ◌≡◌, ◌⊎◌, leb, ◌&&◌, some, List, [], ◌∷◌, arith, if◌then◌else◌,
}
use nexusapi_enterprise.Prelude.Int.{pos, ltb_ℤ}
use nexusapi_enterprise.Settlement.{LogEntry, choose_until, run_windows}
use nexusapi_enterprise.Settlement.Windows.{choose_until-readable, times_read, run_windows-once}

-- A hundred logs in each second from 1000 on.
abbrev busy : ℕ → ℕ
busy u = (u * 100)

choose_until-readable_example :
    (u : ℕ) × (choose_until busy 100 10 90 ≡ some u)
    × (10 < u)
    × (u ≤ 90)
    × ((busy u ≤ 2000) ⊎ (u ≡ 11))
choose_until-readable_example = choose_until-readable busy 100 10 90 (omega arith) (omega arith)

abbrev entry : ℕ → ℕ → LogEntry
entry id created_at = record {
  id = id;
  user_id = 3;
  created_at = created_at;
  model_name = [];
  quota = pos 5;
  prompt_tokens = pos 1;
  completion_tokens = pos 1;
  token_id = 8;
}

abbrev three_logs : List LogEntry
three_logs = entry 9 101 ∷ entry 12 101 ∷ entry 11 100 ∷ []

-- A hundred logs in each second.
abbrev busy_window : ℕ → ℕ → ℕ
busy_window lo hi = (hi + 1) * 100

run_windows-once_example :
    times_read 88 (run_windows busy_window 3 90).0
    ≡ (if ltb_ℤ (run_windows busy_window 3 90).1 (pos 88) && leb 88 90 then 1 else 0)
run_windows-once_example = run_windows-once busy_window 3 90 88
