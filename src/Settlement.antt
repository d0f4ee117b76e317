-- ===== src/Settlement.antt =====
-- service/settlement.go and service/backfill.go: which of new-api's consumption logs are read and
-- booked by a settlement, and which by the backfill of an organization. Times are seconds, not
-- negative. What new-api counts and lists for a window is an argument.
pub mod Windows
pub mod Pages
pub mod Streams
mod Tests
use nexusapi_enterprise.Prelude.{
  ℕ, zero, suc, ◌+◌, ◌-◌, ◌*◌, ◌/◌, Bool, true, false, ◌&&◌, ◌||◌, Option, none, some, List, [],
  ◌∷◌, ◌++◌, ltb, leb, ◌==◌, if◌then◌else◌,
}
use nexusapi_enterprise.Prelude.Int.{ℤ, pos, negsuc, leb_ℤ}

-- settlementMaxPages, of 100 logs each.
abbrev pub settlement_max_pages : ℕ
settlement_max_pages = 20

abbrev pub readable : ℕ → Bool
readable total = leb total (settlement_max_pages * 100)

-- The loop of RunSettlement over untilSub: halved until the window from `since` can be read.
unfoldable pub choose_until : (ℕ → ℕ) → ℕ → ℕ → ℕ → Option ℕ
choose_until total zero since until = none
choose_until total (suc fuel) since until = elim (readable (total until) || leb until (since + 1)) [
  | true ↦ some until
  | false ↦ choose_until total fuel since (since + (until - since) / 2)
]

-- backfillLowerBound: `lo` is moved towards `hi` until the window can be read.
unfoldable pub lower_bound : (ℕ → ℕ) → ℕ → ℕ → ℕ → Option ℕ
lower_bound total zero lo hi = none
lower_bound total (suc fuel) lo hi = elim (readable (total lo) || leb (hi - 1) lo) [
  | true ↦ some lo
  | false ↦ lower_bound total fuel (hi - (hi - lo) / 2) hi
]

abbrev pub backfill_lower_bound : (ℕ → ℕ → ℕ) → ℕ → Option ℕ
backfill_lower_bound total hi = lower_bound (λ lo. total lo hi) (suc hi) 0 hi

-- One window [lo, suc h] of a slice, and the cursor lo - 1 from which the rest goes on.
abbrev pub window_read : ℕ → ℕ → (ℕ → List (ℕ × ℕ) × ℤ) → List (ℕ × ℕ) × ℤ
window_read h zero rest = ((0, suc h) ∷ [], negsuc 0)
window_read h (suc m) rest = ((suc m, suc h) ∷ (rest m).0, (rest m).1)

-- The loop of RunBackfillSlice over its windows, newest first: the windows that were read, and the
-- cursor. A window that cannot be chosen ends it.
unfoldable pub run_windows : (ℕ → ℕ → ℕ) → ℕ → ℕ → List (ℕ × ℕ) × ℤ
run_windows total zero hi = ([], pos hi)
run_windows total (suc windows) zero = ([], pos 0)
run_windows total (suc windows) (suc h) = elim (backfill_lower_bound total (suc h)) [
  | none ↦ ([], pos (suc h))
  | some lo ↦ window_read h lo (λ m. run_windows total windows m)
]

-- if hi <= 0 { SetBackfillStatus(done) }
abbrev pub is_done : ℤ → Bool
is_done cursor = leb_ℤ cursor (pos 0)

-- newapi.LogEntry, without the name of the token. A text is the list of its code points.
pub record LogEntry : Type 0 where
  pub id : ℕ
  pub user_id : ℕ
  pub created_at : ℕ
  pub model_name : List ℕ
  pub quota : ℤ
  pub prompt_tokens : ℤ
  pub completion_tokens : ℤ
  pub token_id : ℕ

-- belongsToBackfill
unfoldable pub belongs_to_backfill : ℕ → ℕ → ℕ → ℕ → Bool
belongs_to_backfill created_at id b_ts b_id =
    ltb created_at b_ts || (created_at == b_ts && leb id b_id)

-- The loop over pages: for page := 1; page <= pages; page++ { ...; if page*100 >= total { break } }
unfoldable pub read_pages : (ℕ → List LogEntry) → ℕ → ℕ → ℕ → List LogEntry
read_pages page_of total zero page = []
read_pages page_of total (suc left) page =
    let rest = read_pages page_of total left (suc page) in
    if leb total (page * 100) then page_of page else page_of page ++ rest

-- The main window of RunSettlement: what is ingested of a window, and the new high-water mark.
unfoldable pub ingest_window : ℕ → List LogEntry → ℕ → List LogEntry × ℕ
ingest_window mark [] max_id = ([], max_id)
ingest_window mark (e ∷ es) max_id =
    let skipped = ingest_window mark es max_id in
    let raised = ingest_window mark es (if ltb max_id e.id then e.id else max_id) in
    if leb e.id mark
    then skipped
    else if leb_ℤ e.quota (pos 0)
    then raised
    else (e ∷ raised.0, raised.1)
