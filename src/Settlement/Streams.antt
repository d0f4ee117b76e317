-- ===== src/Settlement/Streams.antt =====
-- The two streams of logs, backfill and settlement, never book one log twice and leave none out.
use nexusapi_enterprise.Prelude.{
  ℕ, ◌≤◌, ◌<◌, ◌≡◌, ◌⊎◌, refl, ap, sym, ◌∙◌, inl, inr, Bool, true, false, List, [], ◌∷◌, ltb, leb,
  ◌&&◌, if◌then◌else◌, arith, Bool-cases, All,
}
use mathlib.Core.Path.{subst}
use nexusapi_enterprise.Prelude.Int.{pos, leb_ℤ, ltb_ℤ}
use nexusapi_enterprise.Settlement.{LogEntry, belongs_to_backfill, ingest_window}

-- (b_ts, b_id) < (created_at, id), in the order by time and then by id.
abbrev pub After : ℕ → ℕ → ℕ → ℕ → Type 0
After created_at id b_ts b_id = (b_ts < created_at) ⊎ ((created_at ≡ b_ts) × (b_id < id))

-- Every log lies on exactly one side of the boundary.
pub belongs_to_backfill-decides :
    (created_at id b_ts b_id : ℕ)
    → ((belongs_to_backfill created_at id b_ts b_id ≡ true) × (After created_at id b_ts b_id → ⊥))
      ⊎ ((belongs_to_backfill created_at id b_ts b_id ≡ false) × After created_at id b_ts b_id)
unfolding belongs_to_backfill
belongs_to_backfill-decides created_at id b_ts b_id = ground arith

-- The highest id after one log.
abbrev next_max : ℕ → LogEntry → ℕ → ℕ
next_max mark e max_id = if leb e.id mark then max_id else if ltb max_id e.id then e.id else max_id

next_max-le :
    (mark : ℕ) (e : LogEntry) (max_id : ℕ)
    → mark ≤ max_id
    → (max_id ≤ next_max mark e max_id) × (e.id ≤ next_max mark e max_id)
next_max-le mark e max_id le = ground arith

ingest_next :
    (mark : ℕ) (e : LogEntry) (es : List LogEntry) (max_id : ℕ)
    → (ingest_window mark (e ∷ es) max_id).1 ≡ (ingest_window mark es (next_max mark e max_id)).1
unfolding ingest_window
ingest_next mark e es max_id = elim (Bool-cases (leb e.id mark)) [
  | inl old ↦ rw old
  | inr new ↦
      rw new
        (elim (Bool-cases (leb_ℤ e.quota (pos 0))) [ inl free ↦ rw free | inr costs ↦ rw costs ])
]

-- The mark after a window is no lower than before, and no lower than the id of any log of the
-- window: what the next settlement takes is none of them.
pub ingest_window-mark :
    (mark : ℕ) (es : List LogEntry) (max_id : ℕ)
    → mark ≤ max_id
    → (max_id ≤ (ingest_window mark es max_id).1)
      × All (λ e. e.id ≤ (ingest_window mark es max_id).1) es
unfolding ingest_window
ingest_window-mark mark [] max_id le = (omega arith, tt)
ingest_window-mark mark (e ∷ es) max_id le =
    let (up, above) = next_max-le mark e max_id le in
    let (up', rest) = ingest_window-mark mark es (next_max mark e max_id) (omega (arith, le, up)) in
    subst (λ v. (max_id ≤ v) × ((e.id ≤ v) × All (λ x. x.id ≤ v) es))
      (sym (ingest_next mark e es max_id))
      (omega (arith, up, up'), (omega (arith, above, up'), rest))

-- The same filter as a condition on one log.
abbrev pub is_new : ℕ → LogEntry → Bool
is_new mark e = ltb mark e.id && ltb_ℤ (pos 0) e.quota

-- The logs that satisfy the condition, in their order.
unfoldable pub select : (LogEntry → Bool) → List LogEntry → List LogEntry
select p [] = []
select p (e ∷ es) = let rest = select p es in if p e then e ∷ rest else rest

-- A settlement ingests exactly the logs of the window that lie above its mark and cost something.
pub ingest_window-select :
    (mark : ℕ) (es : List LogEntry) (max_id : ℕ)
    → (ingest_window mark es max_id).0 ≡ select (is_new mark) es
unfolding ingest_window select
ingest_window-select mark [] max_id = refl
ingest_window-select mark (e ∷ es) max_id = elim (Bool-cases (leb e.id mark)) [
  | inl old ↦
      let skip : is_new mark e ≡ false = ground arith in
      rw old (rw skip (ingest_window-select mark es max_id))
  | inr new ↦ rw new (elim (Bool-cases (leb_ℤ e.quota (pos 0))) [
    | inl free ↦
        let skip : is_new mark e ≡ false = ground arith in
        rw free (rw skip (ingest_window-select mark es _))
    | inr costs ↦
        let take_it : is_new mark e ≡ true = ground arith in
        rw costs (rw take_it (ap (λ t. e ∷ t) (ingest_window-select mark es _)))
  ])
]

select_none :
    (mark : ℕ) (es : List LogEntry) → All (λ e. e.id ≤ mark) es → select (is_new mark) es ≡ []
unfolding select
select_none mark [] h = refl
select_none mark (e ∷ es) h =
    let skip : is_new mark e ≡ false = ground (arith, h.0) in rw skip (select_none mark es h.1)

-- A window that was settled is not settled again: the second run over the same logs ingests none.
pub ingest_window-twice :
    (mark : ℕ) (es : List LogEntry)
    → (ingest_window (ingest_window mark es mark).1 es (ingest_window mark es mark).1).0 ≡ []
ingest_window-twice mark es =
    let next = (ingest_window mark es mark).1 in
    let (up, below) = ingest_window-mark mark es mark (omega arith) in
    ingest_window-select next es next ∙ select_none next es below
