-- ===== src/Usage/Held.antt =====
-- Every log of the platform in a batch gets its detail, and a detail stays.
use nexusapi_enterprise.Prelude.{
  ℕ, ◌≡◌, refl, ap, inl, inr, Bool, true, false, Option, none, some, List, [], ◌∷◌, ◌++◌, ◌==◌,
  arith, Bool-cases, if◌then◌else◌, Result, ok, ok_injective, >>=-eq-ok, All,
}
use mathlib.Core.Path.{subst}
use nexusapi_enterprise.Funding.{ServiceError}
use nexusapi_enterprise.Settlement.{LogEntry}
use nexusapi_enterprise.Usage.{
  TokenAttr, Lookups, LedgerBucket, DetailRow, detail_of, has_log, insert_usage_detail_tx,
  or_repo_error,
}
use nexusapi_enterprise.Usage.Cached.{Report, owner_of, book_plain, ingest_one, ingest_plain}

-- The entry belongs to the platform: a member's token, or a user that is an organization.
abbrev pub IsOwned : Lookups → LogEntry → Type 0
IsOwned l e = (m : TokenAttr) × (owner_of l e ≡ ok (some m))

has_log-append_left :
    (id : ℕ) (ds es : List DetailRow) → has_log id ds ≡ true → has_log id (ds ++ es) ≡ true
unfolding has_log
has_log-append_left id [] es h = cc
has_log-append_left id (d ∷ ds) es h = ground (arith, has_log-append_left id ds es)

has_log-append_last :
    (id : ℕ) (ds : List DetailRow) (d : DetailRow)
    → d.newapi_log_id ≡ id
    → has_log id (ds ++ (d ∷ [])) ≡ true
unfolding has_log
has_log-append_last id [] d e = ground arith
has_log-append_last id (x ∷ xs) d e = ground (arith, has_log-append_last id xs d e)

book_plain-some :
    (l : Lookups) (backfill : Bool) (e : LogEntry) (aggs : List LedgerBucket)
    (details : List DetailRow) (m : TokenAttr) {u : Report}
    → book_plain l backfill e (aggs, details) (some m) ≡ ok u
    → details ++ (detail_of m e ∷ []) ≡ u.1
book_plain-some l backfill e aggs details m h =
    let flag : Result ServiceError Bool =
      if backfill then ok false else or_repo_error (l.billing_enabled m.org_id) in
    let (b, e1, k1) = >>=-eq-ok flag _ h in ap (λ x. x.1) (ok_injective k1)

-- A detail stays.
ingest_plain-keeps :
    (l : Lookups) (backfill : Bool) (id : ℕ) (es : List LogEntry) (u : Report) {u' : Report}
    → has_log id u.1 ≡ true
    → ingest_plain l backfill es u ≡ ok u'
    → has_log id u'.1 ≡ true
unfolding ingest_plain
ingest_plain-keeps l backfill id [] u h e = subst (λ x. has_log id x.1 ≡ true) (ok_injective e) h
ingest_plain-keeps l backfill id (x ∷ xs) (aggs, details) h e =
    let (mid, e1, k1) = >>=-eq-ok (ingest_one l backfill x (aggs, details)) _ e in
    let (m, e2, k2) = >>=-eq-ok (owner_of l x) _ e1 in
    ingest_plain-keeps l backfill id xs mid (kept m mid k2) k1
  where
    kept :
        (m : Option TokenAttr) (mid : Report)
        → book_plain l backfill x (aggs, details) m ≡ ok mid
        → has_log id mid.1 ≡ true
    kept none mid k = subst (λ y. has_log id y.1 ≡ true) (ok_injective k) h
    kept (some m) mid k =
        subst (λ y. has_log id y ≡ true) (book_plain-some l backfill x aggs details m k)
          (has_log-append_left id details (detail_of m x ∷ []) h)

-- Every entry of the platform in a batch has a detail.
pub ingest_plain_complete :
    (l : Lookups) (backfill : Bool) (es : List LogEntry) (u : Report) {u' : Report}
    → ingest_plain l backfill es u ≡ ok u'
    → All (λ e. IsOwned l e → has_log e.id u'.1 ≡ true) es
unfolding ingest_plain
ingest_plain_complete l backfill [] u e = tt
ingest_plain_complete l backfill (x ∷ xs) (aggs, details) {u'} e =
    let (mid, e1, k1) = >>=-eq-ok (ingest_one l backfill x (aggs, details)) _ e in
    (
      λ (m, owned). ingest_plain-keeps l backfill x.id xs mid (booked m mid (rw owned at e1)) k1,
      ingest_plain_complete l backfill xs mid k1,
    )
  where
    booked :
        (m : TokenAttr) (mid : Report)
        → book_plain l backfill x (aggs, details) (some m) ≡ ok mid
        → has_log x.id mid.1 ≡ true
    booked m mid k =
        subst (λ y. has_log x.id y ≡ true) (book_plain-some l backfill x aggs details m k)
          (has_log-append_last x.id details (detail_of m x) refl)

insert-keeps :
    (id : ℕ) (ds rows : List DetailRow)
    → has_log id rows ≡ true
    → has_log id (insert_usage_detail_tx ds rows) ≡ true
unfolding insert_usage_detail_tx has_log
insert-keeps id [] rows h = h
insert-keeps id (d ∷ ds) rows h = elim (Bool-cases (has_log d.newapi_log_id rows)) [
  | inl held ↦ rw held (insert-keeps id ds rows h)
  | inr new ↦ rw new (insert-keeps id ds (d ∷ rows) (ground arith))
]

pub insert-holds :
    (id : ℕ) (ds rows : List DetailRow)
    → has_log id ds ≡ true
    → has_log id (insert_usage_detail_tx ds rows) ≡ true
unfolding insert_usage_detail_tx has_log
insert-holds id [] rows h = cc
insert-holds id (d ∷ ds) rows h = elim (Bool-cases (d.newapi_log_id == id)) [
  | inl this ↦
      let at : d.newapi_log_id ≡ id = ground arith in
      elim (Bool-cases (has_log d.newapi_log_id rows)) [
        | inl held ↦ rw held (insert-keeps id ds rows (subst (λ x. has_log x rows ≡ true) at held))
        | inr new ↦ rw new (insert-keeps id ds (d ∷ rows) (ground arith))
      ]
  | inr other ↦ insert-holds id ds _ (rw other at h)
]
