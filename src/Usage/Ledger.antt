-- ===== src/Usage/Ledger.antt =====
-- What usage_ledger and usage_detail add up to, for the rows whose bucket a test picks.
use nexusapi_enterprise.Prelude.{
  ℕ, ◌≡◌, refl, ap, inl, inr, Bool, true, false, List, [], ◌∷◌, ◌++◌, arith, Bool-cases, same_text,
  ok, ok_injective, >>=-eq-ok, All,
}
use mathlib.Core.Path.{subst}
use nexusapi_enterprise.Prelude.Int.{ℤ, pos, ◌+ℤ◌, ◌≤ℤ◌, ◌<ℤ◌, int_laws, pos_part, neg_part}
use nexusapi_enterprise.Prelude.Int64.{two_63, i64, i64_id}
use nexusapi_enterprise.Balance.{bigint}
use nexusapi_enterprise.Settlement.{LogEntry}
use nexusapi_enterprise.Usage.{
  BucketKey, same_bucket, same_row, LedgerBucket, DetailRow, TokenAttr, hour_bucket, key_of,
  add_agg, add_to_ledger_bucket_tx, add_buckets, has_log, insert_usage_detail_tx,
}

abbrev pub quota_if : Bool → ℤ → ℤ
quota_if true quota = quota
quota_if false quota = pos 0

unfoldable pub sum_ledger : (BucketKey → Bool) → List LedgerBucket → ℤ
sum_ledger p [] = pos 0
sum_ledger p (r ∷ rs) = quota_if (p r.key) r.consumed_quota +ℤ sum_ledger p rs

abbrev pub detail_key : DetailRow → BucketKey
detail_key d = record {
  org_id = d.org_id;
  newapi_user_id = d.newapi_user_id;
  key_id = d.key_id;
  model_name = d.model_name;
  time_bucket = hour_bucket d.log_ts;
}

unfoldable pub sum_details : (BucketKey → Bool) → List DetailRow → ℤ
sum_details p [] = pos 0
sum_details p (d ∷ ds) = quota_if (p (detail_key d)) d.consumed_quota +ℤ sum_details p ds

same_text_sound : (a b : List ℕ) → same_text a b ≡ true → a ≡ b
same_text_sound [] [] h = refl
same_text_sound [] (y ∷ ys) h = cc
same_text_sound (x ∷ xs) [] h = cc
same_text_sound (x ∷ xs) (y ∷ ys) h = ground (arith, same_text_sound xs ys)

same_bucket_sound : (a b : BucketKey) → same_bucket a b ≡ true → a ≡ b
same_bucket_sound a b h =
    let text : same_text a.model_name b.model_name ≡ true = ground arith in
    let names = same_text_sound a.model_name b.model_name text in ground arith

-- The test tells no two keys of one row of the ledger apart.
abbrev pub PicksRows : (List ℕ → List ℕ) → (BucketKey → Bool) → Type 0
PicksRows collate p = (a b : BucketKey) → same_row collate a b ≡ true → p a ≡ p b

bigint-ok : (z : ℤ) {v : ℤ} → bigint z ≡ ok v → v ≡ z
bigint-ok z e = ground arith

-- An upsert adds the amount to the bucket's row.
add_to_ledger_bucket_tx-sum :
    (collate : List ℕ → List ℕ) (p : BucketKey → Bool) (picks : PicksRows collate p)
    (a : LedgerBucket) (rs : List LedgerBucket) {rs' : List LedgerBucket}
    → add_to_ledger_bucket_tx collate a rs ≡ ok rs'
    → sum_ledger p rs' ≡ sum_ledger p rs +ℤ quota_if (p a.key) a.consumed_quota
unfolding add_to_ledger_bucket_tx sum_ledger
add_to_ledger_bucket_tx-sum collate p picks a [] e =
    subst (λ x. sum_ledger p x ≡ pos 0 +ℤ quota_if (p a.key) a.consumed_quota) (ok_injective e)
      (omega int_laws)
add_to_ledger_bucket_tx-sum collate p picks a (r ∷ rs) {rs'} e =
    elim (Bool-cases (same_row collate r.key a.key)) [
      | inl same ↦
          let (sum, e1, k1) =
            >>=-eq-ok (bigint (r.consumed_quota +ℤ a.consumed_quota)) _ (rw same at e) in
          let value = bigint-ok (r.consumed_quota +ℤ a.consumed_quota) e1 in
          let key = picks r.key a.key same in
          subst
            (λ x.
              sum_ledger p x
              ≡ quota_if (p r.key) r.consumed_quota
                +ℤ sum_ledger p rs
                +ℤ quota_if (p a.key) a.consumed_quota)
            (ok_injective k1)
            (rw value (rw (← key) (raised (p r.key) r.consumed_quota a.consumed_quota _)))
      | inr other ↦
          let (rest, e1, k1) = >>=-eq-ok (add_to_ledger_bucket_tx collate a rs) _ (rw other at e) in
          let ih = add_to_ledger_bucket_tx-sum collate p picks a rs e1 in
          subst
            (λ x.
              sum_ledger p x
              ≡ quota_if (p r.key) r.consumed_quota
                +ℤ sum_ledger p rs
                +ℤ quota_if (p a.key) a.consumed_quota)
            (ok_injective k1) (omega (int_laws, ap pos_part ih, ap neg_part ih))
    ]
  where
    raised : (b : Bool) (x y s : ℤ) → quota_if b (x +ℤ y) +ℤ s ≡ quota_if b x +ℤ s +ℤ quota_if b y
    raised true x y s = omega int_laws
    raised false x y s = omega int_laws

pub add_buckets-sum :
    (collate : List ℕ → List ℕ) (p : BucketKey → Bool) (picks : PicksRows collate p)
    (aggs rows : List LedgerBucket) {rows' : List LedgerBucket}
    → add_buckets collate aggs rows ≡ ok rows'
    → sum_ledger p rows' ≡ sum_ledger p rows +ℤ sum_ledger p aggs
unfolding add_buckets sum_ledger
add_buckets-sum collate p picks [] rows e =
    subst (λ x. sum_ledger p x ≡ sum_ledger p rows +ℤ pos 0) (ok_injective e) (omega int_laws)
add_buckets-sum collate p picks (a ∷ others) rows e =
    let (mid, e1, k1) = >>=-eq-ok (add_to_ledger_bucket_tx collate a rows) _ e in
    let one = add_to_ledger_bucket_tx-sum collate p picks a rows e1 in
    let more = add_buckets-sum collate p picks others mid k1 in
    omega (int_laws, ap pos_part one, ap neg_part one, ap pos_part more, ap neg_part more)

pub sum_details-append :
    (p : BucketKey → Bool) (ds es : List DetailRow)
    → sum_details p (ds ++ es) ≡ sum_details p ds +ℤ sum_details p es
unfolding sum_details
sum_details-append p [] es = omega int_laws
sum_details-append p (d ∷ ds) es =
    let ih = sum_details-append p ds es in omega (int_laws, ap pos_part ih, ap neg_part ih)

-- No amount is negative.
abbrev pub NoneNegative : List LedgerBucket → Type 0
NoneNegative rows = All (λ r. pos 0 ≤ℤ r.consumed_quota) rows

-- The sum of all rows.
abbrev pub total : List LedgerBucket → ℤ
total rows = sum_ledger (λ k. true) rows

total-nonneg : (rows : List LedgerBucket) → NoneNegative rows → pos 0 ≤ℤ total rows
unfolding sum_ledger
total-nonneg [] h = omega arith
total-nonneg (r ∷ rs) h = omega (int_laws, h.0, total-nonneg rs h.1)

-- An entry is added to the bucket of its key, as long as the sum of all is an int64.
pub add_agg-sum :
    (p : BucketKey → Bool) (m : TokenAttr) (e : LogEntry) (rows : List LedgerBucket)
    → NoneNegative rows
    → pos 0 ≤ℤ e.quota
    → total rows +ℤ e.quota <ℤ pos two_63
    → (sum_ledger p (add_agg m e rows) ≡ sum_ledger p rows +ℤ quota_if (p (key_of m e)) e.quota)
      × NoneNegative (add_agg m e rows)
unfolding add_agg sum_ledger
add_agg-sum p m e [] h q le = (omega int_laws, (q, tt))
add_agg-sum p m e (r ∷ rs) h q le = elim (Bool-cases (same_bucket r.key (key_of m e))) [
  | inl same ↦
      let key = same_bucket_sound r.key (key_of m e) same in
      let rest = total-nonneg rs h.1 in
      let value : i64 (r.consumed_quota +ℤ e.quota) ≡ r.consumed_quota +ℤ e.quota =
        i64_id _ (omega (int_laws, rest, h.0, q, le)) in
      rw same (
        rw value (rw (← key) (raised (p r.key) r.consumed_quota e.quota _)),
        (rw value (omega (int_laws, h.0, q)), h.1),
      )
  | inr other ↦
      let (ih, nonneg) =
        add_agg-sum p m e rs h.1 q (omega (int_laws, le, h.0, total-nonneg rs h.1)) in
      rw other (omega (int_laws, ap pos_part ih, ap neg_part ih), (h.0, nonneg))
]
  where
    raised : (b : Bool) (x y s : ℤ) → quota_if b (x +ℤ y) +ℤ s ≡ quota_if b x +ℤ s +ℤ quota_if b y
    raised true x y s = omega int_laws
    raised false x y s = omega int_laws

-- No two rows are of one log.
unfoldable pub IsDistinct : List DetailRow → Type 0
IsDistinct [] = Unit
IsDistinct (d ∷ ds) = (has_log d.newapi_log_id ds ≡ false) × IsDistinct ds

-- None of the rows is of a log that the table holds.
abbrev pub NoneHeld : List DetailRow → List DetailRow → Type 0
NoneHeld ds rows = All (λ d. has_log d.newapi_log_id rows ≡ false) ds

NoneHeld-cons :
    (d : DetailRow) (ds rows : List DetailRow)
    → has_log d.newapi_log_id ds ≡ false
    → NoneHeld ds rows
    → NoneHeld ds (d ∷ rows)
unfolding has_log
NoneHeld-cons d [] rows h n = tt
NoneHeld-cons d (x ∷ xs) rows h n =
    (ground (arith, n.0), NoneHeld-cons d xs rows (ground arith) n.1)

-- Rows of new logs are all inserted.
pub insert_usage_detail_tx-sum :
    (p : BucketKey → Bool) (ds rows : List DetailRow)
    → IsDistinct ds
    → NoneHeld ds rows
    → sum_details p (insert_usage_detail_tx ds rows) ≡ sum_details p rows +ℤ sum_details p ds
unfolding insert_usage_detail_tx sum_details IsDistinct
insert_usage_detail_tx-sum p [] rows distinct fresh = omega int_laws
insert_usage_detail_tx-sum p (d ∷ ds) rows distinct fresh =
    let ih =
      insert_usage_detail_tx-sum p ds (d ∷ rows) distinct.1
        (NoneHeld-cons d ds rows distinct.0 fresh.1) in
    rw (fresh.0) (omega (int_laws, ap pos_part ih, ap neg_part ih))

-- INSERT IGNORE leaves no two rows of one log.
pub insert_usage_detail_tx-IsDistinct :
    (ds rows : List DetailRow) → IsDistinct rows → IsDistinct (insert_usage_detail_tx ds rows)
unfolding insert_usage_detail_tx IsDistinct
insert_usage_detail_tx-IsDistinct [] rows h = h
insert_usage_detail_tx-IsDistinct (d ∷ ds) rows h =
    elim (Bool-cases (has_log d.newapi_log_id rows)) [
      | inl held ↦ rw held (insert_usage_detail_tx-IsDistinct ds rows h)
      | inr new ↦ rw new (insert_usage_detail_tx-IsDistinct ds (d ∷ rows) (new, h))
    ]

-- Every row of the table after an insertion was there or was inserted.
pub insert_usage_detail_tx-All {κ} :
    (P : DetailRow → Type κ) (ds rows : List DetailRow)
    → All P ds
    → All P rows
    → All P (insert_usage_detail_tx ds rows)
unfolding insert_usage_detail_tx
insert_usage_detail_tx-All P [] rows h k = k
insert_usage_detail_tx-All P (d ∷ ds) rows h k = elim (Bool-cases (has_log d.newapi_log_id rows)) [
  | inl held ↦ rw held (insert_usage_detail_tx-All P ds rows h.1 k)
  | inr new ↦ rw new (insert_usage_detail_tx-All P ds (d ∷ rows) h.1 (h.0, k))
]
