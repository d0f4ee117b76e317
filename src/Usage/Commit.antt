-- ===== src/Usage/Commit.antt =====
-- What commitUsageOnly leaves of a batch of entries: the ledger and the details, still equal.
use nexusapi_enterprise.Prelude.{
  ◌≡◌, refl, ap, sym, ◌∙◌, Bool, false, List, [], ◌∷◌, ok, ok_injective, >>=-eq-ok, All,
}
use mathlib.Core.Path.{subst}
use nexusapi_enterprise.Prelude.Int.{ℤ, pos, ◌+ℤ◌, ◌<ℤ◌, int_laws}
use nexusapi_enterprise.Prelude.Int64.{two_63}
use nexusapi_enterprise.Settlement.{LogEntry}
use nexusapi_enterprise.Usage.{
  BucketKey, DetailRow, TokenAttr, Lookups, SettleSink, empty_sink, detail_of, UsageTables, has_log,
  ingest_all, add_buckets, insert_usage_detail_tx, commit_usage_only,
}
use nexusapi_enterprise.Usage.Ledger.{
  PicksRows, sum_ledger, sum_details, add_buckets-sum, insert_usage_detail_tx-sum, IsDistinct,
  insert_usage_detail_tx-IsDistinct, insert_usage_detail_tx-All,
}
use nexusapi_enterprise.Usage.Batch.{
  NoneFree, NoneTwice, sum_quotas, empty_sink-IsBalanced, ingest_all-IsBalanced, ingest_all-All,
  ingest_all-IsDistinct,
}

-- Every row holds what its details add up to, and no log has two details.
pub record IsSummed (t : UsageTables) : Type 0 where
  pub sums :
      (p : BucketKey → Bool)
      → PicksRows t.collate p
      → sum_ledger p t.ledger ≡ sum_details p t.details
  pub distinct : IsDistinct t.details

none_held_yet : (es : List LogEntry) → All (λ e. has_log e.id [] ≡ false) es
unfolding has_log
none_held_yet [] = tt
none_held_yet (e ∷ es) = (refl, none_held_yet es)

total_empty :
    (quota : ℤ) → quota <ℤ pos two_63 → sum_ledger (λ k. Bool.true) [] +ℤ quota <ℤ pos two_63
unfolding sum_ledger
total_empty quota le = omega (int_laws, le)

-- A batch of entries: none is free, none is listed twice, none has a detail yet.
pub record IsFresh (t : UsageTables) (es : List LogEntry) : Type 0 where
  pub free : NoneFree es
  pub once : NoneTwice es
  pub unheld : All (λ e. has_log e.id t.details ≡ false) es
  pub small : sum_quotas es <ℤ pos two_63

module _ (l : Lookups) (backfill : Bool) (es : List LogEntry) (t : UsageTables) {sk : SettleSink}
    {t' : UsageTables} (batch : IsFresh t es)
    (ingested : ingest_all l es (empty_sink backfill) ≡ ok sk)
    (committed : commit_usage_only sk t ≡ ok t') where
  abbrev details_after : List DetailRow
  details_after = insert_usage_detail_tx sk.details t.details

  details_eq : t'.details ≡ details_after
  unfolding commit_usage_only
  details_eq =
      let (ledger, e1, k1) = >>=-eq-ok (add_buckets t.collate sk.aggs t.ledger) _ committed in
      ap (λ x. x.details) (sym (ok_injective k1))

  pub collate_eq : t'.collate ≡ t.collate
  unfolding commit_usage_only
  collate_eq =
      let (ledger, e1, k1) = >>=-eq-ok (add_buckets t.collate sk.aggs t.ledger) _ committed in
      ap (λ x. x.collate) (sym (ok_injective k1))

  pub commit_usage_only-IsSummed : IsSummed t → IsSummed t'
  unfolding commit_usage_only IsDistinct
  commit_usage_only-IsSummed w =
      let (ledger, e1, k1) = >>=-eq-ok (add_buckets t.collate sk.aggs t.ledger) _ committed in
      let balanced =
        (ingest_all-IsBalanced l es (empty_sink backfill) (empty_sink-IsBalanced backfill)
          batch.free (total_empty (sum_quotas es) batch.small) ingested).0 in
      let apart =
        ingest_all-IsDistinct l es (empty_sink backfill) tt batch.once (none_held_yet es)
          ingested in
      let held =
        ingest_all-All (λ d. has_log d.newapi_log_id t.details ≡ false) l es (empty_sink backfill)
          (new es batch.unheld) tt ingested in
      record {
        sums = λ p picks.
            ap (λ x. sum_ledger p x.ledger) (sym (ok_injective k1))
            ∙ add_buckets-sum t.collate p (subst (λ f. PicksRows f p) collate_eq picks) sk.aggs
                t.ledger e1
            ∙ ap (λ s. s +ℤ sum_ledger p sk.aggs)
                (w.sums p (subst (λ f. PicksRows f p) collate_eq picks))
            ∙ ap (λ s. sum_details p t.details +ℤ s) (balanced.sums p)
            ∙ sym (insert_usage_detail_tx-sum p sk.details t.details apart held)
            ∙ ap (sum_details p) (sym details_eq);
        distinct =
            subst IsDistinct (sym details_eq)
              (insert_usage_detail_tx-IsDistinct sk.details t.details w.distinct);
      }
    where
      new :
          (xs : List LogEntry)
          → All (λ e. has_log e.id t.details ≡ false) xs
          → All
              (λ e. (m : TokenAttr) → has_log ((detail_of m e).newapi_log_id) t.details ≡ false)
              xs
      new [] h = tt
      new (x ∷ xs) h = ((λ m. h.0), new xs h.1)

  -- A property of the details is kept if the details of the batch have it.
  pub commit_usage_only-All :
      (P : DetailRow → Type 0)
      → All (λ e. (m : TokenAttr) → P (detail_of m e)) es
      → All P t.details
      → All P t'.details
  commit_usage_only-All P new old = subst (All P) (sym details_eq) (
      insert_usage_detail_tx-All P sk.details t.details
        (ingest_all-All P l es (empty_sink backfill) new tt ingested) old)
