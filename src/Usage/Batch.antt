-- ===== src/Usage/Batch.antt =====
-- What a batch of entries adds to the sink.
use nexusapi_enterprise.Prelude.{
  ℕ, ◌≡◌, refl, ap, sym, ◌∙◌, inl, inr, Bool, true, false, List, [], ◌∷◌, ◌++◌, ◌==◌, arith,
  if◌then◌else◌, ok, ok_injective, >>=-eq-ok, All,
}
use mathlib.Core.Path.{subst}
use nexusapi_enterprise.Prelude.Int.{ℤ, pos, ◌+ℤ◌, ◌≤ℤ◌, ◌<ℤ◌, int_laws, pos_part, neg_part}
use nexusapi_enterprise.Prelude.Int64.{two_63}
use nexusapi_enterprise.Settlement.{LogEntry}
use nexusapi_enterprise.Usage.{
  BucketKey, DetailRow, TokenAttr, Lookups, SettleSink, empty_sink, key_of, detail_of, ingest_entry,
  ingest_all, has_log,
}
use nexusapi_enterprise.Usage.Ledger.{
  quota_if, sum_ledger, sum_details, sum_details-append, NoneNegative, total, add_agg-sum,
  IsDistinct,
}
use nexusapi_enterprise.Usage.Ingest.{ingest_entry-Ingested}

unfoldable pub sum_quotas : List LogEntry → ℤ
sum_quotas [] = pos 0
sum_quotas (e ∷ es) = e.quota +ℤ sum_quotas es

-- The buckets add up to the details.
pub record IsBalanced (sk : SettleSink) : Type 0 where
  pub sums : (p : BucketKey → Bool) → sum_ledger p sk.aggs ≡ sum_details p sk.details
  pub nonneg : NoneNegative sk.aggs

pub empty_sink-IsBalanced : (backfill : Bool) → IsBalanced (empty_sink backfill)
unfolding sum_ledger sum_details
empty_sink-IsBalanced backfill = record { sums = λ p. refl; nonneg = tt }

one_detail :
    (p : BucketKey → Bool) (m : TokenAttr) (e : LogEntry)
    → sum_details p (detail_of m e ∷ []) ≡ quota_if (p (key_of m e)) e.quota
unfolding sum_details
one_detail p m e = omega int_laws

ingest_entry-IsBalanced :
    (l : Lookups) (e : LogEntry) (sk : SettleSink) {sk' : SettleSink}
    → IsBalanced sk
    → pos 0 ≤ℤ e.quota
    → total sk.aggs +ℤ e.quota <ℤ pos two_63
    → ingest_entry l e sk ≡ ok sk'
    → IsBalanced sk' × (total sk'.aggs ≤ℤ total sk.aggs +ℤ e.quota)
ingest_entry-IsBalanced l e sk {sk'} w q le h = elim (ingest_entry-Ingested l e sk h) [
  | inl (aggs, details) ↦ (
    record {
      sums = λ p. ap (sum_ledger p) aggs ∙ w.sums p ∙ ap (sum_details p) (sym details);
      nonneg = subst NoneNegative (sym aggs) w.nonneg;
    },
    rw aggs (omega (int_laws, q)),
  )
  | inr (m, aggs, details) ↦
      let sums = λ (p : BucketKey → Bool).
        let (raised, nonneg) = add_agg-sum p m e sk.aggs w.nonneg q le in
        let before = w.sums p in
        let append = sum_details-append p sk.details (detail_of m e ∷ []) in
        let one = one_detail p m e in
        ap (sum_ledger p) aggs
        ∙ raised
        ∙ ap (λ s. s +ℤ quota_if (p (key_of m e)) e.quota) before
        ∙ ap (λ s. sum_details p sk.details +ℤ s) (sym one)
        ∙ sym append
        ∙ ap (sum_details p) (sym details) in
      (
        record {
          sums = sums;
          nonneg =
              subst NoneNegative (sym aggs) (add_agg-sum (λ k. true) m e sk.aggs w.nonneg q le).1;
        },
        rw aggs (
            let raised = (add_agg-sum (λ k. true) m e sk.aggs w.nonneg q le).0 in
            omega (int_laws, ap pos_part raised, ap neg_part raised)),
      )
]

abbrev pub NoneFree : List LogEntry → Type 0
NoneFree es = All (λ e. pos 0 ≤ℤ e.quota) es

sum_quotas-nonneg : (es : List LogEntry) → NoneFree es → pos 0 ≤ℤ sum_quotas es
unfolding sum_quotas
sum_quotas-nonneg [] h = omega arith
sum_quotas-nonneg (e ∷ es) h = omega (int_laws, h.0, sum_quotas-nonneg es h.1)

-- A batch keeps the buckets and the details equal, as long as the sum of its quotas is an int64.
pub ingest_all-IsBalanced :
    (l : Lookups) (es : List LogEntry) (sk : SettleSink) {sk' : SettleSink}
    → IsBalanced sk
    → NoneFree es
    → total sk.aggs +ℤ sum_quotas es <ℤ pos two_63
    → ingest_all l es sk ≡ ok sk'
    → IsBalanced sk' × (total sk'.aggs ≤ℤ total sk.aggs +ℤ sum_quotas es)
unfolding ingest_all sum_quotas
ingest_all-IsBalanced l [] sk w q le h =
    let same = ok_injective h in
    subst (λ x. IsBalanced x × (total x.aggs ≤ℤ total sk.aggs +ℤ pos 0)) same (w, omega int_laws)
ingest_all-IsBalanced l (e ∷ es) sk w q le h =
    let (mid, e1, k1) = >>=-eq-ok (ingest_entry l e sk) _ h in
    let (w', up) =
      ingest_entry-IsBalanced l e sk w q.0 (omega (int_laws, le, sum_quotas-nonneg es q.1)) e1 in
    let (w'', up') = ingest_all-IsBalanced l es mid w' q.1 (omega (int_laws, le, up)) k1 in
    (w'', omega (int_laws, up, up'))

-- A property of the details that every entry's detail has.
pub ingest_all-All :
    (P : DetailRow → Type 0) (l : Lookups) (es : List LogEntry) (sk : SettleSink) {sk' : SettleSink}
    → All (λ e. (m : TokenAttr) → P (detail_of m e)) es
    → All P sk.details
    → ingest_all l es sk ≡ ok sk'
    → All P sk'.details
unfolding ingest_all
ingest_all-All P l [] sk new old h = subst (λ x. All P x.details) (ok_injective h) old
ingest_all-All P l (e ∷ es) sk new old h =
    let (mid, e1, k1) = >>=-eq-ok (ingest_entry l e sk) _ h in
    ingest_all-All P l es mid new.1
      (elim (ingest_entry-Ingested l e sk e1) [
        | inl (aggs, details) ↦ subst (All P) (sym details) old
        | inr (m, aggs, details) ↦
            subst (All P) (sym details) (snoc sk.details (detail_of m e) old (new.0 m))
      ])
      k1
  where
    snoc : (ds : List DetailRow) (d : DetailRow) → All P ds → P d → All P (ds ++ (d ∷ []))
    snoc [] d a p = (p, tt)
    snoc (x ∷ xs) d a p = (a.0, snoc xs d a.1 p)

unfoldable pub has_entry : ℕ → List LogEntry → Bool
has_entry id [] = false
has_entry id (e ∷ es) = let rest = has_entry id es in if e.id == id then true else rest

-- new-api lists no log twice.
unfoldable pub NoneTwice : List LogEntry → Type 0
NoneTwice [] = Unit
NoneTwice (e ∷ es) = (has_entry e.id es ≡ false) × NoneTwice es

has_entry-head :
    (id : ℕ) (x : LogEntry) (xs : List LogEntry)
    → has_entry id (x ∷ xs) ≡ false
    → (id == x.id) ≡ false
unfolding has_entry
has_entry-head id x xs n = ground arith

has_entry-tail :
    (id : ℕ) (x : LogEntry) (xs : List LogEntry)
    → has_entry id (x ∷ xs) ≡ false
    → has_entry id xs ≡ false
unfolding has_entry
has_entry-tail id x xs n = ground arith

has_log-snoc :
    (id : ℕ) (ds : List DetailRow) (d : DetailRow)
    → has_log id ds ≡ false
    → (d.newapi_log_id == id) ≡ false
    → has_log id (ds ++ (d ∷ [])) ≡ false
unfolding has_log
has_log-snoc id [] d h k = ground arith
has_log-snoc id (x ∷ xs) d h k = ground (arith, has_log-snoc id xs d)

IsDistinct-snoc :
    (ds : List DetailRow) (d : DetailRow)
    → IsDistinct ds
    → has_log d.newapi_log_id ds ≡ false
    → IsDistinct (ds ++ (d ∷ []))
unfolding IsDistinct has_log
IsDistinct-snoc [] d h k = (refl, tt)
IsDistinct-snoc (x ∷ xs) d h k =
    (has_log-snoc x.newapi_log_id xs d h.0 (ground arith), IsDistinct-snoc xs d h.1 (ground arith))

-- The details of a batch without repetitions are of different logs, if those that are there already
-- are and are of other logs.
pub ingest_all-IsDistinct :
    (l : Lookups) (es : List LogEntry) (sk : SettleSink) {sk' : SettleSink}
    → IsDistinct sk.details
    → NoneTwice es
    → All (λ e. has_log e.id sk.details ≡ false) es
    → ingest_all l es sk ≡ ok sk'
    → IsDistinct sk'.details
unfolding ingest_all NoneTwice
ingest_all-IsDistinct l [] sk d once fresh h = subst (λ x. IsDistinct x.details) (ok_injective h) d
ingest_all-IsDistinct l (e ∷ es) sk d once fresh h =
    let (mid, e1, k1) = >>=-eq-ok (ingest_entry l e sk) _ h in
    elim (ingest_entry-Ingested l e sk e1) [
      | inl (aggs, details) ↦
          ingest_all-IsDistinct l es mid (subst IsDistinct (sym details) d) once.1
            (subst (λ x. All (λ y. has_log y.id x ≡ false) es) (sym details) fresh.1) k1
      | inr (m, aggs, details) ↦
          ingest_all-IsDistinct l es mid
            (subst IsDistinct (sym details) (IsDistinct-snoc sk.details (detail_of m e) d fresh.0))
            once.1
            (subst (λ x. All (λ y. has_log y.id x ≡ false) es) (sym details)
              (others es m once.0 fresh.1))
            k1
    ]
  where
    others :
        (xs : List LogEntry) (m : TokenAttr)
        → has_entry e.id xs ≡ false
        → All (λ y. has_log y.id sk.details ≡ false) xs
        → All (λ y. has_log y.id (sk.details ++ (detail_of m e ∷ [])) ≡ false) xs
    others [] m n f = tt
    others (x ∷ xs) m n f = (
      has_log-snoc x.id sk.details (detail_of m e) f.0 (has_entry-head e.id x xs n),
      others xs m (has_entry-tail e.id x xs n) f.1,
    )
