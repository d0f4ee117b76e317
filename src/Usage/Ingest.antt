-- ===== src/Usage/Ingest.antt =====
-- What ingestEntry adds to the sink: nothing, or one detail and its quota in the bucket of its key.
use nexusapi_enterprise.Prelude.{
  ℕ, ◌≡◌, ◌⊎◌, ap, sym, ◌∙◌, inl, inr, Option, none, some, List, [], ◌∷◌, ◌++◌, Bool-cases, Result,
  ok, ok_injective, >>=-eq-ok,
}
use nexusapi_enterprise.Funding.{ServiceError}
use nexusapi_enterprise.Settlement.{LogEntry}
use nexusapi_enterprise.Usage.{
  TokenAttr, Lookups, SettleSink, add_agg, detail_of, attribute, attribute_user, read_cached,
  read_org, or_internal, or_repo_error, note_flag, ingest_attributed, ingest_entry,
}

-- The buckets and the details are as they were.
abbrev pub SameUsage : SettleSink → SettleSink → Type 0
SameUsage sk sk' = (sk'.aggs ≡ sk.aggs) × (sk'.details ≡ sk.details)

abbrev pub Ingested : LogEntry → SettleSink → SettleSink → Type 0
Ingested e sk sk' =
    SameUsage sk sk'
    ⊎ ((m : TokenAttr) × (sk'.aggs ≡ add_agg m e sk.aggs)
        × (sk'.details ≡ sk.details ++ (detail_of m e ∷ [])))

attribute_user-SameUsage :
    (l : Lookups) (e : LogEntry) (sk : SettleSink) {m : Option TokenAttr} {sk' : SettleSink}
    → attribute_user l e sk ≡ ok (m, sk')
    → SameUsage sk sk'
attribute_user-SameUsage l e sk h =
    let (found, e1, k1) =
      >>=-eq-ok (read_cached e.user_id (read_org l e.user_id) sk.org_by_user) _ h in
    let same = ap (λ x. x.1) (ok_injective k1) in
    (ap (λ x. x.aggs) (sym same), ap (λ x. x.details) (sym same))

attribute-SameUsage :
    (l : Lookups) (e : LogEntry) (sk : SettleSink) {m : Option TokenAttr} {sk' : SettleSink}
    → attribute l e sk ≡ ok (m, sk')
    → SameUsage sk sk'
attribute-SameUsage l e sk {m} {sk'} h =
    let (att, e1, k1) =
      >>=-eq-ok (read_cached e.token_id (or_internal (l.member_by_token e.token_id)) sk.attr_cache)
        _ h in
    known att.0 att.1 k1
  where
    known :
        (found : Option TokenAttr) (cache : List (ℕ × Option TokenAttr))
        → ◌≡◌ {A = Result ServiceError (Option TokenAttr × SettleSink)}
            (elim found [
              | some x ↦ ok (some x, record sk { attr_cache = cache })
              | none ↦ attribute_user l e (record sk { attr_cache = cache })
            ])
            (ok (m, sk'))
        → SameUsage sk sk'
    known none cache k = attribute_user-SameUsage l e (record sk { attr_cache = cache }) k
    known (some x) cache k =
        let same = ap (λ y. y.1) (ok_injective k) in
        (ap (λ y. y.aggs) (sym same), ap (λ y. y.details) (sym same))

note_flag-SameUsage :
    (l : Lookups) (org : ℕ) (sk : SettleSink) {sk' : SettleSink}
    → note_flag l org sk ≡ ok sk'
    → SameUsage sk sk'
note_flag-SameUsage l org sk h = elim (Bool-cases sk.backfill_mode) [
  | inl backfill ↦
      let same = ok_injective (rw (backfill, note_flag) at h) in
      (ap (λ x. x.aggs) (sym same), ap (λ x. x.details) (sym same))
  | inr forward ↦
      let (flag, e1, k1) =
        >>=-eq-ok (read_cached org (or_repo_error (l.billing_enabled org)) sk.flag_cache) _
          (rw (forward, note_flag) at h) in
      let same = ok_injective k1 in (ap (λ x. x.aggs) (sym same), ap (λ x. x.details) (sym same))
]

ingest_attributed-Ingested :
    (l : Lookups) (e : LogEntry) (m : Option TokenAttr) (sk : SettleSink) {sk' : SettleSink}
    → ingest_attributed l e (m, sk) ≡ ok sk'
    → Ingested e sk sk'
ingest_attributed-Ingested l e none sk h =
    let same = ok_injective h in inl (ap (λ x. x.aggs) (sym same), ap (λ x. x.details) (sym same))
ingest_attributed-Ingested l e (some m) sk h =
    let (noted, e1, k1) = >>=-eq-ok (note_flag l m.org_id sk) _ h in
    let (aggs, details) = note_flag-SameUsage l m.org_id sk e1 in
    let same = ok_injective k1 in
    inr (
      m,
      ap (λ x. x.aggs) (sym same) ∙ ap (add_agg m e) aggs,
      ap (λ x. x.details) (sym same) ∙ ap (λ d. d ++ (detail_of m e ∷ [])) details,
    )

pub ingest_entry-Ingested :
    (l : Lookups) (e : LogEntry) (sk : SettleSink) {sk' : SettleSink}
    → ingest_entry l e sk ≡ ok sk'
    → Ingested e sk sk'
unfolding ingest_entry
ingest_entry-Ingested l e sk {sk'} h =
    let ((m, mid), e1, k1) = >>=-eq-ok (attribute l e sk) _ h in
    let (aggs, details) = attribute-SameUsage l e sk e1 in
    elim (ingest_attributed-Ingested l e m mid k1) [
      | inl (aggs', details') ↦ inl (aggs' ∙ aggs, details' ∙ details)
      | inr (x, aggs', details') ↦
          inr (
            x,
            aggs' ∙ ap (add_agg x e) aggs,
            details' ∙ ap (λ d. d ++ (detail_of x e ∷ [])) details,
          )
    ]
