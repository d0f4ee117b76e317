-- ===== src/Usage/Cached.antt =====
-- The caches of the sink change nothing: a batch is ingested as if each entry were looked up anew.
use nexusapi_enterprise.Prelude.{
  ℕ, ◌≡◌, ◌⊎◌, refl, ap, sym, ◌∙◌, inl, inr, Bool, false, Option, none, some, List, [], ◌∷◌, ◌++◌,
  ◌==◌, arith, Bool-cases, Option-cases, some_injective, if◌then◌else◌, Result, Result-cases, ok,
  err, ◌>>=◌, All,
}
use mathlib.Core.Path.{subst}
use nexusapi_enterprise.Funding.{ServiceError}
use nexusapi_enterprise.Settlement.{LogEntry}
use nexusapi_enterprise.Usage.{
  TokenAttr, Lookups, LedgerBucket, DetailRow, SettleSink, empty_sink, cached, read_cached,
  or_internal, or_repo_error, read_org, unknown_member, attribute, attribute_user, note_flag,
  add_agg, detail_of, aggregate, ingest_attributed, ingest_entry, ingest_all,
}

-- The member of an entry, looked up with no cache.
abbrev pub owner_of : Lookups → LogEntry → Result ServiceError (Option TokenAttr)
owner_of l e = or_internal (l.member_by_token e.token_id) >>= λ att. elim att [
  | some m ↦ ok (some m)
  | none ↦ read_org l e.user_id >>= λ org. ok (unknown_member org)
]

abbrev pub Report : Type 0
Report = List LedgerBucket × List DetailRow

abbrev pub book_plain :
    Lookups → Bool → LogEntry → Report → Option TokenAttr → Result ServiceError Report
book_plain l backfill e u none = ok u
book_plain l backfill e (aggs, details) (some m) =
    (if backfill then ok false else or_repo_error (l.billing_enabled m.org_id)) >>= λ flag.
    ok (add_agg m e aggs, details ++ (detail_of m e ∷ []))

-- One entry, and a batch, looked up anew.
abbrev pub ingest_one : Lookups → Bool → LogEntry → Report → Result ServiceError Report
ingest_one l backfill e u = owner_of l e >>= λ m. book_plain l backfill e u m

unfoldable pub ingest_plain : Lookups → Bool → List LogEntry → Report → Result ServiceError Report
ingest_plain l backfill [] u = ok u
ingest_plain l backfill (e ∷ es) u =
    ingest_one l backfill e u >>= λ u'. ingest_plain l backfill es u'

-- Every cached value is what the lookup answers.
abbrev AreValid : {A : Type 0} → (ℕ → Result ServiceError A) → List (ℕ × A) → Type 0
AreValid read cache = All (λ entry. read entry.0 ≡ ok entry.1) cache

cached-valid :
    {A : Type 0} (read : ℕ → Result ServiceError A) (key : ℕ) (cache : List (ℕ × A)) {v : A}
    → AreValid read cache
    → cached key cache ≡ some v
    → read key ≡ ok v
unfolding cached
cached-valid read key [] valid h = cc
cached-valid read key ((k, w) ∷ rest) {v} valid h = elim (Bool-cases (k == key)) [
  | inl same ↦
      let at : k ≡ key = ground arith in
      subst (λ x. read x ≡ ok v) at (valid.0 ∙ ap ok (some_injective (rw same at h)))
  | inr other ↦ cached-valid read key rest valid.1 (rw other at h)
]

-- A read through a valid cache answers as the lookup does, and leaves a valid cache.
read_cached-valid :
    {A : Type 0} (read : ℕ → Result ServiceError A) (key : ℕ) (cache : List (ℕ × A))
    → AreValid read cache
    → ((e : ServiceError) × (read key ≡ err e) × (read_cached key (read key) cache ≡ err e))
      ⊎ ((v : A) × (cache' : List (ℕ × A)) × (read key ≡ ok v)
          × (read_cached key (read key) cache ≡ ok (v, cache'))
          × AreValid read cache')
read_cached-valid read key cache valid = elim (Option-cases (cached key cache)) [
  | inr (v, hit) ↦
      let answer = cached-valid read key cache valid hit in
      inr (v, cache, answer, rw (hit, read_cached) refl, valid)
  | inl miss ↦ elim (Result-cases (read key)) [
    | inl (v, answer) ↦
        inr (v, (key, v) ∷ cache, answer, rw (miss, read_cached) (rw answer refl), (answer, valid))
    | inr (e, fails) ↦ inl (e, fails, rw (miss, read_cached) (rw fails refl))
  ]
]

record IsCoherent (l : Lookups) (sk : SettleSink) : Type 0 where
  flags : AreValid (λ org. or_repo_error (l.billing_enabled org)) sk.flag_cache
  attrs : AreValid (λ token. or_internal (l.member_by_token token)) sk.attr_cache
  orgs : AreValid (read_org l) sk.org_by_user

-- The lookup and its run through the caches: both fail alike, or the sink differs in its caches only.
abbrev SameUsage : SettleSink → SettleSink → Type 0
SameUsage sk sk' =
    (sk'.aggs ≡ sk.aggs) × (sk'.details ≡ sk.details) × (sk'.backfill_mode ≡ sk.backfill_mode)

abbrev Agrees :
    Lookups
    → SettleSink
    → Result ServiceError (Option TokenAttr)
    → Result ServiceError (Option TokenAttr × SettleSink)
    → Type 0
Agrees l sk plain run =
    ((e : ServiceError) × (plain ≡ err e) × (run ≡ err e))
    ⊎ ((m : Option TokenAttr) × (sk' : SettleSink) × (plain ≡ ok m)
        × (run ≡ ok (m, sk'))
        × IsCoherent l sk'
        × SameUsage sk sk')

attribute_user-Agrees :
    (l : Lookups) (e : LogEntry) (sk : SettleSink)
    → IsCoherent l sk
    → Agrees l sk (read_org l e.user_id >>= λ org. ok (unknown_member org)) (attribute_user l e sk)
attribute_user-Agrees l e sk w =
    elim (read_cached-valid (read_org l) e.user_id sk.org_by_user w.orgs) [
      | inl (why, plain, run) ↦ inl (why, rw (plain, ◌>>=◌) refl, rw (run, attribute_user) refl)
      | inr (org, cache, plain, run, valid) ↦ inr (
        unknown_member org,
        record sk { org_by_user = cache },
        rw (plain, ◌>>=◌) refl,
        rw (run, attribute_user) refl,
        record { flags = w.flags; attrs = w.attrs; orgs = valid },
        (refl, refl, refl),
      )
    ]

attribute-Agrees :
    (l : Lookups) (e : LogEntry) (sk : SettleSink)
    → IsCoherent l sk
    → Agrees l sk (owner_of l e) (attribute l e sk)
attribute-Agrees l e sk w =
    elim (read_cached-valid (λ token. or_internal (l.member_by_token token)) e.token_id
      sk.attr_cache w.attrs) [
        | inl (why, plain, run) ↦ inl (why, rw (plain, owner_of) refl, rw (run, attribute) refl)
        | inr (some m, cache, plain, run, valid) ↦ inr (
          some m,
          record sk { attr_cache = cache },
          rw (plain, owner_of) refl,
          rw (run, attribute) refl,
          record { flags = w.flags; attrs = valid; orgs = w.orgs },
          (refl, refl, refl),
        )
        | inr (none, cache, plain, run, valid) ↦
            let rest =
              attribute_user-Agrees l e (record sk { attr_cache = cache })
                (record { flags = w.flags; attrs = valid; orgs = w.orgs }) in
            rw (run, attribute) (rw (plain, owner_of) rest)
      ]

-- One entry: both fail alike, or both book the same.
abbrev Books :
    Lookups → SettleSink → Result ServiceError Report → Result ServiceError SettleSink → Type 0
Books l sk plain run =
    ((e : ServiceError) × (plain ≡ err e) × (run ≡ err e))
    ⊎ ((sk' : SettleSink) × (plain ≡ ok (sk'.aggs, sk'.details))
        × (run ≡ ok sk')
        × IsCoherent l sk'
        × (sk'.backfill_mode ≡ sk.backfill_mode))

ingest_attributed-Books :
    (l : Lookups) (e : LogEntry) (m : Option TokenAttr) (sk : SettleSink)
    → IsCoherent l sk
    → Books l sk
        (book_plain l sk.backfill_mode e (sk.aggs, sk.details) m)
        (ingest_attributed l e (m, sk))
ingest_attributed-Books l e none sk w = inr (sk, refl, refl, w, refl)
ingest_attributed-Books l e (some m) sk w = elim (Bool-cases sk.backfill_mode) [
  | inl backfill ↦ inr (
    aggregate m e sk,
    rw (backfill, book_plain) refl,
    rw (backfill, note_flag) refl,
    record { flags = w.flags; attrs = w.attrs; orgs = w.orgs },
    refl,
  )
  | inr forward ↦
      elim (read_cached-valid (λ org. or_repo_error (l.billing_enabled org)) m.org_id sk.flag_cache
        w.flags) [
          | inl (why, plain, run) ↦
              inl (
                why,
                rw (forward, book_plain) (rw plain refl),
                rw (forward, note_flag) (rw run refl),
              )
          | inr (flag, cache, plain, run, valid) ↦ inr (
            aggregate m e (record sk { flag_cache = cache }),
            rw (forward, book_plain) (rw plain refl),
            rw (forward, note_flag) (rw run refl),
            record { flags = valid; attrs = w.attrs; orgs = w.orgs },
            refl,
          )
        ]
]

ingest_entry-Books :
    (l : Lookups) (e : LogEntry) (sk : SettleSink)
    → IsCoherent l sk
    → Books l sk
        (owner_of l e >>= λ m. book_plain l sk.backfill_mode e (sk.aggs, sk.details) m)
        (ingest_entry l e sk)
unfolding ingest_entry
ingest_entry-Books l e sk w = elim (attribute-Agrees l e sk w) [
  | inl (why, plain, run) ↦ inl (why, rw (plain, ◌>>=◌) refl, rw (run, ingest_entry) refl)
  | inr (m, sk', plain, run, w', (aggs, details, mode)) ↦
      let entry = ingest_attributed-Books l e m sk' w' in
      rw (run, ingest_entry)
        (rw (plain, ◌>>=◌)
          (subst
            (λ x.
              ((y : ServiceError) × (book_plain l x.2 e (x.0, x.1) m ≡ err y)
                × (ingest_attributed l e (m, sk') ≡ err y))
              ⊎ ((z : SettleSink) × (book_plain l x.2 e (x.0, x.1) m ≡ ok (z.aggs, z.details))
                  × (ingest_attributed l e (m, sk') ≡ ok z)
                  × IsCoherent l z
                  × (z.backfill_mode ≡ x.2)))
            (same_parts aggs details mode) entry))
]
  where
    same_parts :
        {a a' : List LedgerBucket} {d d' : List DetailRow} {b b' : Bool}
        → a' ≡ a
        → d' ≡ d
        → b' ≡ b
        → ◌≡◌ {A = List LedgerBucket × List DetailRow × Bool} (a', d', b') (a, d, b)
    same_parts p q r = cc

coherent_ingest :
    (l : Lookups) (es : List LogEntry) (sk : SettleSink)
    → IsCoherent l sk
    → Books l sk (ingest_plain l sk.backfill_mode es (sk.aggs, sk.details)) (ingest_all l es sk)
unfolding ingest_plain ingest_all
coherent_ingest l [] sk w = inr (sk, refl, refl, w, refl)
coherent_ingest l (e ∷ es) sk w = elim (ingest_entry-Books l e sk w) [
  | inl (why, plain, run) ↦ inl (why, rw (plain, ◌>>=◌) refl, rw (run, ◌>>=◌) refl)
  | inr (sk', plain, run, w', mode) ↦
      rw (run, ◌>>=◌)
        (rw (plain, ◌>>=◌)
          (subst
            (λ b.
              ((y : ServiceError) × (ingest_plain l b es (sk'.aggs, sk'.details) ≡ err y)
                × (ingest_all l es sk' ≡ err y))
              ⊎ ((z : SettleSink) × (ingest_plain l b es (sk'.aggs, sk'.details)
                    ≡ ok (z.aggs, z.details))
                  × (ingest_all l es sk' ≡ ok z)
                  × IsCoherent l z
                  × (z.backfill_mode ≡ b)))
            mode (coherent_ingest l es sk' w')))
]

-- A batch that starts with empty caches books what it would book with each entry looked up anew, and
-- fails with the same error if one of those lookups fails.
pub ingest_all-plain :
    (l : Lookups) (backfill : Bool) (es : List LogEntry)
    → (ingest_all l es (empty_sink backfill) >>= λ sk. ok (sk.aggs, sk.details))
      ≡ ingest_plain l backfill es ([], [])
ingest_all-plain l backfill es =
    elim (coherent_ingest l es (empty_sink backfill)
      (record { flags = tt; attrs = tt; orgs = tt })) [
        | inl (why, plain, run) ↦ rw (run, ◌>>=◌) (sym plain)
        | inr (sk, plain, run, w, mode) ↦ rw (run, ◌>>=◌) (sym plain)
      ]
