-- ===== src/Usage.antt =====
-- The usage report: ingestEntry and commitUsageOnly of service/settlement.go, and the tables
-- usage_ledger (repo/settlement.go) and usage_detail (repo/usage_report.go). The answers to the
-- lookups of members, organizations and flags are arguments, the same during one run. A batch of
-- 500 rows is not told apart from the whole: the batches are parts of one transaction.
pub mod Ledger
pub mod Ingest
pub mod Batch
pub mod Cached
pub mod Deduct
pub mod Run
pub mod Selected
pub mod Reads
pub mod Commit
pub mod Settled
pub mod Fresh
pub mod Backfill
pub mod Booked
pub mod Backfilled
pub mod Books
pub mod Held
pub mod Paged
pub mod Complete
mod Tests
use nexusapi_enterprise.Prelude.{
  ℕ, ◌*◌, ◌/◌, Bool, true, false, ◌&&◌, Option, none, some, List, [], ◌∷◌, ◌++◌, ltb, ◌==◌,
  same_text, if◌then◌else◌, Result, ok, err, ◌>>=◌,
}
use nexusapi_enterprise.Prelude.Int.{ℤ, ◌+ℤ◌}
use nexusapi_enterprise.Prelude.Int64.{i64}
use nexusapi_enterprise.Errors.{RepoError, AppError, internal}
use nexusapi_enterprise.Balance.{bigint}
use nexusapi_enterprise.Funding.{ServiceError, repo_error, app_error}
use nexusapi_enterprise.Settlement.{LogEntry}

-- The member that holds a token, and the key that the token belongs to. The member of the bucket of
-- usage that no token of the platform explains is 0.
pub record TokenAttr : Type 0 where
  pub member_id : ℕ
  pub org_id : ℕ
  pub team_id : Option ℕ
  pub key_id : ℕ

-- GetMemberByNewapiTokenID, GetOrgIDByNewapiUserID and the billing flag of GetOrgBillingFlags.
pub record Lookups : Type 0 where
  pub member_by_token : ℕ → Result RepoError (Option TokenAttr)
  pub org_by_user : ℕ → Result RepoError (Option ℕ)
  pub billing_enabled : ℕ → Result RepoError Bool

-- What the key of a bucket is made of: fmt.Sprintf("%d|%d|%d|%s|%d", ...), and the columns of the
-- unique key of usage_ledger.
pub record BucketKey : Type 0 where
  pub org_id : ℕ
  pub newapi_user_id : ℕ
  pub key_id : ℕ
  pub model_name : List ℕ
  pub time_bucket : ℕ

abbrev pub same_bucket : BucketKey → BucketKey → Bool
same_bucket a b =
    a.org_id == b.org_id
    && a.newapi_user_id == b.newapi_user_id
    && a.key_id == b.key_id
    && a.time_bucket == b.time_bucket
    && same_text a.model_name b.model_name

-- bucketAgg, and a row of usage_ledger.
pub record LedgerBucket : Type 0 where
  pub key : BucketKey
  pub member_id : ℕ
  pub team_id : Option ℕ
  pub consumed_quota : ℤ
  pub log_max_ts : ℕ

pub record DetailRow : Type 0 where
  pub org_id : ℕ
  pub member_id : ℕ
  pub newapi_user_id : ℕ
  pub key_id : ℕ
  pub team_id : Option ℕ
  pub model_name : List ℕ
  pub newapi_log_id : ℕ
  pub prompt_tokens : ℤ
  pub completion_tokens : ℤ
  pub consumed_quota : ℤ
  pub log_ts : ℕ

-- settleSink, without the memory of alerts. Each cache is an association list.
pub record SettleSink : Type 0 where
  pub aggs : List LedgerBucket
  pub details : List DetailRow
  pub flag_cache : List (ℕ × Bool)
  pub attr_cache : List (ℕ × Option TokenAttr)
  pub org_by_user : List (ℕ × ℕ)
  pub backfill_mode : Bool

abbrev pub empty_sink : Bool → SettleSink
empty_sink backfill_mode = record {
  aggs = [];
  details = [];
  flag_cache = [];
  attr_cache = [];
  org_by_user = [];
  backfill_mode = backfill_mode;
}

unfoldable pub cached : {A : Type 0} → ℕ → List (ℕ × A) → Option A
cached key [] = none
cached key ((k, v) ∷ rest) = let older = cached key rest in if k == key then some v else older

-- v, ok := cache[key]; if !ok { v = read(); cache[key] = v }
abbrev pub read_cached :
    {A : Type 0} → ℕ → Result ServiceError A → List (ℕ × A) → Result ServiceError (A × List (ℕ × A))
read_cached key read cache = elim (cached key cache) [
  | some v ↦ ok (v, cache)
  | none ↦ read >>= λ v. ok (v, (key, v) ∷ cache)
]

abbrev pub or_internal : {A : Type 0} → Result RepoError A → Result ServiceError A
or_internal (ok v) = ok v
or_internal (err e) = err (app_error internal)

abbrev pub or_repo_error : {A : Type 0} → Result RepoError A → Result ServiceError A
or_repo_error (ok v) = ok v
or_repo_error (err e) = err (repo_error e)

-- 0 stands for an organization that is not of the platform.
abbrev pub org_or_0 : Option ℕ → ℕ
org_or_0 none = 0
org_or_0 (some id) = id

abbrev pub read_org : Lookups → ℕ → Result ServiceError ℕ
read_org l user = or_internal (l.org_by_user user) >>= λ found. ok (org_or_0 found)

-- The bucket of usage that is not attributed, or none for a customer of the main site.
abbrev pub unknown_member : ℕ → Option TokenAttr
unknown_member org =
    if org == 0
    then none
    else some (record { member_id = 0; org_id = org; team_id = none; key_id = 0 })

-- The member of an entry, and the sink with its caches filled.
abbrev pub attribute_user :
    Lookups → LogEntry → SettleSink → Result ServiceError (Option TokenAttr × SettleSink)
attribute_user l e sk = do
  found ← read_cached e.user_id (read_org l e.user_id) sk.org_by_user
  ok (unknown_member found.0, record sk { org_by_user = found.1 })

abbrev pub attribute :
    Lookups → LogEntry → SettleSink → Result ServiceError (Option TokenAttr × SettleSink)
attribute l e sk = do
  att ← read_cached e.token_id (or_internal (l.member_by_token e.token_id)) sk.attr_cache
  elim att.0 [
    | some m ↦ ok (some m, record sk { attr_cache = att.1 })
    | none ↦ attribute_user l e (record sk { attr_cache = att.1 })
  ]

-- The billing flag is read for the settlement only.
abbrev pub note_flag : Lookups → ℕ → SettleSink → Result ServiceError SettleSink
note_flag l org sk = if sk.backfill_mode then ok sk else do
  flag ← read_cached org (or_repo_error (l.billing_enabled org)) sk.flag_cache
  ok (record sk { flag_cache = flag.1 })

-- hourBucket, as the second at which the hour begins.
abbrev pub hour_bucket : ℕ → ℕ
hour_bucket ts = ts / 3600 * 3600

abbrev pub key_of : TokenAttr → LogEntry → BucketKey
key_of m e = record {
  org_id = m.org_id;
  newapi_user_id = e.user_id;
  key_id = m.key_id;
  model_name = e.model_name;
  time_bucket = hour_bucket e.created_at;
}

abbrev pub later_of : ℕ → ℕ → ℕ
later_of a b = if ltb a b then b else a

-- a.consumed += e.Quota, with the latest time
abbrev pub raise_agg : LogEntry → LedgerBucket → LedgerBucket
raise_agg e a = record a {
  consumed_quota = i64 (a.consumed_quota +ℤ e.quota);
  log_max_ts = later_of a.log_max_ts e.created_at;
}

abbrev pub new_agg : TokenAttr → LogEntry → LedgerBucket
new_agg m e = record {
  key = key_of m e;
  member_id = m.member_id;
  team_id = m.team_id;
  consumed_quota = e.quota;
  log_max_ts = e.created_at;
}

unfoldable pub add_agg : TokenAttr → LogEntry → List LedgerBucket → List LedgerBucket
add_agg m e [] = new_agg m e ∷ []
add_agg m e (a ∷ others) =
    let rest = add_agg m e others in
    if same_bucket a.key (key_of m e) then raise_agg e a ∷ others else a ∷ rest

abbrev pub detail_of : TokenAttr → LogEntry → DetailRow
detail_of m e = record {
  org_id = m.org_id;
  member_id = m.member_id;
  newapi_user_id = e.user_id;
  key_id = m.key_id;
  team_id = m.team_id;
  model_name = e.model_name;
  newapi_log_id = e.id;
  prompt_tokens = e.prompt_tokens;
  completion_tokens = e.completion_tokens;
  consumed_quota = e.quota;
  log_ts = e.created_at;
}

abbrev pub aggregate : TokenAttr → LogEntry → SettleSink → SettleSink
aggregate m e sk = record sk {
  aggs = add_agg m e sk.aggs;
  details = sk.details ++ (detail_of m e ∷ []);
}

abbrev pub ingest_attributed :
    Lookups → LogEntry → Option TokenAttr × SettleSink → Result ServiceError SettleSink
ingest_attributed l e (none, sk) = ok sk
ingest_attributed l e (some m, sk) = note_flag l m.org_id sk >>= λ sk'. ok (aggregate m e sk')

-- ingestEntry
unfoldable pub ingest_entry : Lookups → LogEntry → SettleSink → Result ServiceError SettleSink
ingest_entry l e sk = attribute l e sk >>= λ out. ingest_attributed l e out

-- for _, e := range entries { ingestEntry }
unfoldable pub ingest_all : Lookups → List LogEntry → SettleSink → Result ServiceError SettleSink
ingest_all l [] sk = ok sk
ingest_all l (e ∷ es) sk = ingest_entry l e sk >>= λ sk'. ingest_all l es sk'

-- The tables. The collation of usage_ledger, utf8mb4_0900_ai_ci, compares what `collate` makes of a name.
pub record UsageTables : Type 0 where
  pub collate : List ℕ → List ℕ
  pub ledger : List LedgerBucket
  pub details : List DetailRow

-- uk_ledger_dedup: two spellings of a name that the collation does not tell apart are one row.
abbrev pub same_row : (List ℕ → List ℕ) → BucketKey → BucketKey → Bool
same_row collate a b =
    a.org_id == b.org_id
    && a.newapi_user_id == b.newapi_user_id
    && a.key_id == b.key_id
    && a.time_bucket == b.time_bucket
    && same_text (collate a.model_name) (collate b.model_name)

-- AddToLedgerBucketTx: INSERT ... ON DUPLICATE KEY UPDATE consumed_quota = consumed_quota + VALUES.
unfoldable pub add_to_ledger_bucket_tx :
    (List ℕ → List ℕ) → LedgerBucket → List LedgerBucket → Result RepoError (List LedgerBucket)
add_to_ledger_bucket_tx collate a [] = ok (a ∷ [])
add_to_ledger_bucket_tx collate a (r ∷ rs) =
    let rest = add_to_ledger_bucket_tx collate a rs in
    if same_row collate r.key a.key
    then (bigint (r.consumed_quota +ℤ a.consumed_quota) >>= λ sum.
        ok
          (record r { consumed_quota = sum; log_max_ts = later_of r.log_max_ts a.log_max_ts } ∷ rs))
    else (rest >>= λ rs'. ok (r ∷ rs'))

-- The loop of commitUsageOnly over the buckets.
unfoldable pub add_buckets :
    (List ℕ → List ℕ) → List LedgerBucket → List LedgerBucket → Result RepoError (List LedgerBucket)
add_buckets collate [] ledger = ok ledger
add_buckets collate (a ∷ others) ledger =
    add_to_ledger_bucket_tx collate a ledger >>= λ rows. add_buckets collate others rows

unfoldable pub has_log : ℕ → List DetailRow → Bool
has_log id [] = false
has_log id (d ∷ ds) = let rest = has_log id ds in if d.newapi_log_id == id then true else rest

-- InsertUsageDetailTx: INSERT IGNORE, by the unique key newapi_log_id.
unfoldable pub insert_usage_detail_tx : List DetailRow → List DetailRow → List DetailRow
insert_usage_detail_tx [] rows = rows
insert_usage_detail_tx (d ∷ ds) rows =
    insert_usage_detail_tx ds (if has_log d.newapi_log_id rows then rows else d ∷ rows)

-- commitUsageOnly
unfoldable pub commit_usage_only : SettleSink → UsageTables → Result RepoError UsageTables
commit_usage_only sk t = do
  ledger ← add_buckets t.collate sk.aggs t.ledger
  ok (record t { ledger = ledger; details = insert_usage_detail_tx sk.details t.details })
