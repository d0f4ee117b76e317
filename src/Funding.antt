-- ===== src/Funding.antt =====
-- service/escrow.go and service/billing.go: the recharge, the refill, the refund and the correction
-- of an organization's window. The answers of new-api, of the lock and of the database's commit are
-- arguments; what the service asks new-api to do is listed as its calls. The lock of the
-- organization is held over each operation, so the operations of one organization are whole steps.
mod Grown
pub mod Split
pub mod Sound
pub mod Tx
pub mod Deposit
mod Merged
pub mod Refill
pub mod Debit
pub mod Reach
pub mod Reconcile
mod Tests
use nexusapi_enterprise.Prelude.{
  ℕ, suc, ◌+◌, Bool, true, false, not, ◌&&◌, ◌||◌, Option, none, some, List, [], ◌∷◌, if◌then◌else◌,
  Result, ok, err, ◌>>=◌, ◌>>◌, raise_if,
}
use nexusapi_enterprise.Prelude.Int.{ℤ, pos, ◌+ℤ◌, ◌-ℤ◌, ltb_ℤ, leb_ℤ}
use nexusapi_enterprise.Prelude.Int64.{i64}
use nexusapi_enterprise.Errors.{
  RepoError, not_found, conflict, optimistic_lock, insufficient_balance, database, AppError,
  internal, from_upstream, invalid_param, not_found_error, optimistic_lock_error,
}
use nexusapi_enterprise.Escrow.{
  EscrowBucket, EscrowStatus, Buckets, active, holding, get_active_escrow_bucket_tx,
  update_escrow_bucket_tx, create_escrow_bucket_tx, max_escrow_seq_tx,
}
use nexusapi_enterprise.Escrow.Merge.{merge_holding_into_active_tx}
use nexusapi_enterprise.Escrow.Reduce.{reduce_escrow_tx}
use nexusapi_enterprise.Rbac.{Claims, operator, assert_role}
use nexusapi_enterprise.Balance.{
  Balance, Recharge, Accounts, add_recharge_tx, debit_balance_tx, deduct_balance_tx,
}

-- The tables.
pub record Store : Type 0 where
  pub buckets : Buckets
  pub accounts : Accounts

abbrev pub empty_store : Store
empty_store = record { buckets = []; accounts = ((λ org. none), []) }

-- adapter.ManageUserQuota, with its mode.
pub data UpstreamCall : Type 0 where
  quota_add quota_subtract : ℤ → UpstreamCall

-- What the collaborators answer. `window` is GetUserQuota: a quota, or the code of the adapter.
pub record Answers : Type 0 where
  pub organization : Bool
  pub credential : Result AppError (Unit {0})
  pub lock_free : Bool
  pub window : Result ℕ ℤ
  pub commits : Bool

pub record Outcome (E A : Type 0) : Type 0 where
  pub result : Result E A
  pub store : Store
  pub calls : List UpstreamCall

-- An error of the repository that is passed on as it is, or one for the caller.
pub data ServiceError : Type 0 where
  repo_error : RepoError → ServiceError
  app_error : AppError → ServiceError

abbrev pub escrow_window_cap : ℤ
escrow_window_cap = pos 2000000000

abbrev pub escrow_default_threshold : ℤ
escrow_default_threshold = pos 100000000

-- Store.WithTx: the writes of a function that fails, or of a commit that fails, are rolled back.
unfoldable pub with_tx :
    {A : Type 0}
    → Bool
    → (Store → Result RepoError (A × Store))
    → Store
    → Result RepoError A × Store
with_tx commits f s = elim (f s) [
  | err e ↦ (err e, s)
  | ok out ↦ if commits then (ok out.0, out.1) else (err database, s)
]

-- The part of a recharge that the window has room for.
unfoldable pub fit_of : ℤ → ℤ → ℤ
fit_of amount window =
    let space = i64 (escrow_window_cap -ℤ window) in
    let fit = if ltb_ℤ space amount then space else amount in
    if ltb_ℤ fit (pos 0) then pos 0 else fit

-- CreateEscrowBucketTx; a duplicate key is an error that no caller tells apart.
abbrev pub create : ℕ → ℕ → ℤ → EscrowStatus → Buckets → Result RepoError Buckets
create org seq amount st rows =
    elim (create_escrow_bucket_tx org seq amount st escrow_default_threshold rows) [
      | none ↦ err database
      | some rows' ↦ ok rows'
    ]

-- The window bucket is created or raised by `fit`; true if it was created.
abbrev pub raise_window : ℕ → ℤ → Buckets → Result RepoError (Bool × Buckets)
raise_window org fit rows = elim (get_active_escrow_bucket_tx org rows) [
  | none ↦ create org 1 fit active rows >>= λ rows'. ok (true, rows')
  | some a ↦ ok (false, update_escrow_bucket_tx a.id (i64 (a.amount +ℤ fit)) active rows)
]

-- The rest, if there is one, is a new holding bucket behind the others.
abbrev pub hold_rest : ℕ → ℤ → Bool × Buckets → Result RepoError Buckets
hold_rest org remainder (first_time, rows) =
    if ltb_ℤ (pos 0) remainder
    then create org (if first_time then 2 else suc (max_escrow_seq_tx org rows)) remainder holding
        rows
    else ok rows

unfoldable pub split_recharge : ℕ → ℤ → ℤ → Buckets → Result RepoError Buckets
split_recharge org fit remainder rows =
    raise_window org fit rows >>= λ out. hold_rest org remainder out

-- The transaction of applyRecharge.
unfoldable pub recharge_tx : Recharge → ℤ → ℤ → Store → Result RepoError (Balance × Store)
recharge_tx r fit remainder s = do
  booked ← add_recharge_tx r s.accounts
  split ← split_recharge r.org_id fit remainder s.buckets
  ok (booked.0, record { buckets = split; accounts = booked.1 })

-- The transaction of a settlement on the balance, by DeductBalanceTx.
unfoldable pub deduct_tx : ℕ → ℤ → Store → Result RepoError (Balance × Store)
deduct_tx org amount s = do
  booked ← deduct_balance_tx org amount s.accounts.0
  ok (booked.0, record s { accounts = (booked.1, s.accounts.1) })

-- The lock, and the window read under it.
abbrev pub locked_window : Answers → Result AppError ℤ
locked_window a = do
  raise_if (not a.lock_free) internal
  elim a.window [ err code ↦ err (from_upstream code) | ok window ↦ ok window ]

abbrev pub admit_recharge : Answers → Result AppError ℤ
admit_recharge a = do raise_if (not a.organization) internal; a.credential; locked_window a

-- After the commit: the window is raised in new-api, unless it would pass the cap.
abbrev pub recharge_calls : ℤ → ℤ → List UpstreamCall
recharge_calls window fit =
    if ltb_ℤ (pos 0) fit
    then (if ltb_ℤ escrow_window_cap (i64 (window +ℤ fit)) then [] else quota_add fit ∷ [])
    else []

abbrev pub recharge_error : RepoError → ServiceError
recharge_error conflict = repo_error conflict
recharge_error optimistic_lock = repo_error optimistic_lock
recharge_error _ = app_error internal

abbrev pub recharged_outcome :
    ℤ → ℤ → Result RepoError Balance × Store → Outcome ServiceError Balance
recharged_outcome window fit (ok b, s) = record {
  result = ok b;
  store = s;
  calls = recharge_calls window fit;
}
recharged_outcome window fit (err e, s) = record {
  result = err (recharge_error e);
  store = s;
  calls = [];
}

-- applyRecharge
unfoldable pub apply_recharge : Answers → Recharge → Store → Outcome ServiceError Balance
apply_recharge a r s = elim (admit_recharge a) [
  | err e ↦ record { result = err (app_error e); store = s; calls = [] }
  | ok window ↦ recharged_outcome window (fit_of r.amount window) (
      with_tx a.commits
        (recharge_tx r (fit_of r.amount window) (i64 (r.amount -ℤ fit_of r.amount window))) s)
]

abbrev pub refill_tx : ℕ → ℤ → Store → Result RepoError (ℤ × Store)
refill_tx org space s = elim (merge_holding_into_active_tx org space s.buckets) [
  | none ↦ err database
  | some out ↦ ok (out.0, record s { buckets = out.1 })
]

abbrev pub refill_calls : ℤ → List UpstreamCall
refill_calls merged = if ltb_ℤ (pos 0) merged then quota_add merged ∷ [] else []

abbrev pub refilled_outcome : Result RepoError ℤ × Store → Outcome AppError ℤ
refilled_outcome (err e, s) = record { result = err internal; store = s; calls = [] }
refilled_outcome (ok merged, s) = record {
  result = ok merged;
  store = s;
  calls = refill_calls merged;
}

abbrev pub refill_room : Answers → ℕ → ℤ → ℤ → Store → Outcome AppError ℤ
refill_room a org trigger window s =
    if leb_ℤ trigger window || leb_ℤ (i64 (escrow_window_cap -ℤ window)) (pos 0)
    then record { result = ok (pos 0); store = s; calls = [] }
    else refilled_outcome (with_tx a.commits (refill_tx org (i64 (escrow_window_cap -ℤ window))) s)

-- refillToWindow
unfoldable pub refill_to_window : Answers → ℕ → ℤ → Store → Outcome AppError ℤ
refill_to_window a org trigger s = elim (a.credential >> locked_window a) [
  | err e ↦ record { result = err e; store = s; calls = [] }
  | ok window ↦ refill_room a org trigger window s
]

-- The transaction of DebitBalance: the balance after it, and what the window gave.
unfoldable pub debit_tx : ℕ → ℤ → Store → Result RepoError ((Balance × ℤ) × Store)
debit_tx org amount s = do
  booked ← debit_balance_tx org amount s.accounts.0
  reduced ← reduce_escrow_tx org amount s.buckets
  ok ((booked.0, reduced.0), record s { buckets = reduced.1; accounts = (booked.1, s.accounts.1) })

abbrev pub debit_error : RepoError → AppError
debit_error insufficient_balance = invalid_param
debit_error not_found = not_found_error
debit_error optimistic_lock = optimistic_lock_error
debit_error _ = internal

abbrev pub debit_calls : ℤ → List UpstreamCall
debit_calls dec = if ltb_ℤ (pos 0) dec then quota_subtract dec ∷ [] else []

abbrev pub debited_outcome : Result RepoError (Balance × ℤ) × Store → Outcome AppError Balance
debited_outcome (err e, s) = record { result = err (debit_error e); store = s; calls = [] }
debited_outcome (ok (b, dec), s) = record { result = ok b; store = s; calls = debit_calls dec }

abbrev pub admit_debit : Bool → Bool → ℤ → Bool → Answers → Claims → Result AppError (Unit {0})
admit_debit funding_enabled has_pool amount reason_given a c = do
  raise_if (not funding_enabled) not_found_error
  assert_role c (operator ∷ [])
  raise_if (leb_ℤ amount (pos 0)) invalid_param
  raise_if (not reason_given) invalid_param
  a.credential
  raise_if (not has_pool) invalid_param
  raise_if (not a.lock_free) internal
  ok tt

-- DebitBalance, up to the status of the organization. `reason_given` is the check of the text.
unfoldable pub debit_balance :
    Bool → Bool → ℕ → ℤ → Bool → Answers → Claims → Store → Outcome AppError Balance
debit_balance funding_enabled has_pool org amount reason_given a c s =
    elim (admit_debit funding_enabled has_pool amount reason_given a c) [
      | err e ↦ record { result = err e; store = s; calls = [] }
      | ok _ ↦ debited_outcome (with_tx a.commits (debit_tx org amount) s)
    ]

-- reconcileOrgEscrow's correction of the window: the target is what was released to it less what was
-- consumed since the baseline, and not below 0.
unfoldable pub target_of : ℤ → ℤ → ℤ → ℤ
target_of released consumed baseline =
    let target = i64 (released -ℤ i64 (consumed -ℤ baseline)) in
    if ltb_ℤ target (pos 0) then pos 0 else target

-- switch { case actual > target: subtract; case actual < target: only a log line }
unfoldable pub correct_window : ℤ → ℤ → List UpstreamCall
correct_window target actual =
    if ltb_ℤ target actual then quota_subtract (i64 (actual -ℤ target)) ∷ [] else []

-- The baseline: the one in the configuration, or what is consumed now, which is then stored.
abbrev pub baseline_of : Option ℤ → ℤ → ℤ
baseline_of none consumed = consumed
baseline_of (some baseline) consumed = baseline

-- GetActiveEscrowBucket's amount, 0 without a window bucket.
abbrev pub released_amount : ℕ → Buckets → ℤ
released_amount org rows = elim (get_active_escrow_bucket_tx org rows) [
  | none ↦ pos 0
  | some a ↦ a.amount
]

-- What the correction asks of new-api, and the baseline that is stored after it. `consumed` is the
-- sum of the usage ledger, `actual` the quota that new-api reports.
abbrev pub reconcile_org_escrow : ℕ → ℤ → Option ℤ → ℤ → Buckets → List UpstreamCall × Option ℤ
reconcile_org_escrow org consumed baseline actual rows = (
  correct_window (target_of (released_amount org rows) consumed (baseline_of baseline consumed))
      actual,
  some (baseline_of baseline consumed),
)
