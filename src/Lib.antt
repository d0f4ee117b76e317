-- ===== src/Lib.antt =====
-- NexusAPI Enterprise: the money, quota and access rules of the platform between an organization and
-- new-api, as a model of its Go code.
--
-- The platform keeps two books of an organization's money in MySQL: company_balance with its
-- recharges, and escrow_bucket, whose active row is the window that new-api lets the organization
-- spend and whose holding rows wait to be moved into it. Recharges, refills, refunds and settlements
-- change them under a per-organization lock and in one transaction each; new-api is told afterwards.
--
--   * Errors: pkg/apperr/apperr.go and the errors of repo.
--   * Escrow: repo/escrow.go. The table is the list of its rows. Escrow.Merge is
--     MergeHoldingIntoActiveTx, Escrow.Reduce is ReduceEscrowTx; Table, Select and Write hold the
--     lemmas on an UPDATE by key, on ORDER BY seq LIMIT 1 and on the sums.
--   * Balance: repo/balance.go (AddRechargeTx, DebitBalanceTx) and DeductBalanceTx of
--     repo/settlement.go. An expression out of the range of BIGINT is an error of the database.
--   * Funding: service/escrow.go (applyRecharge, refillToWindow, reconcileOrgEscrow),
--     service/billing.go (DebitBalance) and repo/tx.go (WithTx). Sound is the invariant of the two
--     books, Reach the stores that any sequence of the operations reaches.
--   * Quota: service/quota.go, from the policies and tiers to the limit of a member; Quota.Apply is
--     applyMemberOverride, which writes it to new-api by withOrgCred, Pushed what that comes to.
--   * Billing: service/billing.go (Recharge, GetBalance, recomputeOrgStatus) and GetDerivedBalance.
--   * Idempotency: repo/idemp.go.
--   * Rbac: service/rbac.go.
--   * Approval: service/approval.go and repo/approval.go, with the dispatch of an approved request.
--   * Settlement: the windows, pages and streams of service/settlement.go and service/backfill.go.
--   * Usage: ingestEntry and commitUsageOnly with the tables usage_ledger and usage_detail; Usage.Run
--     and Usage.Deduct are RunSettlement and the cursor, Usage.Backfill is backfillOneWindow. Ledger,
--     Ingest and Batch hold the sums of one batch, Reads and Selected what the pages of a window
--     give, Settled and Fresh what a settlement reads, Booked and Backfilled the invariant, Books the
--     order of steps; Cached forgets the caches, Paged says that the pages hold the whole window, Held
--     and Complete what is booked at the end. The collation of usage_ledger is a field of the tables.
--   * Keys: repo/member_key.go and the writers of repo/member.go that touch a member's token. Tokens,
--     Slots and Kept hold what one statement does to a key, Pointer what it does to the pointer of a
--     member; Steps is the order in which the services make them, Opened and Guarded say that a member
--     has no primary key before it is bootstrapped, Reach what the tables then promise, Attribution
--     whom a token is charged to.
--   * Credentials: service/member.go. withOrgCred and EnsureFreshCred; Tokens and Order are CreateToken,
--     RevealTokenKey and RotateToken of adapter/newapi, Rotation is RotateKey and CreateMemberToken,
--     which write the tables of Keys, KeptKey says what that leaves of a key, Runs how often
--     withOrgCred runs an operation.
--   * Crypto: pkg/crypto. Credentials.Ring makes its keyring the one of Credentials.
--   * Session: pkg/session; Session.Guard is requireAuth of handler/middleware.go with ValidateSession
--     and the support sessions of service/support.go, Session.Admitted what it lets through.
--   * Newapi: the breaker, the client and the error classes of adapter/newapi.
--   * AttemptLimiter: handler/authlimit.go.
--   * Prelude: native numbers, integers, Go's int64 with its wrap-around (Int64.i64), results.
--
-- State is passed explicitly; a failing call returns an error value. The answers of new-api, the
-- lock, the clock and the commit are arguments. new-api's counts and pages are functions; the
-- laws used of them are hypotheses: that a page is a slice of the list of logs, for the paging; that
-- a window lists logs of its seconds, none twice, and worth less than 2^62, for the report. The keyring decrypts what it
-- encrypted. During one settlement the lookups of members, organizations and flags answer the same.
--
-- Bounds: amounts of buckets are int64 values that are not negative; a balance row is kept in the
-- range of BIGINT by the database. The loop of the merge has two rounds of fuel more than there are
-- holding rows; that this is enough is part of its theorem. The loops that choose a window have the
-- length of the window as fuel, and each round halves it. The POST of a token is sent as often as
-- MaxRetries allows.
--
-- Not modelled: messages, audit rows, notices and logs; the texts of a refund or a decision beyond
-- the result of their check; the rate limiter, which computes with floating point; what follows
-- the commit of a settlement, and the deletion of old details, after which the ledger holds more
-- than the details; the creation and the end of grants; handlers and reports.
pub mod Prelude
pub mod Errors
pub mod Escrow
pub mod Balance
pub mod Rbac
pub mod Funding
pub mod Newapi
pub mod Approval
pub mod Settlement
pub mod AttemptLimiter
pub mod Quota
pub mod Billing
pub mod Idempotency
pub mod Usage
pub mod Keys
pub mod Crypto
pub mod Session
pub mod Credentials
