-- ===== src/Escrow.antt =====
-- The escrow buckets of model/model.go and their statements of repo/escrow.go. The table is the
-- list of its rows, of every organization.
pub mod Table
pub mod Select
pub mod Write
pub mod Merge
pub mod Reduce
mod Tests
use nexusapi_enterprise.Prelude.{
  ℕ, suc, ◌+◌, ◌≡◌, Bool, true, false, ◌&&◌, Option, none, some, List, [], ◌∷◌, map, ltb, ◌==◌,
  if◌then◌else◌,
}
use nexusapi_enterprise.Prelude.Int.{ℤ, pos, ◌+ℤ◌, ◌-ℤ◌, ltb_ℤ, leb_ℤ}
use nexusapi_enterprise.Prelude.Int64.{i64}

-- `EscrowActive`, `EscrowHolding`, `EscrowMerged`.
pub data EscrowStatus : Type 0 where
  active holding merged : EscrowStatus

pub record EscrowBucket : Type 0 where
  pub id : ℕ
  pub org_id : ℕ
  pub seq : ℕ
  pub amount : ℤ
  pub status : EscrowStatus
  pub threshold : ℤ

abbrev pub Buckets : Type 0
Buckets = List EscrowBucket

abbrev pub same_status : EscrowStatus → EscrowStatus → Bool
same_status active active = true
same_status holding holding = true
same_status merged merged = true
same_status _ _ = false

-- WHERE org_id = ? AND status = ?
abbrev pub selects : ℕ → EscrowStatus → EscrowBucket → Bool
selects org st b = b.org_id == org && same_status b.status st

-- ORDER BY seq: of two rows the one with the smaller seq.
abbrev pub earlier : EscrowBucket → Option EscrowBucket → Option EscrowBucket
earlier b none = some b
earlier b (some c) = if ltb c.seq b.seq then some c else some b

-- WHERE p ORDER BY seq LIMIT 1
unfoldable pub first_by_seq : (EscrowBucket → Bool) → Buckets → Option EscrowBucket
first_by_seq p [] = none
first_by_seq p (b ∷ bs) = let rest = first_by_seq p bs in if p b then earlier b rest else rest

unfoldable pub get_active_escrow_bucket_tx : ℕ → Buckets → Option EscrowBucket
get_active_escrow_bucket_tx org = first_by_seq (selects org active)

unfoldable pub next_holding_bucket_tx : ℕ → Buckets → Option EscrowBucket
next_holding_bucket_tx org = first_by_seq (selects org holding)

-- What a row adds to SUM(amount) under a WHERE clause.
abbrev pub amount_if : Bool → EscrowBucket → ℤ
amount_if hit b = if hit then b.amount else pos 0

unfoldable pub sum_where : (EscrowBucket → Bool) → Buckets → ℤ
sum_where p [] = pos 0
sum_where p (b ∷ bs) = amount_if (p b) b +ℤ sum_where p bs

-- SUM(amount) over the holding rows. The sum is not bounded here: MySQL's SUM is a DECIMAL.
abbrev pub sum_holding_escrow : ℕ → Buckets → ℤ
sum_holding_escrow org = sum_where (selects org holding)

-- UPDATE escrow_bucket SET amount = ?, status = ? WHERE id = ?
abbrev pub write_row : ℕ → ℤ → EscrowStatus → EscrowBucket → EscrowBucket
write_row id amount st b = if b.id == id then record b { amount = amount; status = st } else b

unfoldable pub update_escrow_bucket_tx : ℕ → ℤ → EscrowStatus → Buckets → Buckets
update_escrow_bucket_tx id amount st [] = []
update_escrow_bucket_tx id amount st (b ∷ bs) =
    write_row id amount st b ∷ update_escrow_bucket_tx id amount st bs

-- SELECT MAX(seq) WHERE org_id = ?; 0 without a row.
unfoldable pub max_escrow_seq_tx : ℕ → Buckets → ℕ
max_escrow_seq_tx org [] = 0
max_escrow_seq_tx org (b ∷ bs) =
    let rest = max_escrow_seq_tx org bs in
    if b.org_id == org then (if ltb rest b.seq then b.seq else rest) else rest

-- UNIQUE KEY uk_escrow_org_seq (org_id, seq)
unfoldable pub seq_taken : ℕ → ℕ → Buckets → Bool
seq_taken org seq [] = false
seq_taken org seq (b ∷ bs) =
    let rest = seq_taken org seq bs in if b.org_id == org && b.seq == seq then true else rest

-- The AUTO_INCREMENT value: above every id of the table. Values that a rollback has used up are
-- not skipped here.
unfoldable pub auto_increment : Buckets → ℕ
auto_increment [] = 1
auto_increment (b ∷ bs) = let rest = auto_increment bs in if ltb b.id rest then rest else suc b.id

-- INSERT INTO escrow_bucket; `none` is a duplicate key.
unfoldable pub create_escrow_bucket_tx : ℕ → ℕ → ℤ → EscrowStatus → ℤ → Buckets → Option Buckets
create_escrow_bucket_tx org seq amount st threshold rows =
    if seq_taken org seq rows
    then none
    else some (
        record {
          id = auto_increment rows;
          org_id = org;
          seq = seq;
          amount = amount;
          status = st;
          threshold = threshold;
        }
        ∷ rows)

-- The window buckets' amount.
abbrev pub released : ℕ → Buckets → ℤ
released org = sum_where (selects org active)

-- Both kinds of bucket together: what the organization may still spend or release.
abbrev pub escrowed : ℕ → Buckets → ℤ
escrowed org rows = released org rows +ℤ sum_holding_escrow org rows
