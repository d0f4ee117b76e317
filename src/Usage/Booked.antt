-- ===== src/Usage/Booked.antt =====
-- The transaction of a settlement keeps the books of usage, and so does raising the cursor.
use nexusapi_enterprise.Prelude.{
  All-append, All-map, ℕ, suc, ◌≤◌, ◌<◌, ◌≡◌, ◌⊎◌, refl, ap, sym, inl, inr, Bool, true, false, some,
  List, [], ◌∷◌, ◌==◌, arith, Bool-cases, if◌then◌else◌, Result, ok, err, ok_injective, >>=-eq-ok,
  All,
}
use mathlib.Core.Path.{subst}
use nexusapi_enterprise.Prelude.Int.{ℤ, pos}
use nexusapi_enterprise.Errors.{RepoError}
use nexusapi_enterprise.Balance.{Balances}
use nexusapi_enterprise.Settlement.{LogEntry}
use nexusapi_enterprise.Settlement.Streams.{is_new}
use nexusapi_enterprise.Usage.{
  DetailRow, TokenAttr, SettleSink, detail_of, UsageTables, later_of, has_log, commit_usage_only,
}
use nexusapi_enterprise.Usage.Run.{
  Cursor, SettlementStore, SettlementError, RunEnv, get_or_create_cursor, advance_cursor_tx,
  advanced, settle_with_tx, settle_tx, prepare, or_repo,
}
use nexusapi_enterprise.Usage.Deduct.{deduct_orgs, per_org}
use nexusapi_enterprise.Usage.Selected.{select-All}
use nexusapi_enterprise.Usage.Commit.{IsSummed, commit_usage_only-IsSummed, commit_usage_only-All}
use nexusapi_enterprise.Usage.Settled.{
  IsFaithful, IsBehind, IsTimed, late_entries, new_entries, prepare-Prepared,
}
use nexusapi_enterprise.Usage.Fresh.{fresh_entries, fresh_entries-IsFresh, late-Early, new-UpTo}

pub record IsBooked (time_of : ℕ → ℕ) (s : SettlementStore) : Type 0 where
  pub summed : IsSummed s.tables
  pub behind : All (IsBehind (get_or_create_cursor s.cursor)) s.tables.details
  pub timed : All (IsTimed time_of) s.tables.details

pub All_details {κ ι} :
    (P : DetailRow → Type κ) (Q : DetailRow → Type ι) (ds : List DetailRow)
    → ((d : DetailRow) → P d → Q d)
    → All P ds
    → All Q ds
All_details P Q [] f h = tt
All_details P Q (d ∷ ds) f h = (f d h.0, All_details P Q ds f h.1)

pub All_both {κ ι} :
    (P : DetailRow → Type κ) (Q : DetailRow → Type ι) (ds : List DetailRow)
    → All P ds
    → All Q ds
    → All (λ d. P d × Q d) ds
All_both P Q [] h k = tt
All_both P Q (d ∷ ds) h k = ((h.0, k.0), All_both P Q ds h.1 k.1)

raised_behind :
    (c c' : Cursor) (d : DetailRow)
    → c.last_settled_ts ≤ c'.last_settled_ts
    → c.last_settled_log_id ≤ c'.last_settled_log_id
    → IsBehind c d
    → IsBehind c' d
raised_behind c c' d ts id b = ground arith

abbrev pub raised_cursor : ℕ → ℕ → Cursor → Cursor
raised_cursor ts id c = record {
  last_settled_ts = later_of c.last_settled_ts ts;
  last_settled_log_id = later_of c.last_settled_log_id id;
  version = suc c.version;
}

pub advanced-cursor :
    {A : Type 0} (v : A) (t : UsageTables) (bs : Balances) (ts id version : ℕ) (c : Cursor)
    {out : A × SettlementStore}
    → advanced v t bs (advance_cursor_tx ts id version (some c)) ≡ ok out
    → out.1 ≡ record { tables = t; balances = bs; cursor = some (raised_cursor ts id c) }
unfolding advance_cursor_tx
advanced-cursor {A} v t bs ts id version c h = elim (Bool-cases (c.version == version)) [
  | inl same ↦ ap (λ x. x.1) (sym (ok_injective (rw same at h)))
  | inr other ↦ absurd (no_ok (rw other at h))
]
  where
    no_ok :
        {x : SettlementError} {o : A × SettlementStore}
        → ◌≡◌ {A = Result SettlementError (A × SettlementStore)} (err x) (ok o)
        → ⊥
    no_ok k = cc

pub or_repo-ok : {A : Type 0} (r : Result RepoError A) {v : A} → or_repo r ≡ ok v → r ≡ ok v
or_repo-ok (ok x) e = ap ok (ok_injective e)
or_repo-ok (err why) e = cc

pub settle_with_tx-either :
    {A : Type 0} (P : SettlementStore → Type 0) (commits : Bool)
    (r : Result SettlementError (A × SettlementStore)) (s : SettlementStore)
    → P s
    → ((out : A × SettlementStore) → r ≡ ok out → P out.1)
    → P (settle_with_tx commits r s).1
settle_with_tx-either P commits (err e) s before after = before
settle_with_tx-either P true (ok out) s before after = after out refl
settle_with_tx-either P false (ok out) s before after = before

later_of-ge : (a b : ℕ) → (a ≤ later_of a b) × (b ≤ later_of a b)
later_of-ge a b = ground arith

-- The cursor is raised and the usage stays as it is.
pub raise-IsBooked :
    (time_of : ℕ → ℕ) (s : SettlementStore) (c : Cursor) (ts id : ℕ) (bs : Balances)
    → get_or_create_cursor s.cursor ≡ c
    → IsBooked time_of s
    → IsBooked time_of
        (record { tables = s.tables; balances = bs; cursor = some (raised_cursor ts id c) })
raise-IsBooked time_of s c ts id bs same w = record {
  summed = w.summed;
  behind =
      All_details (IsBehind c) (IsBehind (raised_cursor ts id c)) s.tables.details
        (λ d b.
          raised_behind c (raised_cursor ts id c) d ((later_of-ge c.last_settled_ts ts).0)
            ((later_of-ge c.last_settled_log_id id).0) b)
        (subst (λ x. All (IsBehind x) s.tables.details) same w.behind);
  timed = w.timed;
}

at_most :
    (c : Cursor) (ts id : ℕ) (e : LogEntry)
    → e.created_at ≤ ts
    → e.id ≤ id
    → (e.created_at < later_of c.last_settled_ts ts)
      ⊎ ((e.created_at ≡ later_of c.last_settled_ts ts)
          × (e.id ≤ later_of c.last_settled_log_id id))
at_most c ts id e p q = ground arith

module _ (time_of : ℕ → ℕ) (env : RunEnv) (s : SettlementStore) (cur : Cursor)
    (faithful : IsFaithful time_of env.read_logs) (started : 0 < cur.last_settled_ts)
    (at : s.cursor ≡ some cur) (w : IsBooked time_of s) where
  cursor_eq : get_or_create_cursor s.cursor ≡ cur
  cursor_eq = rw at refl

  behind : All (IsBehind cur) s.tables.details
  behind = subst (λ x. All (IsBehind x) s.tables.details) cursor_eq w.behind

  -- The details of a run are not above the raised cursor, and keep their logs' times.
  fresh_details :
      (until_sub max_id : ℕ)
      → All (λ e. e.id ≤ max_id) (new_entries env cur until_sub)
      → All
          (λ e.
            (m : TokenAttr)
            → IsBehind (raised_cursor until_sub max_id cur) (detail_of m e)
              × IsTimed time_of (detail_of m e))
          (fresh_entries time_of env s.tables cur until_sub faithful started behind w.timed)
  fresh_details until_sub max_id seen =
      All-append _ (late_entries env s.tables cur.last_settled_ts) _
        (All-map _ _ _ late
          (late-Early time_of env s.tables cur until_sub faithful started behind w.timed))
        (both (new_entries env cur until_sub)
          (new-UpTo time_of env s.tables cur until_sub faithful started behind w.timed) seen)
    where
      late :
          (e : LogEntry)
          → ((e.created_at < cur.last_settled_ts) × (e.created_at ≡ time_of e.id))
            × (has_log e.id s.tables.details ≡ false)
          → (m : TokenAttr)
          → IsBehind (raised_cursor until_sub max_id cur) (detail_of m e)
            × IsTimed time_of (detail_of m e)
      late e h m =
          (inl (omega (arith, (h.0).0, later_of-ge cur.last_settled_ts until_sub)), (h.0).1)

      both :
          (es : List LogEntry)
          → All
              (λ e.
                ((cur.last_settled_ts ≤ e.created_at)
                  × (e.created_at ≤ until_sub)
                  × (e.created_at ≡ time_of e.id))
                × (is_new cur.last_settled_log_id e ≡ true))
              es
          → All (λ e. e.id ≤ max_id) es
          → All
              (λ e.
                (m : TokenAttr)
                → IsBehind (raised_cursor until_sub max_id cur) (detail_of m e)
                  × IsTimed time_of (detail_of m e))
              es
      both [] h k = tt
      both (e ∷ es) h k =
          (λ m. (at_most cur until_sub max_id e (((h.0).0).1) k.0, ((h.0).0).2), both es h.1 k.1)

  pub settle_tx-IsBooked :
      (until : ℕ) (out : ℕ × SettleSink × ℕ)
      → prepare env s.tables cur until ≡ ok out
      → (done : ℤ × SettlementStore)
      → settle_tx env.observe_mode out.1 out.0 out.2 cur.version s ≡ ok done
      → IsBooked time_of done.1
  unfolding settle_tx
  settle_tx-IsBooked until (until_sub, sk, max_id) e done h =
      let law = prepare-Prepared env s.tables cur until e in
      let (t, e1, k1) = >>=-eq-ok (or_repo (commit_usage_only sk s.tables)) _ h in
      let (out, e2, k2) =
        >>=-eq-ok
          (or_repo (
            if env.observe_mode
            then ok (pos 0, s.balances)
            else deduct_orgs sk.flag_cache (per_org sk.aggs []) (pos 0) s.balances))
          _ k1 in
      let committed = or_repo-ok (commit_usage_only sk s.tables) e1 in
      let store = advanced-cursor out.0 t out.1 until_sub max_id cur.version cur (rw at at k2) in
      let batch =
        fresh_entries-IsFresh time_of env s.tables cur until_sub faithful started behind w.timed in
      let summed =
        commit_usage_only-IsSummed env.lookups false _ s.tables batch law.ingested committed
          w.summed in
      let seen =
        All-map (λ e. (e.id ≤ max_id) × (is_new cur.last_settled_log_id e ≡ true))
          (λ e. e.id ≤ max_id) _ (λ e p. p.0)
          (select-All (λ e. e.id ≤ max_id) (is_new cur.last_settled_log_id) _ law.seen) in
      let both =
        commit_usage_only-All env.lookups false _ s.tables batch law.ingested committed
          (λ d. IsBehind (raised_cursor until_sub max_id cur) d × IsTimed time_of d)
          (fresh_details until_sub max_id seen) (both_old until_sub max_id) in
      subst (IsBooked time_of) (sym store) (record {
        summed = summed;
        behind = All_details _ _ t.details (λ d p. p.0) both;
        timed = All_details _ _ t.details (λ d p. p.1) both;
      })
    where
      both_old :
          (ts id : ℕ)
          → All (λ d. IsBehind (raised_cursor ts id cur) d × IsTimed time_of d) s.tables.details
      both_old ts id =
          All_both _ _ s.tables.details
            ((raise-IsBooked time_of s cur ts id s.balances cursor_eq w).behind) w.timed
