-- ===== src/Usage/Fresh.antt =====
-- The entries of one run of RunSettlement are new to the details: the late ones by the check, the
-- others because they lie above the cursor.
use nexusapi_enterprise.Prelude.{
  All-append, All-map, ℕ, ◌-◌, ◌^◌, ◌≤◌, ◌<◌, ◌≡◌, inl, inr, true, false, List, [], ◌∷◌, ◌++◌,
  arith, Bool-cases, All,
}
use nexusapi_enterprise.Prelude.Int.{ℤ, pos, ◌+ℤ◌, ◌<ℤ◌, int_laws}
use nexusapi_enterprise.Settlement.{LogEntry}
use nexusapi_enterprise.Settlement.Streams.{select, is_new}
use nexusapi_enterprise.Usage.{UsageTables, has_log}
use nexusapi_enterprise.Usage.Batch.{NoneFree, sum_quotas, has_entry}
use nexusapi_enterprise.Usage.Run.{
  Cursor, RunEnv, is_costly, is_missing, settlement_rescan_overlap_sec,
}
use nexusapi_enterprise.Usage.Reads.{pages_read}
use nexusapi_enterprise.Usage.Selected.{
  select-All, NoneTwice-select, NoneTwice-append, sum_quotas-append, sum_quotas-select,
  sum_quotas-select_le, costly-NoneFree, NoneFree-select,
}
use nexusapi_enterprise.Usage.Commit.{IsFresh}
use nexusapi_enterprise.Prelude.Int.{◌≤ℤ◌}
use nexusapi_enterprise.Prelude.Int64.{two_63}
use nexusapi_enterprise.Usage.Settled.{
  InWindow, IsFaithful, IsBehind, IsTimed, unheld_above, apart, is_new-is_costly, is_new-above,
  is_missing-unheld, late_entries, new_entries,
}

new_NoneFree : (mark : ℕ) (xs : List LogEntry) → NoneFree (select (is_new mark) xs)
unfolding select
new_NoneFree mark [] = tt
new_NoneFree mark (x ∷ xs) = elim (Bool-cases (is_new mark x)) [
  | inl kept ↦ rw kept (positive x kept, new_NoneFree mark xs)
  | inr dropped ↦ rw dropped (new_NoneFree mark xs)
]
  where
    positive : (e : LogEntry) → is_new mark e ≡ true → pos 0 ≤ℤ e.quota
    positive e h = ground arith

module _ (time_of : ℕ → ℕ) (env : RunEnv) (t : UsageTables) (cur : Cursor) (until_sub : ℕ)
    (faithful : IsFaithful time_of env.read_logs) (started : 0 < cur.last_settled_ts)
    (behind : All (IsBehind cur) t.details) (timed : All (IsTimed time_of) t.details) where
  abbrev pub Early : LogEntry → Type 0
  Early e = (e.created_at < cur.last_settled_ts) × (e.created_at ≡ time_of e.id)

  pub late-Early :
      All (λ e. Early e × (has_log e.id t.details ≡ false)) (late_entries env t cur.last_settled_ts)
  late-Early =
      let since = cur.last_settled_ts in
      let read =
        pages_read (env.read_logs (since - settlement_rescan_overlap_sec) (since - 1)) 5 1 in
      let costly = select-All Early is_costly read (
        All-map (InWindow time_of (since - settlement_rescan_overlap_sec) (since - 1)) Early read
          (λ e h. (omega (arith, h.1, started), h.2))
          (faithful.within (since - settlement_rescan_overlap_sec) (since - 1) 5)) in
      All-map (λ e. (Early e × (is_costly e ≡ true)) × (is_missing t e ≡ true))
        (λ e. Early e × (has_log e.id t.details ≡ false)) _
        (λ e h. ((h.0).0, is_missing-unheld t e h.1))
        (select-All (λ e. Early e × (is_costly e ≡ true)) (is_missing t) (select is_costly read)
          costly)

  abbrev pub UpTo : LogEntry → Type 0
  UpTo e =
      (cur.last_settled_ts ≤ e.created_at)
      × (e.created_at ≤ until_sub)
      × (e.created_at ≡ time_of e.id)

  pub new-UpTo :
      All (λ e. UpTo e × (is_new cur.last_settled_log_id e ≡ true)) (new_entries env cur until_sub)
  new-UpTo =
      select-All UpTo (is_new cur.last_settled_log_id) _
        (faithful.within cur.last_settled_ts until_sub 20)

  new_unheld : All (λ e. has_log e.id t.details ≡ false) (new_entries env cur until_sub)
  new_unheld =
      All-map (λ e. UpTo e × (is_new cur.last_settled_log_id e ≡ true))
        (λ e. has_log e.id t.details ≡ false) _
        (λ e h.
          unheld_above time_of cur e t.details ((h.0).0) ((h.0).2)
            (is_new-above cur.last_settled_log_id e h.1) behind timed)
        new-UpTo

  abbrev pub fresh_entries : List LogEntry
  fresh_entries = late_entries env t cur.last_settled_ts ++ new_entries env cur until_sub

  quota_bound :
      (late new : ℤ) → late <ℤ pos (2 ^ 62) → new <ℤ pos (2 ^ 62) → late +ℤ new <ℤ pos two_63
  quota_bound late new p q = omega (int_laws, p, q)

  pub fresh_entries-IsFresh : IsFresh t fresh_entries
  fresh_entries-IsFresh =
      let since = cur.last_settled_ts in
      let before = since - settlement_rescan_overlap_sec in
      let old = pages_read (env.read_logs before (since - 1)) 5 1 in
      let main = pages_read (env.read_logs since until_sub) 20 1 in
      record {
        free =
            All-append (λ e. pos 0 ≤ℤ e.quota) (late_entries env t since) _
              (NoneFree-select (is_missing t) (select is_costly old) (costly-NoneFree old))
              (new_free main);
        once =
            NoneTwice-append (late_entries env t since) (new_entries env cur until_sub)
              (NoneTwice-select (is_missing t) (select is_costly old)
                (NoneTwice-select is_costly old (faithful.once before (since - 1) 5)))
              (NoneTwice-select (is_new cur.last_settled_log_id) main
                (faithful.once since until_sub 20))
              (All-map (λ e. Early e × (has_log e.id t.details ≡ false))
                (λ e. has_entry e.id (new_entries env cur until_sub) ≡ false) _
                (λ e h. apart time_of e (new_entries env cur until_sub) since ((h.0).0) ((h.0).1) (
                  All-map (λ y. UpTo y × (is_new cur.last_settled_log_id y ≡ true))
                    (λ y. (since ≤ y.created_at) × (y.created_at ≡ time_of y.id)) _
                    (λ y k. ((k.0).0, (k.0).2)) new-UpTo))
                late-Early);
        unheld =
            All-append (λ e. has_log e.id t.details ≡ false) (late_entries env t since) _
              (All-map (λ e. Early e × (has_log e.id t.details ≡ false))
                (λ e. has_log e.id t.details ≡ false) _ (λ e h. h.1) late-Early)
              new_unheld;
        small = rw (sum_quotas-append (late_entries env t since) (new_entries env cur until_sub)) (
            quota_bound _ _
              (below (sum_quotas (late_entries env t since)) (sum_quotas (select is_costly old))
                (sum_quotas-select_le (is_missing t) (select is_costly old) (costly-NoneFree old))
                (faithful.small before (since - 1) 5))
              (below (sum_quotas (new_entries env cur until_sub))
                (sum_quotas (select is_costly main))
                (sum_quotas-select (is_new cur.last_settled_log_id) main
                  (is_new-is_costly cur.last_settled_log_id))
                (faithful.small since until_sub 20)));
      }
    where
      new_free : (xs : List LogEntry) → NoneFree (select (is_new cur.last_settled_log_id) xs)
      new_free xs = new_NoneFree cur.last_settled_log_id xs

      below : (a b : ℤ) → a ≤ℤ b → b <ℤ pos (2 ^ 62) → a <ℤ pos (2 ^ 62)
      below a b p q = omega (arith, p, q)
