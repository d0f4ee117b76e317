-- ===== src/Usage/Paged.antt =====
-- The window that RunSettlement chooses, and that its pages hold every log of it.
use nexusapi_enterprise.Prelude.{
  ℕ, zero, suc, ◌+◌, ◌-◌, ◌*◌, ◌≤◌, ◌<◌, ◌≡◌, ◌⊎◌, refl, ap, ◌∙◌, inl, inr, false, List, ◌++◌,
  length, leb, arith, Bool-cases, Result, ok, >>=-eq-ok, ok_injective,
}
use mathlib.Core.Path.{subst}
use nexusapi_enterprise.Settlement.{LogEntry, settlement_max_pages, read_pages}
use nexusapi_enterprise.Settlement.Pages.{page_of_logs, read_pages-all}
use nexusapi_enterprise.Settlement.Windows.{choose_until-readable}
use nexusapi_enterprise.Usage.{Lookups, SettleSink, empty_sink, UsageTables}
use nexusapi_enterprise.Usage.Run.{
  Cursor, ReadLogs, RunEnv, select_until, probed_total, or_upstream, ingest_rescan, ingest_page,
  main_pages, prepare,
}
use nexusapi_enterprise.Usage.Reads.{pages_read, or_upstream-ok}

-- What new-api documents of a window that it answers for: a page holds up to 100 of the window's logs,
-- and the count is their number.
pub record IsPaged (logs : ℕ → ℕ → List LogEntry) (read : ReadLogs) : Type 0 where
  pub page :
      (since until p : ℕ) {r : List LogEntry × ℕ}
      → read since until p ≡ ok r
      → r ≡ (page_of_logs (logs since until) p, length (logs since until))

-- The pages of a loop that no read has ended.
pages_read-read_pages :
    (l : Lookups) (mark : ℕ) (read : ℕ → Result ℕ (List LogEntry × ℕ)) (logs : List LogEntry)
    (left page : ℕ) (acc : SettleSink × ℕ) {out : SettleSink × ℕ}
    → ((p : ℕ) (r : List LogEntry × ℕ) → read p ≡ ok r → r ≡ (page_of_logs logs p, length logs))
    → main_pages l mark read left page acc ≡ ok out
    → pages_read read left page ≡ read_pages (page_of_logs logs) (length logs) left page
unfolding main_pages pages_read read_pages
pages_read-read_pages l mark read logs zero page acc law h = refl
pages_read-read_pages l mark read logs (suc left) page acc law h =
    let (r, e1, k1) = >>=-eq-ok (or_upstream (read page)) _ h in
    let first = or_upstream-ok (read page) e1 in
    let got = first ∙ ap ok (law page r first) in
    let (acc', e2, k2) =
      >>=-eq-ok (ingest_page l mark (page_of_logs logs page) acc) _ (rw (got, main_pages) at h) in
    elim (Bool-cases (leb (length logs) (page * 100))) [
      | inl last ↦ rw (got, pages_read) (rw last refl)
      | inr more ↦
          rw (got, pages_read)
            (rw more (
              ap (λ t. page_of_logs logs page ++ t)
                (pages_read-read_pages l mark read logs left (suc page) acc' law (rw more at k2))))
    ]

select_until-readable :
    (logs : ℕ → ℕ → List LogEntry) (read : ReadLogs) (since until : ℕ) {u : ℕ}
    → IsPaged logs read
    → since < until
    → select_until read since until ≡ ok u
    → (since < u) × (u ≤ until) × ((length (logs since u) ≤ 2000) ⊎ (u ≡ since + 1))
unfolding select_until
select_until-readable logs read since until {u} paged lt h =
    let (v, found, lo, hi, why) =
      choose_until-readable (λ x. probed_total (read since x 1)) (suc (until - since)) since until
        lt (omega arith) in
    let (r, e1, k1) = >>=-eq-ok (or_upstream (read since v 1)) _ (rw (found, select_until) at h) in
    let got = or_upstream-ok (read since v 1) e1 in
    let total : probed_total (read since v 1) ≡ length (logs since v) =
      ap probed_total got ∙ ap (λ x. x.1) (paged.page since v 1 got) in
    subst (λ x. (since < x) × (x ≤ until) × ((length (logs since x) ≤ 2000) ⊎ (x ≡ since + 1)))
      (ok_injective k1) (lo, hi, subst (λ n. (n ≤ 2000) ⊎ (v ≡ since + 1)) total why)

-- The chosen window, and what its pages hold.
pub prepare-Whole :
    (logs : ℕ → ℕ → List LogEntry) (env : RunEnv) (t : UsageTables) (cur : Cursor) (until : ℕ)
    {out : ℕ × SettleSink × ℕ}
    → IsPaged logs env.read_logs
    → cur.last_settled_ts < until
    → prepare env t cur until ≡ ok out
    → (cur.last_settled_ts < out.0)
      × (out.0 ≤ until)
      × ((length (logs cur.last_settled_ts out.0) ≤ 2000) ⊎ (out.0 ≡ cur.last_settled_ts + 1))
      × (length (logs cur.last_settled_ts out.0) ≤ 2000
          → pages_read (env.read_logs cur.last_settled_ts out.0) settlement_max_pages 1
            ≡ logs cur.last_settled_ts out.0)
unfolding prepare
prepare-Whole logs env t cur until {out} paged lt h =
    let since = cur.last_settled_ts in
    let (until_sub, e1, k1) = >>=-eq-ok (select_until env.read_logs since until) _ h in
    let (late, e2, k2) = >>=-eq-ok (ingest_rescan env t since (empty_sink false)) _ k1 in
    let (acc, e3, k3) =
      >>=-eq-ok
        (main_pages env.lookups cur.last_settled_log_id (env.read_logs since until_sub)
          settlement_max_pages 1 (late, cur.last_settled_log_id))
        _ k2 in
    let (lo, hi, why) = select_until-readable logs env.read_logs since until paged lt e1 in
    let read =
      pages_read-read_pages env.lookups cur.last_settled_log_id (env.read_logs since until_sub)
        (logs since until_sub) settlement_max_pages 1 (late, cur.last_settled_log_id)
        (λ p r. paged.page since until_sub p) e3 in
    subst
      (λ x.
        (since < x)
        × (x ≤ until)
        × ((length (logs since x) ≤ 2000) ⊎ (x ≡ since + 1))
        × (length (logs since x) ≤ 2000
            → pages_read (env.read_logs since x) settlement_max_pages 1 ≡ logs since x))
      (ap (λ x. x.0) (ok_injective k3))
      (
        lo,
        hi,
        why,
        λ le.
            read
            ∙ read_pages-all (logs since until_sub) (page_of_logs (logs since until_sub))
                (λ p. refl) le,
      )
