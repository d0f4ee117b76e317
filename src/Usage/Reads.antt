-- ===== src/Usage/Reads.antt =====
-- The entries that a loop over pages reads, and the parts of them that are ingested.
use nexusapi_enterprise.Prelude.{
  All-append, All-map, ℕ, zero, suc, ◌*◌, ◌≤◌, ◌≡◌, ap, sym, ◌∙◌, inl, inr, Bool, List, [], ◌∷◌,
  ◌++◌, leb, arith, Bool-cases, if◌then◌else◌, Result, ok, err, ok_injective, >>=-eq-ok, All,
}
use mathlib.Core.Path.{subst}
use nexusapi_enterprise.Settlement.{LogEntry, ingest_window}
use nexusapi_enterprise.Settlement.Streams.{
  select, is_new, ingest_window-select, ingest_window-mark,
}
use nexusapi_enterprise.Usage.{Lookups, SettleSink, ingest_entry, ingest_all}
use nexusapi_enterprise.Usage.Run.{or_upstream, collect_pages, ingest_page, main_pages}
use nexusapi_enterprise.Usage.Selected.{select-append}

-- The entries of the pages up to the last one of the window, or up to a read that fails.
unfoldable pub pages_read : (ℕ → Result ℕ (List LogEntry × ℕ)) → ℕ → ℕ → List LogEntry
pages_read read zero page = []
pages_read read (suc left) page = elim (read page) [
  | err code ↦ []
  | ok r ↦
      let rest = pages_read read left (suc page) in
      if leb r.1 (page * 100) then r.0 else r.0 ++ rest
]

pub or_upstream-ok : {A : Type 0} (r : Result ℕ A) {v : A} → or_upstream r ≡ ok v → r ≡ ok v
or_upstream-ok (ok x) e = ap ok (ok_injective e)
or_upstream-ok (err code) e = cc

-- A loop that collects keeps what its filter passes of the entries that it reads.
pub collect_pages-select :
    (keep : LogEntry → Bool) (read : ℕ → Result ℕ (List LogEntry × ℕ)) (left page : ℕ)
    {es : List LogEntry}
    → collect_pages keep read left page ≡ ok es
    → es ≡ select keep (pages_read read left page)
unfolding collect_pages pages_read select
collect_pages-select keep read zero page h = sym (ok_injective h)
collect_pages-select keep read (suc left) page {es} h =
    let (r, e1, k1) = >>=-eq-ok (or_upstream (read page)) _ h in
    let got = or_upstream-ok (read page) e1 in
    elim (Bool-cases (leb r.1 (page * 100))) [
      | inl last ↦ rw (got, pages_read) (rw last (sym (ok_injective (rw last at k1))))
      | inr more ↦
          let (rest, e2, k2) =
            >>=-eq-ok (collect_pages keep read left (suc page)) _ (rw more at k1) in
          let ih = collect_pages-select keep read left (suc page) e2 in
          rw (got, pages_read)
            (rw more (
              sym (ok_injective k2)
              ∙ ap (λ t. select keep r.0 ++ t) ih
              ∙ sym (select-append keep r.0 (pages_read read left (suc page)))))
    ]

pub ingest_all-append :
    (l : Lookups) (xs ys : List LogEntry) (sk : SettleSink) {mid sk' : SettleSink}
    → ingest_all l xs sk ≡ ok mid
    → ingest_all l ys mid ≡ ok sk'
    → ingest_all l (xs ++ ys) sk ≡ ok sk'
unfolding ingest_all
ingest_all-append l [] ys sk {mid} {sk'} h k =
    subst (λ x. ingest_all l ys x ≡ ok sk') (sym (ok_injective h)) k
ingest_all-append l (x ∷ xs) ys sk h k =
    let (next, e1, k1) = >>=-eq-ok (ingest_entry l x sk) _ h in
    rw e1 (ingest_all-append l xs ys next k1 k)

-- The loop over the main window ingests the entries that are new, and its mark is no lower than any
-- entry's id that it read.
pub main_pages-select :
    (l : Lookups) (mark : ℕ) (read : ℕ → Result ℕ (List LogEntry × ℕ)) (left page : ℕ)
    (sk : SettleSink) (max_id : ℕ) {sk' : SettleSink} {max' : ℕ}
    → mark ≤ max_id
    → main_pages l mark read left page (sk, max_id) ≡ ok (sk', max')
    → (ingest_all l (select (is_new mark) (pages_read read left page)) sk ≡ ok sk')
      × (max_id ≤ max')
      × All (λ e. e.id ≤ max') (pages_read read left page)
unfolding main_pages pages_read select ingest_all
main_pages-select l mark read zero page sk max_id {sk'} {max'} le h =
    let same = ok_injective h in
    (ap (λ x. ok x.0) same, subst (λ x. max_id ≤ x.1) same (omega arith), tt)
main_pages-select l mark read (suc left) page sk max_id {sk'} {max'} le h =
    let (r, e1, k1) = >>=-eq-ok (or_upstream (read page)) _ h in
    let got = or_upstream-ok (read page) e1 in
    let (acc, e2, k2) = >>=-eq-ok (ingest_page l mark r.0 (sk, max_id)) _ k1 in
    let (mid, e3, k3) = >>=-eq-ok (ingest_all l (ingest_window mark r.0 max_id).0 sk) _ e2 in
    let here = ok_injective k3 in
    let took = rw (ingest_window-select mark r.0 max_id) at e3 in
    let (up, below) = ingest_window-mark mark r.0 max_id le in
    elim (Bool-cases (leb r.1 (page * 100))) [
      | inl last ↦
          let end = here ∙ ok_injective (rw last at k2) in
          rw (got, pages_read)
            (rw last (
              took ∙ ap (λ x. ok x.0) end,
              subst (λ x. max_id ≤ x.1) end up,
              subst (λ x. All (λ e. e.id ≤ x.1) r.0) end below,
            ))
      | inr more ↦
          let go =
            subst (λ x. main_pages l mark read left (suc page) x ≡ ok (sk', max')) (sym here)
              (rw more at k2) in
          let (ingested, up', below') =
            main_pages-select l mark read left (suc page) mid (ingest_window mark r.0 max_id).1
              (omega (arith, le, up)) go in
          rw (got, pages_read)
            (rw more (
              rw (select-append (is_new mark) r.0 (pages_read read left (suc page)))
                  (ingest_all-append l (select (is_new mark) r.0) _ sk took ingested),
              omega (arith, up, up'),
              All-append (λ e. e.id ≤ max') r.0 _
                  (All-map (λ e. e.id ≤ (ingest_window mark r.0 max_id).1) (λ e. e.id ≤ max') r.0
                    (λ e p. omega (arith, p, up')) below)
                  below',
            ))
    ]
