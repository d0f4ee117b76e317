-- ===== src/Settlement/Pages.antt =====
-- Reading a window page by page returns every log of it, once and in order.
use nexusapi_enterprise.Prelude.{
  ℕ, zero, suc, ◌+◌, ◌-◌, ◌*◌, ◌≤◌, ◌<◌, ◌≡◌, refl, ap, sym, ◌∙◌, inl, inr, List, [], ◌∷◌, ◌++◌,
  length, leb, arith, Bool-cases,
}
use nexusapi_enterprise.Settlement.{LogEntry, read_pages}

-- What new-api documents of its pages: page p holds the logs from 100(p-1) on, 100 at most.
unfoldable pub take : {A : Type 0} → ℕ → List A → List A
take n [] = []
take zero (x ∷ xs) = []
take (suc n) (x ∷ xs) = x ∷ take n xs

unfoldable pub drop : {A : Type 0} → ℕ → List A → List A
drop n [] = []
drop zero (x ∷ xs) = x ∷ xs
drop (suc n) (x ∷ xs) = drop n xs

take-append-drop : {A : Type 0} (n : ℕ) (xs : List A) → take n xs ++ drop n xs ≡ xs
unfolding take drop
take-append-drop n [] = refl
take-append-drop zero (x ∷ xs) = refl
take-append-drop (suc n) (x ∷ xs) = ap (λ t. x ∷ t) (take-append-drop n xs)

take_all : {A : Type 0} (n : ℕ) (xs : List A) → length xs ≤ n → take n xs ≡ xs
unfolding take
take_all n [] le = refl
take_all zero (x ∷ xs) le = absurd (omega (arith, le))
take_all (suc n) (x ∷ xs) le = ap (λ t. x ∷ t) (take_all n xs (omega (arith, le)))

length-drop : {A : Type 0} (n : ℕ) (xs : List A) → length (drop n xs) ≡ length xs - n
unfolding drop
length-drop n [] = omega arith
length-drop zero (x ∷ xs) = omega arith
length-drop (suc n) (x ∷ xs) = length-drop n xs ∙ (omega arith)

same_drop : {A : Type 0} (j k : ℕ) (xs : List A) → j ≡ k → drop j xs ≡ drop k xs
same_drop j k xs e = ap (λ n. drop n xs) e

drop-drop : {A : Type 0} (m n : ℕ) (xs : List A) → drop m (drop n xs) ≡ drop (n + m) xs
unfolding drop
drop-drop m n [] = refl
drop-drop m zero (x ∷ xs) = same_drop m (0 + m) (x ∷ xs) (omega arith)
drop-drop m (suc n) (x ∷ xs) =
    drop-drop m n xs ∙ same_drop (suc (n + m)) (suc n + m) (x ∷ xs) (omega arith)

-- The pages of a list of logs.
abbrev pub page_of_logs : List LogEntry → ℕ → List LogEntry
page_of_logs logs page = take 100 (drop ((page - 1) * 100) logs)

read_from :
    (logs : List LogEntry) (page_of : ℕ → List LogEntry) (left page : ℕ)
    → ((p : ℕ) → page_of p ≡ page_of_logs logs p)
    → 0 < page
    → length logs ≤ (page - 1 + left) * 100
    → 0 < left
    → read_pages page_of (length logs) left page ≡ drop ((page - 1) * 100) logs
unfolding read_pages
read_from logs page_of zero page pages p le q = absurd (omega (arith, q))
read_from logs page_of (suc left) page pages p le q =
    elim (Bool-cases (leb (length logs) (page * 100))) [
      | inl last ↦
          rw (last, read_pages)
            (pages page
              ∙ take_all 100 (drop ((page - 1) * 100) logs)
                  (rw (length-drop ((page - 1) * 100) logs) (ground arith)))
      | inr more ↦
          let big : page * 100 < length logs = ground arith in
          let rest =
            read_from logs page_of left (suc page) pages (omega arith) (omega (arith, le, p))
              (omega (arith, le, big, p)) in
          rw (more, read_pages)
            (rw (pages page) (
              rw rest (
                ap (λ t. take 100 (drop ((page - 1) * 100) logs) ++ t) (shift logs page p)
                ∙ take-append-drop 100 (drop ((page - 1) * 100) logs))))
    ]
  where
    shift :
        (xs : List LogEntry) (k : ℕ)
        → 0 < k
        → drop ((suc k - 1) * 100) xs ≡ drop 100 (drop ((k - 1) * 100) xs)
    shift xs k pk = sym (
        drop-drop 100 ((k - 1) * 100) xs
        ∙ same_drop ((k - 1) * 100 + 100) ((suc k - 1) * 100) xs (omega (arith, pk)))

-- A window of no more than 2000 logs is read in full: every log once, in new-api's order.
pub read_pages-all :
    (logs : List LogEntry) (page_of : ℕ → List LogEntry)
    → ((p : ℕ) → page_of p ≡ page_of_logs logs p)
    → length logs ≤ 2000
    → read_pages page_of (length logs) 20 1 ≡ logs
unfolding drop
read_pages-all logs page_of pages le =
    read_from logs page_of 20 1 pages (omega arith) (omega (arith, le)) (omega arith) ∙ start logs
  where
    start : (xs : List LogEntry) → drop ((1 - 1) * 100) xs ≡ xs
    start [] = refl
    start (x ∷ xs) = refl
