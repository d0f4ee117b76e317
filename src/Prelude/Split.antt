-- ===== src/Prelude/Split.antt =====
-- strings.Split and strings.Join for a separator of one byte.
use Prim.Native.Nat.{ℕ}
use mathlib.Core.Path.{◌≡◌, refl, ap, sym, ◌∙◌}
use mathlib.Core.Logic.{inl, inr}
use mathlib.Core.Bool.{false}
use mathlib.Core.List.{List, [], ◌∷◌, ◌++◌}
use nexusapi_enterprise.Prelude.Tests.{◌==◌, if◌then◌else◌, Bool-cases}
use nexusapi_enterprise.Prelude.Lists.{All}
use native.Mathlib.Omega.{arith}

-- A byte in front of the first piece.
abbrev pub onto_first : ℕ → List (List ℕ) → List (List ℕ)
onto_first c [] = (c ∷ []) ∷ []
onto_first c (p ∷ ps) = (c ∷ p) ∷ ps

unfoldable pub split : ℕ → List ℕ → List (List ℕ)
split sep [] = [] ∷ []
split sep (c ∷ cs) = let rest = split sep cs in if c == sep then [] ∷ rest else onto_first c rest

unfoldable pub join : ℕ → List (List ℕ) → List ℕ
join sep [] = []
join sep (p ∷ []) = p
join sep (p ∷ q ∷ ps) = p ++ (sep ∷ join sep (q ∷ ps))

-- The text does not have the separator.
abbrev pub IsWhole : ℕ → List ℕ → Type 0
IsWhole sep t = All (λ c. (c == sep) ≡ false) t

pub split-whole : (sep : ℕ) (t : List ℕ) → IsWhole sep t → split sep t ≡ t ∷ []
unfolding split
split-whole sep [] h = refl
split-whole sep (c ∷ cs) h = rw (h.0) (ap (onto_first c) (split-whole sep cs h.1))

pub split-append :
    (sep : ℕ) (t rest : List ℕ) → IsWhole sep t → split sep (t ++ (sep ∷ rest)) ≡ t ∷ split sep rest
unfolding split
split-append sep [] rest h = ground arith
split-append sep (c ∷ cs) rest h = rw (h.0) (ap (onto_first c) (split-append sep cs rest h.1))

-- A text is split into at least one piece.
first_of : (sep : ℕ) (t : List ℕ) → (p : List ℕ) × (ps : List (List ℕ)) × (split sep t ≡ p ∷ ps)
unfolding split
first_of sep [] = ([], [], refl)
first_of sep (c ∷ cs) = elim (Bool-cases (c == sep)) [
  | inl cut ↦ ([], split sep cs, rw cut refl)
  | inr kept ↦ let (p, ps, e) = first_of sep cs in (c ∷ p, ps, rw kept (ap (onto_first c) e))
]

join-first :
    (sep c : ℕ) (p : List ℕ) (ps : List (List ℕ)) → join sep ((c ∷ p) ∷ ps) ≡ c ∷ join sep (p ∷ ps)
unfolding join
join-first sep c p [] = refl
join-first sep c p (q ∷ ps) = refl

-- Joined again, the pieces are the text.
pub join-split : (sep : ℕ) (t : List ℕ) → join sep (split sep t) ≡ t
unfolding split join
join-split sep [] = refl
join-split sep (c ∷ cs) =
    let (p, ps, e) = first_of sep cs in
    let again : join sep (p ∷ ps) ≡ cs = ap (join sep) (sym e) ∙ join-split sep cs in
    elim (Bool-cases (c == sep)) [
      | inl cut ↦
          let at : sep ≡ c = ground arith in
          rw cut (rw e (ap (λ x. sep ∷ x) again ∙ ap (λ x. x ∷ cs) at))
      | inr kept ↦ rw kept (rw e (join-first sep c p ps ∙ ap (λ x. c ∷ x) again))
    ]
