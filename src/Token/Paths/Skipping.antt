-- ===== src/Token/Paths/Skipping.antt =====
-- token/token.go: what the patterns of the skip list accept.
use mathlib.Core.Option.{some-injective}
use linhub.Base.{
  Bool, Bool-cases, List, Option-cases, Text, [], ap, arith, codes, contains, drop, false,
  has_prefix, has_prefix_append, has_prefix_sound, has_suffix, has_suffix_append, index,
  index-bound, inl, inr, is_empty, leb, length, length-append, length-drop, not, refl, some, str_eq,
  str_eq_iff, sym, trim_suffix, trim_suffix_append, true, ℕ, ◌&&◌, ◌++◌, ◌+◌, ◌↔◌, ◌∙◌, ◌∷◌, ◌≡◌,
  ◌≤◌, ◌⊎◌,
}
use linhub.Token.Paths.{
  last_part, match_parts, match_path, match_split, match_wildcard, should_skip_path, slice_from,
}
use linhub.Token.Paths.Glob.{split-nonempty}

-- A pattern that ends in "/*" accepts exactly the paths that begin with what comes before these
-- two bytes, whether or not a slash follows.
pub match_path-slash_star :
    (path p : Text)
    → (match_path path (p ++ codes "/*") ≡ some true) ↔ ((u : Text) × (path ≡ p ++ u))
unfolding match_path
match_path-slash_star path p = elim (Bool-cases (str_eq path (p ++ codes "/*"))) [
  | inl e ↦ (λ _. (codes "/*", (str_eq_iff _ _).0 e), λ _. rw e refl)
  | inr e ↦ (
    λ h.
        let b : has_prefix path p ≡ true = some-injective _ _ (
          sym (rw (e, has_suffix_append p (codes "/*"), trim_suffix_append p (codes "/*")) refl)
          ∙ h) in
        has_prefix_sound path p b,
    λ (u, cut).
        let b : has_prefix path p ≡ true = rw cut (has_prefix_append p u) in
        rw (e, has_suffix_append p (codes "/*"), trim_suffix_append p (codes "/*"), b) refl,
  )
]

match_parts_total :
    (str : Text) (at : ℕ) (qs : List Text)
    → at ≤ length str
    → (b : Bool) × (match_parts str at qs ≡ some b)
unfolding match_parts slice_from
match_parts_total str at [] h = (true, refl)
match_parts_total str at (q ∷ []) h = (true, refl)
match_parts_total str at ([] ∷ q' ∷ qs) h = match_parts_total str at (q' ∷ qs) h
match_parts_total str at ((c ∷ q) ∷ q' ∷ qs) h =
    let fits : leb at (length str) ≡ true = ground arith in
    elim (Option-cases (index (drop at str) (c ∷ q))) [
      | inl gone ↦ (false, rw (fits, gone) refl)
      | inr (k, there) ↦
          let bound = index-bound (drop at str) (c ∷ q) k there in
          let len = length-drop at str in
          let (b, run) =
            match_parts_total str (at + (k + length (c ∷ q))) (q' ∷ qs) (omega arith) in
          (b, rw (fits, there) run)
    ]

match_split_total :
    (str pattern q : Text) (qs : List Text)
    → (b : Bool) × (match_split str pattern (q ∷ qs) ≡ some b)
unfolding match_split
match_split_total str pattern q [] = (str_eq str pattern, refl)
match_split_total str pattern q (q' ∷ qs) = elim (Bool-cases (has_prefix str q)) [
  | inr e ↦ (false, rw e refl)
  | inl e ↦
      elim (Bool-cases
        (not (is_empty (last_part q' qs)) && not (has_suffix str (last_part q' qs)))) [
          | inl e' ↦ (false, rw (e, e') refl)
          | inr e' ↦
              let (t, cut) = has_prefix_sound str q e in
              let len = ap length cut ∙ length-append q t in
              let (b, run) = match_parts_total str (length q) (q' ∷ qs) (omega arith) in
              (b, rw (e, e') run)
        ]
]

-- Matching a path against a pattern always has an answer: it never slices out of range.
match_path_total : (path pattern : Text) → (b : Bool) × (match_path path pattern ≡ some b)
unfolding match_path match_wildcard
match_path_total path pattern = elim (Bool-cases (str_eq path pattern)) [
  | inl e ↦ (true, rw e refl)
  | inr e ↦ elim (Bool-cases (has_suffix pattern (codes "/*"))) [
    | inl e₁ ↦ (has_prefix path (trim_suffix pattern (codes "/*")), rw (e, e₁) refl)
    | inr e₁ ↦ elim (Bool-cases (has_suffix pattern (codes "*"))) [
      | inl e₂ ↦ (has_prefix path (trim_suffix pattern (codes "*")), rw (e, e₁, e₂) refl)
      | inr e₂ ↦ elim (Bool-cases (contains pattern (codes "*"))) [
        | inr e₃ ↦ (false, rw (e, e₁, e₂, e₃) refl)
        | inl e₃ ↦
            let (q, qs, here) = split-nonempty pattern in
            let (b, run) = match_split_total path pattern q qs in (b, rw (e, e₁, e₂, e₃, here) run)
      ]
    ]
  ]
]

-- Some pattern of a list accepts a path.
abbrev pub Accepts : List Text → Text → Type 0
Accepts [] path = ⊥
Accepts (p ∷ ps) path = (match_path path p ≡ some true) ⊎ Accepts ps path

-- The test of the skip list always has an answer, and it is true exactly when some pattern of the
-- list accepts the path.
pub should_skip_path-Accepts :
    (ps : List Text) (path : Text)
    → (b : Bool) × (should_skip_path ps path ≡ some b) × ((b ≡ true) ↔ Accepts ps path)
unfolding should_skip_path
should_skip_path-Accepts [] path = (false, refl, ground arith)
should_skip_path-Accepts (p ∷ ps) path =
    let (b, run) = match_path_total path p in
    let (rest, later, law) = should_skip_path-Accepts ps path in
    elim (Bool-cases b) [
      | inl e ↦ (true, rw (run, e) refl, (λ _. inl (run ∙ ap some e), λ _. refl))
      | inr e ↦ (
        rest,
        rw (run, e) later,
        (
          λ yes. inr (law.0 yes),
          λ acc. elim acc [
            | inl now ↦ let no : some false ≡ some true = sym (run ∙ ap some e) ∙ now in cc
            | inr more ↦ law.1 more
          ],
        ),
      )
    ]
