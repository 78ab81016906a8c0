-- ===== src/Middleware/Paths/Edges.antt =====
-- middleware/gin/observability.go, matchPathPattern and matchWildcard: patterns with stars at their
-- ends.
use mathlib.Core.Path.{subst}
use linhub.Base.{
  ==_iff, All, Bool-cases, Text, [], ap, append-nil, append_assoc, arith, codes, contains,
  contains_iff, drop, false, get_or, has_prefix, has_prefix_append, has_prefix_sound, has_suffix,
  has_suffix_append, has_suffix_sound, inl, inr, length, length-append, refl, str_eq, str_eq_iff,
  sym, take, take-append, true, ℕ, ◌++◌, ◌-◌, ◌==◌, ◌↔◌, ◌∙◌, ◌∷◌, ◌≡◌, ◌≢◌,
}
use linhub.Token.Paths.Glob.{Fits, fits_byte, fits_end, fits_star}
use linhub.Middleware.Paths.{match_path_pattern, match_wildcard, star}

-- A text without stars.
abbrev pub IsLiteral : Text → Type 0
IsLiteral x = All (λ c. c ≢ star) x

Fits-refl : (p : Text) → Fits p p
Fits-refl [] = fits_end
Fits-refl (c ∷ p) = elim (Bool-cases (c == star)) [
  | inl e ↦
      let same : star ≡ c = ground (arith, ==_iff c star) in
      subst (λ d. Fits (d ∷ p) (d ∷ p)) same (fits_star (star ∷ []) (Fits-refl p))
  | inr e ↦ fits_byte c (λ same. ground (arith, ==_iff c star)) (Fits-refl p)
]

Fits-literal : (x s : Text) → IsLiteral x → Fits x s → s ≡ x
Fits-literal [] _ _ fits_end = refl
Fits-literal (_ ∷ x) _ (apart, _) (fits_star y h) = absurd (apart refl)
Fits-literal (c ∷ x) (_ ∷ s) (_, lit) (fits_byte _ _ h) = ap (λ r. c ∷ r) (Fits-literal x s lit h)

Fits-prefix_sound : (x s : Text) → IsLiteral x → Fits (x ++ star ∷ []) s → (u : Text) × (s ≡ x ++ u)
Fits-prefix_sound [] s _ h = (s, refl)
Fits-prefix_sound (_ ∷ x) _ (apart, _) (fits_star y h) = absurd (apart refl)
Fits-prefix_sound (c ∷ x) (_ ∷ s) (_, lit) (fits_byte _ _ h) =
    let (u, cut) = Fits-prefix_sound x s lit h in (u, ap (λ r. c ∷ r) cut)

Fits-append : (x u : Text) (p : Text) → IsLiteral x → Fits p u → Fits (x ++ p) (x ++ u)
Fits-append [] u p _ h = h
Fits-append (c ∷ x) u p (apart, lit) h = fits_byte c apart (Fits-append x u p lit h)

Fits-everything : (u : Text) → Fits (star ∷ []) u
Fits-everything u = subst (Fits (star ∷ [])) (append-nil u) (fits_star u fits_end)

Fits-prefix_iff : (x s : Text) → IsLiteral x → ((u : Text) × (s ≡ x ++ u)) ↔ Fits (x ++ star ∷ []) s
Fits-prefix_iff x s lit = (
  λ (u, cut).
      subst (Fits (x ++ star ∷ [])) (sym cut) (Fits-append x u (star ∷ []) lit (Fits-everything u)),
  Fits-prefix_sound x s lit,
)

Fits-star_sound : (p s : Text) → Fits (star ∷ p) s → (y u : Text) × (s ≡ y ++ u) × Fits p u
Fits-star_sound p _ (fits_star {s = u} y h) = (y, u, refl, h)
Fits-star_sound p _ (fits_byte _ apart h) = absurd (apart refl)

Fits-suffix_iff : (x s : Text) → IsLiteral x → ((t : Text) × (s ≡ t ++ x)) ↔ Fits (star ∷ x) s
Fits-suffix_iff x s lit = (
  λ (t, cut). subst (Fits (star ∷ x)) (sym cut) (fits_star t (Fits-refl x)),
  λ h.
      let (y, u, cut, fits) = Fits-star_sound x s h in
      (y, cut ∙ ap (λ r. y ++ r) (Fits-literal x u lit fits)),
)

Fits-both_iff :
    (x s : Text) → IsLiteral x → ((y u : Text) × (s ≡ y ++ x ++ u)) ↔ Fits (star ∷ x ++ star ∷ []) s
Fits-both_iff x s lit = (
  λ (y, u, cut).
      subst (Fits (star ∷ x ++ star ∷ [])) (sym (cut ∙ append_assoc y x u))
        (fits_star y ((Fits-prefix_iff x (x ++ u) lit).0 (u, refl))),
  λ h.
      let (y, v, cut, fits) = Fits-star_sound (x ++ star ∷ []) s h in
      let (u, rest) = Fits-prefix_sound x v lit fits in
      (y, u, cut ∙ ap (λ r. y ++ r) rest ∙ sym (append_assoc y x u)),
)

only_star : (c : ℕ) (x : Text) → c ≢ star → str_eq (c ∷ x) (codes "*") ≡ false
unfolding str_eq
only_star c x apart = ground (arith, ==_iff c star)

starts : (c : ℕ) (x : Text) → c ≢ star → has_prefix (c ∷ x) (codes "*") ≡ false
unfolding has_prefix
starts c x apart = ground (arith, ==_iff c star)

IsLiteral-last : (x t : Text) → IsLiteral x → x ≢ t ++ star ∷ []
IsLiteral-last [] [] lit e = cc
IsLiteral-last [] (_ ∷ _) lit e = cc
IsLiteral-last (c ∷ x) [] (apart, _) e = absurd (apart (ap (λ r. get_or r 0 0) e))
IsLiteral-last (c ∷ x) (_ ∷ t) (_, lit) e = IsLiteral-last x t lit (ap (drop 1) e)

ends : (x : Text) → IsLiteral x → has_suffix x (codes "*") ≡ false
ends x lit = elim (Bool-cases (has_suffix x (codes "*"))) [
  | inl e ↦ let (t, cut) = has_suffix_sound x (codes "*") e in absurd (IsLiteral-last x t lit cut)
  | inr e ↦ e
]

ends_after_star :
    (c : ℕ) (x : Text) → IsLiteral (c ∷ x) → has_suffix (star ∷ c ∷ x) (codes "*") ≡ false
ends_after_star c x lit = elim (Bool-cases (has_suffix (star ∷ c ∷ x) (codes "*"))) [
  | inl e ↦ let (t, cut) = has_suffix_sound (star ∷ c ∷ x) (codes "*") e in absurd (after t cut)
  | inr e ↦ e
]
  where
    after : (t : Text) → ¬ (star ∷ c ∷ x ≡ t ++ star ∷ [])
    after [] e = let no : c ∷ x ≡ [] = ap (drop 1) e in cc
    after (_ ∷ t) e = IsLiteral-last (c ∷ x) t lit (ap (drop 1) e)

without_last : (x : Text) (c : ℕ) → take (length (x ++ c ∷ []) - 1) (x ++ c ∷ []) ≡ x
without_last x c =
    let n : length (x ++ c ∷ []) - 1 ≡ length x = omega (arith, length-append x (c ∷ [])) in
    rw n (take-append x (c ∷ []))

has_prefix_iff : (s p : Text) → (has_prefix s p ≡ true) ↔ ((u : Text) × (s ≡ p ++ u))
has_prefix_iff s p = (has_prefix_sound s p, λ (u, cut). rw cut (has_prefix_append p u))

has_suffix_iff : (s p : Text) → (has_suffix s p ≡ true) ↔ ((t : Text) × (s ≡ t ++ p))
has_suffix_iff s p = (has_suffix_sound s p, λ (t, cut). rw cut (has_suffix_append t p))

iff_trans {ℓ κ} : {A B : Type ℓ} {C : Type κ} → A ↔ B → B ↔ C → A ↔ C
iff_trans f g = (λ a. g.0 (f.0 a), λ c. f.1 (g.1 c))

Fits-true : (s : Text) → (true ≡ true) ↔ Fits (star ∷ []) s
Fits-true s = (λ _. Fits-everything s, λ _. refl)

wildcard_prefix :
    (x s : Text)
    → IsLiteral x
    → (match_wildcard s (x ++ star ∷ []) ≡ true) ↔ Fits (x ++ star ∷ []) s
unfolding match_wildcard str_eq
wildcard_prefix [] s lit = Fits-true s
wildcard_prefix (c ∷ x) s lit =
    rw
      (
        only_star c (x ++ star ∷ []) lit.0,
        starts c (x ++ star ∷ []) lit.0,
        has_suffix_append (c ∷ x) (codes "*"),
        without_last (c ∷ x) star,
      )
      (iff_trans (has_prefix_iff s (c ∷ x)) (Fits-prefix_iff (c ∷ x) s lit))

wildcard_suffix :
    (x s : Text) → IsLiteral x → (match_wildcard s (star ∷ x) ≡ true) ↔ Fits (star ∷ x) s
unfolding match_wildcard str_eq has_prefix
wildcard_suffix [] s lit = Fits-true s
wildcard_suffix (c ∷ x) s lit =
    rw (ends_after_star c x lit)
      (iff_trans (has_suffix_iff s (c ∷ x)) (Fits-suffix_iff (c ∷ x) s lit))

not_alone : (x : Text) (c : ℕ) → str_eq (x ++ c ∷ []) [] ≡ false
unfolding str_eq
not_alone [] c = refl
not_alone (_ ∷ x) c = refl

wildcard_both :
    (x s : Text)
    → IsLiteral x
    → (match_wildcard s (star ∷ x ++ star ∷ []) ≡ true) ↔ Fits (star ∷ x ++ star ∷ []) s
unfolding match_wildcard str_eq has_prefix
wildcard_both x s lit =
    rw (not_alone x star, has_suffix_append (star ∷ x) (codes "*"), without_last (star ∷ x) star)
      (iff_trans (contains_iff s x) (Fits-both_iff x s lit))

pattern_wild :
    (p s : Text)
    → contains p (codes "*") ≡ true
    → (match_wildcard s p ≡ true) ↔ Fits p s
    → (match_path_pattern s p ≡ true) ↔ Fits p s
unfolding match_path_pattern
pattern_wild p s has same = elim (Bool-cases (str_eq s p)) [
  | inl e ↦
      let here : s ≡ p = (str_eq_iff s p).0 e in
      rw e (λ _. subst (Fits p) (sym here) (Fits-refl p), λ _. refl)
  | inr e ↦ rw (e, has) same
]

has_star : (p y u : Text) → p ≡ y ++ codes "*" ++ u → contains p (codes "*") ≡ true
has_star p y u e = (contains_iff p (codes "*")).1 (y, u, e)

-- A pattern made of a text without stars and of stars at its end, at its start, or at both, accepts
-- exactly the paths that fit it, a star standing for any text.
pub match_path_pattern-Fits :
    (x path : Text)
    → IsLiteral x
    → ((match_path_pattern path (x ++ star ∷ []) ≡ true) ↔ Fits (x ++ star ∷ []) path)
      × ((match_path_pattern path (star ∷ x) ≡ true) ↔ Fits (star ∷ x) path)
      × ((match_path_pattern path (star ∷ x ++ star ∷ []) ≡ true)
          ↔ Fits (star ∷ x ++ star ∷ []) path)
match_path_pattern-Fits x path lit = (
  pattern_wild (x ++ star ∷ []) path (has_star _ x [] (sym (append-nil _)))
      (wildcard_prefix x path lit),
  pattern_wild (star ∷ x) path (has_star _ [] x refl) (wildcard_suffix x path lit),
  pattern_wild (star ∷ x ++ star ∷ []) path (has_star _ [] (x ++ star ∷ []) refl)
      (wildcard_both x path lit),
)
