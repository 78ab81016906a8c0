-- ===== src/Version/Scan.antt =====
-- util/version/version.go, parse: what the two expressions match in a text that String made.
use linhub.Version.Parse.{
  all_nonempty, identifiers_from, is_identifier_char, numbers_from, one_line, starts_digit,
}
use linhub.Base.{
  All, Bool, Text, [], arith, false, is_digit, not, refl, split, true, ℕ, ◌&&◌, ◌++◌, ◌==◌, ◌||◌,
  ◌∷◌, ◌≡◌,
}

-- No number and no further number begins with the text.
unfoldable pub stops : Text → Bool
stops [] = true
stops (c ∷ s) = not (is_digit c) && not (c == 46)

pub numbers_from-stops : (t : Text) → stops t ≡ true → numbers_from t ≡ ([], t)
unfolding numbers_from stops
numbers_from-stops [] h = refl
numbers_from-stops (c ∷ s) h = ground arith

pub numbers_from-digits :
    (s t n r : Text)
    → All (λ c. is_digit c ≡ true) s
    → numbers_from t ≡ (n, r)
    → numbers_from (s ++ t) ≡ (s ++ n, r)
unfolding numbers_from
numbers_from-digits [] t n r h e = e
numbers_from-digits (c ∷ s) t n r (h, hs) e =
    let ih = numbers_from-digits s t n r hs e in rw (h, ih) refl

pub numbers_from-dot :
    (s n r : Text)
    → starts_digit s ≡ true
    → numbers_from s ≡ (n, r)
    → numbers_from (46 ∷ s) ≡ (46 ∷ n, r)
unfolding numbers_from
numbers_from-dot s n r h e = rw (h, e) refl

pub split-digits : (s : Text) → All (λ c. is_digit c ≡ true) s → split 46 s ≡ s ∷ []
unfolding split
split-digits [] h = refl
split-digits (c ∷ s) (h, hs) =
    let no : (c == 46) ≡ false = ground arith in rw (no, split-digits s hs) refl

pub split-digits-dot :
    (s t : Text) → All (λ c. is_digit c ≡ true) s → split 46 (s ++ 46 ∷ t) ≡ s ∷ split 46 t
unfolding split
split-digits-dot [] t h = refl
split-digits-dot (c ∷ s) t (h, hs) =
    let no : (c == 46) ≡ false = ground arith in rw (no, split-digits-dot s t hs) refl

abbrev pub is_extra_char : ℕ → Bool
is_extra_char c = is_identifier_char c || (c == 46)

-- Identifiers joined by dots, or nothing.
abbrev pub AreIdentifiers : Text → Type 0
AreIdentifiers [] = Unit
AreIdentifiers (c ∷ s) =
    All (λ d. is_extra_char d ≡ true) (c ∷ s) × (all_nonempty (split 46 (c ∷ s)) ≡ true)

pub identifiers_from-All :
    (s t n r : Text)
    → All (λ c. is_extra_char c ≡ true) s
    → identifiers_from t ≡ (n, r)
    → identifiers_from (s ++ t) ≡ (s ++ n, r)
unfolding identifiers_from
identifiers_from-All [] t n r h e = e
identifiers_from-All (c ∷ s) t n r (h, hs) e =
    let ih = identifiers_from-All s t n r hs e in rw (h, ih) refl

pub one_line-All :
    (s t : Text)
    → All (λ c. is_extra_char c ≡ true) s
    → one_line t ≡ true
    → one_line (s ++ t) ≡ true
unfolding one_line
one_line-All [] t h k = k
one_line-All (c ∷ s) t (h, hs) k = ground (arith, one_line-All s t hs k)
