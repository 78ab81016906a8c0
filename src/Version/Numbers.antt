-- ===== src/Version/Numbers.antt =====
-- util/version/version.go, parse: the numbers of a text that String made.
use linhub.Version.Parse.{accepted, has_zero_prefix, numbers_from, parse_components, starts_digit}
use linhub.Version.Scan.{
  numbers_from-digits, numbers_from-dot, numbers_from-stops, split-digits, split-digits-dot, stops,
}
use linhub.Version.{dotted, numbers_text}
use linhub.Base.{
  All, Bool, List, Text, [], ap, append-nil, append_assoc, arith, decimal, decimal-AreDigits, false,
  has_prefix, inl, inr, is_digit, length, map, parse_uint-decimal, refl, split, str_eq, suc, true,
  ℕ, ◌&&◌, ◌++◌, ◌<◌, ◌==◌, ◌^◌, ◌∙◌, ◌∷◌, ◌≡◌, ◌⊎◌,
}

starts_digit-decimal : (n : ℕ) (t : Text) → starts_digit (decimal n ++ t) ≡ true
starts_digit-decimal n t = let d = decimal-AreDigits n in go (decimal n) d.shape d.all_digits
  where
    go :
        (s : Text) {c : ℕ} {r : Text}
        → s ≡ c ∷ r
        → All (λ c. is_digit c ≡ true) s
        → starts_digit (s ++ t) ≡ true
    go [] e h = cc
    go (c ∷ s) e (h, _) = h

numbers_from-dotted :
    (ns : List ℕ) (t : Text) → stops t ≡ true → numbers_from (dotted ns ++ t) ≡ (dotted ns, t)
unfolding dotted
numbers_from-dotted [] t h = numbers_from-stops t h
numbers_from-dotted (n ∷ ns) t h =
    let d = decimal-AreDigits n in
    let ih = numbers_from-dotted ns t h in
    rw append_assoc (
      numbers_from-dot _ _ t (starts_digit-decimal n (dotted ns ++ t))
        (numbers_from-digits (decimal n) (dotted ns ++ t) (dotted ns) t d.all_digits ih))

pub numbers_from-numbers_text :
    (n : ℕ) (ns : List ℕ) (t : Text)
    → stops t ≡ true
    → numbers_from (numbers_text (n ∷ ns) ++ t) ≡ (numbers_text (n ∷ ns), t)
unfolding numbers_text
numbers_from-numbers_text n ns t h =
    let d = decimal-AreDigits n in
    rw append_assoc (
      numbers_from-digits (decimal n) (dotted ns ++ t) (dotted ns) t d.all_digits
        (numbers_from-dotted ns t h))

pub split-numbers_text :
    (n : ℕ) (ns : List ℕ) → split 46 (numbers_text (n ∷ ns)) ≡ map decimal (n ∷ ns)
unfolding numbers_text dotted
split-numbers_text n [] =
    let d = decimal-AreDigits n in rw append-nil (split-digits (decimal n) d.all_digits)
split-numbers_text n (m ∷ ns) =
    let d = decimal-AreDigits n in
    split-digits-dot (decimal n) (decimal m ++ dotted ns) d.all_digits
    ∙ ap (λ l. decimal n ∷ l) (split-numbers_text m ns)

has_zero_prefix-decimal : (n : ℕ) → has_zero_prefix (decimal n) ≡ false
unfolding has_prefix str_eq
has_zero_prefix-decimal n = let d = decimal-AreDigits n in go (decimal n) d.shape d.leading d.alone
  where
    go :
        (s : Text) {c : ℕ} {r : Text}
        → s ≡ c ∷ r
        → (n ≡ 0) ⊎ (48 < c)
        → (n ≡ 0 → s ≡ 48 ∷ [])
        → has_zero_prefix s ≡ false
    go s e (inl z) alone = rw (alone z) refl
    go [] e (inr h) alone = cc
    go (x ∷ s) {c} e (inr h) alone =
        let same : x ≡ c = cc in let no : (x == 48) ≡ false = ground arith in rw no refl

pub parse_components-decimal :
    (strict semver : Bool) (ns : List ℕ)
    → All (λ n. n < 2 ^ 64) ns
    → parse_components strict semver (map decimal ns) ≡ accepted ns
unfolding parse_components
parse_components-decimal strict semver [] h = refl
parse_components-decimal strict semver (n ∷ ns) (h, hs) =
    let ih = parse_components-decimal semver semver ns hs in
    let no : strict && has_zero_prefix (decimal n) ≡ false =
      ground (arith, has_zero_prefix-decimal n) in
    rw (no, parse_uint-decimal n h, ih) refl

pub starts_digit-numbers_text :
    (n : ℕ) (ns : List ℕ) (t : Text) → starts_digit (numbers_text (n ∷ ns) ++ t) ≡ true
unfolding numbers_text
starts_digit-numbers_text n ns t = rw append_assoc (starts_digit-decimal n (dotted ns ++ t))

pub length-map-decimal : (ns : List ℕ) → length (map decimal ns) ≡ length ns
length-map-decimal [] = refl
length-map-decimal (n ∷ ns) = ap suc (length-map-decimal ns)
