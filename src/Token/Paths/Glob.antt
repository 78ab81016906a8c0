-- ===== src/Token/Paths/Glob.antt =====
-- token/token.go, matchPath and matchWildcard: paths that fit a pattern.
use mathlib.Core.Path.{subst}
use linhub.Base.{
  ==_iff, Bool, Bool-cases, List, Option-cases, Text, [], ap, append-nil, append_assoc, arith,
  codes, cons_head, contains, drop, drop-append, false, has_prefix, has_prefix_append, has_suffix,
  has_suffix_append, has_suffix_sound, index, index-bound, index_found, inl, inr, is_empty, leb,
  length, length-append, length-drop, not, refl, some, split, str_eq, str_eq_iff, suc, sym, true,
  zero, ℕ, ◌&&◌, ◌++◌, ◌+◌, ◌==◌, ◌∙◌, ◌∷◌, ◌≡◌, ◌≢◌, ◌≤◌, ◌⊎◌,
}
use linhub.Token.Paths.{
  last_part, match_parts, match_path, match_split, match_wildcard, slice_from, star,
}

-- A text fits a pattern: a star stands for any text, every other byte for itself.
pub data Fits : Text → Text → Type 0 where
  fits_end : Fits [] []
  fits_star : {p s : Text} (y : Text) → Fits p s → Fits (star ∷ p) (y ++ s)
  fits_byte : {p s : Text} (c : ℕ) → c ≢ star → Fits p s → Fits (c ∷ p) (c ∷ s)

-- The parts after the first, each after any text, the last one at the end.
abbrev Rest : List Text → Text → Type 0
Rest [] t = t ≡ []
Rest (q ∷ qs) t = (y u : Text) × (t ≡ y ++ q ++ u) × Rest qs u

-- The parts of a list, the first at the start.
abbrev Parts : List Text → Text → Type 0
Parts [] s = ⊥
Parts (q ∷ qs) s = (t : Text) × (s ≡ q ++ t) × Rest qs t

Parts-cons_head : (c : ℕ) (qs : List Text) (s : Text) → Parts qs s → Parts (cons_head c qs) (c ∷ s)
Parts-cons_head c [] s h = absurd h
Parts-cons_head c (q ∷ qs) s (t, cut, rest) = (t, ap (λ r. c ∷ r) cut, rest)

Parts-star : (y : Text) (qs : List Text) (s : Text) → Parts qs s → Parts ([] ∷ qs) (y ++ s)
Parts-star y [] s h = absurd h
Parts-star y (q ∷ qs) s (t, cut, rest) =
    (y ++ s, refl, (y, t, ap (λ r. y ++ r) cut ∙ sym (append_assoc y q t), rest))

not_star : (c : ℕ) → c ≢ star → (c == star) ≡ false
not_star c apart = ground (arith, ==_iff c star)

Parts-split : (p s : Text) → Fits p s → Parts (split star p) s
unfolding split
Parts-split _ _ fits_end = ([], refl, refl)
Parts-split (_ ∷ p) _ (fits_star {s = s} y h) = Parts-star y _ s (Parts-split p s h)
Parts-split (c ∷ p) (_ ∷ s) (fits_byte _ apart h) =
    rw (not_star c apart) (Parts-cons_head c _ s (Parts-split p s h))

pub split-nonempty : (p : Text) → (q : Text) × (qs : List Text) × (split star p ≡ q ∷ qs)
unfolding split
split-nonempty [] = ([], [], refl)
split-nonempty (c ∷ p) = elim (Bool-cases (c == star)) [
  | inl e ↦ ([], split star p, rw e refl)
  | inr e ↦ let (q, qs, here) = split-nonempty p in (c ∷ q, qs, rw (e, here) refl)
]

-- A pattern with a star, as the code sees it: it contains one, and has two parts at least.
abbrev HasStar : Text → Type 0
HasStar p =
    (contains p (codes "*") ≡ true)
    × (q q' : Text) × (qs : List Text) × (split star p ≡ q ∷ q' ∷ qs)

contains-cons : (c : ℕ) (p q : Text) → contains p q ≡ true → contains (c ∷ p) q ≡ true
unfolding contains index
contains-cons c p q h = elim (Bool-cases (has_prefix (c ∷ p) q)) [
  | inl e ↦ rw e refl
  | inr e ↦ elim (Option-cases (index p q)) [
    | inl none_there ↦ let no : false ≡ true = sym (rw none_there refl) ∙ h in cc
    | inr (k, there) ↦ rw (e, there) refl
  ]
]

HasStar-cons : (c : ℕ) (p : Text) → c ≢ star → HasStar p → HasStar (c ∷ p)
unfolding contains index split has_prefix
HasStar-cons c p apart (has, q, q', qs, here) =
    (contains-cons c p (codes "*") has, c ∷ q, q', qs, rw (not_star c apart, here) refl)

equal_or_star : (p s : Text) → Fits p s → (s ≡ p) ⊎ HasStar p
unfolding contains index split has_prefix
equal_or_star _ _ fits_end = inl refl
equal_or_star (_ ∷ p) _ (fits_star {s = s} y h) =
    let (q, qs, here) = split-nonempty p in inr (refl, [], q, qs, rw here refl)
equal_or_star (c ∷ p) (_ ∷ s) (fits_byte _ apart h) = elim (equal_or_star p s h) [
  | inl e ↦ inl (ap (λ r. c ∷ r) e)
  | inr has ↦ inr (HasStar-cons c p apart has)
]

drop_nil : (n : ℕ) → drop {A = ℕ} n [] ≡ []
drop_nil zero = refl
drop_nil (suc n) = refl

drop-drop : (m n : ℕ) (s : Text) → drop (m + n) s ≡ drop n (drop m s)
drop-drop zero n s = let e : 0 + n ≡ n = omega arith in rw e refl
drop-drop (suc m) n [] = let e : suc m + n ≡ suc (m + n) = omega arith in rw e (sym (drop_nil n))
drop-drop (suc m) n (c ∷ s) =
    let e : suc m + n ≡ suc (m + n) = omega arith in rw e (drop-drop m n s)

match_parts-Rest :
    (str : Text) (at : ℕ) (qs : List Text) (z u : Text)
    → at ≤ length str
    → drop at str ≡ z ++ u
    → Rest qs u
    → match_parts str at qs ≡ some true
unfolding match_parts slice_from
match_parts-Rest str at [] z u h cut rest = refl
match_parts-Rest str at (q ∷ []) z u h cut rest = refl
match_parts-Rest str at ([] ∷ q' ∷ qs) z u h cut (y, v, here, rest) =
    match_parts-Rest str at (q' ∷ qs) (z ++ (y ++ [])) v h
      (cut ∙ ap (λ r. z ++ r) here ∙ sym (append_assoc z (y ++ []) v)) rest
match_parts-Rest str at ((c ∷ q) ∷ q' ∷ qs) z u h cut (y, v, here, rest) =
    let t : Text = (z ++ y) ++ c ∷ q ++ v in
    let same : drop at str ≡ t =
      cut
      ∙ ap (λ r. z ++ r) here
      ∙ sym (append_assoc z (y ++ c ∷ q) v)
      ∙ ap (λ r. r ++ v) (sym (append_assoc z y (c ∷ q))) in
    let (k, z', found, after) = index_found (z ++ y) (c ∷ q) v in
    let bound = index-bound t (c ∷ q) k found in
    let len = ap length (sym same) ∙ length-drop at str in
    let fits : leb at (length str) ≡ true = ground arith in
    rw (fits, same, found)
      (match_parts-Rest str (at + (k + length (c ∷ q))) (q' ∷ qs) z' v (omega arith)
        (drop-drop at (k + length (c ∷ q)) str ∙ ap (drop (k + length (c ∷ q))) same ∙ after) rest)

last_part-suffix :
    (q : Text) (qs : List Text) (t : Text)
    → Rest (q ∷ qs) t
    → (v : Text) × (t ≡ v ++ last_part q qs)
unfolding last_part
last_part-suffix q [] t (y, u, cut, nil) = (y, cut ∙ ap (λ r. y ++ q ++ r) nil ∙ append-nil _)
last_part-suffix q (q' ∷ qs) t (y, u, cut, rest) =
    let (v, end) = last_part-suffix q' qs u rest in
    (y ++ q ++ v, cut ∙ ap (λ r. y ++ q ++ r) end ∙ sym (append_assoc (y ++ q) v (last_part q' qs)))

and_false : (b : Bool) → (b && false) ≡ false
and_false true = refl
and_false false = refl

match_wildcard-Parts :
    (str pattern q q' : Text) (qs : List Text)
    → split star pattern ≡ q ∷ q' ∷ qs
    → Parts (q ∷ q' ∷ qs) str
    → match_wildcard str pattern ≡ some true
unfolding match_wildcard match_split
match_wildcard-Parts str pattern q q' qs here (t, cut, rest) =
    let (v, end) = last_part-suffix q' qs t rest in
    let start : has_prefix str q ≡ true = rw cut (has_prefix_append q t) in
    let whole : str ≡ (q ++ v) ++ last_part q' qs =
      cut ∙ ap (λ r. q ++ r) end ∙ sym (append_assoc q v (last_part q' qs)) in
    let stop : has_suffix str (last_part q' qs) ≡ true =
      ap (λ s. has_suffix s (last_part q' qs)) whole
      ∙ has_suffix_append (q ++ v) (last_part q' qs) in
    let len = ap length cut ∙ length-append q t in
    let after : drop (length q) str ≡ [] ++ t = ap (drop (length q)) cut ∙ drop-append q t in
    let middle = match_parts-Rest str (length q) (q' ∷ qs) [] t (omega arith) after rest in
    rw (here, start, stop) (rw (and_false (not (is_empty (last_part q' qs)))) middle)

slash_star : (p : Text) → has_suffix p (codes "*") ≡ false → has_suffix p (codes "/*") ≡ false
slash_star p no_end = elim (Bool-cases (has_suffix p (codes "/*"))) [
  | inl e ↦
      let (t, cut) = has_suffix_sound p (codes "/*") e in
      let again : p ≡ (t ++ codes "/") ++ codes "*" =
        cut ∙ sym (append_assoc t (codes "/") (codes "*")) in
      let ends : has_suffix p (codes "*") ≡ true =
        ap (λ s. has_suffix s (codes "*")) again ∙ has_suffix_append (t ++ codes "/") (codes "*") in
      let no : false ≡ true = sym no_end ∙ ends in cc
  | inr e ↦ e
]

-- No text that fits a pattern is refused: a pattern that does not end in a star, with stars
-- anywhere else in it, accepts every path that fits it.
pub match_path-Fits :
    (path pattern : Text)
    → has_suffix pattern (codes "*") ≡ false
    → Fits pattern path
    → match_path path pattern ≡ some true
unfolding match_path
match_path-Fits path pattern no_end h = elim (equal_or_star pattern path h) [
  | inl same ↦ let e : str_eq path pattern ≡ true = (str_eq_iff _ _).1 same in rw e refl
  | inr (has, q, q', qs, here) ↦ elim (Bool-cases (str_eq path pattern)) [
    | inl e ↦ rw e refl
    | inr e ↦
        let fits : Parts (q ∷ q' ∷ qs) path =
          subst (λ r. Parts r path) here (Parts-split pattern path h) in
        rw (e, slash_star pattern no_end, no_end, has)
          (match_wildcard-Parts path pattern q q' qs here fits)
  ]
]
