-- ===== src/Version/RoundTrip.antt =====
-- util/version/version.go: String, and parse of what it makes.
use linhub.Version.Parse.{
  accepted, check_identifiers, identifiers_from, is_space, made, match_extra, match_version,
  numbers_from, one_line, optional_part, parse, parse_extra, skip_spaces, starts_digit,
  wrong_length,
}
use linhub.Version.Scan.{AreIdentifiers, identifiers_from-All, is_extra_char, one_line-All, stops}
use linhub.Version.{Version, marked, numbers_text, to_string}
use linhub.Version.Numbers.{
  length-map-decimal, numbers_from-numbers_text, parse_components-decimal, split-numbers_text,
  starts_digit-numbers_text,
}
use linhub.Base.{
  ==_iff, All, Bool, List, Text, [], ap, append-nil, arith, decimal, false, inl, inr, is_empty,
  length, map, refl, split, sym, true, ℕ, ◌++◌, ◌<◌, ◌==◌, ◌^◌, ◌∙◌, ◌∷◌, ◌≡◌, ◌≢◌, ◌⊎◌,
}

-- A version that String writes so that it can be read again.
pub record IsWellFormed (v : Version) : Type 0 where
  pub small : All (λ n. n < 2 ^ 64) v.components
  pub count : wrong_length v.semver (length v.components) ≡ false
  pub pre : AreIdentifiers v.pre_release
  pub checked_pre : check_identifiers (split 46 v.pre_release) ≡ accepted tt
  pub build : AreIdentifiers v.build_metadata
  pub plain : (v.semver ≡ true) ⊎ ((v.pre_release ≡ []) × (v.build_metadata ≡ []))

match_version-eq :
    (s n r : Text)
    → starts_digit s ≡ true
    → numbers_from s ≡ (n, r)
    → one_line r ≡ true
    → match_version s ≡ accepted (n, r)
unfolding match_version skip_spaces
match_version-eq [] n r h e k = cc
match_version-eq (c ∷ s) n r h e k =
    let no_space : is_space c ≡ false = ground arith in
    let no_v : (c == 118) ≡ false = ground arith in rw (no_space, no_v, h, e, k) refl

-- What String writes after the numbers.
extra_text : Text → Text → Text
unfolding marked
extra_text p b = marked 45 p ++ marked 43 b

stops-extra_text : (p b : Text) → stops (extra_text p b) ≡ true
unfolding extra_text marked stops
stops-extra_text [] [] = refl
stops-extra_text [] (c ∷ b) = refl
stops-extra_text (c ∷ p) b = refl

marked-one_line :
    (mark : ℕ) (s t : Text)
    → mark ≢ 10
    → AreIdentifiers s
    → one_line t ≡ true
    → one_line (marked mark s ++ t) ≡ true
unfolding marked one_line
marked-one_line mark [] t other h k = k
marked-one_line mark (c ∷ s) t other (h, _) k =
    let rest = one_line-All (c ∷ s) t h k in
    let no' : (mark == 10) ≡ false = ground arith in rw no' rest

starts_mark : Text → Bool
starts_mark [] = false
starts_mark (c ∷ s) = is_extra_char c

identifiers_from-stops : (t : Text) → starts_mark t ≡ false → identifiers_from t ≡ ([], t)
unfolding identifiers_from starts_mark
identifiers_from-stops [] h = refl
identifiers_from-stops (c ∷ s) h = rw h refl

starts_with : ℕ → Text → Bool
starts_with mark [] = false
starts_with mark (c ∷ s) = c == mark

optional_part-marked :
    (mark : ℕ) (s t : Text)
    → AreIdentifiers s
    → starts_mark t ≡ false
    → starts_with mark t ≡ false
    → optional_part mark (marked mark s ++ t) ≡ (s, t)
unfolding marked starts_with
optional_part-marked mark [] [] h k l = refl
optional_part-marked mark [] (d ∷ t) h k l = rw l refl
optional_part-marked mark (c ∷ s) t (h, full) k l =
    let here : (mark == mark) ≡ true = (==_iff mark mark).1 refl in
    let run : identifiers_from ((c ∷ s) ++ t) ≡ (c ∷ s, t) =
      identifiers_from-All (c ∷ s) t [] t h (identifiers_from-stops t k)
      ∙ ap (λ l. (l, t)) (append-nil (c ∷ s)) in
    rw (here, run, full) refl

match_extra-extra_text :
    (p b : Text)
    → AreIdentifiers p
    → AreIdentifiers b
    → match_extra (extra_text p b) ≡ accepted (p, b)
unfolding match_extra extra_text marked skip_spaces starts_mark starts_with
match_extra-extra_text p b h k =
    let pre = optional_part-marked 45 p (marked 43 b) h (no_mark b) (no_minus b) in
    let build : optional_part 43 (marked 43 b) ≡ (b, []) =
      sym (ap (optional_part 43) (append-nil (marked 43 b)))
      ∙ optional_part-marked 43 b [] k refl refl in
    rw (pre, build) refl
  where
    no_mark : (b : Text) → starts_mark (marked 43 b) ≡ false
    no_mark [] = refl
    no_mark (c ∷ b) = refl

    no_minus : (b : Text) → starts_with 45 (marked 43 b) ≡ false
    no_minus [] = refl
    no_minus (c ∷ b) = refl

parse_extra-nonempty :
    (p b : Text) (ns : List ℕ)
    → AreIdentifiers p
    → AreIdentifiers b
    → check_identifiers (split 46 p) ≡ accepted tt
    → is_empty (extra_text p b) ≡ false
    → parse_extra true (extra_text p b) ns ≡ accepted (made ns true (p, b))
unfolding parse_extra
parse_extra-nonempty p b ns h k fine e =
    let run = match_extra-extra_text p b h k in rw (e, run, fine) refl

parse_extra-extra_text :
    (semver : Bool) (p b : Text) (ns : List ℕ)
    → AreIdentifiers p
    → AreIdentifiers b
    → check_identifiers (split 46 p) ≡ accepted tt
    → (semver ≡ true) ⊎ ((p ≡ []) × (b ≡ []))
    → parse_extra semver (extra_text p b) ns ≡ accepted (made ns semver (p, b))
unfolding parse_extra extra_text marked
parse_extra-extra_text true [] [] ns h k fine e = refl
parse_extra-extra_text true [] (c ∷ b) ns h k fine e =
    parse_extra-nonempty [] (c ∷ b) ns h k fine refl
parse_extra-extra_text true (c ∷ p) b ns h k fine e =
    parse_extra-nonempty (c ∷ p) b ns h k fine refl
parse_extra-extra_text false p b ns h k fine (inl e) = cc
parse_extra-extra_text false p b ns h k fine (inr (e, e')) = rw (e, e') refl

one_line-extra_text :
    (p b : Text) → AreIdentifiers p → AreIdentifiers b → one_line (extra_text p b) ≡ true
unfolding extra_text one_line
one_line-extra_text p b h k =
    let build : one_line (marked 43 b) ≡ true =
      sym (ap one_line (append-nil (marked 43 b)))
      ∙ marked-one_line 43 b [] (λ e. absurd (omega arith)) k refl in
    marked-one_line 45 p (marked 43 b) (λ e. absurd (omega arith)) h build

no_components : (semver : Bool) → wrong_length semver 0 ≡ false → ⊥
unfolding wrong_length
no_components semver h = ground arith

-- The same, for the parts of a version.
parse-parts :
    (ns : List ℕ) (semver : Bool) (p b : Text)
    → wrong_length semver (length ns) ≡ false
    → All (λ n. n < 2 ^ 64) ns
    → AreIdentifiers p
    → AreIdentifiers b
    → check_identifiers (split 46 p) ≡ accepted tt
    → (semver ≡ true) ⊎ ((p ≡ []) × (b ≡ []))
    → parse (numbers_text ns ++ extra_text p b) semver ≡ accepted (made ns semver (p, b))
unfolding parse
parse-parts [] semver p b count small h k fine e = absurd (no_components semver count)
parse-parts (n ∷ ns) semver p b count small h k fine e =
    let scan =
      match_version-eq (numbers_text (n ∷ ns) ++ extra_text p b) (numbers_text (n ∷ ns))
        (extra_text p b) (starts_digit-numbers_text n ns (extra_text p b))
        (numbers_from-numbers_text n ns (extra_text p b) (stops-extra_text p b))
        (one_line-extra_text p b h k) in
    let count' : wrong_length semver (length (map decimal (n ∷ ns))) ≡ false =
      ap (wrong_length semver) (length-map-decimal (n ∷ ns)) ∙ count in
    rw (scan, split-numbers_text n ns, count', parse_components-decimal true semver (n ∷ ns) small)
      (parse_extra-extra_text semver p b (n ∷ ns) h k fine e)

-- parse reads what String writes: the text of a well-formed version gives the version back, its
-- pre-release and its build metadata included.
pub parse-to_string : (v : Version) → IsWellFormed v → parse (to_string v) v.semver ≡ accepted v
unfolding to_string extra_text
parse-to_string v w =
    parse-parts v.components v.semver v.pre_release v.build_metadata w.count w.small w.pre w.build
      w.checked_pre w.plain
