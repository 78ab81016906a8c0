-- ===== src/Version/Order.antt =====
-- util/version/version.go, compareInternal: what the comparison is.
pub mod Below
use linhub.Base.{
  Bool, List, Option, Text, [], arith, false, if◌then◌else◌, none, not, parse_uint, refl, some,
  split, str_eq_iff, str_lt, sym, true, ℕ, ◌||◌, ◌∙◌, ◌∷◌, ◌≡◌,
}
use linhub.Version.{
  Version, compare_components, compare_identifiers, compare_internal, compare_numbers,
  compare_parsed, compare_pre_releases, compare_texts, then_compare,
}
use Prim.Native.Nat.{Ordering}
use Prim.Native.Nat.Ordering.{lt, eq, gt}
use mathlib.Core.Path.{ap₂}

-- The comparison the other way round.
abbrev pub flip : Ordering → Ordering
flip lt = gt
flip eq = eq
flip gt = lt

str_lt_asym : (a b : Text) → str_lt a b ≡ true → str_lt b a ≡ false
unfolding str_lt
str_lt_asym [] [] h = refl
str_lt_asym [] (d ∷ b) h = refl
str_lt_asym (c ∷ a) [] h = cc
str_lt_asym (c ∷ a) (d ∷ b) h = ground (arith, str_lt_asym a b)

then_compare-flip : (a b : Ordering) → flip (then_compare a b) ≡ then_compare (flip a) (flip b)
then_compare-flip lt b = refl
then_compare-flip eq b = refl
then_compare-flip gt b = refl

compare_texts-flip : (a b : Text) → compare_texts b a ≡ flip (compare_texts a b)
unfolding compare_texts
compare_texts-flip a b = ground (arith, str_lt_asym a b, str_lt_asym b a)

compare_numbers-flip : (m n : ℕ) → compare_numbers n m ≡ flip (compare_numbers m n)
unfolding compare_numbers
compare_numbers-flip m n = ground arith

compare_parsed-flip :
    (m n : Option ℕ) (a b : Text) → compare_parsed n m b a ≡ flip (compare_parsed m n a b)
unfolding compare_parsed
compare_parsed-flip none none a b = compare_texts-flip a b
compare_parsed-flip none (some n) a b = compare_texts-flip a b
compare_parsed-flip (some m) none a b = compare_texts-flip a b
compare_parsed-flip (some m) (some n) a b = compare_numbers-flip m n

compare_identifiers-flip :
    (as' bs : List Text) → compare_identifiers bs as' ≡ flip (compare_identifiers as' bs)
unfolding compare_identifiers
compare_identifiers-flip [] [] = refl
compare_identifiers-flip [] (b ∷ bs) = refl
compare_identifiers-flip (a ∷ as') [] = refl
compare_identifiers-flip (a ∷ as') (b ∷ bs) = simp (
  compare_parsed-flip (parse_uint a) (parse_uint b) a b,
  compare_identifiers-flip as' bs,
  then_compare-flip,
)

compare_pre_releases-flip :
    (s t : Text) → compare_pre_releases t s ≡ flip (compare_pre_releases s t)
unfolding compare_pre_releases
compare_pre_releases-flip [] [] = refl
compare_pre_releases-flip [] (c ∷ t) = refl
compare_pre_releases-flip (b ∷ s) [] = refl
compare_pre_releases-flip (b ∷ s) (c ∷ t) = ground (
  arith,
  str_eq_iff (b ∷ s) (c ∷ t),
  str_eq_iff (c ∷ t) (b ∷ s),
  compare_identifiers-flip (split 46 (b ∷ s)) (split 46 (c ∷ t)),
)

compare_components-flip :
    (xs ys : List ℕ) → compare_components ys xs ≡ flip (compare_components xs ys)
unfolding compare_components
compare_components-flip [] [] = refl
compare_components-flip [] (y ∷ ys) = ground arith
compare_components-flip (x ∷ xs) [] = ground arith
compare_components-flip (x ∷ xs) (y ∷ ys) = ground (arith, compare_components-flip xs ys)

both_semver-flip :
    (b c : Bool) (f g : Ordering)
    → g ≡ flip f
    → (if not c || not b then eq else g) ≡ flip (if not b || not c then eq else f)
both_semver-flip true true f g h = h
both_semver-flip true false f g h = refl
both_semver-flip false true f g h = refl
both_semver-flip false false f g h = refl

-- Comparing the other way round gives the opposite, pre-releases included.
pub compare_internal-flip : (v o : Version) → compare_internal o v ≡ flip (compare_internal v o)
unfolding compare_internal
compare_internal-flip v o =
    let pre =
      both_semver-flip v.semver o.semver _ _
        (compare_pre_releases-flip v.pre_release o.pre_release) in
    ap₂ then_compare (compare_components-flip v.components o.components) pre
    ∙ sym (then_compare-flip (compare_components v.components o.components) _)
