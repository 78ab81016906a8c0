-- ===== src/Base/Strings.antt =====
-- Go strings as lists of bytes, with the functions of package strings that the sources call.
use Prim.Native.Char.{code}
use Prim.Native.String.{String}
use Prim.Native.Nat.{ℕ, zero, suc, ◌+◌, ◌-◌}
use mathlib.Core.Path.{◌≡◌, refl}
use mathlib.Core.Logic.{◌↔◌}
use mathlib.Core.Bool.{Bool, true, false, ◌&&◌, ◌||◌}
use mathlib.Core.List.{List, [], ◌∷◌, map, reverse}
use mathlib.Core.Option
use mathlib.Core.Option.{Option, none, some}
use native.Mathlib.Omega.{arith}
use linhub.Base.Tests.{if◌then◌else◌, leb, ltb, ◌==◌}
use linhub.Base.Lists.{drop, length, take}

abbrev pub Text : Type 0
Text = List ℕ

-- A Go value of type `any`: a string, or something that is only carried.
pub data Any : Type 0 where
  string_value : Text → Any
  opaque_value : ℕ → Any

-- The bytes of an ASCII literal.
abbrev pub codes : String → Text
codes String.[] = []
codes (String.◌∷◌ c s) = code c ∷ codes s

unfoldable pub str_eq : Text → Text → Bool
str_eq [] [] = true
str_eq [] (_ ∷ _) = false
str_eq (_ ∷ _) [] = false
str_eq (c ∷ s) (d ∷ t) = (c == d) && str_eq s t

pub str_eq_iff : (s t : Text) → (str_eq s t ≡ true) ↔ (s ≡ t)
unfolding str_eq
str_eq_iff [] [] = ground arith
str_eq_iff [] (_ ∷ _) = ground arith
str_eq_iff (_ ∷ _) [] = ground arith
str_eq_iff (c ∷ s) (d ∷ t) = ground (arith, str_eq_iff s t)

pub str_eq_refl : (s : Text) → str_eq s s ≡ true
str_eq_refl s = (str_eq_iff s s).1 refl

abbrev pub is_empty : Text → Bool
is_empty [] = true
is_empty (_ ∷ _) = false

-- The order of Go's `<` on strings.
unfoldable pub str_lt : Text → Text → Bool
str_lt [] [] = false
str_lt [] (_ ∷ _) = true
str_lt (_ ∷ _) [] = false
str_lt (c ∷ s) (d ∷ t) = ltb c d || ((c == d) && str_lt s t)

-- strings.HasPrefix, the text first.
unfoldable pub has_prefix : Text → Text → Bool
has_prefix s [] = true
has_prefix [] (_ ∷ _) = false
has_prefix (c ∷ s) (d ∷ p) = (c == d) && has_prefix s p

-- strings.HasSuffix.
unfoldable pub has_suffix : Text → Text → Bool
unfolding str_eq
has_suffix s p = leb (length p) (length s) && str_eq (drop (length s - length p) s) p

-- strings.TrimSuffix.
unfoldable pub trim_suffix : Text → Text → Text
unfolding has_suffix
trim_suffix s p = if has_suffix s p then take (length s - length p) s else s

-- strings.Index; `none` is -1.
unfoldable pub index : Text → Text → Option ℕ
unfolding has_prefix
index [] p = if has_prefix [] p then some 0 else none
index (c ∷ s) p = if has_prefix (c ∷ s) p then some 0 else Option.map suc (index s p)

abbrev is_some : Option ℕ → Bool
is_some none = false
is_some (some _) = true

-- strings.Contains.
unfoldable pub contains : Text → Text → Bool
unfolding index
contains s p = is_some (index s p)

abbrev pub cons_head : ℕ → List Text → List Text
cons_head c [] = (c ∷ []) ∷ []
cons_head c (p ∷ ps) = (c ∷ p) ∷ ps

-- strings.Split at a separator of one byte.
unfoldable pub split : ℕ → Text → List Text
split sep [] = [] ∷ []
split sep (c ∷ s) = let rest = split sep s in if c == sep then [] ∷ rest else cons_head c rest

is_space : ℕ → Bool
is_space c = (c == 32) || (leb 9 c && leb c 13)

trim_left : Text → Text
unfolding is_space
trim_left [] = []
trim_left (c ∷ s) = let rest = trim_left s in if is_space c then rest else c ∷ s

-- strings.TrimSpace on ASCII.
unfoldable pub trim_space : Text → Text
unfolding trim_left
trim_space s = reverse (trim_left (reverse (trim_left s)))

unfoldable pub lower : ℕ → ℕ
lower b = if leb 65 b && leb b 90 then b + 32 else b

unfoldable pub upper : ℕ → ℕ
upper b = if leb 97 b && leb b 122 then b - 32 else b

-- Each place where `old` starts has `new` in its stead; the next `n` bytes are passed over.
unfoldable pub replace_from : Text → ℕ → ℕ → Text → Text
replace_from old new n [] = []
replace_from old new zero (c ∷ s) =
    let here = has_prefix (c ∷ s) old in
    let rest = replace_from old new (if here then length old - 1 else 0) s in
    if here then new ∷ rest else c ∷ rest
replace_from old new (suc n) (c ∷ s) = replace_from old new n s

-- strings.ToLower and strings.ToUpper, to compare with an ASCII word: ASCII letters, and the runes
-- outside ASCII that become an ASCII letter (U+0130 and U+212A, U+0131 and U+017F, in UTF-8). Any
-- other rune stays outside ASCII, and is left as it is.
unfoldable pub to_lower : Text → Text
unfolding lower replace_from
to_lower s =
    map lower (replace_from (226 ∷ 132 ∷ 170 ∷ []) 107 0 (replace_from (196 ∷ 176 ∷ []) 105 0 s))

unfoldable pub to_upper : Text → Text
unfolding upper replace_from
to_upper s = map upper (replace_from (197 ∷ 191 ∷ []) 83 0 (replace_from (196 ∷ 177 ∷ []) 73 0 s))
