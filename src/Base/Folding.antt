-- ===== src/Base/Folding.antt =====
-- Letters of either case: strings.ToLower and strings.ToUpper on ASCII texts.
use Prim.Native.Nat.{ℕ, ◌-◌, ◌<◌, ◌≤◌}
use mathlib.Core.Path.{◌≡◌, refl, ap}
use mathlib.Core.Bool.{Bool, true, false, ◌&&◌}
use mathlib.Core.List.{[], ◌∷◌, map}
use native.Mathlib.Omega.{arith}
use linhub.Base.Tests.{leb, ◌==◌}
use linhub.Base.Lists.{All, all}
use linhub.Base.Strings.{Text, has_prefix, lower, replace_from, str_eq, to_lower, to_upper, upper}

abbrev pub IsAscii : Text → Type 0
IsAscii s = All (λ c. c < 128) s

no_prefix : (c b : ℕ) (s old : Text) → c < b → has_prefix (c ∷ s) (b ∷ old) ≡ false
unfolding has_prefix
no_prefix c b s old h = ground arith

replace_from-IsAscii :
    (b new : ℕ) (old s : Text) → 128 ≤ b → IsAscii s → replace_from (b ∷ old) new 0 s ≡ s
unfolding replace_from
replace_from-IsAscii b new old [] high ok = refl
replace_from-IsAscii b new old (c ∷ s) high (low, rest) =
    let apart = no_prefix c b s old (omega arith) in
    rw apart (ap (λ r. c ∷ r) (replace_from-IsAscii b new old s high rest))

pub to_lower-IsAscii : (s : Text) → IsAscii s → to_lower s ≡ map lower s
unfolding to_lower
to_lower-IsAscii s ok =
    rw
      (
        replace_from-IsAscii 196 105 (176 ∷ []) s (omega arith) ok,
        replace_from-IsAscii 226 107 (132 ∷ 170 ∷ []) s (omega arith) ok,
      )
      refl

pub to_upper-IsAscii : (s : Text) → IsAscii s → to_upper s ≡ map upper s
unfolding to_upper
to_upper-IsAscii s ok =
    rw
      (
        replace_from-IsAscii 196 73 (177 ∷ []) s (omega arith) ok,
        replace_from-IsAscii 197 83 (191 ∷ []) s (omega arith) ok,
      )
      refl

-- A text of small letters, and the same in capitals.
unfoldable pub small : Text → Bool
small w = all (λ d. leb 97 d && leb d 122) w

abbrev pub capitals : Text → Text
capitals w = map (λ d. d - 32) w

letter_fold : (c d : ℕ) → 97 ≤ d → d ≤ 122 → (lower c == d) ≡ (upper c == d - 32)
unfolding lower upper
letter_fold c d h1 h2 = ground arith

map-lower-eq :
    (s w : Text) → small w ≡ true → str_eq (map lower s) w ≡ str_eq (map upper s) (capitals w)
unfolding str_eq small
map-lower-eq [] [] ok = refl
map-lower-eq [] (_ ∷ _) ok = refl
map-lower-eq (_ ∷ _) [] ok = refl
map-lower-eq (c ∷ s) (d ∷ w) ok =
    let (low, high, rest) : (97 ≤ d) × (d ≤ 122) × (small w ≡ true) = ground arith in
    rw (letter_fold c d low high, map-lower-eq s w rest) refl

-- An ASCII text is some word in small letters when it is the word in capitals.
pub to_lower-to_upper :
    (s w : Text)
    → IsAscii s
    → small w ≡ true
    → str_eq (to_lower s) w ≡ str_eq (to_upper s) (capitals w)
to_lower-to_upper s w ascii ok =
    rw (to_lower-IsAscii s ascii, to_upper-IsAscii s ascii) (map-lower-eq s w ok)
