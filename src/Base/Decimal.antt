-- ===== src/Base/Decimal.antt =====
-- Numbers in decimal: fmt's %d, and strconv.ParseUint in base 10 with 64 bits.
use Prim.Native.Nat.{ℕ, zero, suc, ◌+◌, ◌-◌, ◌*◌, ◌/◌, ◌%◌, ◌^◌, ◌<◌}
use mathlib.Core.Path.{◌≡◌, refl, sym, ap, ◌∙◌}
use mathlib.Core.Logic.{◌⊎◌, inl, inr}
use mathlib.Core.Bool.{Bool, true, ◌&&◌}
use mathlib.Core.List.{[], ◌∷◌, ◌++◌}
use mathlib.Core.Option.{Option, none, some}
use native.Mathlib.Omega.{arith}
use linhub.Base.Tests.{Bool-cases, if◌then◌else◌, leb, ltb}
use linhub.Base.Lists.{All, All-append}
use linhub.Base.Strings.{Text}

abbrev pub is_digit : ℕ → Bool
is_digit c = leb 48 c && leb c 57

-- The digits of `n`, with at most `fuel` of them.
digits : ℕ → ℕ → Text
digits zero n = []
digits (suc fuel) n =
    let higher = digits fuel (n / 10) in
    if ltb n 10 then (48 + n) ∷ [] else higher ++ (48 + n % 10) ∷ []

-- A number has fewer digits than its successor says.
unfoldable pub decimal : ℕ → Text
unfolding digits
decimal n = digits (suc n) n

-- The value of a text of digits read after `acc`.
value_from : ℕ → Text → Option ℕ
value_from acc [] = some acc
value_from acc (c ∷ s) =
    let later = value_from (acc * 10 + (c - 48)) s in if is_digit c then later else none

in_range : Option ℕ → Option ℕ
in_range none = none
in_range (some n) = if ltb n (2 ^ 64) then some n else none

-- strconv.ParseUint(s, 10, 0).
unfoldable pub parse_uint : Text → Option ℕ
unfolding value_from in_range
parse_uint [] = none
parse_uint (c ∷ s) = in_range (value_from 0 (c ∷ s))

value_from-append :
    (acc m : ℕ) (s t : Text) → value_from acc s ≡ some m → value_from acc (s ++ t) ≡ value_from m t
unfolding value_from
value_from-append acc m [] t h = ground arith
value_from-append acc m (c ∷ s) t h = elim (Bool-cases (is_digit c)) [
  | inl e ↦ rw e (value_from-append (acc * 10 + (c - 48)) m s t (sym (rw e refl) ∙ h))
  | inr e ↦ let no : none ≡ some m = sym (rw e refl) ∙ h in cc
]

-- One more digit.
value_from-digit : (m d : ℕ) → d < 10 → value_from m ((48 + d) ∷ []) ≡ some (m * 10 + d)
unfolding value_from
value_from-digit m d h = ground arith

digits-value : (fuel n : ℕ) → n < fuel → value_from 0 (digits fuel n) ≡ some n
unfolding digits
digits-value zero n h = elim h [ ]
digits-value (suc fuel) n h = elim (Bool-cases (ltb n 10)) [
  | inl e ↦
      let small : n < 10 = ground arith in
      let same : 0 * 10 + n ≡ n = omega arith in rw e (value_from-digit 0 n small ∙ ap some same)
  | inr e ↦
      let d : Text = (48 + n % 10) ∷ [] in
      let big : 9 < n = ground arith in
      let ih = digits-value fuel (n / 10) (omega arith) in
      let whole : n / 10 * 10 + n % 10 ≡ n = omega arith in
      rw e (
        value_from-append 0 (n / 10) (digits fuel (n / 10)) d ih
        ∙ value_from-digit (n / 10) (n % 10) (omega arith)
        ∙ ap some whole)
]

-- The digits of a number: the first one is 0 for 0 alone.
pub record AreDigits (n : ℕ) (s : Text) : Type 0 where
  pub first : ℕ
  pub others : Text
  pub shape : s ≡ first ∷ others
  pub all_digits : All (λ c. is_digit c ≡ true) s
  pub leading : (n ≡ 0) ⊎ (48 < first)
  pub alone : n ≡ 0 → s ≡ 48 ∷ []

small_digit : (d : ℕ) → d < 10 → is_digit (48 + d) ≡ true
small_digit d h = ground arith

digits-AreDigits : (fuel n : ℕ) → n < fuel → AreDigits n (digits fuel n)
unfolding digits
digits-AreDigits zero n h = elim h [ ]
digits-AreDigits (suc fuel) n h = elim (Bool-cases (ltb n 10)) [
  | inl e ↦
      let small : n < 10 = ground arith in
      rw e (record {
        first = 48 + n;
        others = [];
        shape = refl;
        all_digits = (small_digit n small, tt);
        leading = ground arith;
        alone = λ z. ap (λ k. (48 + k) ∷ []) z;
      })
  | inr e ↦
      let big : 9 < n = ground arith in
      let ih = digits-AreDigits fuel (n / 10) (omega arith) in
      let last : Text = (48 + n % 10) ∷ [] in
      rw e (record {
        first = ih.first;
        others = ih.others ++ last;
        shape = ap (λ r. r ++ last) ih.shape;
        all_digits =
            All-append (λ c. is_digit c ≡ true) (digits fuel (n / 10)) last ih.all_digits
              (small_digit (n % 10) (omega arith), tt);
        leading = ground (arith, ih.leading);
        alone = λ z. absurd (omega arith);
      })
]

pub decimal-AreDigits : (n : ℕ) → AreDigits n (decimal n)
unfolding decimal
decimal-AreDigits n = digits-AreDigits (suc n) n (omega arith)

decimal-value : (n : ℕ) → value_from 0 (decimal n) ≡ some n
unfolding decimal
decimal-value n = digits-value (suc n) n (omega arith)

parse_uint-value :
    (s t : Text) (c n : ℕ)
    → s ≡ c ∷ t
    → value_from 0 s ≡ some n
    → n < 2 ^ 64
    → parse_uint s ≡ some n
unfolding parse_uint in_range
parse_uint-value [] t c n e v h = cc
parse_uint-value (d ∷ s) t c n e v h =
    let fits : ltb n (2 ^ 64) ≡ true = ground arith in rw v (rw fits refl)

pub parse_uint-decimal : (n : ℕ) → n < 2 ^ 64 → parse_uint (decimal n) ≡ some n
parse_uint-decimal n h =
    let d = decimal-AreDigits n in
    parse_uint-value (decimal n) d.others d.first n d.shape (decimal-value n) h
