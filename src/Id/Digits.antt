-- ===== src/Id/Digits.antt =====
-- id/code.go: the first loop of NewCode keeps the low digits of the number.
use native.Mathlib.Nat.{
  mod-add-div, div-div-eq-div-mul, pow-succ', pow-zero, mod-lt, mod-eq_of_lt, zero-mul, add-zero,
  mul-le-mul_left,
}
use mathlib.Core.List.{head-eq_of_cons-eq, tail-eq_of_cons-eq}
use linhub.Base.{
  ap, arith, refl, suc, sym, zero, ℕ, ◌%◌, ◌*◌, ◌+◌, ◌-◌, ◌/◌, ◌<◌, ◌^◌, ◌∙◌, ◌≡◌, ◌≤◌,
}
use linhub.Id.{byte, diffuse, diffuse_from, mix}

mod-mul : (a m k : ℕ) → a % (m * k) ≡ a % m + m * ((a / m) % k)
mod-mul a m k = omega (
  arith,
  mod-add-div a (m * k),
  ap (λ (t : ℕ). m * k * t) (div-div-eq-div-mul a m k),
  mod-add-div a m,
  ap (λ (t : ℕ). m * t) (mod-add-div (a / m) k),
)

apart :
    (len q₁ q₂ d e r k : ℕ)
    → d < len
    → e < len
    → r + len * q₁ ≡ d + k
    → r + len * q₂ ≡ e + k
    → q₁ < q₂
    → ⊥
apart len q₁ q₂ d e r k hd he p q lt = grind arith

same_mod : (len k d e : ℕ) → d < len → e < len → (d + k) % len ≡ (e + k) % len → d ≡ e
same_mod len k d e hd he same =
    let p = mod-add-div (d + k) len in
    let q = mod-add-div (e + k) len in
    let q' = rw (← same) at q in
    grind (
      arith,
      apart len ((d + k) / len) ((e + k) / len) d e ((d + k) % len) k hd he p q',
      apart len ((e + k) / len) ((d + k) / len) e d ((d + k) % len) k he hd q' p,
    )

-- Where no byte overflows, a value of the loop is the digit shifted by a fixed amount.
mix_lem :
    (len i first d : ℕ)
    → d < len
    → len < 256
    → i < 256
    → i * first + len ≤ 256
    → mix len i first d ≡ (d + i * first) % len
mix_lem len i first d hd small hi fits =
    let small_d : d < 256 = omega arith in
    let small_p : i * first < 256 = omega arith in
    let small_s : d + i * first < 256 = omega arith in
    rw
      (
        mod-eq_of_lt small_d,
        mod-eq_of_lt hi,
        mod-eq_of_lt small_p,
        mod-eq_of_lt small_s,
        mod-eq_of_lt small,
      )
      refl

mix-injective :
    (len i first d e : ℕ)
    → d < len
    → e < len
    → len < 256
    → i < 256
    → i * first + len ≤ 256
    → mix len i first d ≡ mix len i first e
    → d ≡ e
mix-injective len i first d e hd he small hi fits same =
    same_mod len (i * first) d e hd he
      (sym (mix_lem len i first d hd small hi fits) ∙ same ∙ mix_lem len i first e he small hi fits)

le_of_product : (i n first : ℕ) → i * first ≤ (i + n) * first
le_of_product i n first = grind arith

-- The values determine the digits that the loop has read.
diffuse_from-injective :
    (len n i first a b : ℕ)
    → 0 < len
    → len < 256
    → i + n ≤ 256
    → (i + n) * first + len ≤ 256 + first
    → diffuse_from len n i first a ≡ diffuse_from len n i first b
    → a % len ^ n ≡ b % len ^ n
unfolding diffuse_from
diffuse_from-injective len zero i first a b pos_len small hi fits same = rw pow-zero (omega arith)
diffuse_from-injective len (suc n) i first a b pos_len small hi fits same =
    let bound : (i + n) * first + len ≤ 256 = omega arith in
    let here =
      mix-injective len i first (a % len) (b % len) (mod-lt a pos_len) (mod-lt b pos_len) small
        (omega arith) (omega (arith, le_of_product i n first)) (head-eq_of_cons-eq same) in
    let later =
      diffuse_from-injective len n (i + 1) first (a / len) (b / len) pos_len small (omega arith)
        (omega arith) (tail-eq_of_cons-eq same) in
    rw (pow-succ', mod-mul, mod-mul, here, later) refl

-- The value at index 0 is the digit itself.
mix_first : (len f d : ℕ) → d < len → len < 256 → mix len 0 f d ≡ d
mix_first len f d hd small =
    mix_lem len 0 f d hd small (omega arith) (omega arith)
    ∙ (rw (zero-mul, add-zero) (mod-eq_of_lt hd))

bound_first :
    (n len first : ℕ)
    → first < len
    → suc n * (len - 1) + 1 ≤ 256
    → (1 + n) * first + len ≤ 256 + first
bound_first n len first h fits =
    let mono : n * first ≤ n * (len - 1) = mul-le-mul_left n (omega arith) in omega arith

-- Two numbers with the same values have the same low digits in base `len`, `l` of them, where no
-- byte overflows.
pub diffuse-injective :
    (len l a b : ℕ)
    → 0 < len
    → len < 256
    → l ≤ 256
    → l * (len - 1) + 1 ≤ 256
    → diffuse len l a ≡ diffuse len l b
    → a % len ^ l ≡ b % len ^ l
unfolding diffuse
diffuse-injective len zero a b pos_len small hi fits same = rw pow-zero (omega arith)
diffuse-injective len (suc n) a b pos_len small hi fits same =
    let fa = mix_first len (byte (a % len)) (a % len) (mod-lt a pos_len) small in
    let fb = mix_first len (byte (b % len)) (b % len) (mod-lt b pos_len) small in
    let here : a % len ≡ b % len = sym fa ∙ head-eq_of_cons-eq same ∙ fb in
    let tails : diffuse_from len n 1 (a % len) (a / len)
        ≡ diffuse_from len n 1 (a % len) (b / len) =
      ap (λ f. diffuse_from len n 1 f (a / len)) (sym fa)
      ∙ tail-eq_of_cons-eq same
      ∙ ap (λ f. diffuse_from len n 1 f (b / len)) (fb ∙ sym here) in
    let later =
      diffuse_from-injective len n 1 (a % len) (a / len) (b / len) pos_len small (omega arith)
        (bound_first n len (a % len) (mod-lt a pos_len) fits) tails in
    rw (pow-succ', mod-mul, mod-mul, here, later) refl
