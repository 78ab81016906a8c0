-- ===== src/Rid/Unique.antt =====
-- rid/rid.go: identifiers of different resources differ.
use linhub.Base.{
  List, Text, [], ap, arith, codes, length, length-append, pos, refl, some, suc, sym, ℕ, ◌%◌, ◌*◌,
  ◌++◌, ◌+◌, ◌<◌, ◌^◌, ◌∙◌, ◌∷◌, ◌≡◌,
}
use linhub.Id.{CodeOptions, new_code}
use linhub.Id.Codes.{
  AreDistinct, distinct, distinct-AreDistinct, new_code_low_digits, new_code_total,
}
use linhub.Rid.{default_charset, id_options, new}
use mathlib.Core.List.{head-eq_of_cons-eq, tail-eq_of_cons-eq}
use mathlib.Core.Option.{some-injective}

append-injective {ℓ} :
    {A : Type ℓ} (p q x y : List A) → length x ≡ length y → p ++ x ≡ q ++ y → (p ≡ q) × (x ≡ y)
append-injective [] [] x y len e = (refl, e)
append-injective [] (c ∷ q) x y len e =
    let l = ap length e in absurd (omega (arith, length-append q y))
append-injective (c ∷ p) [] x y len e =
    let l = ap length e in absurd (omega (arith, length-append p x))
append-injective (c ∷ p) (d ∷ q) x y len e =
    let (same, rest) = append-injective p q x y len (tail-eq_of_cons-eq e) in
    (cc (head-eq_of_cons-eq e), rest)

charset-AreDistinct : AreDistinct default_charset
unfolding distinct
charset-AreDistinct = distinct-AreDistinct default_charset refl

scale :
    (salt a b : ℕ)
    → a < 36 ^ 6
    → b < 36 ^ 6
    → a * 17 + salt < 2 ^ 64
    → b * 17 + salt < 2 ^ 64
    → (a * 17 + salt) % 2 ^ 64 % 36 ^ 6 ≡ (b * 17 + salt) % 2 ^ 64 % 36 ^ 6
    → a ≡ b
scale salt a b ha hb fa fb e = omega arith

abbrev pub options : ℕ → CodeOptions
options salt = record { chars = default_charset; n1 = pos 17; n2 = pos 5; l = 6; salt = salt }

id_options_lem : (salt : ℕ) → 0 < salt → id_options salt ≡ options salt
unfolding id_options
id_options_lem salt h = ground arith

-- With a positive salt, New does not panic: it gives the prefix, a dash and six characters, which
-- are the code of the counter.
new_total :
    (prefix : Text) (salt counter : ℕ)
    → 0 < salt
    → (c : List ℕ) × (new prefix salt counter ≡ some (prefix ++ (codes "-" ++ c)))
      × (length c ≡ 6)
      × (new_code (options salt) counter ≡ some c)
unfolding new
new_total prefix salt counter h =
    let (c, run, len, _) =
      new_code_total (options salt) counter (omega arith) (omega arith) (omega arith)
        (omega arith) in
    (c, rw (id_options_lem salt h, run) refl, len, run)

-- With one positive salt, two counters below 36 ^ 6 whose enlarged values do not wrap give the same
-- identifier only when both the prefixes and the counters are the same.
pub new-injective :
    (p q : Text) (salt a b : ℕ)
    → 0 < salt
    → a < 36 ^ 6
    → b < 36 ^ 6
    → a * 17 + salt < 2 ^ 64
    → b * 17 + salt < 2 ^ 64
    → new p salt a ≡ new q salt b
    → (p ≡ q) × (a ≡ b)
new-injective p q salt a b h ha hb fa fb same =
    let (c, new_a, len_c, run_a) = new_total p salt a h in
    let (d, new_b, len_d, run_b) = new_total q salt b h in
    let texts : p ++ (codes "-" ++ c) ≡ q ++ (codes "-" ++ d) =
      some-injective _ _ (sym new_a ∙ same ∙ new_b) in
    let (prefixes, rests) =
      append-injective p q (codes "-" ++ c) (codes "-" ++ d) (ap suc (len_c ∙ sym len_d)) texts in
    let codes_eq : c ≡ d = tail-eq_of_cons-eq rests in
    (
      prefixes,
      scale salt a b ha hb fa fb (
          new_code_low_digits (options salt) a b c (omega arith) (omega arith) (omega arith)
            (omega arith) (omega arith) charset-AreDistinct
            (λ k l. (k * 5 % 6, omega arith, omega arith)) run_a (run_b ∙ ap some (sym codes_eq))),
    )
