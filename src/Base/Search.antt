-- ===== src/Base/Search.antt =====
-- Prefixes, suffixes and first occurrences in strings.
use Prim.Native.Nat.{ℕ, zero, suc, ◌+◌, ◌-◌, ◌≤◌}
use mathlib.Core.Path.{◌≡◌, refl, ap, sym, ◌∙◌}
use mathlib.Core.Logic.{inl, inr, ◌↔◌}
use mathlib.Core.Bool.{true, false}
use mathlib.Core.List.{[], ◌∷◌, ◌++◌}
use mathlib.Core.Option
use mathlib.Core.Option.{Option, none, some, some-injective}
use native.Mathlib.Omega.{arith}
use linhub.Base.Tests.{==_iff, Bool-cases, Option-cases, leb}
use linhub.Base.Lists.{
  drop, drop-append, length, length-append, take, take-append, take-append-drop,
}
use linhub.Base.Strings.{
  Text, contains, has_prefix, has_suffix, index, str_eq, str_eq_iff, str_eq_refl, trim_suffix,
}

pub has_prefix_append : (p u : Text) → has_prefix (p ++ u) p ≡ true
unfolding has_prefix
has_prefix_append [] u = refl
has_prefix_append (c ∷ p) u = rw ((==_iff c c).1 refl) (has_prefix_append p u)

pub has_prefix_sound : (s p : Text) → has_prefix s p ≡ true → (u : Text) × (s ≡ p ++ u)
unfolding has_prefix
has_prefix_sound s [] h = (s, refl)
has_prefix_sound [] (d ∷ p) h = cc
has_prefix_sound (c ∷ s) (d ∷ p) h =
    let (same, rest) : (c ≡ d) × (has_prefix s p ≡ true) = ground (arith, ==_iff c d) in
    let (u, e) = has_prefix_sound s p rest in (u, ap (λ d'. d' ∷ s) same ∙ ap (λ r. d ∷ r) e)

minus_back : (a b n : ℕ) → n ≡ a + b → n - b ≡ a
minus_back a b n h = omega arith

pub has_suffix_append : (t p : Text) → has_suffix (t ++ p) p ≡ true
unfolding has_suffix
has_suffix_append t p =
    let len = length-append t p in
    let fits : leb (length p) (length (t ++ p)) ≡ true = ground arith in
    rw (fits, minus_back (length t) (length p) _ len, drop-append t p) (str_eq_refl p)

pub has_suffix_sound : (s p : Text) → has_suffix s p ≡ true → (t : Text) × (s ≡ t ++ p)
unfolding has_suffix
has_suffix_sound s p h =
    let n : ℕ = length s - length p in
    let same : str_eq (drop n s) p ≡ true = ground arith in
    (take n s, sym (take-append-drop n s) ∙ ap (λ r. take n s ++ r) ((str_eq_iff _ _).0 same))

pub trim_suffix_append : (t p : Text) → trim_suffix (t ++ p) p ≡ t
unfolding trim_suffix
trim_suffix_append t p =
    rw (has_suffix_append t p, minus_back (length t) (length p) _ (length-append t p))
      (take-append t p)

drop_within : (n : ℕ) (xs u : Text) → n ≤ length xs → drop n (xs ++ u) ≡ drop n xs ++ u
drop_within zero xs u h = refl
drop_within (suc n) [] u h = absurd (omega arith)
drop_within (suc n) (x ∷ xs) u h = drop_within n xs u (omega arith)

index-prefix : (t q : Text) → has_prefix t q ≡ true → index t q ≡ some 0
unfolding index
index-prefix [] q h = rw h refl
index-prefix (c ∷ t) q h = rw h refl

-- The first occurrence is not after any given one, so what follows that is still there.
pub index_found :
    (y q u : Text)
    → (k : ℕ) × (z : Text) × (index (y ++ q ++ u) q ≡ some k)
      × (drop (k + length q) (y ++ q ++ u) ≡ z ++ u)
unfolding index
index_found [] q u =
    let none_before : 0 + length q ≡ length q = omega arith in
    (0, [], index-prefix (q ++ u) q (has_prefix_append q u), rw none_before (drop-append q u))
index_found (c ∷ y) q u = elim (Bool-cases (has_prefix (c ∷ y ++ q ++ u) q)) [
  | inl e ↦
      let fits = length-append (c ∷ y) q in
      let none_before : 0 + length q ≡ length q = omega arith in
      (
        0,
        drop (length q) (c ∷ y ++ q),
        rw e refl,
        rw none_before (drop_within (length q) (c ∷ y ++ q) u (omega arith)),
      )
  | inr e ↦
      let (k, z, here, after) = index_found y q u in
      let one_more : suc k + length q ≡ suc (k + length q) = omega arith in
      (suc k, z, rw (e, here) refl, rw one_more after)
]

pub index-bound : (t q : Text) (k : ℕ) → index t q ≡ some k → k + length q ≤ length t
unfolding index
index-bound [] q k h = elim (Bool-cases (has_prefix [] q)) [
  | inl e ↦
      let (u, cut) = has_prefix_sound [] q e in
      let len = ap length cut ∙ length-append q u in
      let zero' : 0 ≡ k = some-injective _ _ (sym (rw e refl) ∙ h) in omega arith
  | inr e ↦ let no : none ≡ some k = sym (rw e refl) ∙ h in cc
]
index-bound (c ∷ t) q k h = elim (Bool-cases (has_prefix (c ∷ t) q)) [
  | inl e ↦
      let (u, cut) = has_prefix_sound (c ∷ t) q e in
      let len = ap length cut ∙ length-append q u in
      let zero' : 0 ≡ k = some-injective _ _ (sym (rw e refl) ∙ h) in omega arith
  | inr e ↦
      let later : Option.map suc (index t q) ≡ some k = sym (rw e refl) ∙ h in
      let (j, next, found) = (Option.map-eq-some_iff _ _).0 later in
      let bound = index-bound t q j next in omega arith
]

index_sound : (s q : Text) (k : ℕ) → index s q ≡ some k → (y u : Text) × (s ≡ y ++ q ++ u)
unfolding index
index_sound [] q k h = elim (Bool-cases (has_prefix [] q)) [
  | inl e ↦ let (u, cut) = has_prefix_sound [] q e in ([], u, cut)
  | inr e ↦ let no : none ≡ some k = sym (rw e refl) ∙ h in cc
]
index_sound (c ∷ s) q k h = elim (Bool-cases (has_prefix (c ∷ s) q)) [
  | inl e ↦ let (u, cut) = has_prefix_sound (c ∷ s) q e in ([], u, cut)
  | inr e ↦
      let later : Option.map suc (index s q) ≡ some k = sym (rw e refl) ∙ h in
      let (j, next, found) = (Option.map-eq-some_iff _ _).0 later in
      let (y, u, cut) = index_sound s q j next in (c ∷ y, u, ap (λ r. c ∷ r) cut)
]

pub contains_iff : (s q : Text) → (contains s q ≡ true) ↔ ((y u : Text) × (s ≡ y ++ q ++ u))
unfolding contains
contains_iff s q = (
  λ h. elim (Option-cases (index s q)) [
    | inl e ↦ let no : false ≡ true = sym (rw e refl) ∙ h in cc
    | inr (k, e) ↦ index_sound s q k e
  ],
  λ (y, u, cut). let (k, z, here, after) = index_found y q u in rw (cut, here) refl,
)
