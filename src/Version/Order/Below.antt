-- ===== src/Version/Order/Below.antt =====
-- util/version/version.go, compareInternal: the order of the numbers.
use linhub.Base.{
  ==_iff, Bool, Bool-cases, List, [], arith, false, get_or, if◌then◌else◌, inl, inr, ltb, not, refl,
  suc, sym, true, zero, ℕ, ◌&&◌, ◌<◌, ◌==◌, ◌||◌, ◌↔◌, ◌∙◌, ◌∷◌, ◌≡◌,
}
use linhub.Version.{
  Version, compare_components, compare_internal, compare_pre_releases, is_lt, less_than, only_zeros,
  then_compare,
}
use Prim.Native.Nat.{Ordering}
use Prim.Native.Nat.Ordering.{lt, eq, gt}
use native.Mathlib.Decide.{dec_lt}
use mathlib.Core.Path.{subst}

-- A number that is 0 where there is none.
abbrev pub component : List ℕ → ℕ → ℕ
component ns i = get_or ns i 0

-- At the first place where they differ the first list has the smaller number.
abbrev pub Below : List ℕ → List ℕ → Type 0
Below xs ys =
    (i : ℕ) × (component xs i < component ys i)
    × ((j : ℕ) → j < i → component xs j ≡ component ys j)

-- What a comparison says of the numbers.
abbrev pub Meaning : Ordering → List ℕ → List ℕ → Type 0
Meaning lt xs ys = Below xs ys
Meaning eq xs ys = (i : ℕ) → component xs i ≡ component ys i
Meaning gt xs ys = Below ys xs

Below-cons : (x y : ℕ) (xs ys : List ℕ) → x ≡ y → Below xs ys → Below (x ∷ xs) (y ∷ ys)
Below-cons x y xs ys e (i, less, before) = (suc i, less, go)
  where
    go : (j : ℕ) → j < suc i → component (x ∷ xs) j ≡ component (y ∷ ys) j
    go zero h = e
    go (suc j) h = before j (omega arith)

same_cons :
    (x y : ℕ) (xs ys : List ℕ)
    → x ≡ y
    → ((i : ℕ) → component xs i ≡ component ys i)
    → (i : ℕ) → component (x ∷ xs) i ≡ component (y ∷ ys) i
same_cons x y xs ys e m zero = e
same_cons x y xs ys e m (suc i) = m i

Meaning-cons :
    (o : Ordering) (x y : ℕ) (xs ys : List ℕ)
    → x ≡ y
    → Meaning o xs ys
    → Meaning o (x ∷ xs) (y ∷ ys)
Meaning-cons lt x y xs ys e m = Below-cons x y xs ys e m
Meaning-cons gt x y xs ys e m = Below-cons y x ys xs (sym e) m
Meaning-cons eq x y xs ys e m = same_cons x y xs ys e m

only_zeros_all : (ns : List ℕ) (i : ℕ) → only_zeros ns ≡ true → component ns i ≡ 0
unfolding only_zeros
only_zeros_all [] i h = refl
only_zeros_all (n ∷ ns) zero h = ground arith
only_zeros_all (n ∷ ns) (suc i) h = only_zeros_all ns i (ground arith)

Below-nil : (ns : List ℕ) → only_zeros ns ≡ false → Below [] ns
unfolding only_zeros
Below-nil [] h = cc
Below-nil (n ∷ ns) h = elim (Bool-cases (n == 0)) [
  | inl e ↦
      let (i, less, before) = Below-nil ns (sym (rw e refl) ∙ h) in
      (suc i, less, go ((==_iff n 0).0 e) i before)
  | inr e ↦ (0, ground arith, λ j below. absurd (omega arith))
]
  where
    go :
        n ≡ 0
        → (i : ℕ) → ((j : ℕ) → j < i → component [] j ≡ component ns j)
        → (j : ℕ) → j < suc i
        → component [] j ≡ component (n ∷ ns) j
    go z i before zero h = sym z
    go z i before (suc j) h = before j (omega arith)

compare_components-Meaning : (xs ys : List ℕ) → Meaning (compare_components xs ys) xs ys
unfolding compare_components
compare_components-Meaning [] [] = λ i. refl
compare_components-Meaning [] (y ∷ ys) = elim (Bool-cases (only_zeros (y ∷ ys))) [
  | inl e ↦ rw e (λ i. sym (only_zeros_all (y ∷ ys) i e))
  | inr e ↦ rw e (Below-nil (y ∷ ys) e)
]
compare_components-Meaning (x ∷ xs) [] = elim (Bool-cases (only_zeros (x ∷ xs))) [
  | inl e ↦ rw e (λ i. only_zeros_all (x ∷ xs) i e)
  | inr e ↦ rw e (Below-nil (x ∷ xs) e)
]
compare_components-Meaning (x ∷ xs) (y ∷ ys) = elim (Bool-cases (ltb y x)) [
  | inl e ↦ rw e (0, ground arith, λ j below. absurd (omega arith))
  | inr e ↦ elim (Bool-cases (ltb x y)) [
    | inl e' ↦ rw (e, e') (0, ground arith, λ j below. absurd (omega arith))
    | inr e' ↦
        rw (e, e')
          (Meaning-cons (compare_components xs ys) x y xs ys (ground arith)
            (compare_components-Meaning xs ys))
  ]
]

pub Below-trans : (xs ys zs : List ℕ) → Below xs ys → Below ys zs → Below xs zs
Below-trans xs ys zs (i, less, before) (k, less', before') = elim (dec_lt i k) [
  | yes h ↦ (i, omega (arith, before' i h), λ j b. before j b ∙ before' j (omega arith))
  | no h ↦ elim (dec_lt k i) [
    | yes h' ↦ (k, omega (arith, before k h'), λ j b. before j (omega arith) ∙ before' j b)
    | no h' ↦
        let same : k ≡ i = omega arith in
        let less'' : component ys i < component zs i =
          subst (λ n. component ys n < component zs n) same less' in
        (i, omega arith, λ j b. before j b ∙ before' j (omega arith))
  ]
]

pub Below-irrefl : (xs ys : List ℕ) → Below xs ys → ((i : ℕ) → component xs i ≡ component ys i) → ⊥
Below-irrefl xs ys (i, less, before) same = omega (arith, same i)

is_lt-Meaning : (o : Ordering) (xs ys : List ℕ) → Meaning o xs ys → Below xs ys → is_lt o ≡ true
is_lt-Meaning lt xs ys m b = refl
is_lt-Meaning eq xs ys m b = absurd (Below-irrefl xs ys b m)
is_lt-Meaning gt xs ys m b = absurd (Below-irrefl xs xs (Below-trans xs ys xs b m) (λ i. refl))

then_eq : (o : Ordering) → then_compare o eq ≡ o
then_eq lt = refl
then_eq eq = refl
then_eq gt = refl

only_numbers :
    (b c : Bool) (o : Ordering) → b && c ≡ false → (if not b || not c then eq else o) ≡ eq
only_numbers true true o h = cc
only_numbers true false o h = refl
only_numbers false c o h = refl

-- Unless both are semantic versions, one version is less than another exactly when at the first
-- place where they differ it has the smaller number, a missing number counting as 0.
pub less_than-Below :
    (v o : Version)
    → v.semver && o.semver ≡ false
    → (less_than v o ≡ true) ↔ Below v.components o.components
unfolding less_than compare_internal
less_than-Below v o h =
    let c = compare_components v.components o.components in
    let m = compare_components-Meaning v.components o.components in
    rw
      (
        only_numbers v.semver o.semver (compare_pre_releases v.pre_release o.pre_release) h,
        then_eq c,
      )
      (sound c m, is_lt-Meaning c v.components o.components m)
  where
    sound :
        (c : Ordering)
        → Meaning c v.components o.components
        → is_lt c ≡ true
        → Below v.components o.components
    sound lt m h' = m
    sound eq m h' = cc
    sound gt m h' = cc
