-- ===== src/Id/Codes.antt =====
-- id/code.go: NewCode as a whole.
use mathlib.Core.Option.{some-injective}
use mathlib.Core.Path.{subst}
use native.Mathlib.Nat.{mod-lt}
use native.Mathlib.Decide.{ℕ_discrete}
use linhub.Base.{
  >>=-eq-some, All, All-get, Bool, List, [], ap, arith, false, get_elem?, length, not, refl, some,
  suc, sym, true, word64, zero, ℕ, ◌%◌, ◌&&◌, ◌*◌, ◌+◌, ◌-◌, ◌/◌, ◌<◌, ◌==◌, ◌^◌, ◌||◌, ◌∙◌, ◌∷◌,
  ◌≡◌, ◌≤◌,
}
use linhub.Id.Digits.{diffuse-injective}
use linhub.Id.{
  CodeOptions, byte, confuse, default_code_options, diffuse, diffuse_from, enlarged, mix, new_code,
  shuffled_index,
}
use mathlib.Core.List.{head-eq_of_cons-eq, tail-eq_of_cons-eq}

-- No character stands at two places.
abbrev pub AreDistinct : List ℕ → Type 0
AreDistinct chars = (x y v : ℕ) → get_elem? chars x ≡ some v → get_elem? chars y ≡ some v → x ≡ y

-- Every place of a code of length `l` is read by the second loop.
abbrev pub IsOnto : ℕ → ℕ → Type 0
IsOnto l n2 = (k : ℕ) → k < l → (j : ℕ) × (j < l) × (shuffled_index l n2 j ≡ k)

-- A code of an alphabet.
abbrev pub IsOver : List ℕ → List ℕ → Type 0
IsOver chars = All (λ c. (i : ℕ) × (get_elem? chars i ≡ some c))

get_of_lt {ℓ} :
    {A : Type ℓ} (xs : List A) (i : ℕ) → i < length xs → (v : A) × (get_elem? xs i ≡ some v)
get_of_lt [] i h = elim h [ ]
get_of_lt (x ∷ xs) zero h = (x, refl)
get_of_lt (x ∷ xs) (suc i) h = get_of_lt xs i (omega arith)

get_ext {ℓ} :
    {A : Type ℓ} (xs ys : List A)
    → length xs ≡ length ys
    → ((i : ℕ) → i < length xs → get_elem? xs i ≡ get_elem? ys i)
    → xs ≡ ys
get_ext [] [] e h = refl
get_ext [] (y ∷ ys) e h = absurd (omega arith)
get_ext (x ∷ xs) [] e h = absurd (omega arith)
get_ext (x ∷ xs) (y ∷ ys) e h =
    let head : x ≡ y = some-injective _ _ (h 0 (omega arith)) in
    let rest = get_ext xs ys (omega arith) (λ i k. h (suc i) (omega arith)) in cc

diffuse_from_bounds :
    (len n i first id : ℕ)
    → 0 < byte len
    → (length (diffuse_from len n i first id) ≡ n)
      × All (λ v. v < byte len) (diffuse_from len n i first id)
unfolding diffuse_from
diffuse_from_bounds len zero i first id h = (refl, tt)
diffuse_from_bounds len (suc n) i first id h =
    let (l, a) = diffuse_from_bounds len n (i + 1) first (id / len) h in (ap suc l, (mod-lt _ h, a))

diffuse_bounds :
    (len l id : ℕ)
    → 0 < byte len
    → (length (diffuse len l id) ≡ l) × All (λ v. v < byte len) (diffuse len l id)
unfolding diffuse
diffuse_bounds len zero id h = (refl, tt)
diffuse_bounds len (suc n) id h =
    let (l, a) =
      diffuse_from_bounds len n 1 (mix len 0 (byte (id % len)) (id % len)) (id / len) h in
    (ap suc l, (mod-lt _ h, a))

confuse_total :
    (chars : List ℕ) (l n2 : ℕ) (values : List ℕ) (n i : ℕ)
    → 0 < byte l
    → length values ≡ l
    → All (λ v. v < byte (length chars)) values
    → (c : List ℕ) × (confuse chars l n2 values n i ≡ some c) × (length c ≡ n) × IsOver chars c
unfolding confuse
confuse_total chars l n2 values zero i hl size small = ([], refl, refl, tt)
confuse_total chars l n2 values (suc n) i hl size small =
    let at_index : shuffled_index l n2 i < byte l = mod-lt _ hl in
    let (v, found) = get_of_lt values (shuffled_index l n2 i) (omega arith) in
    let v_small =
      All-get (λ v. v < byte (length chars)) values (shuffled_index l n2 i) small found in
    let (c, char) = get_of_lt chars v (omega arith) in
    let (cs, rest, len, over) = confuse_total chars l n2 values n (i + 1) hl size small in
    (c ∷ cs, rw (found, char, rest) refl, ap suc len, ((v, char), over))

-- With at most 255 characters and a length of at most 255, neither being 0, NewCode does not panic:
-- it gives a code of that length over the characters.
pub new_code_total :
    (o : CodeOptions) (id : ℕ)
    → 0 < length o.chars
    → length o.chars < 256
    → 0 < o.l
    → o.l < 256
    → (c : List ℕ) × (new_code o id ≡ some c) × (length c ≡ o.l) × IsOver o.chars c
unfolding new_code
new_code_total o id hc hc' hl hl' =
    let len_ok : 0 < byte (length o.chars) = omega arith in
    let l_ok : 0 < byte o.l = omega arith in
    let (size, small) = diffuse_bounds (length o.chars) o.l (enlarged o id) len_ok in
    let (c, run, len, over) =
      confuse_total o.chars o.l (byte (word64 o.n2)) (diffuse (length o.chars) o.l (enlarged o id))
        o.l 0 l_ok size small in
    let test : (byte (length o.chars) == 0) || (byte o.l == 0) ≡ false = ground arith in
    (c, rw test run, len, over)

confuse-injective :
    (chars : List ℕ) (l n2 : ℕ) (va vb c : List ℕ) (n i j : ℕ)
    → AreDistinct chars
    → confuse chars l n2 va n i ≡ some c
    → confuse chars l n2 vb n i ≡ some c
    → i ≤ j
    → j < i + n
    → get_elem? va (shuffled_index l n2 j) ≡ get_elem? vb (shuffled_index l n2 j)
unfolding confuse
confuse-injective chars l n2 va vb c zero i j d p q lo hi = absurd (omega arith)
confuse-injective chars l n2 va vb c (suc n) i j d p q lo hi =
    let (v, at_v, p₁) = >>=-eq-some (get_elem? va (shuffled_index l n2 i)) _ p in
    let (x, char_x, p₂) = >>=-eq-some (get_elem? chars v) _ p₁ in
    let (r, rest_r, p₃) = >>=-eq-some (confuse chars l n2 va n (i + 1)) _ p₂ in
    let (w, at_w, q₁) = >>=-eq-some (get_elem? vb (shuffled_index l n2 i)) _ q in
    let (y, char_y, q₂) = >>=-eq-some (get_elem? chars w) _ q₁ in
    let (s, rest_s, q₃) = >>=-eq-some (confuse chars l n2 vb n (i + 1)) _ q₂ in
    let cons : x ∷ r ≡ y ∷ s = some-injective _ _ (p₃ ∙ sym q₃) in
    let same_v : v ≡ w = d v w x char_x (char_y ∙ ap some (sym (head-eq_of_cons-eq cons))) in
    let rest_s' : confuse chars l n2 vb n (i + 1) ≡ some r =
      rest_s ∙ ap some (sym (tail-eq_of_cons-eq cons)) in
    elim (ℕ_discrete i j) [
      | yes e ↦
          subst (λ k. get_elem? va (shuffled_index l n2 k) ≡ get_elem? vb (shuffled_index l n2 k)) e
            (at_v ∙ ap some same_v ∙ sym at_w)
      | no e ↦
          confuse-injective chars l n2 va vb r n (i + 1) j d rest_r rest_s' (omega arith)
            (omega arith)
    ]

-- Where the characters are distinct, the second loop reads every place and no byte overflows, two
-- numbers with the same code are, enlarged by NewCode, equal in their low digits: as many as the
-- code has characters, in the base of the alphabet's size.
pub new_code_low_digits :
    (o : CodeOptions) (a b : ℕ) (c : List ℕ)
    → 0 < length o.chars
    → length o.chars < 256
    → 0 < o.l
    → o.l * (length o.chars - 1) + 1 ≤ 256
    → o.l < 256
    → AreDistinct o.chars
    → IsOnto o.l (byte (word64 o.n2))
    → new_code o a ≡ some c
    → new_code o b ≡ some c
    → enlarged o a % length o.chars ^ o.l ≡ enlarged o b % length o.chars ^ o.l
unfolding new_code
new_code_low_digits o a b c hc hc' hl fits hl' d onto p q =
    let test : (byte (length o.chars) == 0) || (byte o.l == 0) ≡ false = ground arith in
    let p' = rw test at p in
    let q' = rw test at q in
    let len_ok : 0 < byte (length o.chars) = omega arith in
    let va = diffuse (length o.chars) o.l (enlarged o a) in
    let vb = diffuse (length o.chars) o.l (enlarged o b) in
    let (size_a, _) = diffuse_bounds (length o.chars) o.l (enlarged o a) len_ok in
    let (size_b, _) = diffuse_bounds (length o.chars) o.l (enlarged o b) len_ok in
    let same : va ≡ vb = get_ext va vb (size_a ∙ sym size_b) (λ k h.
      let (j, below, e) = onto k (omega arith) in
      subst (λ k. get_elem? va k ≡ get_elem? vb k) e
        (confuse-injective o.chars o.l (byte (word64 o.n2)) va vb c o.l 0 j d p' q' (omega arith)
          (omega arith))) in
    diffuse-injective (length o.chars) o.l (enlarged o a) (enlarged o b) hc hc' (omega arith) fits
      same

-- The alphabet of the default options: a check over the list.
unfoldable pub lacks : ℕ → List ℕ → Bool
lacks c [] = true
lacks c (d ∷ cs) = not (c == d) && lacks c cs

unfoldable pub distinct : List ℕ → Bool
unfolding lacks
distinct [] = true
distinct (c ∷ cs) = lacks c cs && distinct cs

lacks_sound : (c : ℕ) (cs : List ℕ) (i : ℕ) → lacks c cs ≡ true → get_elem? cs i ≡ some c → ⊥
unfolding lacks
lacks_sound c [] i h e = cc
lacks_sound c (d ∷ cs) zero h e = ground arith
lacks_sound c (d ∷ cs) (suc i) h e = lacks_sound c cs i (ground arith) e

pub distinct-AreDistinct : (cs : List ℕ) → distinct cs ≡ true → AreDistinct cs
unfolding distinct
distinct-AreDistinct [] h x y v p q = cc
distinct-AreDistinct (c ∷ cs) h zero zero v p q = refl
distinct-AreDistinct (c ∷ cs) h zero (suc y) v p q =
    absurd (lacks_sound c cs y (ground arith) (q ∙ sym p))
distinct-AreDistinct (c ∷ cs) h (suc x) zero v p q =
    absurd (lacks_sound c cs x (ground arith) (p ∙ sym q))
distinct-AreDistinct (c ∷ cs) h (suc x) (suc y) v p q =
    ap suc (distinct-AreDistinct cs (ground arith) x y v p q)

default-AreDistinct : AreDistinct default_code_options.chars
unfolding distinct
default-AreDistinct = distinct-AreDistinct default_code_options.chars refl

scale_default :
    (a b : ℕ)
    → a < 30 ^ 8
    → b < 30 ^ 8
    → (a * 17 + 123567369) % 2 ^ 64 % 30 ^ 8 ≡ (b * 17 + 123567369) % 2 ^ 64 % 30 ^ 8
    → a ≡ b
scale_default a b ha hb e = omega arith

-- With the default options, numbers below 30 ^ 8 that have the same code are equal.
pub new_code-injective :
    (a b : ℕ)
    → a < 30 ^ 8
    → b < 30 ^ 8
    → new_code default_code_options a ≡ new_code default_code_options b
    → a ≡ b
new_code-injective a b ha hb same =
    let (c, run, _, _) =
      new_code_total default_code_options a (omega arith) (omega arith) (omega arith)
        (omega arith) in
    scale_default a b ha hb (
      new_code_low_digits default_code_options a b c (omega arith) (omega arith) (omega arith)
        (omega arith) (omega arith) default-AreDistinct
        (λ k h. (k * 5 % 8, omega arith, omega arith)) run (sym same ∙ run))
