-- ===== src/Settings/Flags/Defined.antt =====
-- options/: flags that are defined once.
use mathlib.Core.Option
use linhub.Base.{
  ==_iff, All, Bool, Bool-cases, List, Option, Text, [], all, any, ap, append_assoc, arith, false,
  has_prefix, has_prefix_append, has_prefix_sound, inl, inr, not, refl, some, str_eq, str_eq_iff,
  sym, true, ◌&&◌, ◌++◌, ◌>>=◌, ◌∙◌, ◌∷◌, ◌≡◌,
}
use linhub.Settings.Flags.{Flag, FlagLibrary, add_flag, add_flags}

-- A name that no flag has can be defined; the set then has that name, and those that it had.
pub record FlagLaws {S : Type 0} (lib : FlagLibrary S) : Type 0 where
  pub define_new :
      (n : Text) (s : S)
      → any (str_eq n) (lib.names s) ≡ false
      → (s' : S) × (lib.define n s ≡ some s') × (lib.names s' ≡ n ∷ lib.names s)

unfoldable pub all_distinct : List Text → Bool
all_distinct [] = true
all_distinct (n ∷ ns) = not (any (λ m. str_eq m n) ns) && all_distinct ns

abbrev pub suffixes : {O : Type 0} → List (Flag O) → List Text
suffixes [] = []
suffixes (f ∷ fl) = f.suffix ∷ suffixes fl

abbrev pub defaults : {O : Type 0} → List (Flag O) → O → O
defaults [] o = o
defaults (f ∷ fl) o = defaults fl (f.set_default o)

-- No name of a set is one of some names after a prefix.
abbrev pub IsFree : Text → List Text → List Text → Type 0
IsFree p ns taken = All (λ n. any (str_eq (p ++ n)) taken ≡ false) ns

str_eq-append : (p m n : Text) → str_eq (p ++ m) (p ++ n) ≡ str_eq m n
unfolding str_eq
str_eq-append [] m n = refl
str_eq-append (c ∷ p) m n = rw ((==_iff c c).1 refl) (str_eq-append p m n)

-- The names of a set after some flags have been defined.
abbrev pub defined : {O : Type 0} → Text → List (Flag O) → List Text → List Text
defined p [] taken = taken
defined p (f ∷ fl) taken = defined p fl ((p ++ f.suffix) ∷ taken)

IsFree-cons :
    (p n : Text) (ns taken : List Text)
    → any (λ m. str_eq m n) ns ≡ false
    → IsFree p ns taken
    → IsFree p ns ((p ++ n) ∷ taken)
IsFree-cons p n [] taken apart free = tt
IsFree-cons p n (m ∷ ns) taken apart (here, there) =
    let (first, rest) : (str_eq m n ≡ false) × (any (λ k. str_eq k n) ns ≡ false) = ground arith in
    (rw (str_eq-append p m n, first) here, IsFree-cons p n ns taken rest there)

module _ {S : Type 0} {lib : FlagLibrary S} (laws : FlagLaws lib) {O : Type 0} (p : Text) where
  add_flag_ok :
      (f : Flag O) (o : O) (fs fs' : S)
      → lib.define (p ++ f.suffix) fs ≡ some fs'
      → add_flag lib p f (o, fs) ≡ some (f.set_default o, fs')
  unfolding add_flag
  add_flag_ok f o fs fs' done =
      ap {B = Option (O × S)} (Option.map (λ r. (f.set_default o, r))) done

  pub add_flags_ok :
      (fl : List (Flag O)) (o : O) (fs : S)
      → all_distinct (suffixes fl) ≡ true
      → IsFree p (suffixes fl) (lib.names fs)
      → (fs' : S) × (add_flags lib p fl (o, fs) ≡ some (defaults fl o, fs'))
        × (lib.names fs' ≡ defined p fl (lib.names fs))
  unfolding add_flags add_flag all_distinct
  add_flags_ok [] o fs apart free = (fs, refl, refl)
  add_flags_ok (f ∷ fl) o fs apart (here, there) =
      let (first, rest) : (any (λ m. str_eq m f.suffix) (suffixes fl) ≡ false)
          × (all_distinct (suffixes fl) ≡ true) =
        ground arith in
      let (fs1, done, now) = laws.define_new (p ++ f.suffix) fs here in
      let free' : IsFree p (suffixes fl) (lib.names fs1) =
        rw now (IsFree-cons p f.suffix (suffixes fl) (lib.names fs) first there) in
      let (fs', ok, all) = add_flags_ok fl (f.set_default o) fs1 rest free' in
      (
        fs',
        ap (λ m. m >>= add_flags lib p fl) (add_flag_ok f o fs fs1 done) ∙ ok,
        all ∙ ap (defined p fl) now,
      )

-- No name of a set starts with a prefix.
abbrev pub IsUnused : Text → List Text → Type 0
IsUnused p taken = any (λ n. has_prefix n p) taken ≡ false

not_taken :
    (p n : Text) (taken : List Text) → IsUnused p taken → any (str_eq (p ++ n)) taken ≡ false
not_taken p n [] unused = refl
not_taken p n (t ∷ taken) unused =
    let (first, rest) : (has_prefix t p ≡ false) × IsUnused p taken = ground arith in
    elim (Bool-cases (str_eq (p ++ n) t)) [
      | inl e ↦
          let same : p ++ n ≡ t = (str_eq_iff _ _).0 e in
          let starts : has_prefix t p ≡ true =
            ap (λ s. has_prefix s p) (sym same) ∙ has_prefix_append p n in
          cc
      | inr e ↦ rw e (not_taken p n taken rest)
    ]

pub IsUnused-IsFree : (p : Text) (ns taken : List Text) → IsUnused p taken → IsFree p ns taken
IsUnused-IsFree p [] taken unused = tt
IsUnused-IsFree p (n ∷ ns) taken unused =
    (not_taken p n taken unused, IsUnused-IsFree p ns taken unused)

pub IsUnused-append : (p q : Text) (taken : List Text) → IsUnused p taken → IsUnused (p ++ q) taken
IsUnused-append p q [] unused = refl
IsUnused-append p q (t ∷ taken) unused =
    let (first, rest) : (has_prefix t p ≡ false) × IsUnused p taken = ground arith in
    elim (Bool-cases (has_prefix t (p ++ q))) [
      | inl e ↦
          let (u, cut) = has_prefix_sound t (p ++ q) e in
          let starts : has_prefix t p ≡ true =
            ap (λ s. has_prefix s p) (cut ∙ append_assoc p q u) ∙ has_prefix_append p (q ++ u) in
          cc
      | inr e ↦ rw e (IsUnused-append p q taken rest)
    ]

-- Names that differ from some names after `q`.
unfoldable pub apart_from : Text → List Text → List Text → Bool
apart_from q ns [] = true
apart_from q ns (m ∷ ms) = not (any (λ n. str_eq n (q ++ m)) ns) && apart_from q ns ms

pub IsFree-defined :
    {O : Type 0} (p q : Text) (ns : List Text) (fl : List (Flag O)) (taken : List Text)
    → apart_from q ns (suffixes fl) ≡ true
    → IsFree p ns taken
    → IsFree p ns (defined (p ++ q) fl taken)
unfolding apart_from
IsFree-defined p q ns [] taken apart free = free
IsFree-defined p q ns (f ∷ fl) taken apart free =
    let (first, rest) : (any (λ n. str_eq n (q ++ f.suffix)) ns ≡ false)
        × (apart_from q ns (suffixes fl) ≡ true) =
      ground arith in
    IsFree-defined p q ns fl ((p ++ q ++ f.suffix) ∷ taken) rest
      (rw (append_assoc p q f.suffix) (IsFree-cons p (q ++ f.suffix) ns taken first free))
