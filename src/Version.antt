-- ===== src/Version.antt =====
-- util/version/version.go: version numbers. The two regular expressions are read as what they match:
-- the first takes the longest run of numbers joined by dots, the second the longest run of
-- identifiers. A uint has 64 bits, and -1, 0 and 1 are lt, eq and gt.
pub mod Parse
pub mod Parsed
pub mod Order
pub mod Scan
pub mod Numbers
pub mod RoundTrip
pub mod Highest
pub mod Dynamic
mod Examples
use linhub.Base.{
  Bool, List, Option, Text, [], decimal, false, get_elem?, get_or, if◌then◌else◌, length, ltb, none,
  not, parse_uint, some, split, str_eq, str_lt, true, ℕ, ◌&&◌, ◌++◌, ◌==◌, ◌>>=◌, ◌||◌, ◌∷◌,
}
use Prim.Native.Nat.{Ordering}
use Prim.Native.Nat.Ordering.{lt, eq, gt}

pub record Version : Type 0 where
  pub components : List ℕ
  pub semver : Bool
  pub pre_release : Text
  pub build_metadata : Text

-- Major, Minor and Patch; an index out of range panics.
unfoldable pub major : Version → Option ℕ
major v = get_elem? v.components 0

unfoldable pub minor : Version → Option ℕ
minor v = get_elem? v.components 1

unfoldable pub patch : Version → ℕ
patch v = if ltb (length v.components) 3 then 0 else get_or v.components 2 0

-- MajorMinor.
unfoldable pub major_minor : ℕ → ℕ → Version
major_minor a b = record {
  components = a ∷ b ∷ [];
  semver = false;
  pre_release = [];
  build_metadata = [];
}

-- The copies with one part changed.
unfoldable pub with_major : ℕ → Version → Option Version
unfolding minor patch
with_major n v = do b ← minor v; some (record v { components = n ∷ b ∷ patch v ∷ [] })

unfoldable pub with_minor : ℕ → Version → Option Version
unfolding major patch
with_minor n v = do a ← major v; some (record v { components = a ∷ n ∷ patch v ∷ [] })

unfoldable pub with_patch : ℕ → Version → Option Version
unfolding major minor
with_patch n v = do a ← major v; b ← minor v; some (record v { components = a ∷ b ∷ n ∷ [] })

unfoldable pub with_pre_release : Text → Version → Option Version
unfolding major minor patch
with_pre_release s v = do
  a ← major v
  b ← minor v
  some (record v { components = a ∷ b ∷ patch v ∷ []; pre_release = s })

unfoldable pub with_build_metadata : Text → Version → Option Version
unfolding major minor patch
with_build_metadata s v = do
  a ← major v
  b ← minor v
  some (record v { components = a ∷ b ∷ patch v ∷ []; build_metadata = s })

-- The loop of String over the components from the second on.
dotted : List ℕ → Text
dotted [] = []
dotted (n ∷ ns) = 46 ∷ (decimal n ++ dotted ns)

pub numbers_text : List ℕ → Text
unfolding dotted
numbers_text [] = []
numbers_text (n ∷ ns) = decimal n ++ dotted ns

marked : ℕ → Text → Text
marked mark [] = []
marked mark (c ∷ s) = mark ∷ c ∷ s

-- String of a pointer that is not nil.
unfoldable pub to_string : Version → Text
unfolding numbers_text marked
to_string v = numbers_text v.components ++ (marked 45 v.pre_release ++ marked 43 v.build_metadata)

-- onlyZeros.
unfoldable pub only_zeros : List ℕ → Bool
only_zeros [] = true
only_zeros (n ∷ ns) = (n == 0) && only_zeros ns

-- The part of compareInternal on the components: the common places, then the rest of the longer.
unfoldable pub compare_components : List ℕ → List ℕ → Ordering
unfolding only_zeros
compare_components [] [] = eq
compare_components (x ∷ xs) [] = if only_zeros (x ∷ xs) then eq else gt
compare_components [] (y ∷ ys) = if only_zeros (y ∷ ys) then eq else lt
compare_components (x ∷ xs) (y ∷ ys) =
    if ltb y x then gt else if ltb x y then lt else compare_components xs ys

-- Two identifiers as texts; `eq` goes on to the next ones.
compare_texts : Text → Text → Ordering
compare_texts a b = if str_lt b a then gt else if str_lt a b then lt else eq

compare_numbers : ℕ → ℕ → Ordering
compare_numbers m n = if ltb n m then gt else if ltb m n then lt else eq

compare_parsed : Option ℕ → Option ℕ → Text → Text → Ordering
unfolding compare_texts compare_numbers
compare_parsed (some m) (some n) a b = compare_numbers m n
compare_parsed (some m) none a b = compare_texts a b
compare_parsed none _ a b = compare_texts a b

abbrev pub then_compare : Ordering → Ordering → Ordering
then_compare lt next = lt
then_compare eq next = next
then_compare gt next = gt

-- The loop over the identifiers, and then their numbers.
compare_identifiers : List Text → List Text → Ordering
unfolding compare_parsed
compare_identifiers [] [] = eq
compare_identifiers (a ∷ as') [] = gt
compare_identifiers [] (b ∷ bs) = lt
compare_identifiers (a ∷ as') (b ∷ bs) =
    then_compare (compare_parsed (parse_uint a) (parse_uint b) a b) (compare_identifiers as' bs)

compare_pre_releases : Text → Text → Ordering
unfolding compare_identifiers
compare_pre_releases [] [] = eq
compare_pre_releases [] (c ∷ t) = gt
compare_pre_releases (b ∷ s) [] = lt
compare_pre_releases (b ∷ s) (c ∷ t) =
    if str_eq (b ∷ s) (c ∷ t) then eq else compare_identifiers (split 46 (b ∷ s)) (split 46 (c ∷ t))

unfoldable pub compare_internal : Version → Version → Ordering
unfolding compare_components compare_pre_releases
compare_internal v o =
    then_compare (compare_components v.components o.components) (
      if not v.semver || not o.semver then eq else compare_pre_releases v.pre_release o.pre_release)

abbrev pub is_lt : Ordering → Bool
is_lt lt = true
is_lt eq = false
is_lt gt = false

unfoldable pub less_than : Version → Version → Bool
less_than v o = is_lt (compare_internal v o)

unfoldable pub at_least : Version → Version → Bool
at_least v m = not (is_lt (compare_internal v m))
