-- ===== src/Version/Parse.antt =====
-- util/version/version.go: parse, and the functions that parse.
use linhub.Base.{
  Bool, List, Option, Text, [], false, has_prefix, if◌then◌else◌, is_digit, is_empty, leb, length,
  ltb, none, not, parse_uint, some, split, str_eq, true, ℕ, ◌&&◌, ◌==◌, ◌||◌, ◌∷◌,
}
use linhub.Version.{Version, compare_internal}
use Prim.Native.Nat.{Ordering}

pub data ParseError : Type 0 where
  could_not_parse : ParseError
  illegal_version : ParseError
  zero_prefixed : Text → ParseError
  non_numeric : Text → ParseError
  bad_extra : Text → ParseError

-- What a function of the package returns: an error or a result.
pub data Attempt (A : Type 0) : Type 0 where
  refused : ParseError → Attempt A
  accepted : A → Attempt A

infixl 20 ◌>>=◌
abbrev pub ◌>>=◌ : {A B : Type 0} → Attempt A → (A → Attempt B) → Attempt B
refused why >>= next = refused why
accepted x >>= next = next x

-- The class \s of the expressions.
abbrev pub is_space : ℕ → Bool
is_space c = (c == 32) || ((leb 9 c && leb c 10) || (leb 12 c && leb c 13))

unfoldable pub skip_spaces : Text → Text
skip_spaces [] = []
skip_spaces (c ∷ s) = let rest = skip_spaces s in if is_space c then rest else c ∷ s

abbrev drop_v : Text → Text
drop_v [] = []
drop_v (c ∷ s) = if c == 118 then s else c ∷ s

abbrev pub starts_digit : Text → Bool
starts_digit [] = false
starts_digit (c ∷ s) = is_digit c

-- From a digit on: the numbers joined by dots, and what follows.
unfoldable pub numbers_from : Text → Text × Text
numbers_from [] = ([], [])
numbers_from (c ∷ s) =
    let rest = numbers_from s in
    if is_digit c || ((c == 46) && starts_digit s) then (c ∷ rest.0, rest.1) else ([], c ∷ s)

-- No dot of the expression stands for a line feed.
unfoldable pub one_line : Text → Bool
one_line [] = true
one_line (c ∷ s) = not (c == 10) && one_line s

-- versionMatchRE: the numbers and the rest.
unfoldable pub match_version : Text → Attempt (Text × Text)
match_version str =
    let s = drop_v (skip_spaces str) in
    if starts_digit s && one_line (numbers_from s).1
    then accepted (numbers_from s)
    else refused could_not_parse

abbrev pub is_identifier_char : ℕ → Bool
is_identifier_char c =
    is_digit c || ((leb 65 c && leb c 90) || ((leb 97 c && leb c 122) || (c == 45)))

-- The longest run of identifier characters and dots, and what follows.
unfoldable pub identifiers_from : Text → Text × Text
identifiers_from [] = ([], [])
identifiers_from (c ∷ s) =
    let rest = identifiers_from s in
    if is_identifier_char c || (c == 46) then (c ∷ rest.0, rest.1) else ([], c ∷ s)

unfoldable pub all_nonempty : List Text → Bool
all_nonempty [] = true
all_nonempty (p ∷ ps) = not (is_empty p) && all_nonempty ps

-- An optional part of extraMatchRE: the mark and identifiers joined by dots.
abbrev pub optional_part : ℕ → Text → Text × Text
optional_part mark [] = ([], [])
optional_part mark (c ∷ s) =
    if (c == mark) && all_nonempty (split 46 (identifiers_from s).0)
    then identifiers_from s
    else ([], c ∷ s)

-- extraMatchRE: the pre-release and the build metadata.
unfoldable pub match_extra : Text → Attempt (Text × Text)
match_extra extra =
    let pre = optional_part 45 extra in
    let build = optional_part 43 pre.1 in
    if is_empty (skip_spaces build.1) then accepted (pre.0, build.0) else refused (bad_extra extra)

abbrev pub has_zero_prefix : Text → Bool
has_zero_prefix s = has_prefix s (48 ∷ []) && not (str_eq s (48 ∷ []))

abbrev pub number_of : Text → Option ℕ → Attempt ℕ
number_of comp none = refused (non_numeric comp)
number_of comp (some n) = accepted n

-- The loop over the components; `strict` is `i == 0 || semver`.
unfoldable pub parse_components : Bool → Bool → List Text → Attempt (List ℕ)
parse_components strict semver [] = accepted []
parse_components strict semver (comp ∷ comps) =
    let rest = parse_components semver semver comps in
    if strict && has_zero_prefix comp
    then refused (zero_prefixed comp)
    else number_of comp (parse_uint comp) >>= λ n. rest >>= λ ns. accepted (n ∷ ns)

abbrev pub is_some : Option ℕ → Bool
is_some none = false
is_some (some n) = true

-- The loop over the identifiers of the pre-release.
unfoldable pub check_identifiers : List Text → Attempt (Unit {0})
check_identifiers [] = accepted tt
check_identifiers (comp ∷ comps) =
    let rest = check_identifiers comps in
    if is_some (parse_uint comp) && has_zero_prefix comp then refused (zero_prefixed comp) else rest

abbrev pub made : List ℕ → Bool → Text × Text → Version
made ns semver parts = record {
  components = ns;
  semver = semver;
  pre_release = parts.0;
  build_metadata = parts.1;
}

abbrev pub checked : List ℕ → Bool → Text × Text → Attempt Version
checked ns semver parts =
    check_identifiers (split 46 parts.0) >>= λ _. accepted (made ns semver parts)

-- The end of parse, for the components that were read.
unfoldable pub parse_extra : Bool → Text → List ℕ → Attempt Version
parse_extra semver extra ns =
    if semver && not (is_empty extra)
    then match_extra extra >>= checked ns semver
    else accepted (made ns semver ([], []))

unfoldable pub wrong_length : Bool → ℕ → Bool
wrong_length semver n = (semver && not (n == 3)) || (not semver && ltb n 2)

unfoldable pub parse : Text → Bool → Attempt Version
unfolding match_version parse_components parse_extra wrong_length
parse str semver = match_version str >>= λ (numbers, extra).
    let comps = split 46 numbers in
    if wrong_length semver (length comps)
    then refused illegal_version
    else parse_components true semver comps >>= parse_extra semver extra

unfoldable pub parse_generic : Text → Attempt Version
parse_generic str = parse str false

unfoldable pub parse_semantic : Text → Attempt Version
parse_semantic str = parse str true

or_panic : Attempt Version → Option Version
or_panic (refused why) = none
or_panic (accepted v) = some v

-- MustParseGeneric and MustParseSemantic; `none` is a panic.
unfoldable pub must_parse_generic : Text → Option Version
unfolding or_panic
must_parse_generic str = or_panic (parse_generic str)

unfoldable pub must_parse_semantic : Text → Option Version
unfolding or_panic
must_parse_semantic str = or_panic (parse_semantic str)

-- Compare with a text.
unfoldable pub compare_text : Version → Text → Attempt Ordering
compare_text v other = parse other v.semver >>= λ o. accepted (compare_internal v o)
