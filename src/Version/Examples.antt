-- ===== src/Version/Examples.antt =====
-- util/version/version.go and version/dynamic.go: the theorems at concrete versions.
use linhub.Version.Order.Below.{Below, less_than-Below}
use linhub.Version.Highest.Best.{highest_supported_version-IsSupported}
use linhub.Version.Dynamic.Accepted.{
  SameNumbers, Stored, initial, set_dynamic_version-SameNumbers, step,
}
use linhub.Base.{
  List, Text, [], arith, codes, false, has_prefix, inl, none, parse_uint, refl, some, split, str_eq,
  true, ℕ, ◌↔◌, ◌∷◌, ◌≡◌, ◌⊎◌,
}
use linhub.Version.{
  Version, compare_internal, less_than, major, major_minor, minor, patch, to_string,
}
use linhub.Version.Parse.{
  accepted, all_nonempty, check_identifiers, identifiers_from, match_extra, match_version,
  numbers_from, one_line, parse, parse_components, parse_extra, parse_generic, parse_semantic,
  skip_spaces, wrong_length,
}
use linhub.Version.RoundTrip.{IsWellFormed, parse-to_string}
use linhub.Version.Highest.{IsSupported, Offered, found, highest_supported_version}
use linhub.Version.Dynamic.{default_text, set_dynamic_version, validate_dynamic_version}

-- 1.2.3-rc.10+b-7
release : Version
release = record {
  components = 1 ∷ 2 ∷ 3 ∷ [];
  semver = true;
  pre_release = codes "rc.10";
  build_metadata = codes "b-7";
}

two : Version
two = major_minor 1 2

two_one : Version
two_one = record {
  components = 1 ∷ 2 ∷ 1 ∷ [];
  semver = false;
  pre_release = [];
  build_metadata = [];
}

less_than-Below_example : (less_than two two_one ≡ true) ↔ Below two.components two_one.components
unfolding two two_one major_minor
less_than-Below_example = less_than-Below two two_one refl

release-IsWellFormed : IsWellFormed release
unfolding parse_uint split release all_nonempty check_identifiers wrong_length has_prefix str_eq
release-IsWellFormed = record {
  small = omega arith;
  count = refl;
  pre = ((refl, (refl, (refl, (refl, (refl, tt))))), refl);
  checked_pre = refl;
  build = ((refl, (refl, (refl, tt))), refl);
  plain = inl refl;
}

parse-to_string_example : parse (to_string release) release.semver ≡ accepted release
parse-to_string_example = parse-to_string release release-IsWellFormed

texts : List Text
texts = codes "v1.3" ∷ codes "1.12.1" ∷ codes "x" ∷ codes "2.0" ∷ []

version_of : List ℕ → Version
version_of ns = record { components = ns; semver = false; pre_release = []; build_metadata = [] }

highest_of_texts : highest_supported_version texts ≡ some (found (version_of (1 ∷ 12 ∷ 1 ∷ [])))
unfolding texts highest_supported_version version_of parse_generic parse match_version
    parse_components parse_extra skip_spaces one_line numbers_from split has_prefix parse_uint major
    less_than compare_internal wrong_length
highest_of_texts = refl

highest_supported_version-IsSupported_example :
    Offered texts (version_of (1 ∷ 12 ∷ 1 ∷ []))
    × (major (version_of (1 ∷ 12 ∷ 1 ∷ [])) ≡ some 1)
    × ((v : Version)
        → Offered texts v
        → IsSupported v
        → less_than (version_of (1 ∷ 12 ∷ 1 ∷ [])) v ≡ false)
highest_supported_version-IsSupported_example =
    highest_supported_version-IsSupported texts (version_of (1 ∷ 12 ∷ 1 ∷ [])) highest_of_texts

changed : Stored (codes "v1.2.3") (codes "v1.2.3-x")
unfolding set_dynamic_version validate_dynamic_version default_text str_eq parse_semantic parse
    match_version parse_components parse_extra match_extra identifiers_from check_identifiers
    all_nonempty skip_spaces one_line numbers_from split has_prefix parse_uint major minor patch
    wrong_length
changed = step (codes "v1.2.3-x") (codes "v1.2.3") (codes "v1.2.3-x") none initial refl

set_dynamic_version-SameNumbers_example :
    (codes "v1.2.3-x" ≡ codes "v1.2.3")
    ⊎ SameNumbers (codes "v1.2.3-x") (default_text (codes "v1.2.3"))
set_dynamic_version-SameNumbers_example =
    set_dynamic_version-SameNumbers (codes "v1.2.3") (codes "v1.2.3-x") changed
