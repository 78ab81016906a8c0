-- ===== src/Token/Paths.antt =====
-- token/token.go: which paths are let through without a token. A slice out of range is `none`.
pub mod Glob
pub mod Skipping
use linhub.Base.{
  Bool, List, Option, Text, [], codes, contains, drop, false, has_prefix, has_suffix, if◌then◌else◌,
  index, is_empty, leb, length, none, not, some, split, str_eq, trim_suffix, true, ℕ, ◌&&◌, ◌+◌,
  ◌>>=◌, ◌∷◌,
}

-- The byte `*`.
abbrev pub star : ℕ
star = 42

-- str[pos:].
slice_from : Text → ℕ → Option Text
slice_from str at = if leb at (length str) then some (drop at str) else none

-- `if index == -1 { return false }`.
abbrev pub when_found : Option ℕ → (ℕ → Option Bool) → Option Bool
when_found none next = some false
when_found (some k) next = next k

-- The loop over the parts between the first and the last, the latter still in the list.
pub match_parts : Text → ℕ → List Text → Option Bool
unfolding slice_from
match_parts str at [] = some true
match_parts str at (q ∷ []) = some true
match_parts str at (q ∷ q' ∷ qs) =
    if is_empty q
    then match_parts str at (q' ∷ qs)
    else slice_from str at >>= λ rest.
        when_found (index rest q) λ k. match_parts str (at + (k + length q)) (q' ∷ qs)

pub last_part : Text → List Text → Text
last_part q [] = q
last_part q (q' ∷ qs) = last_part q' qs

match_split : Text → Text → List Text → Option Bool
unfolding match_parts last_part
match_split str pattern [] = none
match_split str pattern (q ∷ []) = some (str_eq str pattern)
match_split str pattern (q ∷ q' ∷ qs) =
    if not (has_prefix str q)
    then some false
    else if not (is_empty (last_part q' qs)) && not (has_suffix str (last_part q' qs))
    then some false
    else match_parts str (length q) (q' ∷ qs)

-- matchWildcard.
pub match_wildcard : Text → Text → Option Bool
unfolding match_split
match_wildcard str pattern = match_split str pattern (split star pattern)

-- matchPath.
pub match_path : Text → Text → Option Bool
match_path path pattern =
    if str_eq path pattern
    then some true
    else if has_suffix pattern (codes "/*")
    then some (has_prefix path (trim_suffix pattern (codes "/*")))
    else if has_suffix pattern (codes "*")
    then some (has_prefix path (trim_suffix pattern (codes "*")))
    else if contains pattern (codes "*")
    then match_wildcard path pattern
    else some false

-- shouldSkipPath.
unfoldable pub should_skip_path : List Text → Text → Option Bool
should_skip_path [] path = some false
should_skip_path (p ∷ ps) path =
    let rest = should_skip_path ps path in match_path path p >>= λ b. if b then some true else rest
