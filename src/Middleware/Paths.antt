-- ===== src/Middleware/Paths.antt =====
-- middleware/gin/observability.go: which requests are neither traced nor logged. A method is ASCII.
pub mod Edges
use linhub.Base.{
  Bool, List, Option, Text, [], codes, contains, drop, false, has_prefix, has_suffix, if◌then◌else◌,
  length, none, not, some, str_eq, take, to_upper, trim_space, true, ℕ, ◌&&◌, ◌-◌, ◌==◌, ◌∷◌,
}

-- The byte `*`.
abbrev pub star : ℕ
star = 42

-- matchWildcard. The slice between the two stars is empty for the pattern `**`.
unfoldable pub match_wildcard : Text → Text → Bool
match_wildcard text pattern =
    if str_eq pattern (codes "*")
    then true
    else if has_prefix pattern (codes "*") && has_suffix pattern (codes "*")
    then contains text (drop 1 (take (length pattern - 1) pattern))
    else if has_prefix pattern (codes "*")
    then has_suffix text (drop 1 pattern)
    else if has_suffix pattern (codes "*")
    then has_prefix text (take (length pattern - 1) pattern)
    else str_eq text pattern

unfoldable pub match_path_pattern : Text → Text → Bool
match_path_pattern path pattern =
    if str_eq path pattern
    then true
    else if contains pattern (codes "*")
    then match_wildcard path pattern
    else if has_suffix pattern (codes "/")
    then has_prefix path pattern
    else false

-- The two parts of strings.SplitN(s, " ", 2), or one part when there is no space.
unfoldable pub split_at_space : Text → Text × Option Text
split_at_space [] = ([], none)
split_at_space (c ∷ s) =
    let rest = split_at_space s in if c == 32 then ([], some s) else (c ∷ rest.0, rest.1)

match_parts : Text → Text → Text → Text × Option Text → Bool
match_parts request_path method pattern (m, none) = match_path_pattern request_path pattern
match_parts request_path method pattern (m, some p) =
    if not (str_eq (to_upper (trim_space m)) (to_upper method))
    then false
    else match_path_pattern request_path (trim_space p)

-- matchPath: a pattern with a space names a method before its path.
unfoldable pub match_path : Text → Text → Text → Bool
unfolding match_parts split_at_space
match_path request_path method pattern =
    if contains pattern (codes " ")
    then match_parts request_path method pattern (split_at_space pattern)
    else match_path_pattern request_path pattern

unfoldable pub should_skip_path : Text → Text → List Text → Bool
unfolding match_path
should_skip_path path method [] = false
should_skip_path path method (p ∷ ps) =
    let rest = should_skip_path path method ps in if match_path path method p then true else rest
