-- ===== src/Version/Dynamic.antt =====
-- version/dynamic.go: the version that a running program may be given; `none` is a panic.
pub mod Accepted
use linhub.Base.{
  Option, Text, codes, if◌then◌else◌, is_empty, none, some, str_eq, ◌&&◌, ◌==◌, ◌>>=◌,
}
use linhub.Version.{Version, major, minor, patch}
use linhub.Version.Parse.{Attempt, ParseError, accepted, parse_semantic, refused}

pub data DynamicError : Type 0 where
  empty_version : DynamicError
  unparsable : ParseError → DynamicError
  mismatch : DynamicError

placeholder : Text
placeholder = codes "v0.0.0-master+$Format:%H$"

-- What the default is parsed from.
unfoldable pub default_text : Text → Text
unfolding placeholder
default_text default' = if str_eq default' placeholder then codes "v0.0.0-master" else default'

same_later : Version → Version → Option (Option DynamicError)
same_later v d = do
  b ← minor v
  b' ← minor d
  if (b == b') && (patch v == patch d) then some none else some (some mismatch)

-- The comparison of the three numbers.
same_numbers : Version → Version → Option (Option DynamicError)
unfolding same_later
same_numbers v d = do
  a ← major v
  a' ← major d
  if a == a' then same_later v d else some (some mismatch)

with_default : Version → Attempt Version → Option (Option DynamicError)
unfolding same_numbers
with_default v (refused e) = some (some (unparsable e))
with_default v (accepted d) = same_numbers v d

with_runtime : Attempt Version → Attempt Version → Option (Option DynamicError)
unfolding with_default
with_runtime (refused e) d = some (some (unparsable e))
with_runtime (accepted v) d = with_default v d

-- validateDynamicVersion: the error, if there is one.
unfoldable pub validate_dynamic_version : Text → Text → Option (Option DynamicError)
unfolding with_runtime default_text
validate_dynamic_version dynamic default' =
    if is_empty dynamic
    then some (some empty_version)
    else if str_eq dynamic default'
    then some none
    else with_runtime (parse_semantic dynamic) (parse_semantic (default_text default'))

stored_after : Text → Text → Option DynamicError → Text
stored_after dynamic stored none = dynamic
stored_after dynamic stored (some e) = stored

-- SetDynamicVersion: the stored version afterwards, and the error.
unfoldable pub set_dynamic_version : Text → Text → Text → Option (Text × Option DynamicError)
unfolding stored_after
set_dynamic_version git_version dynamic stored = do
  e ← validate_dynamic_version dynamic git_version
  some (stored_after dynamic stored e, e)
