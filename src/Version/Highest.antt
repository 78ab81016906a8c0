-- ===== src/Version/Highest.antt =====
-- util/version/version.go, HighestSupportedVersion; `none` is a panic of Major.
pub mod Best
use linhub.Base.{
  List, Option, Text, [], if◌then◌else◌, ltb, none, some, ℕ, ◌==◌, ◌>>=◌, ◌∷◌, ◌≡◌, ◌≤◌, ◌⊎◌,
}
use linhub.Version.{Version, less_than, major}
use linhub.Version.Parse.{Attempt, ParseError, accepted, parse_generic, refused}

pub data HighestError : Type 0 where
  empty_array : HighestError
  none_found : List Text → Option ParseError → HighestError
  not_v1 : Version → HighestError

pub data Highest : Type 0 where
  found : Version → Highest
  failed : HighestError → Highest

-- The variables of the loop: the highest version so far, and the last error.
abbrev State : Type 0
State = Option Version × Option ParseError

higher : Option Version → Version → Version
higher none v = v
higher (some h) v = if less_than h v then v else h

-- One round, for what ParseGeneric gives.
round : Attempt Version → State → Option State
unfolding higher
round (refused e) st = some (st.0, some e)
round (accepted v) st = do
  m ← major v
  if ltb 1 m then some st else some (some (higher st.0 v), st.1)

-- The loop goes from the last text to the first.
loop : List Text → Option State
unfolding round
loop [] = some (none, none)
loop (s ∷ ss) = loop ss >>= round (parse_generic s)

conclude : List Text → State → Option Highest
conclude versions (none, e) = some (failed (none_found versions e))
conclude versions (some h, e) = do
  m ← major h
  if m == 1 then some (found h) else some (failed (not_v1 h))

unfoldable pub highest_supported_version : List Text → Option Highest
unfolding loop conclude
highest_supported_version [] = some (failed empty_array)
highest_supported_version (s ∷ ss) = loop (s ∷ ss) >>= conclude (s ∷ ss)

-- A version that one of the texts is parsed as.
abbrev pub Offered : List Text → Version → Type 0
Offered [] v = ⊥
Offered (s ∷ ss) v = (parse_generic s ≡ accepted v) ⊎ Offered ss v

-- A version before v2.
abbrev pub IsSupported : Version → Type 0
IsSupported v = (m : ℕ) × (major v ≡ some m) × (m ≤ 1)
