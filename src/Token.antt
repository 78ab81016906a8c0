-- ===== src/Token.antt =====
-- token/token.go: the configuration of the package, signing, and the identity of a request. What
-- the jwt library and the clock do is a parameter. The header's fields are those between ASCII
-- spaces.
pub mod Paths
pub mod Parsing
pub mod Signing
pub mod Identity
pub mod Custom
mod Examples
use linhub.Base.{
  Bool, List, Option, Text, [], codes, false, if◌then◌else◌, is_empty, leb, ltb_ℤ, map, none, not,
  pos, some, str_eq, to_upper, true, upper, ℕ, ℤ, ◌&&◌, ◌++◌, ◌==◌, ◌||◌, ◌∷◌,
}
use linhub.Token.Paths.{should_skip_path}
use mathlib.Core.List.{reverse}

pub data Method : Type 0 where
  hs256 : Method
  hs384 : Method
  hs512 : Method

-- Config; the expiration is in nanoseconds.
pub record Config : Type 0 where
  pub key : Text
  pub identity_key : Text
  pub expiration : ℤ
  pub skip_paths : List Text
  pub method : Option Method

-- The package's configuration before Init, and after Reset.
abbrev pub initial_config : Config
initial_config = record {
  key = [];
  identity_key = [];
  expiration = pos 7200000000000;
  skip_paths = [];
  method = some hs256;
}

abbrev pub reset_config : Config
reset_config = record initial_config { identity_key = codes "identityKey" }

-- The options.
unfoldable pub with_key : Text → Config → Config
with_key key c = if is_empty key then c else record c { key = key }

unfoldable pub with_identity_key : Text → Config → Config
with_identity_key key c = record c { identity_key = key }

unfoldable pub with_expiration : ℤ → Config → Config
with_expiration d c = if ltb_ℤ (pos 0) d then record c { expiration = d } else c

unfoldable pub with_signing_method : Text → Config → Config
with_signing_method name c =
    let capital = to_upper name in
    if str_eq capital (codes "HS256")
    then record c { method = some hs256 }
    else if str_eq capital (codes "HS384")
    then record c { method = some hs384 }
    else if str_eq capital (codes "HS512")
    then record c { method = some hs512 }
    else c

-- WithSkipPaths and WithSkipPathsPattern.
unfoldable pub with_skip_paths : List Text → Config → Config
with_skip_paths paths c = record c { skip_paths = c.skip_paths ++ paths }

apply_options : List (Config → Config) → Config → Config
apply_options [] c = c
apply_options (f ∷ fs) c = apply_options fs (f c)

-- Init.
unfoldable pub init : Text → List (Config → Config) → Config → Config
unfolding with_key apply_options
init key opts c = apply_options opts (with_key key c)

-- The errors; `library` carries one of the jwt or gRPC library.
pub data TokenError : Type 0 where
  missing_identity_key : TokenError
  invalid_identity_key : TokenError
  empty_token : TokenError
  empty_auth_header : TokenError
  malformed_auth_header : TokenError
  invalid_token_claims : TokenError
  path_skipped : TokenError
  signing_key_not_set : TokenError
  invalid_key : TokenError
  signature_invalid : TokenError
  library : ℕ → TokenError

-- A result and an error: with an error the result has its zero value.
pub data Result (A : Type 0) : Type 0 where
  fails : TokenError → Result A
  returns : A → Result A

-- A value among the claims: a string, or another value, which is only carried.
pub data Claim : Type 0 where
  text_claim : Text → Claim
  number_claim : ℤ → Claim
  other_claim : ℕ → Claim

abbrev pub Claims : Type 0
Claims = List (Text × Claim)

unfoldable pub get_claim : Text → Claims → Option Claim
get_claim k [] = none
get_claim k ((j, v) ∷ m) = if str_eq j k then some v else get_claim k m

unfoldable pub set_claim : Text → Claim → Claims → Claims
set_claim k v [] = (k, v) ∷ []
set_claim k v ((j, w) ∷ m) = if str_eq j k then (k, v) ∷ m else (j, w) ∷ set_claim k v m

-- What jwt.Parse makes of a string: an error, or a token with its validity and its claims, if
-- they are a map.
pub data Parsed : Type 0 where
  refused : ℕ → Parsed
  accepted : Bool → Option Claims → Parsed

-- The key function: a key for a token with an HMAC method.
abbrev pub key_for : Text → Bool → Option Text
key_for key true = some key
key_for key false = none

-- extractIdentity.
identity_of : Option Claim → Result Text
identity_of none = fails missing_identity_key
identity_of (some (text_claim s)) = if is_empty s then fails invalid_identity_key else returns s
identity_of (some (number_claim _)) = fails invalid_identity_key
identity_of (some (other_claim _)) = fails invalid_identity_key

unfoldable pub extract_identity : Config → Claims → Result Text
unfolding identity_of get_claim
extract_identity c claims =
    if is_empty c.identity_key then returns [] else identity_of (get_claim c.identity_key claims)

is_space : ℕ → Bool
is_space b = (b == 32) || (leb 9 b && leb b 13)

-- strings.Fields: the field being read, in reverse, and those after it.
fields_from : Text → Text → List Text
unfolding is_space
fields_from field [] = if is_empty field then [] else reverse field ∷ []
fields_from field (b ∷ s) =
    let ended = fields_from [] s in
    let longer = fields_from (b ∷ field) s in
    if is_space b then (if is_empty field then ended else reverse field ∷ ended) else longer

-- No letter of "Bearer" is the case of a rune outside ASCII, so strings.EqualFold works by bytes.
bearer_token : List Text → Result Text
unfolding upper
bearer_token (scheme ∷ token ∷ []) =
    if not (str_eq (map upper scheme) (codes "BEARER"))
    then fails malformed_auth_header
    else if is_empty token
    then fails empty_token
    else returns token
bearer_token [] = fails malformed_auth_header
bearer_token (scheme ∷ []) = fails malformed_auth_header
bearer_token (scheme ∷ token ∷ more ∷ rest) = fails malformed_auth_header

-- parseAuthorizationHeader.
unfoldable pub parse_authorization_header : Text → Result Text
unfolding fields_from bearer_token
parse_authorization_header header = bearer_token (fields_from [] header)

-- The context of a request: of gin, with the path and the Authorization header, or of gRPC, with
-- what auth.AuthFromMD makes of it.
pub data Request : Type 0 where
  gin_request : Text → Text → Request
  grpc_request : Result Text → Request

-- extractTokenFromRequest.
unfoldable pub extract_token : Request → Result Text
unfolding parse_authorization_header
extract_token (gin_request path header) =
    if is_empty header then fails empty_auth_header else parse_authorization_header header
extract_token (grpc_request token) = token

-- shouldSkipRequestPath.
unfoldable pub should_skip_request : Config → Request → Option Bool
should_skip_request c (gin_request path header) = should_skip_path c.skip_paths path
should_skip_request c (grpc_request token) = some false
