-- ===== src/Token/Parsing.antt =====
-- token/token.go: reading tokens.
use linhub.Base.{Bool, Option, Text, false, if◌then◌else◌, is_empty, none, some, true, ◌>>=◌}
use linhub.Token.{
  Claims, Config, Parsed, Request, Result, TokenError, accepted, empty_token, extract_identity,
  extract_token, fails, invalid_key, invalid_token_claims, key_for, library, path_skipped, refused,
  returns, should_skip_request, signature_invalid,
}

-- GetClaims and ParseWithKey after jwt.Parse.
unfoldable pub claims_parsed : Parsed → Result Claims
claims_parsed (refused e) = fails (library e)
claims_parsed (accepted false claims) = fails signature_invalid
claims_parsed (accepted true none) = fails invalid_token_claims
claims_parsed (accepted true (some claims)) = returns claims

-- Parse after jwt.Parse: the error, if there is one.
unfoldable pub error_parsed : Parsed → Option TokenError
error_parsed (refused e) = some (library e)
error_parsed (accepted false claims) = some signature_invalid
error_parsed (accepted true claims) = none

-- ParseIdentity after jwt.Parse.
unfoldable pub identity_parsed : Config → Parsed → Result Text
unfolding extract_identity
identity_parsed c (refused e) = fails (library e)
identity_parsed c (accepted false claims) = fails signature_invalid
identity_parsed c (accepted true none) = fails invalid_token_claims
identity_parsed c (accepted true (some claims)) = extract_identity c claims

module _ (parse : Text → (Bool → Option Text) → Parsed) (c : Config) where
  unfoldable pub parse_identity : Text → Text → Result Text
  unfolding identity_parsed
  parse_identity token key =
      if is_empty token
      then fails empty_token
      else if is_empty key
      then fails invalid_key
      else identity_parsed c (parse token (key_for key))

  unfoldable pub with_token : Result Text → Result Text
  unfolding parse_identity
  with_token (fails e) = fails e
  with_token (returns token) = parse_identity token c.key

  -- ParseRequestIgnoreSkip.
  unfoldable pub parse_request_ignore_skip : Request → Result Text
  unfolding with_token extract_token
  parse_request_ignore_skip rq = with_token (extract_token rq)

  -- ParseRequest.
  unfoldable pub parse_request : Request → Option (Result Text)
  unfolding should_skip_request parse_request_ignore_skip
  parse_request rq = should_skip_request c rq >>= λ skip.
      if skip then some (fails path_skipped) else some (parse_request_ignore_skip rq)

  unfoldable pub parse_with_key : Text → Text → Result Claims
  unfolding claims_parsed
  parse_with_key token key =
      if is_empty token
      then fails empty_token
      else if is_empty key
      then fails invalid_key
      else claims_parsed (parse token (key_for key))

  unfoldable pub get_claims : Text → Result Claims
  unfolding claims_parsed
  get_claims token =
      if is_empty token
      then fails empty_token
      else if is_empty c.key
      then fails invalid_key
      else claims_parsed (parse token (key_for c.key))

  -- Parse.
  unfoldable pub check : Text → Option TokenError
  unfolding error_parsed
  check token =
      if is_empty token
      then some empty_token
      else if is_empty c.key
      then some invalid_key
      else error_parsed (parse token (key_for c.key))
