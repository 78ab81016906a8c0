-- ===== src/Authn.antt =====
-- authn/jwt/jwt.go and authn/jwt/token.go: the authenticator. The jwt library, the hash, the clock and
-- the store are parameters. A time is a number of nanoseconds, and `none` is a panic. An error is named by its
-- message, which is translated elsewhere.
pub mod Blacklist
pub mod Redis
pub mod RoundTrip
mod Examples
use linhub.Base.{
  Bool, List, Option, Text, [], codes, if◌then◌else◌, is_empty, leb_ℤ, map, none, not, pos, some, ℕ,
  ℤ, ◌+ℤ◌, ◌-ℤ◌, ◌==◌, ◌||◌, ◌∷◌,
}
use mathlib.Core.Option

-- A function that looks up the key: one that is given, or that of New for a signing key, which
-- accepts only HMAC methods.
pub data Keyfunc : Type 0 where
  given_keyfunc : ℕ → Keyfunc
  hmac_keyfunc : Text → Keyfunc

pub record Config : Type 0 where
  pub signing_method : ℕ
  pub signing_key : Option Text
  pub keyfunc : Option Keyfunc
  pub issuer : Text
  pub expired : ℤ
  pub token_type : Text
  pub token_header : Option (List (Text × ℕ))

-- jwt.RegisteredClaims, for the fields that the code sets or reads.
pub record Claims : Type 0 where
  pub issuer : Text
  pub issued_at : Option ℤ
  pub expires_at : Option ℤ
  pub not_before : Option ℤ
  pub subject : Text

-- What jwt.ParseWithClaims gives. Of a validation error only three bits are read.
pub data Parsed : Type 0 where
  other_failure : Text → Parsed
  validation_failure : Bool → Bool → Bool → Parsed
  parsed_token : Bool → ℕ → Claims → Parsed

-- The library, the hash, and the method HS256. A token is parsed at a time.
pub record Library : Type 0 where
  pub hs256 : ℕ
  pub numeric_date : ℤ → ℤ
  pub signed_string : ℕ → Claims → Option (List (Text × ℕ)) → Option Text → Option Text
  pub parse_with_claims : ℤ → Option Keyfunc → Text → Parsed
  pub hash_token : Text → Text
  pub unix : ℤ → ℤ

pub data AuthError : Type 0 where
  token_invalid : AuthError
  token_expired : AuthError
  token_parse_fail : AuthError
  unsupported_signing_method : AuthError
  sign_token_failed : AuthError
  library_error : Text → AuthError
  store_error : ℕ → AuthError

pub data Result (A : Type 0) : Type 0 where
  fails : AuthError → Result A
  returns : A → Result A

-- The interface Storer; each call is made at a time.
pub record Storer (S : Type 0) : Type 0 where
  pub set : ℤ → Text → ℤ → S → Option ℕ × S
  pub delete : ℤ → Text → S → (Bool × Option ℕ) × S
  pub check : ℤ → Text → S → (Bool × Option ℕ) × S
  pub close : S → Option ℕ × S

abbrev pub default_options : Library → Config
default_options lib = record {
  signing_method = lib.hs256;
  signing_key = none;
  keyfunc = none;
  issuer = [];
  expired = pos 7200000000000;
  token_type = codes "Bearer";
  token_header = none;
}

-- The options.
unfoldable pub with_signing_method : ℕ → Config → Config
with_signing_method method c = record c { signing_method = method }

unfoldable pub with_issuer : Text → Config → Config
with_issuer issuer c = record c { issuer = issuer }

unfoldable pub with_signing_key : Text → Config → Config
with_signing_key key c = record c { signing_key = some key }

unfoldable pub with_keyfunc : ℕ → Config → Config
with_keyfunc f c = record c { keyfunc = some (given_keyfunc f) }

unfoldable pub with_expired : ℤ → Config → Config
with_expired d c = record c { expired = d }

unfoldable pub with_token_header : List (Text × ℕ) → Config → Config
with_token_header header c = record c { token_header = some header }

apply_options : List (Config → Config) → Config → Config
apply_options [] c = c
apply_options (f ∷ fs) c = apply_options fs (f c)

default_keyfunc : Option Text → Option Keyfunc → Option Keyfunc
default_keyfunc key (some f) = some f
default_keyfunc (some key) none = some (hmac_keyfunc key)
default_keyfunc none none = none

-- New.
unfoldable pub new_auth : Library → List (Config → Config) → Config
unfolding apply_options default_keyfunc
new_auth lib opts =
    let o = apply_options opts (default_options lib) in
    record o { keyfunc = default_keyfunc o.signing_key o.keyfunc }

pub record TokenInfo : Type 0 where
  pub token : Text
  pub token_type : Text
  pub expires_at : ℤ

-- The claims of Sign.
unfoldable pub sign_claims : Library → Config → ℤ → Text → Claims
sign_claims lib c now user = record {
  issuer = c.issuer;
  issued_at = some (lib.numeric_date now);
  expires_at = some (lib.numeric_date (now +ℤ c.expired));
  not_before = some (lib.numeric_date now);
  subject = user;
}

token_info : Library → Config → ℤ → Option Text → Result TokenInfo
token_info lib c now none = fails sign_token_failed
token_info lib c now (some t) =
    returns
      (record { token = t; token_type = c.token_type; expires_at = lib.unix (now +ℤ c.expired) })

unfoldable pub sign : Library → Config → ℤ → Text → Result TokenInfo
unfolding sign_claims token_info
sign lib c now user =
    token_info lib c now
      (lib.signed_string c.signing_method (sign_claims lib c now user) c.token_header c.signing_key)

unfoldable pub token_parsed : Config → Parsed → Result Claims
token_parsed c (other_failure message) = fails (library_error message)
token_parsed c (validation_failure malformed expired not_valid_yet) =
    if malformed
    then fails token_invalid
    else if expired || not_valid_yet
    then fails token_expired
    else fails token_parse_fail
token_parsed c (parsed_token valid method claims) =
    if not valid
    then fails token_invalid
    else if not (method == c.signing_method)
    then fails unsupported_signing_method
    else returns claims

unfoldable pub parse_token : Library → Config → ℤ → Text → Result Claims
unfolding token_parsed
parse_token lib c now t = token_parsed c (lib.parse_with_claims now c.keyfunc t)

module _ {S : Type 0} (lib : Library) (c : Config) (store : Option (Storer S)) where
  unfoldable pub set_until : Storer S → ℤ → Text → ℤ → S → Option AuthError × S
  set_until st now t expired s =
      let r = st.set now (lib.hash_token t) expired s in
      if leb_ℤ expired (pos 0) then (none, s) else (Option.map store_error r.0, r.1)

  -- The function that Destroy gives to callStore; the expiry is read without a test.
  unfoldable pub destroy_in :
      Option (Storer S) → ℤ → Text → Option ℤ → S → Option (Option AuthError × S)
  unfolding set_until
  destroy_in none now t e s = some (none, s)
  destroy_in (some st) now t none s = none
  destroy_in (some st) now t (some e) s = some (set_until st now t (e -ℤ now) s)

  unfoldable pub destroy_parsed : ℤ → Text → Result Claims → S → Option (Option AuthError × S)
  unfolding destroy_in
  destroy_parsed now t (fails e) s = some (some e, s)
  destroy_parsed now t (returns claims) s = destroy_in store now t claims.expires_at s

  -- Destroy; the token is parsed at the first time, and the rest of its life is taken at the second.
  unfoldable pub destroy : ℤ → ℤ → Text → S → Option (Option AuthError × S)
  unfolding parse_token destroy_parsed
  destroy now now' t s = destroy_parsed now' t (parse_token lib c now t) s

  unfoldable pub answer : Claims → (Bool × Option ℕ) × S → Result Claims × S
  answer claims ((exists, some e), s) = (fails (store_error e), s)
  answer claims ((exists, none), s) =
      if exists then (fails token_invalid, s) else (returns claims, s)

  unfoldable pub check_in : Option (Storer S) → ℤ → Text → Claims → S → Result Claims × S
  unfolding answer
  check_in none now t claims s = (returns claims, s)
  check_in (some st) now t claims s = answer claims (st.check now (lib.hash_token t) s)

  unfoldable pub claims_parsed : ℤ → Text → Result Claims → S → Result Claims × S
  unfolding check_in
  claims_parsed now t (fails e) s = (fails e, s)
  claims_parsed now t (returns claims) s = check_in store now t claims s

  -- ParseClaims; the store is asked at the second time.
  unfoldable pub parse_claims : ℤ → ℤ → Text → S → Result Claims × S
  unfolding parse_token claims_parsed
  parse_claims now now' t s =
      if is_empty t
      then (fails token_invalid, s)
      else claims_parsed now' t (parse_token lib c now t) s

  release_in : Option (Storer S) → S → Option ℕ × S
  release_in none s = (none, s)
  release_in (some st) s = st.close s

  -- Release.
  unfoldable pub release : S → Option ℕ × S
  unfolding release_in
  release s = release_in store s
