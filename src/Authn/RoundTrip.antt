-- ===== src/Authn/RoundTrip.antt =====
-- authn/jwt/jwt.go: what Sign makes, ParseClaims reads.
use linhub.Authn.{
  Claims, Config, Library, Result, Storer, TokenInfo, answer, check_in, claims_parsed, fails,
  hmac_keyfunc, parse_claims, parse_token, parsed_token, returns, sign, sign_claims, token_info,
  token_parsed,
}
use linhub.Base.{
  ==_iff, IsAscii, List, Option, Text, [], ap, false, is_empty, leb_ℤ, ltb_ℤ, none, pos, refl, some,
  sym, true, ℕ, ℤ, ◌+ℤ◌, ◌==◌, ◌^◌, ◌∙◌, ◌≡◌,
}

-- The claims that name an issuer and a subject, and three times as the library writes them.
abbrev pub timed_claims : Library → Text → Text → ℤ → ℤ → ℤ → Claims
timed_claims lib issuer subject issued until from = record {
  issuer = issuer;
  issued_at = some (lib.numeric_date issued);
  expires_at = some (lib.numeric_date until);
  not_before = some (lib.numeric_date from);
  subject = subject;
}

-- What the jwt library documents of HS256. A token that is signed is not empty. A token that is signed
-- with a key, without a header of the caller, for ASCII texts and times from 1970 on that fit 63 bits,
-- is valid under that key, and has the claims that were signed, when it is read neither before it was
-- issued, nor before it begins, nor at its expiry or later.
pub record SigningLaws (lib : Library) : Type 0 where
  pub nonempty :
      (claims : Claims) (header : Option (List (Text × ℕ))) (key : Option Text) (t : Text)
      → lib.signed_string lib.hs256 claims header key ≡ some t
      → is_empty t ≡ false
  pub verifies :
      (issuer subject key t : Text) (issued until from later : ℤ)
      → IsAscii issuer
      → IsAscii subject
      → lib.signed_string lib.hs256
          (timed_claims lib issuer subject issued until from)
          none
          (some key)
        ≡ some t
      → leb_ℤ (pos 0) (lib.numeric_date issued) ≡ true
      → leb_ℤ (pos 0) (lib.numeric_date from) ≡ true
      → ltb_ℤ (lib.numeric_date until) (pos (2 ^ 63)) ≡ true
      → leb_ℤ (lib.numeric_date issued) later ≡ true
      → leb_ℤ (lib.numeric_date from) later ≡ true
      → ltb_ℤ later (lib.numeric_date until) ≡ true
      → lib.parse_with_claims later (some (hmac_keyfunc key)) t
        ≡ parsed_token true lib.hs256 (timed_claims lib issuer subject issued until from)

-- A configuration that signs with HS256 and a key, sets no header, and looks up the same key.
pub record SignsWith (lib : Library) (c : Config) (key : Text) : Type 0 where
  pub hs256 : c.signing_method ≡ lib.hs256
  pub signs : c.signing_key ≡ some key
  pub no_header : c.token_header ≡ none
  pub looks_up : c.keyfunc ≡ some (hmac_keyfunc key)

sign-token :
    (lib : Library) (c : Config) (key : Text) (now : ℤ) (user : Text) (info : TokenInfo)
    → SignsWith lib c key
    → sign lib c now user ≡ returns info
    → lib.signed_string lib.hs256 (sign_claims lib c now user) none (some key) ≡ some info.token
unfolding sign token_info
sign-token lib c key now user info w h =
    ap (λ m. lib.signed_string m claims none (some key)) (sym w.hs256)
    ∙ ap (λ h. lib.signed_string c.signing_method claims h (some key)) (sym w.no_header)
    ∙ ap (λ k. lib.signed_string c.signing_method claims c.token_header k) (sym w.signs)
    ∙ go (lib.signed_string c.signing_method claims c.token_header c.signing_key) h
  where
    claims : Claims
    claims = sign_claims lib c now user

    token_of : Result TokenInfo → Text
    token_of (fails e) = []
    token_of (returns i) = i.token

    go : (o : Option Text) → token_info lib c now o ≡ returns info → o ≡ some info.token
    go none h = cc
    go (some t) h = ap (λ r. some (token_of r)) h

-- A token that Sign made for a user is accepted by ParseClaims from the second it was issued until it
-- expires, and gives back the claims it was signed with, the user among them, while the store does not
-- hold it. The conditions are that the authenticator signs with HS256 and a key, sets no header of its
-- own and looks up the same key, that the issuer and the user are ASCII, that the times are from 1970
-- on and fit 63 bits, and that the jwt library keeps its documented laws.
pub parse_claims-sign :
    {S : Type 0} (lib : Library) (c : Config) (st : Storer S) (key user : Text) (now later : ℤ)
    (info : TokenInfo) (s s' : S)
    → SigningLaws lib
    → SignsWith lib c key
    → IsAscii c.issuer
    → IsAscii user
    → sign lib c now user ≡ returns info
    → leb_ℤ (pos 0) (lib.numeric_date now) ≡ true
    → ltb_ℤ (lib.numeric_date (now +ℤ c.expired)) (pos (2 ^ 63)) ≡ true
    → leb_ℤ (lib.numeric_date now) later ≡ true
    → ltb_ℤ later (lib.numeric_date (now +ℤ c.expired)) ≡ true
    → st.check later (lib.hash_token info.token) s ≡ ((false, none), s')
    → (parse_claims lib c (some st) later later info.token s
        ≡ (returns (sign_claims lib c now user), s'))
      × ((sign_claims lib c now user).subject ≡ user)
unfolding parse_claims claims_parsed check_in answer parse_token token_parsed sign_claims
parse_claims-sign lib c st key user now later info s s' laws w ai au h early far from until free =
    let token = sign-token lib c key now user info w h in
    let claims = sign_claims lib c now user in
    let full = laws.nonempty claims none (some key) info.token token in
    let valid =
      laws.verifies c.issuer user key info.token now (now +ℤ c.expired) now later ai au token early
        early far from from until in
    let method : (lib.hs256 == c.signing_method) ≡ true =
      (==_iff lib.hs256 c.signing_method).1 (sym w.hs256) in
    (rw (full, w.looks_up, valid, method, free) refl, refl)
