-- ===== src/Token/Examples.antt =====
-- token/token.go: the theorems about tokens at a concrete library and configuration.
use linhub.Base.{
  Bool, Option, Text, [], ap, arith, codes, eq_ℤ, false, has_suffix, inl, inr, none, pos, refl,
  some, str_eq, str_eq_iff, sym, true, ℕ, ℤ, ◌&&◌, ◌++◌, ◌+ℤ◌, ◌↔◌, ◌∙◌, ◌∷◌, ◌≡◌, ◌≢◌, ◌⊎◌,
}
use linhub.Token.{
  Claim, Claims, Config, Method, Parsed, Request, accepted, extract_identity, extract_token,
  get_claim, gin_request, initial_config, key_for, number_claim, other_claim, refused, returns,
  should_skip_request, text_claim,
}
use linhub.Token.Parsing.{parse_identity, parse_request, parse_request_ignore_skip, with_token}
use linhub.Token.Signing.{sign, signed}
use linhub.Token.Paths.{match_path, should_skip_path}
use linhub.Token.Paths.Glob.{Fits, fits_byte, fits_end, fits_star, match_path-Fits}
use linhub.Token.Paths.Skipping.{match_path-slash_star}
use linhub.Token.Identity.{parse_request_sound}
use linhub.Token.Identity.Signed.{AcceptsSigned, parse_identity-sign}

abbc-Fits : Fits (codes "a*c") (codes "abbc")
abbc-Fits =
    fits_byte 97 (λ e. ground arith)
      (fits_star (codes "bb") (fits_byte 99 (λ e. ground arith) fits_end))

no_star_at_end : has_suffix (codes "a*c") (codes "*") ≡ false
unfolding has_suffix
no_star_at_end = refl

match_path-Fits_example : match_path (codes "abbc") (codes "a*c") ≡ some true
match_path-Fits_example = match_path-Fits (codes "abbc") (codes "a*c") no_star_at_end abbc-Fits

match_path-slash_star_example :
    (match_path (codes "/administrator") (codes "/admin/*") ≡ some true)
    ↔ ((u : Text) × (codes "/administrator" ≡ codes "/admin" ++ u))
match_path-slash_star_example = match_path-slash_star (codes "/administrator") (codes "/admin")

claim_eq : Claim → Claim → Bool
claim_eq (text_claim s) (text_claim t) = str_eq s t
claim_eq (number_claim m) (number_claim n) = eq_ℤ m n
claim_eq _ _ = false

claim_eq_sound : (v w : Claim) → claim_eq v w ≡ true → v ≡ w
unfolding claim_eq
claim_eq_sound (text_claim s) (text_claim t) h = ap text_claim ((str_eq_iff s t).0 h)
claim_eq_sound (text_claim s) (number_claim n) h = cc
claim_eq_sound (text_claim s) (other_claim n) h = cc
claim_eq_sound (number_claim m) (number_claim n) h = ground arith
claim_eq_sound (number_claim m) (text_claim t) h = cc
claim_eq_sound (number_claim m) (other_claim t) h = cc
claim_eq_sound (other_claim m) w h = cc

claims_eq : Claims → Claims → Bool
unfolding claim_eq
claims_eq [] [] = true
claims_eq ((j, v) ∷ m) ((k, w) ∷ n) = str_eq j k && (claim_eq v w && claims_eq m n)
claims_eq _ _ = false

claims_eq_sound : (m n : Claims) → claims_eq m n ≡ true → m ≡ n
unfolding claims_eq
claims_eq_sound [] [] h = refl
claims_eq_sound [] (kw ∷ n) h = cc
claims_eq_sound (jv ∷ m) [] h = cc
claims_eq_sound ((j, v) ∷ m) ((k, w) ∷ n) h =
    let (a, b, c) : (str_eq j k ≡ true) × (claim_eq v w ≡ true) × (claims_eq m n ≡ true) =
      ground arith in
    rw ((str_eq_iff j k).0 a, claim_eq_sound v w b, claims_eq_sound m n c) refl

abbrev config : Config
config = record initial_config { key = codes "k"; identity_key = codes "sub" }

-- A library that signs one list of claims, and a clock of seconds.
abbrev the_claims : Claims
the_claims =
    (codes "nbf", number_claim (pos 0))
    ∷ (codes "iat", number_claim (pos 0))
    ∷ (codes "exp", number_claim (pos 7200000000000))
    ∷ (codes "sub", text_claim (codes "ann"))
    ∷ []

abbrev token_when : Bool → ℕ ⊎ Text
token_when true = inr (codes "t")
token_when false = inl 1

abbrev sign_one : Method → Claims → Text → ℕ ⊎ Text
sign_one m claims key = token_when (claims_eq claims the_claims)

abbrev parsed_with : Option Text → Parsed
parsed_with none = refused 1
parsed_with (some key) = accepted true (some the_claims)

abbrev parse_one : Text → (Bool → Option Text) → Parsed
parse_one token key_of = parsed_with (key_of true)

abbrev parse_one_at : ℕ → Text → (Bool → Option Text) → Parsed
parse_one_at later = parse_one

signs_one : (b : Bool) (token : Text) → token_when b ≡ inr token → b ≡ true
signs_one true token h = refl
signs_one false token h = cc

accepts_signed : AcceptsSigned sign_one parse_one_at
accepts_signed m claims key token key_of from issued until later signed_ key_known n i e h1 h2 h3
      h4 =
    let same =
      claims_eq_sound claims the_claims (signs_one (claims_eq claims the_claims) token signed_) in
    (the_claims, rw key_known refl, λ k s ak as' held. ap (get_claim k) (sym same) ∙ held)

abbrev add : ℤ → ℤ → ℤ
add a b = a +ℤ b

abbrev unix : ℤ → ℤ
unix t = t

signed_ann :
    sign add unix sign_one config (pos 0) (codes "ann") ≡ returns (codes "t", pos 7200000000000)
unfolding sign claims_eq signed str_eq
signed_ann = refl

parse_identity-sign_example :
    parse_identity (parse_one_at 5) config (codes "t") (codes "k") ≡ returns (codes "ann")
unfolding str_eq
parse_identity-sign_example =
    parse_identity-sign add unix sign_one parse_one_at config (pos 0) (pos 7200000000000)
      (codes "ann") (codes "t") 0 7200000000000 5 accepts_signed (λ e. cc) (λ e. cc) refl
      (omega arith, (omega arith, (omega arith, tt))) (λ e. cc)
      (omega arith, (omega arith, (omega arith, tt))) refl refl (omega arith) (omega arith)
      (omega arith) signed_ann

abbrev bearer_request : Request
bearer_request = gin_request (codes "/me") (codes "bearer t")

request_parsed : parse_request parse_one config bearer_request ≡ some (returns (codes "ann"))
unfolding parse_request parse_identity extract_token should_skip_request should_skip_path with_token
    extract_identity parse_request_ignore_skip get_claim str_eq
request_parsed = refl

parse_request_sound_example :
    (token : Text) × (claims : Claims) × (should_skip_request config bearer_request ≡ some false)
    × (extract_token bearer_request ≡ returns token)
    × (parse_one token (key_for (codes "k")) ≡ accepted true (some claims))
    × (get_claim (codes "sub") claims ≡ some (text_claim (codes "ann")))
    × (codes "ann" ≢ [])
    × (codes "k" ≢ [])
parse_request_sound_example =
    parse_request_sound parse_one config bearer_request (codes "ann") request_parsed (λ e. cc)

abbrev custom_claims : Claims
custom_claims = (codes "iat", text_claim (codes "x")) ∷ (codes "role", text_claim (codes "y")) ∷ []
