-- ===== src/Token/Custom.antt =====
-- token/token.go: custom claims, and what the functions that read tokens have in common.
use mathlib.Core.Path.{subst}
use linhub.Token.Identity.{get_claim-set_claim}
use linhub.Base.{
  Bool, Bool-cases, Option, Option-cases, Text, [], arith, false, if◌then◌else◌, inl, inr, is_empty,
  none, refl, some, str_eq, str_eq_iff, sym, true, ℕ, ℤ, ◌∙◌, ◌∷◌, ◌≡◌, ◌⊎◌,
}
use linhub.Token.{
  Claim, Claims, Config, Method, Parsed, Result, TokenError, accepted, extract_identity, fails,
  get_claim, invalid_token_claims, key_for, refused, returns, set_claim,
}
use linhub.Token.Signing.{completed_claims, default_claim, time_claims}
use linhub.Token.Parsing.{
  check, claims_parsed, error_parsed, get_claims, identity_parsed, parse_identity, parse_with_key,
}

get_claim-set_claim_ne :
    (j k : Text) (v : Claim) (m : Claims)
    → str_eq k j ≡ false
    → get_claim j (set_claim k v m) ≡ get_claim j m
unfolding get_claim set_claim
get_claim-set_claim_ne j k v [] h = rw h refl
get_claim-set_claim_ne j k v ((i, w) ∷ m) h =
    ground (arith, str_eq_iff i k, str_eq_iff i j, str_eq_iff k j, get_claim-set_claim_ne j k v m h)

-- The first claim, or else the second.
abbrev pub or_else : Option Claim → Option Claim → Option Claim
or_else none b = b
or_else (some v) b = some v

or_else-none : (o : Option Claim) → or_else o none ≡ o
or_else-none none = refl
or_else-none (some v) = refl

default_claim-none :
    (k : Text) (v : Claim) (m : Claims)
    → get_claim k m ≡ none
    → default_claim k v m ≡ set_claim k v m
unfolding default_claim
default_claim-none k v m gone = rw (default_claim, gone) refl

default_claim-some :
    (k : Text) (v w : Claim) (m : Claims) → get_claim k m ≡ some w → default_claim k v m ≡ m
unfolding default_claim
default_claim-some k v w m there = rw (default_claim, there) refl

get_claim-default_claim :
    (j k : Text) (v : Claim) (m : Claims)
    → get_claim j (default_claim k v m)
      ≡ or_else (get_claim j m) (if str_eq k j then some v else none)
get_claim-default_claim j k v m = elim (Option-cases (get_claim k m)) [
  | inl gone ↦ elim (Bool-cases (str_eq k j)) [
    | inl e ↦
        subst
          (λ i.
            get_claim i (default_claim k v m)
            ≡ or_else (get_claim i m) (if str_eq k j then some v else none))
          ((str_eq_iff k j).0 e)
          (rw (default_claim-none k v m gone, gone, e) (get_claim-set_claim k v m))
    | inr e ↦
        rw (default_claim-none k v m gone, e)
          (get_claim-set_claim_ne j k v m e ∙ sym (or_else-none (get_claim j m)))
  ]
  | inr (w, there) ↦ elim (Bool-cases (str_eq k j)) [
    | inl e ↦
        subst
          (λ i.
            get_claim i (default_claim k v m)
            ≡ or_else (get_claim i m) (if str_eq k j then some v else none))
          ((str_eq_iff k j).0 e) (rw (default_claim-some k v w m there, there) refl)
    | inr e ↦ rw (default_claim-some k v w m there, e) (sym (or_else-none (get_claim j m)))
  ]
]

or_else_assoc : (a b c : Option Claim) → or_else (or_else a b) c ≡ or_else a (or_else b c)
or_else_assoc none b c = refl
or_else_assoc (some v) b c = refl

first_of :
    (b : Bool) (v : Claim) (o : Option Claim)
    → or_else (if b then some v else none) o ≡ (if b then some v else o)
first_of true v o = refl
first_of false v o = refl

-- The claims that SignWithClaims signs are the custom ones and, for the names that these lack, the
-- three times that Sign puts into its claims.
pub completed_claims-get :
    {Time : Type 0} (add : Time → ℤ → Time) (unix : Time → ℤ)
    (signed_string : Method → Claims → Text → ℕ ⊎ Text) (c : Config) (now : Time) (custom : Claims)
    (name : Text)
    → get_claim name (completed_claims add unix signed_string c now custom)
      ≡ or_else (get_claim name custom) (get_claim name (time_claims add unix signed_string c now))
unfolding completed_claims time_claims get_claim
completed_claims-get add unix signed_string c now custom name =
    rw
      (
        get_claim-default_claim, get_claim-default_claim, get_claim-default_claim, or_else_assoc,
        or_else_assoc,
      )
      (rw (first_of, first_of) refl)

-- The error of Parse that belongs to a result of GetClaims: Parse does not look at the claims.
abbrev pub parse_error : Result Claims → Option TokenError
parse_error (fails invalid_token_claims) = none
parse_error (fails e) = some e
parse_error (returns claims) = none

-- ParseIdentity goes on with claims.
abbrev pub then_extract : Config → Result Claims → Result Text
then_extract c (fails e) = fails e
then_extract c (returns claims) = extract_identity c claims

parsed_agree :
    (c : Config) (p : Parsed)
    → (claims_parsed p ≡ claims_parsed p)
      × (identity_parsed c p ≡ then_extract c (claims_parsed p))
      × (error_parsed p ≡ parse_error (claims_parsed p))
unfolding claims_parsed identity_parsed error_parsed
parsed_agree c (refused e) = (refl, refl, refl)
parsed_agree c (accepted false claims) = (refl, refl, refl)
parsed_agree c (accepted true none) = (refl, refl, refl)
parsed_agree c (accepted true (some claims)) = (refl, refl, refl)

-- On every token, under the configured key: GetClaims is ParseWithKey, ParseIdentity is GetClaims
-- followed by the search for the identity, and Parse has the error of GetClaims, save that it
-- accepts a valid token whose claims are not a map.
parse_functions_agree :
    (parse : Text → (Bool → Option Text) → Parsed) (c : Config) (token : Text)
    → (get_claims parse c token ≡ parse_with_key parse c token c.key)
      × (parse_identity parse c token c.key ≡ then_extract c (get_claims parse c token))
      × (check parse c token ≡ parse_error (get_claims parse c token))
unfolding get_claims parse_with_key parse_identity check
parse_functions_agree parse c token = elim (Bool-cases (is_empty token)) [
  | inl e ↦ rw e (refl, refl, refl)
  | inr e ↦ elim (Bool-cases (is_empty c.key)) [
    | inl e' ↦ rw (e, e') (refl, refl, refl)
    | inr e' ↦ rw (e, e') (parsed_agree c (parse token (key_for c.key)))
  ]
]
