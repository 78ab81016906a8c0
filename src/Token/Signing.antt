-- ===== src/Token/Signing.antt =====
-- token/token.go: signing tokens.
use linhub.Base.{
  Option, Text, [], codes, if◌then◌else◌, inl, inr, is_empty, none, not, some, ℕ, ℤ, ◌&&◌, ◌∷◌, ◌⊎◌,
}
use linhub.Token.{
  Claim, Claims, Config, Method, Result, fails, get_claim, hs256, library, number_claim, returns,
  set_claim, signing_key_not_set, text_claim,
}

-- `if _, exists := claims[k]; !exists { claims[k] = v }`.
unfoldable pub default_claim : Text → Claim → Claims → Claims
default_claim k v m = elim (get_claim k m) [ none ↦ set_claim k v m | some w ↦ m ]

module _ {Time : Type 0} (add : Time → ℤ → Time) (unix : Time → ℤ)
    (signed_string : Method → Claims → Text → ℕ ⊎ Text) where
  unfoldable pub signed : Time → ℕ ⊎ Text → Result (Text × Time)
  signed expire_at (inl e) = fails (library e)
  signed expire_at (inr s) = returns (s, expire_at)

  unfoldable pub method_or_default : Option Method → Method
  method_or_default none = hs256
  method_or_default (some m) = m

  unfoldable pub time_claims : Config → Time → Claims
  time_claims c now =
      (codes "nbf", number_claim (unix now))
      ∷ (codes "iat", number_claim (unix now))
      ∷ (codes "exp", number_claim (unix (add now c.expiration)))
      ∷ []

  -- The claims of Sign.
  unfoldable pub sign_claims : Config → Time → Text → Claims
  unfolding set_claim time_claims
  sign_claims c now identity =
      if not (is_empty c.identity_key) && not (is_empty identity)
      then set_claim c.identity_key (text_claim identity) (time_claims c now)
      else time_claims c now

  unfoldable pub sign : Config → Time → Text → Result (Text × Time)
  unfolding signed method_or_default sign_claims
  sign c now identity =
      if is_empty c.key
      then fails signing_key_not_set
      else signed (add now c.expiration)
          (signed_string (method_or_default c.method) (sign_claims c now identity) c.key)

  -- The claims of SignWithClaims; the copy of the map has the same entries.
  unfoldable pub completed_claims : Config → Time → Claims → Claims
  unfolding default_claim
  completed_claims c now custom =
      default_claim (codes "exp") (number_claim (unix (add now c.expiration))) (
        default_claim (codes "iat") (number_claim (unix now))
          (default_claim (codes "nbf") (number_claim (unix now)) custom))

  unfoldable pub sign_with_claims : Config → Time → Claims → Result (Text × Time)
  unfolding signed method_or_default completed_claims
  sign_with_claims c now custom =
      if is_empty c.key
      then fails signing_key_not_set
      else signed (add now c.expiration)
          (signed_string (method_or_default c.method) (completed_claims c now custom) c.key)
