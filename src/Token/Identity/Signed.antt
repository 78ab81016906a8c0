-- ===== src/Token/Identity/Signed.antt =====
-- token/token.go: Sign and ParseIdentity in turn.
use linhub.Base.{
  Bool, Bool-cases, IsAscii, Option, Text, [], ap, arith, codes, false, inl, inr, is_empty, not,
  pos, refl, some, str_eq, str_eq_iff, true, ℕ, ℤ, ◌&&◌, ◌<◌, ◌^◌, ◌||◌, ◌∙◌, ◌∷◌, ◌≡◌, ◌≢◌, ◌≤◌,
  ◌⊎◌,
}
use linhub.Token.{
  Claim, Claims, Config, Method, Parsed, accepted, extract_identity, get_claim, identity_of,
  key_for, number_claim, returns, set_claim, text_claim,
}
use linhub.Token.Parsing.{identity_parsed, parse_identity}
use linhub.Token.Signing.{sign, sign_claims, time_claims}
use linhub.Token.Identity.{get_claim-set_claim, not_empty, sign_ok}

get_claim-set_claim_other :
    (k j : Text) (v : Claim) (m : Claims)
    → str_eq j k ≡ false
    → get_claim k (set_claim j v m) ≡ get_claim k m
unfolding get_claim set_claim
get_claim-set_claim_other k j v [] apart = rw apart refl
get_claim-set_claim_other k j v ((i, w) ∷ m) apart = elim (Bool-cases (str_eq i j)) [
  | inl e ↦
      let same : i ≡ j = (str_eq_iff i j).0 e in
      rw (e, apart, ap (λ n. str_eq n k) same ∙ apart) refl
  | inr e ↦ rw (e, get_claim-set_claim_other k j v m apart) refl
]

-- What the jwt library documents. Some claims are signed with a key; the key function gives that key
-- for an HMAC method; the claims hold the seconds from which they are valid, at which they were issued
-- and at which they expire, below 2 ^ 53. Read at a second that is neither before the first two nor at
-- the third or later, the token is accepted, and the ASCII strings with an ASCII name among the claims
-- are as they were.
abbrev pub AcceptsSigned :
    (Method → Claims → Text → ℕ ⊎ Text) → (ℕ → Text → (Bool → Option Text) → Parsed) → Type 0
AcceptsSigned signed_string parse_at =
    (m : Method) (claims : Claims) (key token : Text) (key_of : Bool → Option Text)
    (from issued until later : ℕ)
    → signed_string m claims key ≡ inr token
    → key_of true ≡ some key
    → get_claim (codes "nbf") claims ≡ some (number_claim (pos from))
    → get_claim (codes "iat") claims ≡ some (number_claim (pos issued))
    → get_claim (codes "exp") claims ≡ some (number_claim (pos until))
    → from ≤ later
    → issued ≤ later
    → later < until
    → until < 2 ^ 53
    → (claims' : Claims) × (parse_at later token key_of ≡ accepted true (some claims'))
      × ((k s : Text)
          → IsAscii k
          → IsAscii s
          → get_claim k claims ≡ some (text_claim s)
          → get_claim k claims' ≡ some (text_claim s))

-- The names of the claims that the library reads itself.
abbrev pub is_time_claim : Text → Bool
is_time_claim k = str_eq k (codes "nbf") || (str_eq k (codes "iat") || str_eq k (codes "exp"))

module _ {Time : Type 0} (add : Time → ℤ → Time) (unix : Time → ℤ)
    (signed_string : Method → Claims → Text → ℕ ⊎ Text) (c : Config) (now : Time)
    (identity : Text) where
  -- The claims of Sign keep their times under an identity key that is not the name of one.
  sign_claims-kept :
      (k : Text) (v : Claim)
      → str_eq c.identity_key k ≡ false
      → get_claim k (time_claims add unix signed_string c now) ≡ some v
      → get_claim k (sign_claims add unix signed_string c now identity) ≡ some v
  unfolding sign_claims
  sign_claims-kept k v apart held =
      elim (Bool-cases (not (is_empty c.identity_key) && not (is_empty identity))) [
        | inl e ↦
            rw
              (
                e,
                get_claim-set_claim_other k c.identity_key (text_claim identity)
                    (time_claims add unix signed_string c now) apart,
              )
              held
        | inr e ↦ rw e held
      ]

  sign_claims-times :
      (issued until : ℕ)
      → is_time_claim c.identity_key ≡ false
      → unix now ≡ pos issued
      → unix (add now c.expiration) ≡ pos until
      → (get_claim (codes "nbf") (sign_claims add unix signed_string c now identity)
          ≡ some (number_claim (pos issued)))
        × (get_claim (codes "iat") (sign_claims add unix signed_string c now identity)
            ≡ some (number_claim (pos issued)))
        × (get_claim (codes "exp") (sign_claims add unix signed_string c now identity)
            ≡ some (number_claim (pos until)))
  unfolding time_claims get_claim str_eq
  sign_claims-times issued until apart at end =
      let (n, i, e) : (str_eq c.identity_key (codes "nbf") ≡ false)
          × (str_eq c.identity_key (codes "iat") ≡ false)
          × (str_eq c.identity_key (codes "exp") ≡ false) =
        ground arith in
      (
        sign_claims-kept (codes "nbf") _ n (ap (λ t. some (number_claim t)) at),
        sign_claims-kept (codes "iat") _ i (ap (λ t. some (number_claim t)) at),
        sign_claims-kept (codes "exp") _ e (ap (λ t. some (number_claim t)) end),
      )

-- A token that Sign returns for an identity is read back as that identity, with the same
-- configuration and its key, from the second it was issued until it expires. The token, the identity
-- and the identity key are not empty, the last two are ASCII and the identity key is not nbf, iat or
-- exp, the expiry is below 2 ^ 53, and the jwt library keeps its documented law.
pub parse_identity-sign :
    {Time : Type 0} (add : Time → ℤ → Time) (unix : Time → ℤ)
    (signed_string : Method → Claims → Text → ℕ ⊎ Text)
    (parse_at : ℕ → Text → (Bool → Option Text) → Parsed) (c : Config) (now expire_at : Time)
    (identity token : Text) (issued until later : ℕ)
    → AcceptsSigned signed_string parse_at
    → token ≢ []
    → c.identity_key ≢ []
    → is_time_claim c.identity_key ≡ false
    → IsAscii c.identity_key
    → identity ≢ []
    → IsAscii identity
    → unix now ≡ pos issued
    → unix (add now c.expiration) ≡ pos until
    → issued ≤ later
    → later < until
    → until < 2 ^ 53
    → sign add unix signed_string c now identity ≡ returns (token, expire_at)
    → parse_identity (parse_at later) c token c.key ≡ returns identity
unfolding sign_claims parse_identity identity_parsed extract_identity identity_of
parse_identity-sign add unix signed_string parse_at c now expire_at identity token issued until
      later lib t i apart ai d ad at end begun alive fits done =
    let (k, m, run) = sign_ok add unix signed_string c now expire_at identity token done in
    let (nbf, iat, exp) =
      sign_claims-times add unix signed_string c now identity issued until apart at end in
    let (claims, parsed, kept) =
      lib m _ c.key token (key_for c.key) issued issued until later run refl nbf iat exp begun begun
        alive fits in
    let held : get_claim c.identity_key (sign_claims add unix signed_string c now identity)
        ≡ some (text_claim identity) =
      rw (not_empty c.identity_key i, not_empty identity d)
        (get_claim-set_claim c.identity_key (text_claim identity)
          (time_claims add unix signed_string c now)) in
    rw
      (
        not_empty token t,
        not_empty c.key k,
        parsed,
        not_empty c.identity_key i,
        kept c.identity_key identity ai ad held,
        not_empty identity d,
      )
      refl
