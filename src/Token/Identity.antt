-- ===== src/Token/Identity.antt =====
-- token/token.go: an identity that is read is the one that an accepted token has.
pub mod Signed
use linhub.Base.{
  Bool, Bool-cases, Option, Text, [], ap, false, if◌then◌else◌, inl, inr, is_empty, none, refl,
  some, str_eq, str_eq_refl, sym, true, ℕ, ℤ, ◌>>=◌, ◌∙◌, ◌∷◌, ◌≡◌, ◌≢◌, ◌⊎◌,
}
use linhub.Token.{
  Claim, Claims, Config, Method, Parsed, Request, Result, accepted, extract_identity, extract_token,
  fails, get_claim, identity_of, key_for, number_claim, other_claim, path_skipped, refused, returns,
  set_claim, should_skip_request, signing_key_not_set, text_claim,
}
use linhub.Token.Parsing.{
  identity_parsed, parse_identity, parse_request, parse_request_ignore_skip, with_token,
}
use linhub.Token.Signing.{method_or_default, sign, sign_claims, signed}
use mathlib.Core.Option.{some-injective}

pub get_claim-set_claim :
    (k : Text) (v : Claim) (m : Claims) → get_claim k (set_claim k v m) ≡ some v
unfolding get_claim set_claim
get_claim-set_claim k v [] = rw (str_eq_refl k) refl
get_claim-set_claim k v ((j, w) ∷ m) = elim (Bool-cases (str_eq j k)) [
  | inl e ↦ rw e (rw (str_eq_refl k) refl)
  | inr e ↦ rw e (rw e (get_claim-set_claim k v m))
]

pub not_empty : (s : Text) → s ≢ [] → is_empty s ≡ false
not_empty [] h = absurd (h refl)
not_empty (b ∷ s) h = refl

signed_ok :
    {Time : Type 0} (add : Time → ℤ → Time) (unix : Time → ℤ)
    (signed_string : Method → Claims → Text → ℕ ⊎ Text) (expire_at expire_at' : Time) (r : ℕ ⊎ Text)
    (token : Text)
    → signed add unix signed_string expire_at r ≡ returns (token, expire_at')
    → r ≡ inr token
unfolding signed
signed_ok add unix signed_string e e' (inl x) token h = cc
signed_ok add unix signed_string e e' (inr s) token h = cc

pub sign_ok :
    {Time : Type 0} (add : Time → ℤ → Time) (unix : Time → ℤ)
    (signed_string : Method → Claims → Text → ℕ ⊎ Text) (c : Config) (now expire_at : Time)
    (identity token : Text)
    → sign add unix signed_string c now identity ≡ returns (token, expire_at)
    → (c.key ≢ [])
      × (m : Method) × (signed_string m (sign_claims add unix signed_string c now identity) c.key
          ≡ inr token)
unfolding sign
sign_ok add unix signed_string c now expire_at identity token h =
    elim (Bool-cases (is_empty c.key)) [
      | inl e ↦
          let no : fails signing_key_not_set ≡ returns (token, expire_at) = sym (rw e refl) ∙ h in
          cc
      | inr e ↦ (
        λ nil. let no : true ≡ false = sym (ap is_empty nil) ∙ e in cc,
        method_or_default add unix signed_string c.method,
        signed_ok add unix signed_string (add now c.expiration) expire_at
            (signed_string (method_or_default add unix signed_string c.method)
              (sign_claims add unix signed_string c now identity) c.key)
            token (sym (rw e refl) ∙ h),
      )
    ]

identity_of_sound :
    (o : Option Claim) (s : Text) → identity_of o ≡ returns s → (o ≡ some (text_claim s)) × (s ≢ [])
unfolding identity_of
identity_of_sound none s h = cc
identity_of_sound (some (text_claim [])) s h = cc
identity_of_sound (some (text_claim (b ∷ t))) s h = (cc, λ nil. cc)
identity_of_sound (some (number_claim _)) s h = cc
identity_of_sound (some (other_claim _)) s h = cc

identity_parsed_sound :
    (c : Config) (p : Parsed) (s : Text)
    → c.identity_key ≢ []
    → identity_parsed c p ≡ returns s
    → (claims : Claims) × (p ≡ accepted true (some claims))
      × (get_claim c.identity_key claims ≡ some (text_claim s))
      × (s ≢ [])
unfolding identity_parsed extract_identity
identity_parsed_sound c (refused e) s i h = cc
identity_parsed_sound c (accepted false claims) s i h = cc
identity_parsed_sound c (accepted true none) s i h = cc
identity_parsed_sound c (accepted true (some claims)) s i h =
    let (held, nonempty) = identity_of_sound _ s (sym (rw (not_empty c.identity_key i) refl) ∙ h) in
    (claims, refl, held, nonempty)

parse_identity_sound :
    (parse : Text → (Bool → Option Text) → Parsed) (c : Config) (token key s : Text)
    → c.identity_key ≢ []
    → parse_identity parse c token key ≡ returns s
    → (claims : Claims) × (parse token (key_for key) ≡ accepted true (some claims))
      × (get_claim c.identity_key claims ≡ some (text_claim s))
      × (s ≢ [])
      × (key ≢ [])
unfolding parse_identity
parse_identity_sound parse c [] key s i h = cc
parse_identity_sound parse c (b ∷ token) [] s i h = cc
parse_identity_sound parse c (b ∷ token) (k ∷ key) s i h =
    let (claims, run, held, nonempty) = identity_parsed_sound c _ s i h in
    (claims, run, held, nonempty, λ e. cc)

-- When an identity key is configured, ParseRequest returns an identity only for a request that is
-- not skipped, when the signing key is configured and the jwt library accepts the request's token
-- as valid under it; the identity is then the nonempty string that the token's claims have under
-- the identity key.
pub parse_request_sound :
    (parse : Text → (Bool → Option Text) → Parsed) (c : Config) (rq : Request) (identity : Text)
    → parse_request parse c rq ≡ some (returns identity)
    → c.identity_key ≢ []
    → (token : Text) × (claims : Claims) × (should_skip_request c rq ≡ some false)
      × (extract_token rq ≡ returns token)
      × (parse token (key_for c.key) ≡ accepted true (some claims))
      × (get_claim c.identity_key claims ≡ some (text_claim identity))
      × (identity ≢ [])
      × (c.key ≢ [])
unfolding parse_request parse_request_ignore_skip with_token parse_identity
parse_request_sound parse c rq identity done i =
    go (should_skip_request c rq) (extract_token rq) refl refl done
  where
    go :
        (o : Option Bool) (r : Result Text)
        → should_skip_request c rq ≡ o
        → extract_token rq ≡ r
        → (o >>= λ skip. if skip then some (fails path_skipped) else some (with_token parse c r))
          ≡ some (returns identity)
        → (token : Text) × (claims : Claims) × (should_skip_request c rq ≡ some false)
          × (extract_token rq ≡ returns token)
          × (parse token (key_for c.key) ≡ accepted true (some claims))
          × (get_claim c.identity_key claims ≡ some (text_claim identity))
          × (identity ≢ [])
          × (c.key ≢ [])
    go none r skip ext run = cc
    go (some true) r skip ext run = cc
    go (some false) (fails e) skip ext run = cc
    go (some false) (returns token) skip ext run =
        let (claims, ok, held, nonempty, k) =
          parse_identity_sound parse c token c.key identity i (some-injective _ _ run) in
        (token, claims, skip, ext, ok, held, nonempty, k)
