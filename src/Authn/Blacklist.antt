-- ===== src/Authn/Blacklist.antt =====
-- authn/jwt/jwt.go: what the library and the store promise, and how long a key is held.
pub mod Refused
use linhub.Authn.{
  AuthError, Claims, Config, Keyfunc, Library, Parsed, Result, Storer, answer, check_in,
  claims_parsed, destroy, destroy_in, destroy_parsed, fails, other_failure, parse_claims,
  parse_token, parsed_token, returns, set_until, store_error, token_parsed,
  unsupported_signing_method, validation_failure,
}
use mathlib.Core.Option
use linhub.Base.{
  Bool, Bool-cases, Option, Text, [], ap, arith, false, inl, inr, leb_ℤ, ltb_ℤ, map, none, pos,
  refl, set, some, sym, true, ℕ, ℤ, ◌-ℤ◌, ◌==◌, ◌∙◌, ◌∷◌, ◌≡◌, ◌≢◌,
}
use mathlib.Core.Path.{subst}

-- What the jwt library documents: a token is valid only before its expiry, and its claims do not
-- depend on the time it is parsed at.
pub record LibraryLaws (lib : Library) : Type 0 where
  pub expires :
      (now : ℤ) (f : Option Keyfunc) (t : Text) (m : ℕ) (claims : Claims) (e : ℤ)
      → lib.parse_with_claims now f t ≡ parsed_token true m claims
      → claims.expires_at ≡ some e
      → ltb_ℤ now e ≡ true
  pub same_claims :
      (now now' : ℤ) (f : Option Keyfunc) (t : Text) (m m' : ℕ) (claims claims' : Claims)
      → lib.parse_with_claims now f t ≡ parsed_token true m claims
      → lib.parse_with_claims now' f t ≡ parsed_token true m' claims'
      → claims ≡ claims'

-- What a store promises, where `Held k e s` says that the key is held until `e`: a key that is set without an error is held for the duration, and is found,
-- or the answer is an error; checks, and sets of other keys, leave it.
pub record StorerLaws {S : Type 0} (st : Storer S) (Held : Text → ℤ → S → Type 0) : Type 0 where
  pub set_holds :
      (now e : ℤ) (k : Text) (s s' : S) → st.set now k (e -ℤ now) s ≡ (none, s') → Held k e s'
  pub set_keeps :
      (now d e : ℤ) (k k' : Text) (s : S) → k' ≢ k → Held k e s → Held k e (st.set now k' d s).1
  pub check_keeps : (now e : ℤ) (k k' : Text) (s : S) → Held k e s → Held k e (st.check now k' s).1
  pub check_held :
      (now e : ℤ) (k : Text) (s s' : S)
      → Held k e s
      → ltb_ℤ now e ≡ true
      → st.check now k s ≢ ((false, none), s')

abbrev pub IsRefused : Result Claims → Type 0
IsRefused (fails e) = Unit
IsRefused (returns claims) = ⊥

module _ {S : Type 0} (lib : Library) (c : Config) (st : Storer S) where
  -- Calls of ParseClaims, and of Destroy for tokens with another hash, in any order.
  pub data Later (k : Text) (s : S) : S → Type 0 where
    at_once : Later k s s
    after_parse :
        (now now' : ℤ) (t : Text) (s' : S)
        → Later k s s'
        → Later k s (parse_claims lib c (some st) now now' t s').1
    after_destroy :
        (now now' : ℤ) (t : Text) (s' s'' : S) (e : Option AuthError)
        → Later k s s'
        → lib.hash_token t ≢ k
        → destroy lib c (some st) now now' t s' ≡ some (e, s'')
        → Later k s s''

  answer-state :
      (claims : Claims) (r : (Bool × Option ℕ) × S) → (answer lib c (some st) claims r).1 ≡ r.1
  unfolding answer
  answer-state claims ((b, some e), s) = refl
  answer-state claims ((true, none), s) = refl
  answer-state claims ((false, none), s) = refl

  state_of : S → Option (Option AuthError × S) → S
  state_of s none = s
  state_of s (some r) = r.1

  error_of : Option (Option AuthError × S) → Option AuthError
  error_of none = none
  error_of (some r) = r.0

  module _ (Held : Text → ℤ → S → Type 0) (laws : StorerLaws st Held) where
    parse_claims-Held :
        (now now' e : ℤ) (k t : Text) (s : S)
        → Held k e s
        → Held k e (parse_claims lib c (some st) now now' t s).1
    unfolding parse_claims claims_parsed check_in
    parse_claims-Held now now' e k [] s h = h
    parse_claims-Held now now' e k (x ∷ t) s h = go (parse_token lib c now (x ∷ t))
      where
        go : (r : Result Claims) → Held k e (claims_parsed lib c (some st) now' (x ∷ t) r s).1
        go (fails a) = h
        go (returns claims) =
            let asked = st.check now' (lib.hash_token (x ∷ t)) s in
            subst (Held k e) (sym (answer-state claims asked))
              (laws.check_keeps now' e k (lib.hash_token (x ∷ t)) s h)

    destroy-Held :
        (now now' e : ℤ) (k t : Text) (s s' : S) (r : Option AuthError)
        → lib.hash_token t ≢ k
        → Held k e s
        → destroy lib c (some st) now now' t s ≡ some (r, s')
        → Held k e s'
    unfolding destroy destroy_parsed destroy_in set_until state_of
    destroy-Held now now' e k t s s' r other h run = go (parse_token lib c now t) run
      where
        expiring :
            (x : Option ℤ)
            → destroy_in lib c (some st) (some st) now' t x s ≡ some (r, s')
            → Held k e s'
        expiring none run = cc
        expiring (some e') run = elim (Bool-cases (leb_ℤ (e' -ℤ now') (pos 0))) [
          | inl z ↦
              let same : some (none, s) ≡ some (r, s') = sym (rw z refl) ∙ run in
              subst (Held k e) (ap (state_of s) same) h
          | inr z ↦
              let done = st.set now' (lib.hash_token t) (e' -ℤ now') s in
              let same : some (Option.map store_error done.0, done.1) ≡ some (r, s') =
                sym (rw z refl) ∙ run in
              subst (Held k e) (ap (state_of s) same)
                (laws.set_keeps now' (e' -ℤ now') e k (lib.hash_token t) s other h)
        ]

        go :
            (q : Result Claims)
            → destroy_parsed lib c (some st) now' t q s ≡ some (r, s')
            → Held k e s'
        go (fails a) run = subst (Held k e) (ap (state_of s) run) h
        go (returns claims) run = expiring claims.expires_at run

    Later-Held : (e : ℤ) (k : Text) (s s' : S) → Held k e s → Later k s s' → Held k e s'
    Later-Held e k s s' h at_once = h
    Later-Held e k s s' h (after_parse now now' t s₁ l) =
        parse_claims-Held now now' e k t s₁ (Later-Held e k s s₁ h l)
    Later-Held e k s s' h (after_destroy now now' t s₁ s₂ r l other run) =
        destroy-Held now now' e k t s₁ s' r other (Later-Held e k s s₁ h l) run

returned : Claims → Result Claims → Claims
returned d (fails e) = d
returned d (returns claims) = claims

parse_token_valid :
    (lib : Library) (c : Config) (now : ℤ) (t : Text) (claims : Claims)
    → parse_token lib c now t ≡ returns claims
    → (m : ℕ) × (lib.parse_with_claims now c.keyfunc t ≡ parsed_token true m claims)
unfolding parse_token token_parsed returned
parse_token_valid lib c now t claims h = go (lib.parse_with_claims now c.keyfunc t) refl h
  where
    go :
        (p : Parsed)
        → lib.parse_with_claims now c.keyfunc t ≡ p
        → token_parsed c p ≡ returns claims
        → (m : ℕ) × (lib.parse_with_claims now c.keyfunc t ≡ parsed_token true m claims)
    go (other_failure message) e h = absurd (ground arith)
    go (validation_failure a b d) e h = absurd (ground arith)
    go (parsed_token false m claims') e h = absurd (ground arith)
    go (parsed_token true m claims') e h = elim (Bool-cases (m == c.signing_method)) [
      | inl z ↦
          let same : returns claims' ≡ returns claims = sym (rw z refl) ∙ h in
          (m, e ∙ ap (λ x. parsed_token true m x) (ap (returned claims) same))
      | inr z ↦
          let no' : fails unsupported_signing_method ≡ returns claims = sym (rw z refl) ∙ h in
          absurd (ground arith)
    ]

no_error : (o : Option ℕ) → Option.map store_error o ≡ none → o ≡ none
no_error none h = refl
no_error (some e) h = cc
