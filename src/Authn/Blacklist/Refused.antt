-- ===== src/Authn/Blacklist/Refused.antt =====
-- authn/jwt/jwt.go: a token that was destroyed is refused.
use linhub.Authn.{
  Claims, Config, Library, Result, Storer, answer, check_in, claims_parsed, destroy, destroy_in,
  destroy_parsed, fails, parse_claims, parse_token, returns, set_until, store_error,
}
use linhub.Authn.Blacklist.{
  IsRefused, Later, Later-Held, LibraryLaws, StorerLaws, error_of, no_error, parse_token_valid,
  state_of,
}
use linhub.Base.{
  Bool, Bool-cases, Option, Text, ap, arith, false, inl, inr, is_empty, leb_ℤ, ltb_ℤ, negsuc, none,
  pos, refl, some, sym, true, ℕ, ℤ, ◌-ℤ◌, ◌∙◌, ◌≡◌, ◌⊎◌,
}
use mathlib.Core.Option

module _ {S : Type 0} (lib : Library) (c : Config) (st : Storer S) (Held : Text → ℤ → S → Type 0)
    (laws : StorerLaws st Held) where
  destroy_ok :
      (now now' : ℤ) (t : Text) (s s' : S)
      → destroy lib c (some st) now now' t s ≡ some (none, s')
      → (claims : Claims) × (e : ℤ) × (parse_token lib c now t ≡ returns claims)
        × (claims.expires_at ≡ some e)
        × ((leb_ℤ (e -ℤ now') (pos 0) ≡ true) ⊎ Held (lib.hash_token t) e s')
  unfolding destroy destroy_parsed destroy_in set_until state_of error_of
  destroy_ok now now' t s s' run = go (parse_token lib c now t) refl run
    where
      expiring :
          (x : Option ℤ)
          → destroy_in lib c (some st) (some st) now' t x s ≡ some (none, s')
          → (e : ℤ) × (x ≡ some e)
            × ((leb_ℤ (e -ℤ now') (pos 0) ≡ true) ⊎ Held (lib.hash_token t) e s')
      expiring none run = absurd (ground arith)
      expiring (some e) run = elim (Bool-cases (leb_ℤ (e -ℤ now') (pos 0))) [
        | inl z ↦ (e, refl, inl z)
        | inr z ↦
            let done = st.set now' (lib.hash_token t) (e -ℤ now') s in
            let same : some (Option.map store_error done.0, done.1) ≡ some (none, s') =
              sym (rw z refl) ∙ run in
            let fine = no_error done.0 (ap (error_of lib c st) same) in
            let state = ap (state_of lib c st s) same in
            (e, refl, inr (laws.set_holds now' e (lib.hash_token t) s s' (λ i. (fine i, state i))))
      ]

      go :
          (q : Result Claims)
          → parse_token lib c now t ≡ q
          → destroy_parsed lib c (some st) now' t q s ≡ some (none, s')
          → (claims : Claims) × (e : ℤ) × (parse_token lib c now t ≡ returns claims)
            × (claims.expires_at ≡ some e)
            × ((leb_ℤ (e -ℤ now') (pos 0) ≡ true) ⊎ Held (lib.hash_token t) e s')
      go (fails a) p run = absurd (ground arith)
      go (returns claims) p run =
          let (e, x, held) = expiring claims.expires_at run in (claims, e, p, x, held)

  not_found :
      (now : ℤ) (claims : Claims) (k : Text) (s : S) (e : ℤ)
      → Held k e s
      → ltb_ℤ now e ≡ true
      → IsRefused (answer lib c (some st) claims (st.check now k s)).0
  unfolding answer
  not_found now claims k s e held alive = go (st.check now k s) refl
    where
      go :
          (r : (Bool × Option ℕ) × S)
          → st.check now k s ≡ r
          → IsRefused (answer lib c (some st) claims r).0
      go ((b, some x), s') h = tt
      go ((true, none), s') h = tt
      go ((false, none), s') h = absurd (laws.check_held now e k s s' held alive h)

  over :
      (now later e : ℤ)
      → leb_ℤ (e -ℤ now) (pos 0) ≡ true
      → leb_ℤ now later ≡ true
      → ltb_ℤ later e ≡ true
      → ⊥
  over (pos a) (pos b) (pos e) h k l = ground arith
  over (pos a) (pos b) (negsuc e) h k l = ground arith
  over (pos a) (negsuc b) (pos e) h k l = ground arith
  over (pos a) (negsuc b) (negsuc e) h k l = ground arith
  over (negsuc a) (pos b) (pos e) h k l = ground arith
  over (negsuc a) (pos b) (negsuc e) h k l = ground arith
  over (negsuc a) (negsuc b) (pos e) h k l = ground arith
  over (negsuc a) (negsuc b) (negsuc e) h k l = ground arith

  -- The same token, if it is valid later.
  still_held :
      (now now' later : ℤ) (t : Text) (s s' s'' : S) (q : Claims)
      → LibraryLaws lib
      → destroy lib c (some st) now now' t s ≡ some (none, s')
      → Later lib c st (lib.hash_token t) s' s''
      → leb_ℤ now' later ≡ true
      → parse_token lib c later t ≡ returns q
      → (e : ℤ) × (ltb_ℤ later e ≡ true) × Held (lib.hash_token t) e s''
  still_held now now' later t s s' s'' q lib_laws run l after h =
      let (claims, e, parsed, expiry, held) = destroy_ok now now' t s s' run in
      let (m, valid) = parse_token_valid lib c now t claims parsed in
      let (m', valid') = parse_token_valid lib c later t q h in
      let same = lib_laws.same_claims now later c.keyfunc t m m' claims q valid valid' in
      let expiry' : q.expires_at ≡ some e = ap (λ d. d.expires_at) (sym same) ∙ expiry in
      let alive = lib_laws.expires later c.keyfunc t m' q e valid' expiry' in
      (e, alive, go e alive held)
    where
      go :
          (e : ℤ)
          → ltb_ℤ later e ≡ true
          → (leb_ℤ (e -ℤ now') (pos 0) ≡ true) ⊎ Held (lib.hash_token t) e s'
          → Held (lib.hash_token t) e s''
      go e alive (inl z) = absurd (over now' later e z after alive)
      go e alive (inr z) = Later-Held lib c st Held laws e (lib.hash_token t) s' s'' z l

  -- A token that Destroy has accepted is refused by ParseClaims from then on, where the authenticator
  -- has a store: after any calls of
  -- ParseClaims, and of Destroy for tokens with another hash, and at any time that is not before the
  -- one at which Destroy took the rest of the token's life. The condition is that the jwt library and
  -- the store keep their documented laws, and that a call of ParseClaims is over at the time it
  -- starts.
  pub destroy-IsRefused :
      (now now' later : ℤ) (t : Text) (s s' s'' : S)
      → LibraryLaws lib
      → destroy lib c (some st) now now' t s ≡ some (none, s')
      → Later lib c st (lib.hash_token t) s' s''
      → leb_ℤ now' later ≡ true
      → IsRefused (parse_claims lib c (some st) later later t s'').0
  unfolding parse_claims claims_parsed check_in
  destroy-IsRefused now now' later t s s' s'' lib_laws run l after =
      elim (Bool-cases (is_empty t)) [
        | inl z ↦ rw z tt
        | inr z ↦ rw z (go (parse_token lib c later t) refl)
      ]
    where
      go :
          (r : Result Claims)
          → parse_token lib c later t ≡ r
          → IsRefused (claims_parsed lib c (some st) later t r s'').0
      go (fails a) h = tt
      go (returns q) h =
          let (e, alive, held) = still_held now now' later t s s' s'' q lib_laws run l after h in
          not_found later q (lib.hash_token t) s'' e held alive
