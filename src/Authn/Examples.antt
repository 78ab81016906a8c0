-- ===== src/Authn/Examples.antt =====
-- authn/jwt: the theorems for a library whose tokens list the claims, and a client that keeps a list.
use linhub.Authn.Blacklist.Refused.{destroy-IsRefused}
use linhub.Authn.{
  Claims, Config, Library, Parsed, Storer, TokenInfo, destroy, new_auth, other_failure,
  parse_claims, parsed_token, returns, sign, sign_claims, with_expired, with_signing_key,
}
use linhub.Authn.Blacklist.{IsRefused, LibraryLaws, StorerLaws, at_once}
use linhub.Authn.RoundTrip.{SigningLaws, SignsWith, parse_claims-sign, timed_claims}
use mathlib.Core.Path.{subst}
use linhub.Base.{
  Bool, Bool-cases, List, Option, Text, [], ap, arith, codes, false, if◌then◌else◌, inl, inr,
  is_empty, leb_ℤ, ltb_ℤ, negsuc, none, pos, refl, some, str_eq, str_eq_iff, str_eq_refl, sym, true,
  ℕ, ℤ, ◌&&◌, ◌++◌, ◌+ℤ◌, ◌-ℤ◌, ◌∙◌, ◌∷◌, ◌≡◌, ◌≢◌,
}
use linhub.Authn.Redis.{Client, ClientLaws, redis_store, redis_store-StorerLaws, wrapper_key}

plain_token : Text → Option ℤ → Option ℤ → Option ℤ → Text → Option Text
plain_token [] (some (pos a)) (some (pos e)) (some (pos n)) subject = some (a ∷ e ∷ n ∷ subject)
plain_token _ _ _ _ _ = none

plain_claims : ℕ → ℕ → ℕ → Text → Claims
plain_claims a e n subject = record {
  issuer = [];
  issued_at = some (pos a);
  expires_at = some (pos e);
  not_before = some (pos n);
  subject = subject;
}

plain_parse : ℤ → Text → Parsed
unfolding plain_claims
plain_parse now (a ∷ e ∷ n ∷ subject) =
    parsed_token (ltb_ℤ now (pos e) && leb_ℤ (pos n) now) 0 (plain_claims a e n subject)
plain_parse now _ = other_failure []

plain : Library
unfolding plain_token plain_parse
plain = record {
  hs256 = 0;
  numeric_date = λ t. t;
  signed_string = λ m claims header key.
      plain_token claims.issuer claims.issued_at claims.expires_at claims.not_before claims.subject;
  parse_with_claims = λ now f t. plain_parse now t;
  hash_token = λ t. t;
  unix = λ t. t;
}

valid_of : Parsed → Bool
valid_of (parsed_token b m claims) = b
valid_of _ = false

claims_of : Parsed → Claims
claims_of (parsed_token b m claims) = claims
claims_of _ = plain_claims 0 0 0 []

expiry_of : Option ℤ → ℤ
expiry_of none = pos 0
expiry_of (some e) = e

both_left : (a b : Bool) → a && b ≡ true → a ≡ true
both_left a b h = ground arith

both : {a b : Bool} → a ≡ true → b ≡ true → a && b ≡ true
both h k = ground arith

plain-LibraryLaws : LibraryLaws plain
unfolding plain plain_parse valid_of claims_of plain_claims expiry_of
plain-LibraryLaws = record {
  expires = λ now f t m claims e h k. alive now t m claims e h k;
  same_claims = λ now now' f t m m' claims claims' h k. same now now' t m m' claims claims' h k;
}
  where
    alive :
        (now : ℤ) (t : Text) (m : ℕ) (claims : Claims) (e : ℤ)
        → plain_parse now t ≡ parsed_token true m claims
        → claims.expires_at ≡ some e
        → ltb_ℤ now e ≡ true
    alive now [] m claims e h k = cc
    alive now (a ∷ []) m claims e h k = cc
    alive now (a ∷ b ∷ []) m claims e h k = cc
    alive now (a ∷ b ∷ n ∷ s) m claims e h k =
        let live : ltb_ℤ now (pos b) && leb_ℤ (pos n) now ≡ true = ap valid_of h in
        let expiry : pos b ≡ e = ap expiry_of (ap (λ p. (claims_of p).expires_at) h ∙ k) in
        subst (λ x. ltb_ℤ now x ≡ true) expiry (both_left _ _ live)

    same :
        (now now' : ℤ) (t : Text) (m m' : ℕ) (claims claims' : Claims)
        → plain_parse now t ≡ parsed_token true m claims
        → plain_parse now' t ≡ parsed_token true m' claims'
        → claims ≡ claims'
    same now now' [] m m' claims claims' h k = cc
    same now now' (a ∷ []) m m' claims claims' h k = cc
    same now now' (a ∷ b ∷ []) m m' claims claims' h k = cc
    same now now' (a ∷ b ∷ n ∷ s) m m' claims claims' h k = sym (ap claims_of h) ∙ ap claims_of k

-- What a token of the library lists.
Lists : Text → Option ℤ → Option ℤ → Option ℤ → Text → Text → Type 0
Lists issuer a e n subject t =
    (a' : ℕ) × (e' : ℕ) × (n' : ℕ) × (issuer ≡ [])
    × (a ≡ some (pos a'))
    × (e ≡ some (pos e'))
    × (n ≡ some (pos n'))
    × (t ≡ a' ∷ e' ∷ n' ∷ subject)

text_of : Option Text → Text
text_of none = []
text_of (some t) = t

plain_token-Lists :
    (issuer : Text) (a e n : Option ℤ) (subject t : Text)
    → plain_token issuer a e n subject ≡ some t
    → Lists issuer a e n subject t
unfolding plain_token Lists text_of
plain_token-Lists (x ∷ i) a e n s t h = absurd (ground arith)
plain_token-Lists [] none e n s t h = absurd (ground arith)
plain_token-Lists [] (some (negsuc a)) e n s t h = absurd (ground arith)
plain_token-Lists [] (some (pos a)) none n s t h = absurd (ground arith)
plain_token-Lists [] (some (pos a)) (some (negsuc e)) n s t h = absurd (ground arith)
plain_token-Lists [] (some (pos a)) (some (pos e)) none s t h = absurd (ground arith)
plain_token-Lists [] (some (pos a)) (some (pos e)) (some (negsuc n)) s t h = absurd (ground arith)
plain_token-Lists [] (some (pos a)) (some (pos e)) (some (pos n)) s t h =
    (a, e, n, refl, refl, refl, refl, sym (ap text_of h))

plain_verifies :
    (claims : Claims) (t : Text) (now from until : ℤ)
    → Lists claims.issuer claims.issued_at claims.expires_at claims.not_before claims.subject t
    → claims.not_before ≡ some from
    → claims.expires_at ≡ some until
    → leb_ℤ from now ≡ true
    → ltb_ℤ now until ≡ true
    → plain_parse now t ≡ parsed_token true 0 claims
unfolding Lists plain_parse plain_claims expiry_of
plain_verifies claims t now from until (a, e, n, i', a', e', n', t') f u l l' =
    let start : from ≡ pos n = ap expiry_of (sym f ∙ n') in
    let end : until ≡ pos e = ap expiry_of (sym u ∙ e') in
    let begun : leb_ℤ (pos n) now ≡ true = subst (λ x. leb_ℤ x now ≡ true) start l in
    let alive : ltb_ℤ now (pos e) ≡ true = subst (λ x. ltb_ℤ now x ≡ true) end l' in
    let whole : plain_claims a e n claims.subject ≡ claims = λ j. record {
      issuer = sym i' j;
      issued_at = sym a' j;
      expires_at = sym e' j;
      not_before = sym n' j;
      subject = claims.subject;
    } in
    ap (plain_parse now) t'
    ∙ ap (λ b. parsed_token b 0 (plain_claims a e n claims.subject)) (both alive begun)
    ∙ ap (parsed_token true 0) whole

plain-SigningLaws : SigningLaws plain
unfolding plain Lists
plain-SigningLaws = record {
  nonempty = λ claims header key t h.
      let (a, e, n, _, _, _, _, same) = plain_token-Lists _ _ _ _ _ t h in ap is_empty same;
  verifies = λ issuer subject key t issued until from later ai au h i0 f0 fits begun l l'.
      plain_verifies (timed_claims plain issuer subject issued until from) t later from until
        (plain_token-Lists _ _ _ _ _ t h) refl refl l l';
}

abbrev Entries : Type 0
Entries = List (Text × ℤ)

lookup : Text → Entries → Option ℤ
lookup k [] = none
lookup k ((j, e) ∷ w) = let rest = lookup k w in if str_eq j k then some e else rest

counted : ℤ → Option ℤ → ℤ
counted now none = pos 0
counted now (some e) = if ltb_ℤ now e then pos 1 else pos 0

client : Client (List (Text × ℤ))
unfolding lookup counted
client = record {
  set = λ now k v d w. (none, (k, now +ℤ d) ∷ w);
  del = λ now k w. ((pos 0, none), w);
  exists = λ now k w. ((counted now (lookup k w), none), w);
  close = λ w. (none, w);
}

Kept : Text → ℤ → List (Text × ℤ) → Type 0
Kept k e w = (x : ℤ) × (lookup k w ≡ some x) × (leb_ℤ e x ≡ true)

set_until : (now e : ℤ) → leb_ℤ e (now +ℤ (e -ℤ now)) ≡ true
set_until (pos a) (pos b) = ground arith
set_until (pos a) (negsuc b) = ground arith
set_until (negsuc a) (pos b) = ground arith
set_until (negsuc a) (negsuc b) = ground arith

alive_longer : (now e x : ℤ) → ltb_ℤ now e ≡ true → leb_ℤ e x ≡ true → ltb_ℤ now x ≡ true
alive_longer now e x h k = ground arith

client-ClientLaws : ClientLaws client Kept
unfolding client Kept lookup counted
client-ClientLaws = record {
  set_keeps = λ now e k v w w' h.
      subst (Kept k e) (ap (λ q. q.1) h)
        (now +ℤ (e -ℤ now), rw (str_eq_refl k) refl, set_until now e);
  set_other = λ now d e k k' v w other h. kept_under now d e k k' w other h;
  exists_leaves = λ now e k k' w h. h;
  exists_counts = λ now e n k w w' h alive run. found now e n k w w' h alive run;
}
  where
    kept_under :
        (now d e : ℤ) (k k' : Text) (w : Entries)
        → k' ≢ k
        → Kept k e w
        → Kept k e ((k', now +ℤ d) ∷ w)
    kept_under now d e k k' w other (x, p, l) = elim (Bool-cases (str_eq k' k)) [
      | inl z ↦ absurd (other ((str_eq_iff k' k).0 z))
      | inr z ↦ (x, rw z p, l)
    ]

    found :
        (now e n : ℤ) (k : Text) (w w' : Entries)
        → Kept k e w
        → ltb_ℤ now e ≡ true
        → client.exists now k w ≡ ((n, none), w')
        → ltb_ℤ (pos 0) n ≡ true
    found now e n k w w' (x, p, l) alive run =
        let n' : counted now (lookup k w) ≡ n = ap (λ q. q.0.0) run in
        let one : counted now (lookup k w) ≡ pos 1 =
          ap (counted now) p ∙ (rw (alive_longer now e x alive l) refl) in
        subst (λ m. ltb_ℤ (pos 0) m ≡ true) (sym one ∙ n') refl

redis_store-StorerLaws_example :
    StorerLaws
      (redis_store client (codes "jwt:"))
      (λ k e w. Kept (wrapper_key (codes "jwt:") k) e w)
redis_store-StorerLaws_example = redis_store-StorerLaws client (codes "jwt:") Kept client-ClientLaws

config : Config
config = new_auth plain (with_signing_key (codes "key") ∷ with_expired (pos 100) ∷ [])

config-SignsWith : SignsWith plain config (codes "key")
unfolding config new_auth plain with_expired with_signing_key
config-SignsWith = record { hs256 = refl; signs = refl; no_header = refl; looks_up = refl }

info : TokenInfo
info = record { token = 5 ∷ 105 ∷ 5 ∷ codes "u"; token_type = codes "Bearer"; expires_at = pos 105 }

store : Storer Entries
store = redis_store client (codes "jwt:")

parse_claims-sign_example :
    (parse_claims plain config (some store) (pos 7) (pos 7) info.token []
      ≡ (returns (sign_claims plain config (pos 5) (codes "u")), []))
    × ((sign_claims plain config (pos 5) (codes "u")).subject ≡ codes "u")
unfolding with_expired with_signing_key plain config info store client sign new_auth redis_store
    counted lookup plain_token
parse_claims-sign_example =
    parse_claims-sign plain config store (codes "key") (codes "u") (pos 5) (pos 7) info [] []
      plain-SigningLaws config-SignsWith tt (omega arith, tt) refl refl refl refl refl refl

destroy-IsRefused_example :
    IsRefused
      (parse_claims plain config
        (some store)
        (pos 9)
        (pos 9)
        info.token
        ((codes "jwt:" ++ info.token, pos 105) ∷ [])).0
unfolding with_expired with_signing_key plain config info store client new_auth redis_store counted
    lookup plain_parse destroy
destroy-IsRefused_example =
    destroy-IsRefused plain config store (λ k e w. Kept (wrapper_key (codes "jwt:") k) e w)
      (redis_store-StorerLaws client (codes "jwt:") Kept client-ClientLaws) (pos 7) (pos 8) (pos 9)
      info.token [] ((codes "jwt:" ++ info.token, pos 105) ∷ [])
      ((codes "jwt:" ++ info.token, pos 105) ∷ []) plain-LibraryLaws refl at_once refl
