-- ===== src/Version/Parsed.antt =====
-- util/version/version.go, parse: the shape of what is parsed.
use linhub.Version.{Version, major}
use linhub.Version.Parse.{
  ParseError, Attempt, check_identifiers, checked, refused, has_zero_prefix, made, match_extra,
  match_version, number_of, accepted, parse, parse_components, parse_extra, parse_generic,
  parse_semantic, wrong_length, ◌>>=◌,
}
use linhub.Base.{
  Bool, Bool-cases, List, Text, [], ap, arith, false, get_elem?, if◌then◌else◌, inl, inr, is_empty,
  length, not, parse_uint, refl, some, split, suc, sym, true, ℕ, ◌&&◌, ◌∙◌, ◌∷◌, ◌≡◌,
}

>>=-eq-accepted :
    {A B : Type 0} (m : Attempt A) (f : A → Attempt B) {b : B}
    → (m >>= f) ≡ accepted b
    → (a : A) × (m ≡ accepted a) × (f a ≡ accepted b)
>>=-eq-accepted (accepted a) f h = (a, refl, h)
>>=-eq-accepted (refused e) f h = cc

pub accepted-injective : {A : Type 0} (a b : A) → accepted a ≡ accepted b → a ≡ b
accepted-injective a b h = cc

-- The result of a test that stops with an error.
unless_ok :
    {A : Type 0} (b : Bool) (e : ParseError) (r : Attempt A) {a : A}
    → (if b then refused e else r) ≡ accepted a
    → (b ≡ false) × (r ≡ accepted a)
unless_ok true e r h = cc
unless_ok false e r h = (refl, h)

length-parse_components :
    (strict semver : Bool) (comps : List Text) (ns : List ℕ)
    → parse_components strict semver comps ≡ accepted ns
    → length ns ≡ length comps
unfolding parse_components
length-parse_components strict semver [] ns h = ground arith
length-parse_components strict semver (comp ∷ comps) ns h =
    let (_, h₁) = unless_ok (strict && has_zero_prefix comp) _ _ h in
    let (n, _, h₂) = >>=-eq-accepted (number_of comp (parse_uint comp)) _ h₁ in
    let (ms, rest, h₃) = >>=-eq-accepted (parse_components semver semver comps) _ h₂ in
    let ih = length-parse_components semver semver comps ms rest in
    let whole : n ∷ ms ≡ ns = accepted-injective _ _ h₃ in sym (ap length whole) ∙ ap suc ih

parse_extra-shape :
    (semver : Bool) (extra : Text) (ns : List ℕ) (v : Version)
    → parse_extra semver extra ns ≡ accepted v
    → (v.components ≡ ns) × (v.semver ≡ semver)
unfolding parse_extra
parse_extra-shape semver extra ns v h = elim (Bool-cases (semver && not (is_empty extra))) [
  | inl e ↦
      let (parts, _, h₁) =
        >>=-eq-accepted (match_extra extra) (checked ns semver) (sym (rw e refl) ∙ h) in
      let (_, _, h₂) = >>=-eq-accepted (check_identifiers (split 46 parts.0)) _ h₁ in
      let same : made ns semver parts ≡ v = accepted-injective _ _ h₂ in
      (sym (ap (λ w. w.components) same), sym (ap (λ w. w.semver) same))
  | inr e ↦
      let plain : accepted (made ns semver ([], [])) ≡ accepted v = sym (rw e refl) ∙ h in
      let same : made ns semver ([], []) ≡ v = accepted-injective _ _ plain in
      (sym (ap (λ w. w.components) same), sym (ap (λ w. w.semver) same))
]

parse-shape :
    (str : Text) (semver : Bool) (v : Version)
    → parse str semver ≡ accepted v
    → (v.semver ≡ semver) × (wrong_length semver (length v.components) ≡ false)
unfolding parse
parse-shape str semver v h =
    let (parts, _, h₁) = >>=-eq-accepted (match_version str) _ h in
    let (fine, h₂) = unless_ok (wrong_length semver (length (split 46 parts.0))) _ _ h₁ in
    let (ns, run, h₃) = >>=-eq-accepted (parse_components true semver (split 46 parts.0)) _ h₂ in
    let (comps, kind) = parse_extra-shape semver parts.1 ns v h₃ in
    let len = ap length comps ∙ length-parse_components true semver (split 46 parts.0) ns run in
    (kind, ap (wrong_length semver) len ∙ fine)

-- What ParseGeneric gives has a major number, and is no semantic version.
pub parse_generic-major :
    (str : Text) (v : Version)
    → parse_generic str ≡ accepted v
    → (m : ℕ) × (major v ≡ some m) × (v.semver ≡ false)
unfolding parse_generic major wrong_length
parse_generic-major str v h =
    let (kind, fine) = parse-shape str false v h in go v.components kind fine
  where
    go :
        (ns : List ℕ)
        → v.semver ≡ false
        → wrong_length false (length ns) ≡ false
        → (m : ℕ) × (get_elem? ns 0 ≡ some m) × (v.semver ≡ false)
    go [] kind fine = absurd (ground arith)
    go (n ∷ ns) kind fine = (n, refl, kind)

pub parse_semantic-length :
    (str : Text) (v : Version) → parse_semantic str ≡ accepted v → length v.components ≡ 3
unfolding parse_semantic wrong_length
parse_semantic-length str v h = let (_, fine) = parse-shape str true v h in ground arith
