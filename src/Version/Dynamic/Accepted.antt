-- ===== src/Version/Dynamic/Accepted.antt =====
-- version/dynamic.go: which versions are accepted.
use linhub.Version.{Version, major, minor, patch}
use linhub.Version.Parse.{Attempt, ParseError, accepted, parse_semantic, refused}
use linhub.Version.Parsed.{accepted-injective, parse_semantic-length}
use linhub.Version.Dynamic.{
  DynamicError, default_text, empty_version, mismatch, same_numbers, set_dynamic_version,
  stored_after, unparsable, validate_dynamic_version, with_default, with_runtime,
}
use linhub.Base.{
  ==_iff, Bool-cases, List, Option, Text, [], ap, arith, false, inl, inr, length, none, refl, some,
  str_eq, str_eq_iff, suc, sym, true, ℕ, ◌&&◌, ◌==◌, ◌↔◌, ◌∙◌, ◌∷◌, ◌≡◌, ◌≢◌, ◌⊎◌,
}
use mathlib.Core.Path.{subst}

three_places : (ns : List ℕ) → length ns ≡ 3 → (a b c : ℕ) × (ns ≡ a ∷ b ∷ c ∷ [])
three_places [] h = absurd (omega arith)
three_places (a ∷ []) h = absurd (omega arith)
three_places (a ∷ b ∷ []) h = absurd (omega arith)
three_places (a ∷ b ∷ c ∷ []) h = (a, b, c, refl)
three_places (a ∷ b ∷ c ∷ d ∷ ns) h = absurd (omega arith)

same_numbers_iff :
    (v d : Version)
    → length v.components ≡ 3
    → length d.components ≡ 3
    → (same_numbers v d ≡ some none) ↔ (v.components ≡ d.components)
unfolding same_numbers major minor patch
same_numbers_iff v d h k =
    let (a, b, c, e) = three_places v.components h in
    let (a', b', c', e') = three_places d.components k in
    rw (e, e') (ground (arith, ==_iff a a', ==_iff b b', ==_iff c c'))

same_numbers_total :
    (v d : Version)
    → length v.components ≡ 3
    → length d.components ≡ 3
    → (e : Option DynamicError) × (same_numbers v d ≡ some e)
unfolding same_numbers major minor patch
same_numbers_total v d h k =
    let (a, b, c, e) = three_places v.components h in
    let (a', b', c', e') = three_places d.components k in
    rw (e, e')
      (elim (Bool-cases (a == a')) [
        | inr z ↦ (some mismatch, rw z refl)
        | inl z ↦ elim (Bool-cases ((b == b') && (c == c'))) [
          | inl z' ↦ (none, rw (z, z') refl)
          | inr z' ↦ (some mismatch, rw (z, z') refl)
        ]
      ])

-- Both texts are semantic versions with the same three numbers.
abbrev pub SameNumbers : Text → Text → Type 0
SameNumbers s t =
    (v : Version) × (d : Version) × (parse_semantic s ≡ accepted v)
    × (parse_semantic t ≡ accepted d)
    × (v.components ≡ d.components)

IsError : Option (Option DynamicError) → Type 0
IsError (some none) = ⊥
IsError _ = Unit

not_none : (e : DynamicError) → some (some e) ≡ some none → ⊥
unfolding IsError
not_none e h = subst IsError h tt

IsErr : Attempt Version → Type 0
IsErr (accepted v) = ⊥
IsErr (refused e) = Unit

err_not_ok : (e : ParseError) (v : Version) → refused e ≡ accepted v → ⊥
unfolding IsErr
err_not_ok e v h = subst IsErr h tt

cons_not_nil : (c : ℕ) (s : Text) → c ∷ s ≡ [] → ⊥
cons_not_nil c s h = let no : suc (length s) ≡ 0 = ap length h in omega arith

with_runtime_iff :
    (s t : Text)
    → (with_runtime (parse_semantic s) (parse_semantic t) ≡ some none) ↔ SameNumbers s t
unfolding with_runtime with_default
with_runtime_iff s t = go (parse_semantic s) (parse_semantic t) refl refl
  where
    go :
        (r q : Attempt Version)
        → parse_semantic s ≡ r
        → parse_semantic t ≡ q
        → (with_runtime r q ≡ some none) ↔ SameNumbers s t
    go (refused x) q e e' = (
      λ h. absurd (not_none (unparsable x) h),
      λ (v, _, sv, _, _). absurd (err_not_ok x v (sym e ∙ sv)),
    )
    go (accepted v) (refused x) e e' = (
      λ h. absurd (not_none (unparsable x) h),
      λ (_, d, _, td, _). absurd (err_not_ok x d (sym e' ∙ td)),
    )
    go (accepted v) (accepted d) e e' =
        let same =
          same_numbers_iff v d (parse_semantic-length s v e) (parse_semantic-length t d e') in
        (
          λ h. (v, d, e, e', same.0 h),
          λ (v', d', sv, td, eq). same.1 (
              ap (λ w. w.components) (accepted-injective v v' (sym e ∙ sv))
              ∙ eq
              ∙ ap (λ w. w.components) (accepted-injective d' d (sym td ∙ e'))),
        )

with_runtime_total :
    (s t : Text)
    → (e : Option DynamicError) × (with_runtime (parse_semantic s) (parse_semantic t) ≡ some e)
unfolding with_runtime with_default
with_runtime_total s t = go (parse_semantic s) (parse_semantic t) refl refl
  where
    go :
        (r q : Attempt Version)
        → parse_semantic s ≡ r
        → parse_semantic t ≡ q
        → (e : Option DynamicError) × (with_runtime r q ≡ some e)
    go (refused x) q e e' = (some (unparsable x), refl)
    go (accepted v) (refused x) e e' = (some (unparsable x), refl)
    go (accepted v) (accepted d) e e' =
        same_numbers_total v d (parse_semantic-length s v e) (parse_semantic-length t d e')

-- ValidateDynamicVersion accepts a version exactly when it is not empty, and either it is the
-- default or the two are semantic versions with the same major, minor and patch numbers, where
-- v0.0.0-master stands for the default if that is the placeholder of the build.
pub validate_dynamic_version-SameNumbers :
    (dynamic default' : Text)
    → (validate_dynamic_version dynamic default' ≡ some none)
      ↔ (dynamic ≢ []) × ((dynamic ≡ default') ⊎ SameNumbers dynamic (default_text default'))
unfolding validate_dynamic_version
validate_dynamic_version-SameNumbers [] default' =
    (λ h. absurd (not_none empty_version h), λ (h, _). absurd (h refl))
validate_dynamic_version-SameNumbers (c ∷ s) default' =
    let same = with_runtime_iff (c ∷ s) (default_text default') in
    elim (Bool-cases (str_eq (c ∷ s) default')) [
      | inl e ↦
          rw e (λ h. (λ z. cons_not_nil c s z, inl ((str_eq_iff (c ∷ s) default').0 e)), λ h. refl)
      | inr e ↦ rw e (λ h. (λ z. cons_not_nil c s z, inr (same.0 h)), λ (_, h). back e h)
    ]
  where
    back :
        str_eq (c ∷ s) default' ≡ false
        → ((c ∷ s) ≡ default') ⊎ SameNumbers (c ∷ s) (default_text default')
        → with_runtime (parse_semantic (c ∷ s)) (parse_semantic (default_text default')) ≡ some none
    back e (inl h) = let no : true ≡ false = sym ((str_eq_iff (c ∷ s) default').1 h) ∙ e in cc
    back e (inr h) = (with_runtime_iff (c ∷ s) (default_text default')).1 h

validate_dynamic_version_total :
    (dynamic default' : Text)
    → (e : Option DynamicError) × (validate_dynamic_version dynamic default' ≡ some e)
unfolding validate_dynamic_version
validate_dynamic_version_total [] default' = (some empty_version, refl)
validate_dynamic_version_total (c ∷ s) default' =
    let (r, run) = with_runtime_total (c ∷ s) (default_text default') in
    elim (Bool-cases (str_eq (c ∷ s) default')) [
      | inl e ↦ (none, rw e refl)
      | inr e ↦ (r, rw e run)
    ]

-- What the variable can hold: it starts with the version of the build.
pub data Stored (git_version : Text) : Text → Type 0 where
  initial : Stored git_version git_version
  step :
      (dynamic stored after : Text) (e : Option DynamicError)
      → Stored git_version stored
      → set_dynamic_version git_version dynamic stored ≡ some (after, e)
      → Stored git_version after

set_dynamic_version-eq :
    (git_version dynamic stored : Text) (r : Option DynamicError)
    → validate_dynamic_version dynamic git_version ≡ some r
    → set_dynamic_version git_version dynamic stored ≡ some (stored_after dynamic stored r, r)
unfolding set_dynamic_version
set_dynamic_version-eq git_version dynamic stored r run = rw run refl

-- After any calls of SetDynamicVersion the stored version is the one of the build, or both are
-- semantic versions with the same major, minor and patch numbers, where v0.0.0-master stands for the
-- build's version if that is the placeholder.
pub set_dynamic_version-SameNumbers :
    (git_version stored : Text)
    → Stored git_version stored
    → (stored ≡ git_version) ⊎ SameNumbers stored (default_text git_version)
unfolding stored_after
set_dynamic_version-SameNumbers git_version stored initial = inl refl
set_dynamic_version-SameNumbers git_version stored (step dynamic before after e s h) =
    let (r, run) = validate_dynamic_version_total dynamic git_version in
    let h' : some (stored_after dynamic before r, r) ≡ some (stored, e) =
      sym (set_dynamic_version-eq git_version dynamic before r run) ∙ h in
    let ih = set_dynamic_version-SameNumbers git_version before s in go r run (ap stored_text h') ih
  where
    stored_text : Option (Text × Option DynamicError) → Text
    stored_text none = []
    stored_text (some (t, _)) = t

    go :
        (r : Option DynamicError)
        → validate_dynamic_version dynamic git_version ≡ some r
        → stored_after dynamic before r ≡ stored
        → (before ≡ git_version) ⊎ SameNumbers before (default_text git_version)
        → (stored ≡ git_version) ⊎ SameNumbers stored (default_text git_version)
    go (some x) run same ih =
        subst (λ t. (t ≡ git_version) ⊎ SameNumbers t (default_text git_version)) same ih
    go none run same ih =
        let (_, h) = (validate_dynamic_version-SameNumbers dynamic git_version).0 run in
        subst (λ t. (t ≡ git_version) ⊎ SameNumbers t (default_text git_version)) same h
