-- ===== src/Version/Highest/Best.antt =====
-- util/version/version.go, HighestSupportedVersion: what it returns.
use linhub.Base.{
  ==_iff, Bool-cases, List, Option, Text, [], all, ap, arith, false, if◌then◌else◌, inl, inr, ltb,
  none, refl, some, sym, true, ℕ, ◌&&◌, ◌==◌, ◌∙◌, ◌∷◌, ◌≡◌,
}
use linhub.Version.{Version, less_than, major}
use linhub.Version.Parse.{Attempt, accepted, parse_generic, refused}
use linhub.Version.Parsed.{parse_generic-major}
use linhub.Version.Order.Below.{Below-irrefl, Below-trans, less_than-Below}
use linhub.Version.Highest.{
  Highest, IsSupported, Offered, State, conclude, empty_array, failed, found, higher,
  highest_supported_version, loop, none_found, not_v1, round,
}
use mathlib.Core.Path.{subst}

Offered-major :
    (ss : List Text) (v : Version)
    → Offered ss v
    → (m : ℕ) × (major v ≡ some m) × (v.semver ≡ false)
Offered-major [] v h = elim h [ ]
Offered-major (s ∷ ss) v (inl h) = parse_generic-major s v h
Offered-major (s ∷ ss) v (inr h) = Offered-major ss v h

-- The highest of what is offered and supported.
abbrev Best : List Text → Option Version → Type 0
Best ss none = (v : Version) → Offered ss v → IsSupported v → ⊥
Best ss (some h) =
    Offered ss h
    × IsSupported h
    × ((v : Version) → Offered ss v → IsSupported v → less_than h v ≡ false)

not_less_trans :
    (h n w : Version)
    → h.semver ≡ false
    → n.semver ≡ false
    → less_than h n ≡ true
    → less_than h w ≡ false
    → less_than n w ≡ false
not_less_trans h n w hs ns l k =
    let hn = less_than-Below h n (ap (λ b. b && n.semver) hs) in
    let nw = less_than-Below n w (ap (λ b. b && w.semver) ns) in
    let hw = less_than-Below h w (ap (λ b. b && w.semver) hs) in
    elim (Bool-cases (less_than n w)) [
      | inr e ↦ e
      | inl e ↦
          let through =
            hw.1 (Below-trans h.components n.components w.components (hn.0 l) (nw.0 e)) in
          let no : false ≡ true = sym k ∙ through in cc
    ]

less_than_irrefl : (h : Version) → h.semver ≡ false → less_than h h ≡ false
less_than_irrefl h hs = elim (Bool-cases (less_than h h)) [
  | inr e ↦ e
  | inl e ↦
      let below = (less_than-Below h h (ap (λ b. b && h.semver) hs)).0 e in
      absurd (Below-irrefl h.components h.components below (λ i. refl))
]

ok_same : (v w : Version) → accepted v ≡ accepted w → v ≡ w
ok_same v w h = cc

-- A text that is no supported version changes nothing.
Best-skip :
    (s : Text) (ss : List Text) (o : Option Version)
    → ((v : Version) → parse_generic s ≡ accepted v → IsSupported v → ⊥)
    → Best ss o
    → Best (s ∷ ss) o
Best-skip s ss none not_new best = go
  where
    go : (v : Version) → Offered (s ∷ ss) v → IsSupported v → ⊥
    go v (inl e) k = not_new v e k
    go v (inr e) k = best v e k
Best-skip s ss (some h) not_new (offered, supported, best) = (inr offered, supported, go)
  where
    go : (v : Version) → Offered (s ∷ ss) v → IsSupported v → less_than h v ≡ false
    go v (inl e) k = absurd (not_new v e k)
    go v (inr e) k = best v e k

Best-take :
    (s : Text) (ss : List Text) (o : Option Version) (n : Version)
    → parse_generic s ≡ accepted n
    → n.semver ≡ false
    → IsSupported n
    → Best ss o
    → Best (s ∷ ss) (some (higher o n))
unfolding higher
Best-take s ss none n e ns k best = (inl e, k, go)
  where
    go : (v : Version) → Offered (s ∷ ss) v → IsSupported v → less_than n v ≡ false
    go v (inl e') k' =
        let same : n ≡ v = ok_same n v (sym e ∙ e') in
        subst (λ w. less_than n w ≡ false) same (less_than_irrefl n ns)
    go v (inr e') k' = absurd (best v e' k')
Best-take s ss (some h) n e ns k (offered, supported, best) = elim (Bool-cases (less_than h n)) [
  | inl l ↦ rw l (inl e, k, above l)
  | inr l ↦ rw l (inr offered, supported, kept l)
]
  where
    above :
        less_than h n ≡ true
        → (v : Version) → Offered (s ∷ ss) v
        → IsSupported v
        → less_than n v ≡ false
    above l v (inl e') k' =
        let same : n ≡ v = ok_same n v (sym e ∙ e') in
        subst (λ w. less_than n w ≡ false) same (less_than_irrefl n ns)
    above l v (inr e') k' =
        let (_, _, hs) = Offered-major ss h offered in not_less_trans h n v hs ns l (best v e' k')

    kept :
        less_than h n ≡ false
        → (v : Version) → Offered (s ∷ ss) v
        → IsSupported v
        → less_than h v ≡ false
    kept l v (inl e') k' =
        let same : n ≡ v = ok_same n v (sym e ∙ e') in subst (λ w. less_than h w ≡ false) same l
    kept l v (inr e') k' = best v e' k'

some_same : (m n : ℕ) → some m ≡ some n → m ≡ n
some_same m n h = cc

-- A round ends, and keeps the highest.
round-Best :
    (s : Text) (ss : List Text) (st : State) (r : Attempt Version)
    → parse_generic s ≡ r
    → Best ss st.0
    → (st' : State) × (round r st ≡ some st') × Best (s ∷ ss) st'.0
unfolding round
round-Best s ss (o, e) (refused e') p best = ((o, some e'), refl, Best-skip s ss o none_here best)
  where
    none_here : (v : Version) → parse_generic s ≡ accepted v → IsSupported v → ⊥
    none_here v h k = let no : refused e' ≡ accepted v = sym p ∙ h in cc
round-Best s ss (o, e) (accepted v) p best =
    let (m, mv, vs) = parse_generic-major s v p in
    elim (Bool-cases (ltb 1 m)) [
      | inl l ↦ ((o, e), rw mv (rw l refl), Best-skip s ss o (too_high m mv l) best)
      | inr l ↦
          let k : IsSupported v = (m, mv, ground arith) in
          ((some (higher o v), e), rw mv (rw l refl), Best-take s ss o v p vs k best)
    ]
  where
    too_high :
        (m : ℕ)
        → major v ≡ some m
        → ltb 1 m ≡ true
        → (w : Version) → parse_generic s ≡ accepted w
        → IsSupported w
        → ⊥
    too_high m mv l w h (n, nw, small) =
        let same : v ≡ w = ok_same v w (sym p ∙ h) in
        let eq : m ≡ n = some_same m n (sym mv ∙ ap major same ∙ nw) in ground arith

loop-Best : (ss : List Text) → (st : State) × (loop ss ≡ some st) × Best ss st.0
unfolding loop
loop-Best [] = ((none, none), refl, λ v h k. h)
loop-Best (s ∷ ss) =
    let (st, run, best) = loop-Best ss in
    let (st', next, best') = round-Best s ss st (parse_generic s) refl best in
    (st', rw run next, best')

conclude-found :
    (versions : List Text) (st : State) (h : Version)
    → Best versions st.0
    → conclude versions st ≡ some (found h)
    → (st.0 ≡ some h) × (major h ≡ some 1)
unfolding conclude
conclude-found versions (none, e) h best k = (cc, cc)
conclude-found versions (some g, e) h (_, (m, mg, small), _) k =
    let k' : (if m == 1 then some (found g) else some (failed (not_v1 g))) ≡ some (found h) =
      rw mg at k in
    elim (Bool-cases (m == 1)) [
      | inl e' ↦
          let same : some (found g) ≡ some (found h) = sym (rw e' refl) ∙ k' in
          let same' : g ≡ h = cc in
          (ap some same', ap major (sym same') ∙ mg ∙ ap some ((==_iff m 1).0 e'))
      | inr e' ↦ let no : some (failed (not_v1 g)) ≡ some (found h) = sym (rw e' refl) ∙ k' in cc
    ]

-- The version that HighestSupportedVersion returns is one that a text of the list is parsed as, and
-- has the major number 1; no text of the list is parsed as a version before v2 that is higher.
pub highest_supported_version-IsSupported :
    (versions : List Text) (h : Version)
    → highest_supported_version versions ≡ some (found h)
    → Offered versions h
      × (major h ≡ some 1)
      × ((v : Version) → Offered versions v → IsSupported v → less_than h v ≡ false)
unfolding highest_supported_version
highest_supported_version-IsSupported [] h e = cc
highest_supported_version-IsSupported (s ∷ ss) h e =
    let (st, run, best) = loop-Best (s ∷ ss) in
    let e' : conclude (s ∷ ss) st ≡ some (found h) = rw run at e in
    let (eq, one) = conclude-found (s ∷ ss) st h best e' in
    let (offered, _, all) = subst (Best (s ∷ ss)) eq best in (offered, one, all)

conclude_total :
    (versions : List Text) (st : State)
    → Best versions st.0
    → (r : Highest) × (conclude versions st ≡ some r)
unfolding conclude
conclude_total versions (none, e) best = (failed (none_found versions e), refl)
conclude_total versions (some g, e) (_, (m, mg, small), _) = elim (Bool-cases (m == 1)) [
  | inl e' ↦ (found g, rw mg (rw e' refl))
  | inr e' ↦ (failed (not_v1 g), rw mg (rw e' refl))
]

-- HighestSupportedVersion returns a version or an error for every list: no number is read that the
-- parsed version does not have.
pub highest_supported_version_total :
    (versions : List Text) → (r : Highest) × (highest_supported_version versions ≡ some r)
unfolding highest_supported_version
highest_supported_version_total [] = (failed empty_array, refl)
highest_supported_version_total (s ∷ ss) =
    let (st, run, best) = loop-Best (s ∷ ss) in
    let (r, e) = conclude_total (s ∷ ss) st best in (r, rw run e)
