-- ===== src/Util/Lists/Counts.antt =====
-- util/strings/strings.go: how often a string occurs in the results.
use linhub.Base.{
  Bool, Bool-cases, List, Text, [], ap, arith, false, if◌then◌else◌, inl, inr, ltb_ℤ, negsuc, pos,
  refl, str_eq, str_eq_iff, str_eq_refl, sym, true, ℕ, ℤ, ◌++◌, ◌+◌, ◌||◌, ◌∙◌, ◌∷◌, ◌≡◌, ◌⊎◌,
}
use linhub.Util.Lists.{
  add, after, contains_string, diff, find_string, include, is_member, keys, string_in, unique,
}

-- How often a string occurs.
abbrev pub occurs : Text → List Text → ℕ
occurs s [] = 0
occurs s (t ∷ ts) = (if str_eq t s then 1 else 0) + occurs s ts

-- One more string in a split.
split_cons :
    (base other : List Text) (t s : Text)
    → (occurs s (diff base other) + occurs s (include other base) ≡ occurs s base)
      × (occurs s (diff base other) ≡ (if is_member other s then 0 else occurs s base))
    → (occurs s (diff (t ∷ base) other) + occurs s (include other (t ∷ base)) ≡ occurs s (t ∷ base))
      × (occurs s (diff (t ∷ base) other) ≡ (if is_member other s then 0 else occurs s (t ∷ base)))
unfolding diff include
split_cons base other t s (both, kept) = elim (Bool-cases (str_eq t s)) [
  | inl same ↦
      let e : is_member other t ≡ is_member other s =
        ap (is_member other) ((str_eq_iff t s).0 same) in
      elim (Bool-cases (is_member other s)) [
        | inl m ↦
            let m' : is_member other t ≡ true = e ∙ m in
            let kept' : occurs s (diff base other) ≡ 0 = kept ∙ (rw m refl) in
            rw (m', m, same) (omega arith, kept')
        | inr m ↦
            let m' : is_member other t ≡ false = e ∙ m in
            let kept' : occurs s (diff base other) ≡ occurs s base = kept ∙ (rw m refl) in
            rw (m', m) (rw same (omega arith, omega arith))
      ]
  | inr apart ↦ elim (Bool-cases (is_member other t)) [
    | inl m ↦ rw (m, apart) (ground arith)
    | inr m ↦ rw (m, apart) (ground arith)
  ]
]

-- Diff and Include split a slice: every string of it occurs as often in the two results together as in
-- the slice, in the first one if the other slice does not have it and in the second one if it does.
pub occurs-diff :
    (base other : List Text) (s : Text)
    → (occurs s (diff base other) + occurs s (include other base) ≡ occurs s base)
      × (occurs s (diff base other) ≡ (if is_member other s then 0 else occurs s base))
unfolding diff include
occurs-diff [] other s = ground arith
occurs-diff (t ∷ base) other s = split_cons base other t s (occurs-diff base other s)

-- An order in which a map visits its keys: each key as often as before.
abbrev pub IsOrder : (List Text → List Text) → Type 0
IsOrder visited = (s : Text) (ks : List Text) → occurs s (visited ks) ≡ occurs s ks

occurs-keys : (ss : List Text) (s : Text) → occurs s (keys ss) ≡ (if is_member ss s then 1 else 0)
occurs-keys [] s = refl
occurs-keys (t ∷ ss) s = elim (Bool-cases (str_eq t s)) [
  | inl same ↦
      let e : is_member ss t ≡ is_member ss s = ap (is_member ss) ((str_eq_iff t s).0 same) in
      elim (Bool-cases (is_member ss s)) [
        | inl m ↦
            let m' : is_member ss t ≡ true = e ∙ m in rw (m', same) (occurs-keys ss s ∙ rw m refl)
        | inr m ↦
            let m' : is_member ss t ≡ false = e ∙ m in
            let none_yet : occurs s (keys ss) ≡ 0 = occurs-keys ss s ∙ rw m refl in
            rw m' (rw same (omega arith))
      ]
  | inr apart ↦
      let rest = occurs-keys ss s in
      elim (Bool-cases (is_member ss t)) [
        | inl m ↦ rw (m, apart) rest
        | inr m ↦ rw (m, apart) (omega (arith, rest))
      ]
]

-- Unique keeps every string of a slice once and adds none, in whatever order a map visits its keys.
pub occurs-unique :
    (visited : List Text → List Text)
    → IsOrder visited
    → (ss : List Text) (s : Text) → occurs s (unique visited ss) ≡ (if is_member ss s then 1 else 0)
unfolding unique
occurs-unique visited fair ss s = fair s (keys ss) ∙ occurs-keys ss s

str_eq_comm : (s t : Text) → str_eq s t ≡ str_eq t s
str_eq_comm s t = elim (Bool-cases (str_eq s t)) [
  | inl e ↦ let same : s ≡ t = (str_eq_iff s t).0 e in rw same refl
  | inr e ↦ elim (Bool-cases (str_eq t s)) [
    | inl back ↦
        let same : str_eq s t ≡ true = (str_eq_iff s t).1 (sym ((str_eq_iff t s).0 back)) in cc
    | inr back ↦ e ∙ sym back
  ]
]

found_after : (n : ℤ) → ltb_ℤ (negsuc 0) n ≡ ltb_ℤ (negsuc 0) (after n)
found_after (pos n) = ground arith
found_after (negsuc n) = refl

string_in-contains : (l : List Text) (s : Text) → string_in s l ≡ contains_string l s
unfolding string_in find_string contains_string
string_in-contains [] s = refl
string_in-contains (t ∷ l) s = rw (str_eq_comm s t) (elim (Bool-cases (str_eq t s)) [
  | inl e ↦ rw e refl
  | inr e ↦ rw e (sym (found_after (find_string l s)) ∙ string_in-contains l s)
])

contains_append :
    (l : List Text) (s t : Text)
    → contains_string (l ++ s ∷ []) t ≡ (contains_string l t || str_eq s t)
unfolding contains_string
contains_append [] s t = ground arith
contains_append (x ∷ l) s t = elim (Bool-cases (str_eq x t)) [
  | inl e ↦ rw e refl
  | inr e ↦ rw e (contains_append l s t)
]

or_false : (b : Bool) → b ≡ (b || false)
or_false true = refl
or_false false = refl

-- StringIn and Contains give the same answer. After Add a slice has the string that was added and
-- those that it had, and no other; Add does nothing the second time.
pub add-contains :
    (l : List Text) (s t : Text)
    → (string_in t (add l s) ≡ contains_string (add l s) t)
      × (contains_string (add l s) t ≡ (contains_string l t || str_eq s t))
      × (add (add l s) s ≡ add l s)
unfolding add
add-contains l s t = (
  string_in-contains (add l s) t,
  has_added t,
  ap (λ b. if b then add l s else add l s ++ s ∷ []) (has_added s ∙ has_itself),
)
  where
    already :
        (u : Text)
        → contains_string l s ≡ true
        → (str_eq s u ≡ true) ⊎ (str_eq s u ≡ false)
        → contains_string l u ≡ (contains_string l u || str_eq s u)
    already u has (inl e) =
        let there : contains_string l u ≡ true =
          ap (contains_string l) (sym ((str_eq_iff s u).0 e)) ∙ has in
        rw there refl
    already u has (inr e) = rw e (or_false (contains_string l u))

    has_added : (u : Text) → contains_string (add l s) u ≡ (contains_string l u || str_eq s u)
    has_added u = elim (Bool-cases (contains_string l s)) [
      | inl has ↦ rw has (already u has (Bool-cases (str_eq s u)))
      | inr new ↦ rw new (contains_append l s u)
    ]

    has_itself : (contains_string l s || str_eq s s) ≡ true
    has_itself = rw (str_eq_refl s) (ground arith)
