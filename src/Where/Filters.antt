-- ===== src/Where/Filters.antt =====
-- store/where/where.go: key-value filters and the tenant.
use linhub.Base.{
  ==_iff, Any, Bool-cases, List, Option, Text, [], ap, arith, false, if◌then◌else◌, inl, inr,
  length, none, opaque_value, refl, some, str_eq_iff, string_value, true, ◌%◌, ◌==◌, ◌↔◌, ◌∙◌, ◌∷◌,
  ◌≡◌, ◌≢◌,
}
use linhub.Where.{Options, any_eq, filter_by, filter_map_of, get, put, put_pairs, tenant}

any_eq_iff : (a b : Any) → (any_eq a b ≡ true) ↔ (a ≡ b)
unfolding any_eq
any_eq_iff (string_value s) (string_value t) = ground (arith, str_eq_iff s t)
any_eq_iff (opaque_value m) (opaque_value n) = ground arith
any_eq_iff (string_value s) (opaque_value n) = ground arith
any_eq_iff (opaque_value m) (string_value t) = ground arith

get-put :
    (k j v : Any) (m : List (Any × Any))
    → get j (put k v m) ≡ (if any_eq k j then some v else get j m)
unfolding get put
get-put k j v [] = refl
get-put k j v ((i, w) ∷ m) =
    ground (arith, any_eq_iff k j, any_eq_iff i k, any_eq_iff i j, get-put k j v m)

-- Arguments that come in pairs, each with a string for its key.
abbrev pub ArePairs : List Any → Type 0
ArePairs [] = Unit
ArePairs (k ∷ []) = ⊥
ArePairs (string_value k ∷ v ∷ kvs) = ArePairs kvs
ArePairs (opaque_value k ∷ v ∷ kvs) = ⊥

-- The value that pairs give a key, if one of them has it: that of the last one.
abbrev pub last_value : Text → List Any → Option Any → Option Any
last_value key [] old = old
last_value key (k ∷ []) old = old
last_value key (k ∷ v ∷ kvs) old =
    last_value key kvs (if any_eq k (string_value key) then some v else old)

put_pairs_total :
    (kvs : List Any) (m : List (Any × Any))
    → ArePairs kvs
    → (m' : List (Any × Any)) × (put_pairs kvs m ≡ some m')
      × ((key : Text) → get (string_value key) m' ≡ last_value key kvs (get (string_value key) m))
unfolding put_pairs
put_pairs_total [] m h = (m, refl, λ key. refl)
put_pairs_total (k ∷ []) m h = elim h [ ]
put_pairs_total (string_value k ∷ v ∷ kvs) m h =
    let (m', run, law) = put_pairs_total kvs (put (string_value k) v m) h in
    (
      m',
      run,
      λ key. law key ∙ ap (last_value key kvs) (get-put (string_value k) (string_value key) v m),
    )
put_pairs_total (opaque_value k ∷ v ∷ kvs) m h = elim h [ ]

put_pairs_panics : (kvs : List Any) (m : List (Any × Any)) → ¬ ArePairs kvs → put_pairs kvs m ≡ none
unfolding put_pairs
put_pairs_panics [] m h = absurd (h tt)
put_pairs_panics (k ∷ []) m h = refl
put_pairs_panics (string_value k ∷ v ∷ kvs) m h = put_pairs_panics kvs _ h
put_pairs_panics (opaque_value k ∷ v ∷ kvs) m h = refl

ArePairs-even : (kvs : List Any) → ArePairs kvs → length kvs % 2 ≡ 0
ArePairs-even [] h = omega arith
ArePairs-even (k ∷ []) h = elim h [ ]
ArePairs-even (string_value k ∷ v ∷ kvs) h = omega (arith, ArePairs-even kvs h)
ArePairs-even (opaque_value k ∷ v ∷ kvs) h = elim h [ ]

-- Given pairs with string keys, Filter does not panic and changes the filters alone; every string
-- key then has the value of the last pair with that key, or its old value when there is none.
pub filter_by_total :
    (kvs : List Any) (o : Options)
    → ArePairs kvs
    → (m : List (Any × Any)) × (filter_by kvs o ≡ some (record o { filters = some m }))
      × ((key : Text)
          → get (string_value key) m
            ≡ last_value key kvs (get (string_value key) (filter_map_of o.filters)))
unfolding filter_by
filter_by_total kvs o h =
    let (m, run, law) = put_pairs_total kvs (filter_map_of o.filters) h in
    let even : length kvs % 2 == 0 ≡ true = (==_iff _ _).1 (ArePairs-even kvs h) in
    (m, rw (even, run) refl, law)

-- Given arguments that are not pairs with a string for the key, Filter panics.
filter_by_panics : (kvs : List Any) (o : Options) → ¬ ArePairs kvs → filter_by kvs o ≡ none
unfolding filter_by
filter_by_panics kvs o h = elim (Bool-cases (length kvs % 2 == 0)) [
  | inl e ↦ rw (e, put_pairs_panics kvs (filter_map_of o.filters) h) refl
  | inr e ↦ rw e refl
]

any_eq_refl : (s : Text) → any_eq (string_value s) (string_value s) ≡ true
any_eq_refl s = (any_eq_iff _ _).1 refl

any_eq_ne : (s t : Text) → t ≢ s → any_eq (string_value s) (string_value t) ≡ false
unfolding any_eq
any_eq_ne s t h = ground (arith, str_eq_iff s t)

-- A tenant with a nonempty key and a value function puts its key into the filters with the
-- context's value, whatever filters there were, and leaves every other string key as it was.
tenant_filters :
    {Ctx : Type 0} (key : Text) (f : Ctx → Text) (ctx : Ctx) (o : Options)
    → key ≢ []
    → (m : List (Any × Any)) × (tenant (record { key = key; value_func = some f }) ctx o
        ≡ some (record o { filters = some m }))
      × (get (string_value key) m ≡ some (string_value (f ctx)))
      × ((other : Text)
          → other ≢ key
          → get (string_value other) m ≡ get (string_value other) (filter_map_of o.filters))
unfolding tenant
tenant_filters [] f ctx o h = absurd (h refl)
tenant_filters (c ∷ key) f ctx o h =
    let (m, run, law) = filter_by_total (string_value (c ∷ key) ∷ string_value (f ctx) ∷ []) o tt in
    let self = any_eq_refl (c ∷ key) in
    (
      m,
      run,
      law (c ∷ key) ∙ rw self refl,
      λ other apart. law other ∙ rw (any_eq_ne (c ∷ key) other apart) refl,
    )
