-- ===== src/Where/Counting.antt =====
-- store/where/where.go: what a count query keeps of the options.
use linhub.Base.{
  Bool, Bool-cases, List, [], ap, append-nil, append_assoc, eq_ℤ, false, if◌then◌else◌, inl, inr,
  length, ltb, ltb_ℤ, map, pos, refl, sym, true, ◌++◌, ◌||◌, ◌∙◌, ◌∷◌, ◌≡◌,
}
use linhub.Where.{Options, count_options, default_limit, filter_map_of}
use linhub.Where.Apply.{
  Call, clauses, each, group, having, joins, limit, offset, omit, order, preload, select, when,
  where_, where_map, where_query,
}
use mathlib.Core.Path.{ap₂}

-- The calls that options make, in order.
abbrev pub trace : Options → List Call
trace o = where_ (λ c cs. cs ++ c ∷ []) o []

-- The calls that decide which rows there are: joins, conditions, grouping.
abbrev pub selects_rows : Call → Bool
selects_rows (joins _) = true
selects_rows (where_map _) = true
selects_rows (where_query _) = true
selects_rows (clauses _) = true
selects_rows (group _) = true
selects_rows (having _) = true
selects_rows _ = false

abbrev pub keep : {A : Type 0} → (A → Bool) → List A → List A
keep p [] = []
keep p (a ∷ as') = if p a then a ∷ keep p as' else keep p as'

keep-append :
    {A : Type 0} (p : A → Bool) (xs ys : List A) → keep p (xs ++ ys) ≡ keep p xs ++ keep p ys
keep-append p [] ys = refl
keep-append p (x ∷ xs) ys = elim (Bool-cases (p x)) [
  | inl e ↦ rw (e, keep-append p xs ys) refl
  | inr e ↦ rw (e, keep-append p xs ys) refl
]

keep_yes :
    {A : Type 0} (f : A → Call) (xs : List A)
    → ((a : A) → selects_rows (f a) ≡ true)
    → keep selects_rows (map f xs) ≡ map f xs
keep_yes f [] h = refl
keep_yes f (x ∷ xs) h = rw (h x, keep_yes f xs h) refl

keep_no :
    {A : Type 0} (f : A → Call) (xs : List A)
    → ((a : A) → selects_rows (f a) ≡ false)
    → keep selects_rows (map f xs) ≡ []
keep_no f [] h = refl
keep_no f (x ∷ xs) h = rw (h x, keep_no f xs h) refl

abbrev only : Bool → Call → List Call
only true c = c ∷ []
only false c = []

-- The calls as one list, from the parts of the options.
abbrev pub row_calls : Options → List Call
row_calls o =
    map joins o.joins
    ++ (only (ltb 0 (length (filter_map_of o.filters))) (where_map (filter_map_of o.filters))
        ++ (map where_query o.queries
            ++ (only (ltb 0 (length o.clauses)) (clauses o.clauses)
                ++ (map group o.groups ++ map having o.havings))))

abbrev pub view_calls : Options → List Call
view_calls o =
    map preload o.preloads
    ++ (only (ltb 0 (length o.selects)) (select o.selects)
        ++ (only (ltb 0 (length o.omits)) (omit o.omits)
            ++ (map order o.orders
                ++ (only (ltb_ℤ (pos 0) o.offset) (offset o.offset)
                    ++ only (ltb_ℤ (pos 0) o.limit || eq_ℤ o.limit default_limit)
                        (limit o.limit)))))

module _ {Db : Type 0} (step : Call → Db → Db) where
  unfoldable pub run : List Call → Db → Db
  run [] db = db
  run (c ∷ cs) db = run cs (step c db)

  run-append : (xs ys : List Call) (db : Db) → run (xs ++ ys) db ≡ run ys (run xs db)
  unfolding run
  run-append [] ys db = refl
  run-append (x ∷ xs) ys db = run-append xs ys (step x db)

  each-run :
      {A : Type 0} (f : A → Call) (xs : List A) (db : Db) → each step f xs db ≡ run (map f xs) db
  unfolding run each
  each-run f [] db = refl
  each-run f (x ∷ xs) db = each-run f xs (step (f x) db)

  when-run : (b : Bool) (c : Call) (db : Db) → when step b c db ≡ run (only b c) db
  unfolding run when
  when-run true c db = refl
  when-run false c db = refl

  -- On every kind of handle, applying the options is making the calls of one list in order: those
  -- that decide which rows there are, then those that decide how they are shown.
  where-run : (o : Options) (db : Db) → where_ step o db ≡ run (row_calls o ++ view_calls o) db
  unfolding where_
  where-run o db = simp (each-run, when-run, run-append)

run-snoc : (cs acc : List Call) → run (λ c t. t ++ c ∷ []) cs acc ≡ acc ++ cs
unfolding run
run-snoc [] acc = sym (append-nil acc)
run-snoc (c ∷ cs) acc = run-snoc cs (acc ++ c ∷ []) ∙ append_assoc acc (c ∷ []) cs

trace_lem : (o : Options) → trace o ≡ row_calls o ++ view_calls o
trace_lem o = where-run (λ c cs. cs ++ c ∷ []) o [] ∙ run-snoc _ []

keep-only_yes :
    (b : Bool) (c : Call) → selects_rows c ≡ true → keep selects_rows (only b c) ≡ only b c
keep-only_yes true c h = rw h refl
keep-only_yes false c h = refl

keep-only_no : (b : Bool) (c : Call) → selects_rows c ≡ false → keep selects_rows (only b c) ≡ []
keep-only_no true c h = rw h refl
keep-only_no false c h = refl

keep-row_calls : (o : Options) → keep selects_rows (row_calls o) ≡ row_calls o
keep-row_calls o = simp (
  keep-append,
  keep_yes joins o.joins (λ a. refl),
  keep-only_yes (ltb 0 (length (filter_map_of o.filters))) (where_map (filter_map_of o.filters))
      refl,
  keep_yes where_query o.queries (λ a. refl),
  keep-only_yes (ltb 0 (length o.clauses)) (clauses o.clauses) refl,
  keep_yes group o.groups (λ a. refl),
  keep_yes having o.havings (λ a. refl),
)

keep-view_calls : (o : Options) → keep selects_rows (view_calls o) ≡ []
keep-view_calls o = simp (
  keep-append,
  keep_no preload o.preloads (λ a. refl),
  keep-only_no (ltb 0 (length o.selects)) (select o.selects) refl,
  keep-only_no (ltb 0 (length o.omits)) (omit o.omits) refl,
  keep_no order o.orders (λ a. refl),
  keep-only_no (ltb_ℤ (pos 0) o.offset) (offset o.offset) refl,
  keep-only_no (ltb_ℤ (pos 0) o.limit || eq_ℤ o.limit default_limit) (limit o.limit) refl,
)

-- The count options make exactly those calls of the options that decide which rows there are, in
-- the same order, and then clear the limit.
pub trace-count_options :
    (o : Options)
    → trace (count_options o) ≡ keep selects_rows (trace o) ++ limit default_limit ∷ []
unfolding count_options
trace-count_options o =
    let rows : keep selects_rows (trace o) ≡ row_calls o =
      ap (keep selects_rows) (trace_lem o)
      ∙ keep-append selects_rows (row_calls o) (view_calls o)
      ∙ ap₂ ◌++◌ (keep-row_calls o) (keep-view_calls o)
      ∙ append-nil (row_calls o) in
    trace_lem (count_options o) ∙ ap (λ cs. cs ++ limit default_limit ∷ []) (sym rows)
