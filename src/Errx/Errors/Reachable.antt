-- ===== src/Errx/Errors/Reachable.antt =====
-- errx/errx.go and errx/code.go: what the operations can do to the errors that are there.
use linhub.Base.{
  ==_iff, Any, Bool-cases, List, Option, Text, [], ap, arith, false, get_elem?, get_elem?-append,
  get_elem?-set_ne, get_elem?-set_self, inl, inr, lt-length_of_get, none, refl, set, some, sym, ℕ,
  ℤ, ◌++◌, ◌==◌, ◌∙◌, ◌∷◌, ◌≡◌, ◌⊎◌,
}
use linhub.Errx.Errors.{
  BizError, GoError, Heap, Status, alloc_from, as_biz, biz_of_status, from_error, from_found,
  initial_heap, new_biz_error, with_details, with_message, with_metadata, write_at,
}
use mathlib.Core.Path.{subst}

-- Two values of one error: only the details and the metadata may differ.
abbrev pub IsKept : BizError → BizError → Type 0
IsKept b b' =
    (b'.code ≡ b.code) × (b'.level ≡ b.level) × (b'.reason ≡ b.reason) × (b'.message ≡ b.message)

-- The error at a pointer is still there.
abbrev pub IsKeptAt : Heap → ℕ → BizError → Type 0
IsKeptAt h p b = (b' : BizError) × (get_elem? h p ≡ some b') × IsKept b b'

append-IsKeptAt : (h h' : Heap) (p : ℕ) (b : BizError) → IsKeptAt h p b → IsKeptAt (h ++ h') p b
append-IsKeptAt h h' p b (b', found, kept) =
    (b', get_elem?-append h h' p (lt-length_of_get h p found) ∙ found, kept)

value_of : BizError → Option BizError → BizError
value_of d none = d
value_of d (some e) = e

different : {q p : ℕ} → q ≡ p → (q == p) ≡ false → ⊥
different e h = ground arith

set-IsKeptAt :
    (h : Heap) (p q : ℕ) (b e : BizError) (f : BizError → BizError)
    → ((x : BizError) → IsKept x (f x))
    → get_elem? h q ≡ some e
    → IsKeptAt h p b
    → IsKeptAt (set h q (f e)) p b
unfolding value_of
set-IsKeptAt h p q b e f keep there (b', found, kept) = elim (Bool-cases (q == p)) [
  | inr apart ↦ (b', get_elem?-set_ne h q p (f e) (λ z. different z apart) ∙ found, kept)
  | inl same ↦
      let at : q ≡ p = (==_iff q p).0 same in
      let old : e ≡ b' = ap (value_of b) (sym there ∙ ap (get_elem? h) at ∙ found) in
      let here = get_elem?-set_self h q (f e) (lt-length_of_get h q there) in
      let (c, l, r, m) = keep e in
      let (c', l', r', m') = subst (IsKept b) (sym old) kept in
      (f e, sym (ap (get_elem? (set h q (f e))) at) ∙ here, (c ∙ c', l ∙ l', r ∙ r', m ∙ m'))
]

heap_of : Option (ℕ × Heap) → Heap
heap_of none = []
heap_of (some r) = r.1

write_at-IsKeptAt :
    (h : Heap) (p q r : ℕ) (b : BizError) (f : BizError → BizError) (h' : Heap)
    → ((x : BizError) → IsKept x (f x))
    → write_at h q f (get_elem? h q) ≡ some (r, h')
    → IsKeptAt h p b
    → IsKeptAt h' p b
unfolding heap_of
write_at-IsKeptAt h p q r b f h' keep run kept = go (get_elem? h q) refl run
  where
    go :
        (o : Option BizError)
        → get_elem? h q ≡ o
        → write_at h q f o ≡ some (r, h')
        → IsKeptAt h' p b
    go none there run = absurd (ground arith)
    go (some e) there run =
        subst (λ k. IsKeptAt k p b) (ap heap_of run) (set-IsKeptAt h p q b e f keep there kept)

-- WithMessage adds one error.
with_message-adds :
    (h h' : Heap) (p q : ℕ) (message : Text)
    → with_message h p message ≡ some (q, h')
    → (e : BizError) × (h ++ e ∷ [] ≡ h')
unfolding with_message heap_of
with_message-adds h h' p q message run = go (get_elem? h p) run
  where
    go :
        (o : Option BizError)
        → alloc_from h (λ e. record e { message = message }) o ≡ some (q, h')
        → (e : BizError) × (h ++ e ∷ [] ≡ h')
    go none run = absurd (ground arith)
    go (some e) run = (record e { message = message }, ap heap_of run)

module _ {F : Type 0} (text : F → Text) (status_of : GoError F → Option Status) where
  -- The heaps that the program can have, through the functions of the package.
  pub data Reachable : Heap → Type 0 where
    start : Reachable initial_heap
    after_new :
        (h : Heap) (code : ℤ) (reason message : Text)
        → Reachable h
        → Reachable (h ++ new_biz_error code reason message ∷ [])
    after_details :
        (h h' : Heap) (p q : ℕ) (details : Text)
        → Reachable h
        → with_details h p details ≡ some (q, h')
        → Reachable h'
    after_metadata :
        (h h' : Heap) (p q : ℕ) (metadata : Option (List (Text × Any)))
        → Reachable h
        → with_metadata h p metadata ≡ some (q, h')
        → Reachable h'
    after_message :
        (h h' : Heap) (p q : ℕ) (message : Text)
        → Reachable h
        → with_message h p message ≡ some (q, h')
        → Reachable h'
    after_from :
        (h h' : Heap) (e : Option (GoError F)) (r : Option ℕ)
        → Reachable h
        → from_error text status_of h e ≡ (r, h')
        → Reachable h'

  -- FromError adds at most one error.
  from_error-adds :
      (h : Heap) (e : Option (GoError F))
      → ((from_error text status_of h e).1 ≡ h)
        ⊎ ((b : BizError) × ((from_error text status_of h e).1 ≡ h ++ b ∷ []))
  unfolding from_error
  from_error-adds h none = inl refl
  from_error-adds h (some e) = go (as_biz e)
    where
      go :
          (o : Option ℕ)
          → ((from_found text status_of h e o).1 ≡ h)
            ⊎ ((b : BizError) × ((from_found text status_of h e o).1 ≡ h ++ b ∷ []))
      go (some p) = inl refl
      go none = inr (biz_of_status text status_of e (status_of e), refl)

  -- Whatever errors the program makes, changes and normalises through the functions of the package,
  -- each predefined error keeps its code, its level, its reason and its message.
  pub Reachable-IsKeptAt :
      (h : Heap) (p : ℕ) (b : BizError)
      → Reachable h
      → get_elem? initial_heap p ≡ some b
      → IsKeptAt h p b
  unfolding with_details with_metadata
  Reachable-IsKeptAt h p b start found = (b, found, (refl, refl, refl, refl))
  Reachable-IsKeptAt h p b (after_new g code reason message r) found =
      append-IsKeptAt g _ p b (Reachable-IsKeptAt g p b r found)
  Reachable-IsKeptAt h p b (after_details g h' q q' details r run) found =
      write_at-IsKeptAt g p q q' b _ h (λ x. (refl, refl, refl, refl)) run
        (Reachable-IsKeptAt g p b r found)
  Reachable-IsKeptAt h p b (after_metadata g h' q q' metadata r run) found =
      write_at-IsKeptAt g p q q' b _ h (λ x. (refl, refl, refl, refl)) run
        (Reachable-IsKeptAt g p b r found)
  Reachable-IsKeptAt h p b (after_message g h' q q' message r run) found =
      let (e, same) = with_message-adds g h q q' message run in
      subst (λ k. IsKeptAt k p b) same
        (append-IsKeptAt g (e ∷ []) p b (Reachable-IsKeptAt g p b r found))
  Reachable-IsKeptAt h p b (after_from g h' e q r run) found =
      let heap : (from_error text status_of g e).1 ≡ h = ap (λ x. x.1) run in
      let ih = Reachable-IsKeptAt g p b r found in
      elim (from_error-adds g e) [
        | inl same ↦ subst (λ k. IsKeptAt k p b) (sym same ∙ heap) ih
        | inr (x, same) ↦
            subst (λ k. IsKeptAt k p b) (sym same ∙ heap) (append-IsKeptAt g (x ∷ []) p b ih)
      ]
