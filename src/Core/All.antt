-- ===== src/Core/All.antt =====
-- core/core.go and binding/binding.go: requests that are bound from several sources. A bind function and
-- the validator that package binding has kept are arguments.
use linhub.Base.{List, Option, Text, [], ap, arith, none, refl, some, ℕ, ◌++◌, ◌↔◌, ◌∙◌, ◌∷◌, ◌≡◌}
use linhub.Errx.Errors.{GoError, Heap, Status, err_bind, with_details}
use linhub.Core.{
  Outcome, Reply, Step, bind_failed, finalize_request, finish, outcome, passed, read_bound,
  write_response,
}

module _ {F T : Type 0} where
  -- The end of Bind: the validator, if one was kept.
  validate_kept : Option (Step F T) → Heap → T → Option (GoError F) × Heap × T
  validate_kept none h rq = (none, h, rq)
  validate_kept (some v) h rq = v h rq

  abbrev pub unless_failed :
      (Heap → T → Option (GoError F) × Heap × T)
      → Option (GoError F) × Heap × T
      → Option (GoError F) × Heap × T
  unless_failed f (some e, h, rq) = (some e, h, rq)
  unless_failed f (none, h, rq) = f h rq

  -- Bind.
  unfoldable pub bind : List (Step F T) → Option (Step F T) → Step F T
  unfolding validate_kept
  bind [] kept h rq = validate_kept kept h rq
  bind (b ∷ bs) kept h rq = unless_failed (bind bs kept) (b h rq)

  -- ShouldBindAll.
  unfoldable pub should_bind_all :
      (Heap → GoError F → Text)
      → Step F T
      → Step F T
      → Option (Step F T)
      → Option (T → T)
      → List (Option (Step F T))
      → Heap
      → T
      → Outcome F T
  unfolding bind read_bound
  should_bind_all error_text uri json kept default' validators h rq =
      read_bound error_text default' validators (outcome (bind (uri ∷ json ∷ []) kept h rq))

  -- The functions fill the request one after the other, each without an error.
  abbrev pub Filled : List (Step F T) → Heap → T → Heap → T → Type 0
  Filled [] h rq h' rq' = (h ≡ h') × (rq ≡ rq')
  Filled (b ∷ bs) h rq h' rq' =
      (h₁ : Heap) × (rq₁ : T) × (b h rq ≡ (none, h₁, rq₁)) × Filled bs h₁ rq₁ h' rq'

  -- The validator as a last function.
  abbrev pub last : Option (Step F T) → List (Step F T)
  last none = []
  last (some v) = v ∷ []

  bind-Filled :
      (bs : List (Step F T)) (kept : Option (Step F T)) (h h' : Heap) (rq rq' : T)
      → bind bs kept h rq ≡ (none, h', rq')
      → Filled (bs ++ last kept) h rq h' rq'
  unfolding bind validate_kept
  bind-Filled [] none h h' rq rq' e = (ap (λ x. x.1) e, ap (λ x. x.2) e)
  bind-Filled [] (some v) h h' rq rq' e = (h', rq', e, (refl, refl))
  bind-Filled (b ∷ bs) kept h h' rq rq' e =
      go (b h rq) refl e (λ g s k. bind-Filled bs kept g h' s rq' k)
    where
      go :
          (r : Option (GoError F) × Heap × T)
          → b h rq ≡ r
          → unless_failed (bind bs kept) r ≡ (none, h', rq')
          → ((g : Heap) (s : T)
              → bind bs kept g s ≡ (none, h', rq')
              → Filled (bs ++ last kept) g s h' rq')
          → Filled (b ∷ (bs ++ last kept)) h rq h' rq'
      go (some x, g, s) p e ih =
          let no_error : some x ≡ none = ap (λ y. y.0) e in absurd (ground arith)
      go (none, g, s) p e ih = (g, s, p, ih g s e)

  Filled-bind :
      (bs : List (Step F T)) (kept : Option (Step F T)) (h h' : Heap) (rq rq' : T)
      → Filled (bs ++ last kept) h rq h' rq'
      → bind bs kept h rq ≡ (none, h', rq')
  unfolding bind validate_kept
  Filled-bind [] none h h' rq rq' (e, e') = λ i. (none, e i, e' i)
  Filled-bind [] (some v) h h' rq rq' (g, s, p, (e, e')) = p ∙ λ i. (none, e i, e' i)
  Filled-bind (b ∷ bs) kept h h' rq rq' (g, s, p, f) = rw p (Filled-bind bs kept g h' s rq' f)

  -- ShouldBindAll succeeds exactly when the URI and then the JSON body fill the request, the kept
  -- validator, if there is one, accepts what both have filled, and the defaults and the validators
  -- that follow succeed on that.
  pub should_bind_all-Filled :
      (error_text : Heap → GoError F → Text) (uri json : Step F T) (kept : Option (Step F T))
      (default' : Option (T → T)) (validators : List (Option (Step F T))) (h h' : Heap) (rq rq' : T)
      → (should_bind_all error_text uri json kept default' validators h rq ≡ passed h' rq')
        ↔ (g : Heap) × (s : T) × Filled (uri ∷ json ∷ last kept) h rq g s
          × (finalize_request default' validators g s ≡ passed h' rq')
  unfolding should_bind_all read_bound bind_failed
  should_bind_all-Filled error_text uri json kept default' validators h h' rq rq' = (
    go (bind (uri ∷ json ∷ []) kept h rq) refl,
    λ (g, s, f, e). (rw (Filled-bind (uri ∷ json ∷ []) kept h g rq s f) e),
  )
    where
      go :
          (r : Option (GoError F) × Heap × T)
          → bind (uri ∷ json ∷ []) kept h rq ≡ r
          → read_bound error_text default' validators (outcome r) ≡ passed h' rq'
          → (g : Heap) × (s : T) × Filled (uri ∷ json ∷ last kept) h rq g s
            × (finalize_request default' validators g s ≡ passed h' rq')
      go (none, g, s) p e = (g, s, bind-Filled (uri ∷ json ∷ []) kept h g rq s p, e)
      go (some x, g, s) p e = absurd (not_passed (with_details g err_bind (error_text g x)) g s e)
        where
          not_passed :
              (o : Option (ℕ × Heap)) (g : Heap) (s : T)
              → bind_failed {F = F} o g s ≡ passed h' rq'
              → ⊥
          not_passed none g s e = ground arith
          not_passed (some (p, k)) g s e = ground arith

module _ {F D T : Type 0} (text : F → Text) (status_of : GoError F → Option Status)
    (error_text : Heap → GoError F → Text) where
  -- HandleAllRequest.
  handle_all_request :
      Step F T
      → Step F T
      → Option (Step F T)
      → (Heap → T → Option D × Option (GoError F) × Heap)
      → Option (T → T)
      → List (Option (Step F T))
      → Heap
      → T
      → Option (Reply D) × Heap
  unfolding finish should_bind_all
  handle_all_request uri json kept handler default' validators h zero_value =
      finish text status_of error_text handler
        (should_bind_all error_text uri json kept default' validators h zero_value)

  -- When ShouldBindAll succeeds, HandleAllRequest answers with what the handler returns for the
  -- request that was bound.
  handle_all_request_outcome :
      (uri json : Step F T) (kept : Option (Step F T))
      (handler : Heap → T → Option D × Option (GoError F) × Heap) (default' : Option (T → T))
      (validators : List (Option (Step F T))) (h h' : Heap) (rq rq' : T)
      → should_bind_all error_text uri json kept default' validators h rq ≡ passed h' rq'
      → handle_all_request uri json kept handler default' validators h rq
        ≡ write_response text status_of (handler h' rq').2 (handler h' rq').0 (handler h' rq').1
  unfolding handle_all_request finish
  handle_all_request_outcome uri json kept handler default' validators h h' rq rq' e = rw e refl
