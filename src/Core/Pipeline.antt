-- ===== src/Core/Pipeline.antt =====
-- core/core.go: what a request is answered, on every path of the pipeline.
use mathlib.Core.Path.{subst}
use mathlib.Core.Option
use mathlib.Core.Option.{some-injective}
use linhub.Base.{
  List, Option, Text, [], get_elem?, get_elem?-set_self, lt-length_of_get, none, refl, set, some, ℕ,
  ◌↔◌, ◌∷◌, ◌≡◌,
}
use linhub.Errx.Codes.{code_ok, get_http_code}
use linhub.Errx.Errors.{
  BizError, GoError, Heap, Status, err_bind, from_biz_error, from_error, success, with_details,
}
use linhub.Core.{
  Outcome, Reply, Step, and_then, apply_default, crashed, failed, finalize_request, finish,
  handle_request, outcome, passed, read_request, validate_all, write_biz_error, write_response,
  write_success,
}

-- A validator that lets a request through, with the heap and the request that it leaves.
abbrev pub Passes : {F T : Type 0} → Option (Step F T) → Heap → T → Heap → T → Type 0
Passes none h rq h' rq' = (h ≡ h') × (rq ≡ rq')
Passes (some v) h rq h' rq' = v h rq ≡ (none, h', rq')

-- The validators run in order, and one is the first that fails.
pub data FirstFailure {F T : Type 0} (e : GoError F) (h' : Heap) (rq' : T)
    : List (Option (Step F T)) → Heap → T → Type 0 where
  fails :
      {v : Step F T} {vs : List (Option (Step F T))} {h : Heap} {rq : T}
      → v h rq ≡ (some e, h', rq')
      → FirstFailure e h' rq' (some v ∷ vs) h rq
  passes :
      {v : Option (Step F T)} {vs : List (Option (Step F T))} {h h₁ : Heap} {rq rq₁ : T}
      → Passes v h rq h₁ rq₁
      → FirstFailure e h' rq' vs h₁ rq₁
      → FirstFailure e h' rq' (v ∷ vs) h rq

module _ {F T : Type 0} where
  validate_all_complete :
      {e : GoError F} {h' : Heap} {rq' : T} {vs : List (Option (Step F T))} {h : Heap} {rq : T}
      → FirstFailure e h' rq' vs h rq
      → validate_all vs h rq ≡ failed e h' rq'
  unfolding validate_all
  validate_all_complete (fails now) = rw now
  validate_all_complete {e} {h'} {rq'} (passes {v = none} {vs = vs} p rest) =
      rw (p.0, p.1) (validate_all_complete rest)
  validate_all_complete (passes {v = some v} p rest) = rw p (validate_all_complete rest)

  step_sound :
      (v : Step F T) (vs : List (Option (Step F T))) (h : Heap) (rq : T) (e : GoError F) (h' : Heap)
      (rq' : T)
      → ((h₁ : Heap) (rq₁ : T)
          → validate_all vs h₁ rq₁ ≡ failed e h' rq'
          → FirstFailure e h' rq' vs h₁ rq₁)
      → (r : Option (GoError F) × Heap × T) → v h rq ≡ r
      → and_then (outcome r) (λ h₁ rq₁. validate_all vs h₁ rq₁) ≡ failed e h' rq'
      → FirstFailure e h' rq' (some v ∷ vs) h rq
  step_sound v vs h rq e h' rq' later (some e₁, h₁, rq₁) run done = fails (cc)
  step_sound v vs h rq e h' rq' later (none, h₁, rq₁) run done = passes run (later h₁ rq₁ done)

  validate_all_sound :
      (e : GoError F) (h' : Heap) (rq' : T) (vs : List (Option (Step F T))) (h : Heap) (rq : T)
      → validate_all vs h rq ≡ failed e h' rq'
      → FirstFailure e h' rq' vs h rq
  unfolding validate_all
  validate_all_sound e h' rq' [] h rq done = cc
  validate_all_sound e h' rq' (none ∷ vs) h rq done =
      passes (refl, refl) (validate_all_sound e h' rq' vs h rq done)
  validate_all_sound e h' rq' (some v ∷ vs) h rq done =
      step_sound v vs h rq e h' rq' (validate_all_sound e h' rq' vs) (v h rq) refl done

  -- After the defaults are applied, FinalizeRequest fails with an error exactly when that is the
  -- error of the first validator that fails, all those before it having let the request through;
  -- nil validators are passed over.
  pub finalize_request-FirstFailure :
      (default' : Option (T → T)) (vs : List (Option (Step F T))) (h : Heap) (rq : T)
      (e : GoError F) (h' : Heap) (rq' : T)
      → (finalize_request default' vs h rq ≡ failed e h' rq')
        ↔ FirstFailure e h' rq' vs h (apply_default default' rq)
  unfolding finalize_request
  finalize_request-FirstFailure default' vs h rq e h' rq' =
      (validate_all_sound e h' rq' vs h _, validate_all_complete)

written_http :
    {D : Type 0} (h : Heap) (p : Option ℕ) (r : Reply D)
    → write_biz_error h p ≡ some r
    → r.http ≡ get_http_code r.body.code
unfolding write_biz_error from_biz_error
written_http h none r done = cc
written_http h (some p) r done =
    let (e, _, same) = (Option.map-eq-some_iff _ _).0 done in
    subst (λ s. s.http ≡ get_http_code s.body.code) same refl

module _ {F D : Type 0} (text : F → Text) (status_of : GoError F → Option Status) where
  write_response_http :
      (h : Heap) (payload : Option D) (err : Option (GoError F)) (r : Reply D)
      → (write_response text status_of h payload err).0 ≡ some r
      → r.http ≡ get_http_code r.body.code
  unfolding write_response success get_http_code
  write_response_http h payload none r done =
      subst (λ s. s.http ≡ get_http_code s.body.code) (some-injective _ _ done) refl
  write_response_http h payload (some e) r done =
      let (p, h') = from_error text status_of h (some e) in written_http h' p r done

  -- Whatever the binder, the validators and the handler do, a reply has the HTTP status that
  -- belongs to the code in its body.
  pub handle_request_http :
      {T : Type 0} (error_text : Heap → GoError F → Text) (binder : Step F T)
      (handler : Heap → T → Option D × Option (GoError F) × Heap) (default' : Option (T → T))
      (validators : List (Option (Step F T))) (h : Heap) (rq : T) (r : Reply D)
      → (handle_request text status_of error_text binder handler default' validators h rq).0
        ≡ some r
      → r.http ≡ get_http_code r.body.code
  unfolding handle_request
  handle_request_http {T} error_text binder handler default' validators h rq r =
      go (read_request error_text binder default' validators h rq)
    where
      go :
          (o : Outcome F T)
          → (finish text status_of error_text handler o).0 ≡ some r
          → r.http ≡ get_http_code r.body.code
      go (failed e h₁ rq₁) done = write_response_http h₁ none (some e) r done
      go (crashed h₁) done = cc
      go (passed h₁ rq₁) done =
          let (payload, err, h₂) = handler h₁ rq₁ in write_response_http h₂ payload err r done

  -- When the binder fails and ErrBind is there, the reply has ErrBind's code, with the text of the
  -- binder's error as details and that code's status, for every handler, default and list of
  -- validators; and ErrBind itself now has those details.
  handle_request_bind_error :
      {T : Type 0} (error_text : Heap → GoError F → Text) (binder : Step F T)
      (handler : Heap → T → Option D × Option (GoError F) × Heap) (default' : Option (T → T))
      (validators : List (Option (Step F T))) (h h' : Heap) (rq rq' : T) (e : GoError F)
      (b : BizError)
      → binder h rq ≡ (some e, h', rq')
      → get_elem? h' err_bind ≡ some b
      → let b' : BizError = record b { details = error_text h' e } in
        handle_request text status_of error_text binder handler default' validators h rq ≡ (
          some (record { http = get_http_code b.code; body = from_biz_error b' }),
          set h' err_bind b',
        )
  unfolding handle_request read_request with_details write_response from_error write_biz_error
  handle_request_bind_error error_text binder handler default' validators h h' rq rq' e b run here =
      rw (run, here) (rw (get_elem?-set_self h' err_bind _ (lt-length_of_get h' err_bind here)))

  -- When the binder and every validator let the request through, the handler decides: its result,
  -- with no error, is sent with status 200 and code 0.
  handle_request_success :
      {T : Type 0} (error_text : Heap → GoError F → Text) (binder : Step F T)
      (handler : Heap → T → Option D × Option (GoError F) × Heap) (default' : Option (T → T))
      (validators : List (Option (Step F T))) (h h' h₂ : Heap) (rq rq' : T) (payload : Option D)
      → read_request error_text binder default' validators h rq ≡ passed h' rq'
      → handler h' rq' ≡ (payload, none, h₂)
      → (r : Reply D) × (handle_request text status_of error_text binder handler default' validators
            h rq
          ≡ (some r, h₂))
        × (r.http ≡ 200)
        × (r.body.code ≡ code_ok)
        × (r.body.payload ≡ payload)
  unfolding handle_request write_response success
  handle_request_success error_text binder handler default' validators h h' h₂ rq rq' payload p q =
      (write_success payload [], rw (p, q) refl, refl, refl, refl)
