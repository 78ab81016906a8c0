-- ===== src/Core.antt =====
-- core/core.go: a request is bound, given its defaults, validated and handled, and the outcome is
-- written as a status and a response. Handlers, validators and binders are the caller's: they may
-- change the request, which they get by pointer, and the heap of business errors. A nil dereference
-- makes the outcome `none`.
pub mod Pipeline
pub mod Leak
pub mod All
mod Examples
use mathlib.Core.Option
use linhub.Base.{List, Option, Text, [], get_elem?, map, none, some, ℕ, ◌∷◌}
use linhub.Errx.Codes.{get_http_code}
use linhub.Errx.Errors.{
  ApiResponse, GoError, Heap, Status, biz, err_bind, from_biz_error, from_error, success,
  with_details,
}

-- What is sent: the HTTP status and the body.
pub record Reply (D : Type 0) : Type 0 where
  pub http : ℕ
  pub body : ApiResponse D

-- WriteBizError.
unfoldable pub write_biz_error : {D : Type 0} → Heap → Option ℕ → Option (Reply D)
write_biz_error h none = none
write_biz_error h (some p) =
    Option.map (λ e. record { http = get_http_code e.code; body = from_biz_error e })
      (get_elem? h p)

-- WriteSuccess.
unfoldable pub write_success : {D : Type 0} → Option D → List Text → Reply D
write_success payload message = record { http = 200; body = success payload message }

module _ {F D : Type 0} (text : F → Text) (status_of : GoError F → Option Status) where
  -- WriteResponse; the payload is dropped when there is an error.
  unfoldable pub write_response : Heap → Option D → Option (GoError F) → Option (Reply D) × Heap
  unfolding write_biz_error write_success
  write_response h payload none = (some (write_success payload []), h)
  write_response h payload (some e) =
      let (p, h') = from_error text status_of h (some e) in (write_biz_error h' p, h')

-- A function that gets the request by pointer.
abbrev pub Step : Type 0 → Type 0 → Type 0
Step F T = Heap → T → Option (GoError F) × Heap × T

-- The error of a step, or its state when there is none.
pub data Outcome (F T : Type 0) : Type 0 where
  failed : GoError F → Heap → T → Outcome F T
  passed : Heap → T → Outcome F T
  crashed : Heap → Outcome F T

abbrev pub outcome : {F T : Type 0} → Option (GoError F) × Heap × T → Outcome F T
outcome (none, h, rq) = passed h rq
outcome (some e, h, rq) = failed e h rq

-- Goes on with the state that a passed step leaves.
abbrev and_then : {F T : Type 0} → Outcome F T → (Heap → T → Outcome F T) → Outcome F T
and_then (failed e h rq) next = failed e h rq
and_then (passed h rq) next = next h rq
and_then (crashed h) next = crashed h

pub apply_default : {T : Type 0} → Option (T → T) → T → T
apply_default none rq = rq
apply_default (some f) rq = f rq

module _ {F T : Type 0} where
  -- The loop over the validators, which skips nil ones and stops at the first error.
  validate_all : List (Option (Step F T)) → Heap → T → Outcome F T
  validate_all [] h rq = passed h rq
  validate_all (none ∷ vs) h rq = validate_all vs h rq
  validate_all (some v ∷ vs) h rq = and_then (outcome (v h rq)) (λ h' rq'. validate_all vs h' rq')

  -- FinalizeRequest.
  pub finalize_request : Option (T → T) → List (Option (Step F T)) → Heap → T → Outcome F T
  unfolding apply_default
  finalize_request default' validators h rq = validate_all validators h (apply_default default' rq)

  unfoldable pub bind_failed : Option (ℕ × Heap) → Heap → T → Outcome F T
  bind_failed none h rq = crashed h
  bind_failed (some (p, h')) h rq = failed (biz p) h' rq

  unfoldable pub read_bound :
      (Heap → GoError F → Text)
      → Option (T → T)
      → List (Option (Step F T))
      → Outcome F T
      → Outcome F T
  unfolding bind_failed
  read_bound error_text default' validators (failed e h rq) =
      bind_failed (with_details h err_bind (error_text h e)) h rq
  read_bound error_text default' validators (passed h rq) =
      finalize_request default' validators h rq
  read_bound error_text default' validators (crashed h) = crashed h

  -- ReadRequest: a failing binder makes `ErrBind.WithDetails(err.Error())` the error.
  pub read_request :
      (Heap → GoError F → Text)
      → Step F T
      → Option (T → T)
      → List (Option (Step F T))
      → Heap
      → T
      → Outcome F T
  unfolding read_bound
  read_request error_text binder default' validators h rq =
      read_bound error_text default' validators (outcome (binder h rq))

-- HandleRequest; the handler returns its payload and its error.
module _ {F D T : Type 0} (text : F → Text) (status_of : GoError F → Option Status)
    (error_text : Heap → GoError F → Text) where
  finish : (Heap → T → Option D × Option (GoError F) × Heap) → Outcome F T → Option (Reply D) × Heap
  finish handler (failed e h rq) = write_response text status_of h none (some e)
  finish handler (crashed h) = (none, h)
  finish handler (passed h rq) =
      let (payload, err, h') = handler h rq in write_response text status_of h' payload err

  pub handle_request :
      Step F T
      → (Heap → T → Option D × Option (GoError F) × Heap)
      → Option (T → T)
      → List (Option (Step F T))
      → Heap
      → T
      → Option (Reply D) × Heap
  unfolding finish
  handle_request binder handler default' validators h zero_value =
      finish handler (read_request error_text binder default' validators h zero_value)
