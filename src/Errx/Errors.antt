-- ===== src/Errx/Errors.antt =====
-- errx/errx.go and errx/code.go: error values, their sharing, and the API response.
-- A `*BizError` is an index into a heap, because WithDetails and WithMetadata write through the
-- pointer; an index outside the heap is the nil pointer, and `none` is the panic it causes.
pub mod Sharing
pub mod Normalise
pub mod Crossing
pub mod Reachable
use linhub.Base.{
  Any, List, Option, Text, [], codes, get_elem?, if◌then◌else◌, is_empty, length, map, none, set,
  some, string_value, ℕ, ℤ, ◌++◌, ◌==◌, ◌∷◌,
}
use Prim.Native.String.{String}
use mathlib.Core.Option
use linhub.Errx.Codes.{
  GrpcCode, code_auth_token_expired, code_auth_token_invalid, code_auth_unauthenticated,
  code_internal_server, code_invalid_parameter, code_invalid_request, code_ok, code_request_timeout,
  code_service_unavailable, code_too_many_requests, code_user_not_found,
  code_user_permission_denied, from_grpc_code, get_error_level,
}

pub record BizError : Type 0 where
  pub code : ℤ
  pub level : ℤ
  pub reason : Text
  pub message : Text
  pub details : Text
  pub metadata : Option (List (Text × Any))

pub record ApiResponse (D : Type 0) : Type 0 where
  pub code : ℤ
  pub message : Text
  pub payload : Option D
  pub reason : Text
  pub details : Text

abbrev pub Heap : Type 0
Heap = List BizError

unfoldable pub new_biz_error : ℤ → Text → Text → BizError
new_biz_error code reason message = record {
  code = code;
  level = get_error_level code;
  reason = reason;
  message = message;
  details = [];
  metadata = none;
}

-- `&BizError{…}`: a pointer to a new value.
abbrev pub alloc : Heap → BizError → ℕ × Heap
alloc h e = (length h, h ++ e ∷ [])

abbrev pub write_at : Heap → ℕ → (BizError → BizError) → Option BizError → Option (ℕ × Heap)
write_at h p f none = none
write_at h p f (some e) = some (p, set h p (f e))

-- The receiver is changed in place and returned.
unfoldable pub with_details : Heap → ℕ → Text → Option (ℕ × Heap)
with_details h p details = write_at h p (λ e. record e { details = details }) (get_elem? h p)

unfoldable pub with_metadata : Heap → ℕ → Option (List (Text × Any)) → Option (ℕ × Heap)
with_metadata h p metadata = write_at h p (λ e. record e { metadata = metadata }) (get_elem? h p)

abbrev alloc_from : Heap → (BizError → BizError) → Option BizError → Option (ℕ × Heap)
alloc_from h f none = none
alloc_from h f (some e) = some (alloc h (f e))

-- A new value, with a copy of the metadata.
unfoldable pub with_message : Heap → ℕ → Text → Option (ℕ × Heap)
with_message h p message = alloc_from h (λ e. record e { message = message }) (get_elem? h p)

-- A Go error: a `*BizError`, an error that wraps another, or one of another package.
pub data GoError (F : Type 0) : Type 0 where
  biz : ℕ → GoError F
  wrapped : Text → GoError F → GoError F
  foreign : F → GoError F

-- errors.As with a `*BizError` target: the first one along the chain.
unfoldable pub as_biz : {F : Type 0} → GoError F → Option ℕ
as_biz (biz p) = some p
as_biz (wrapped _ e) = as_biz e
as_biz (foreign _) = none

-- A status detail: an ErrorInfo with its reason and metadata, or a message of another type.
pub data Detail : Type 0 where
  error_info : Text → List (Text × Text) → Detail
  other_detail : Detail

pub record Status : Type 0 where
  pub code : GrpcCode
  pub message : Text
  pub details : List Detail

-- The switch that infers a code from the HTTP form of a gRPC code.
unfoldable pub biz_code_of_status : ℕ → ℤ
biz_code_of_status status =
    if status == 400
    then code_invalid_parameter
    else if status == 401
    then code_auth_unauthenticated
    else if status == 403
    then code_user_permission_denied
    else if status == 404
    then code_user_not_found
    else if status == 429
    then code_too_many_requests
    else code_internal_server

box_values : List (Text × Text) → List (Text × Any)
box_values [] = []
box_values ((k, v) ∷ m) = (k, string_value v) ∷ box_values m

boxed_metadata : Option (List (Text × Any)) → List (Text × Text) → Option (List (Text × Any))
boxed_metadata old [] = old
boxed_metadata old (kv ∷ m) = some (box_values (kv ∷ m))

-- The loop over the details, which stops at the first ErrorInfo.
apply_details : BizError → List Detail → BizError
apply_details e [] = e
apply_details e (error_info reason m ∷ _) = record e {
  reason = reason;
  metadata = boxed_metadata e.metadata m;
}
apply_details e (other_detail ∷ ds) = apply_details e ds

-- The text of a foreign error and status.FromError come from other packages.
module _ {F : Type 0} (text : F → Text) (status_of : GoError F → Option Status) where
  biz_of_status : GoError F → Option Status → BizError
  biz_of_status e (some s) =
      apply_details
        (new_biz_error (biz_code_of_status (from_grpc_code s.code)) (codes "gRPC") s.message)
        s.details
  biz_of_status (foreign f) none = new_biz_error code_internal_server (codes "Unknown") (text f)
  biz_of_status (wrapped t _) none = new_biz_error code_internal_server (codes "Unknown") t
  biz_of_status (biz _) none = new_biz_error code_internal_server (codes "Unknown") []

  from_found : Heap → GoError F → Option ℕ → Option ℕ × Heap
  from_found h e (some p) = (some p, h)
  from_found h e none = let (p, h') = alloc h (biz_of_status e (status_of e)) in (some p, h')

  unfoldable pub from_error : Heap → Option (GoError F) → Option ℕ × Heap
  unfolding from_found biz_of_status apply_details boxed_metadata box_values new_biz_error
      biz_code_of_status from_grpc_code as_biz
  from_error h none = (none, h)
  from_error h (some e) = from_found h e (as_biz e)

  -- Code and Reason of an error; `none` is a dereference of a nil `*BizError`.
  unfoldable pub error_code : Heap → Option (GoError F) → Option ℤ
  error_code h none = some code_ok
  error_code h (some e) = elim (as_biz e) [
    | none ↦ some code_internal_server
    | some p ↦ Option.map (λ b. b.code) (get_elem? h p)
  ]

-- Failure and FromBizError.
unfoldable pub failure : {D : Type 0} → ℤ → Text → ApiResponse D
failure code message = record {
  code = code;
  message = message;
  payload = none;
  reason = [];
  details = [];
}

unfoldable pub from_biz_error : {D : Type 0} → BizError → ApiResponse D
unfolding failure
from_biz_error {D} e =
    let resp = failure {D = D} e.code e.message in
    record resp { reason = e.reason; details = e.details }

first_or : Text → List Text → Text
first_or d [] = d
first_or d (m ∷ _) = if is_empty m then d else m

-- Success with its optional message.
unfoldable pub success : {D : Type 0} → Option D → List Text → ApiResponse D
unfolding first_or
success data' message = record {
  code = code_ok;
  message = first_or (codes "success") message;
  payload = data';
  reason = [];
  details = [];
}

predefined : ℤ → String → String → BizError
predefined code reason message = new_biz_error code (codes reason) (codes message)

-- errx/code.go: the predefined errors are package variables, the first entries of the heap.
unfoldable pub initial_heap : Heap
unfolding predefined new_biz_error get_error_level
initial_heap =
    predefined code_ok "OK" "success"
    ∷ predefined code_internal_server "InternalError" "Internal server error."
    ∷ predefined code_service_unavailable "ServiceUnavailable" "Service unavailable."
    ∷ predefined code_request_timeout "RequestTimeout" "Request timeout."
    ∷ predefined code_too_many_requests "TooManyRequests"
        "Too many requests, please try again later."
    ∷ predefined code_user_not_found "NotFound" "Resource not found."
    ∷ predefined code_invalid_parameter "BindError" "Failed to bind request body."
    ∷ predefined code_invalid_parameter "InvalidArgument" "Invalid argument."
    ∷ predefined code_invalid_request "InvalidRequest" "Invalid request."
    ∷ predefined code_auth_unauthenticated "Unauthenticated" "Unauthenticated."
    ∷ predefined code_auth_token_invalid "TokenInvalid" "Token is invalid."
    ∷ predefined code_auth_token_expired "TokenExpired" "Token has expired."
    ∷ predefined code_user_permission_denied "PermissionDenied" "Permission denied."
    ∷ predefined code_internal_server "OperationFailed" "Operation failed, please try again later."
    ∷ []

-- The pointer of ErrBind.
abbrev pub err_bind : ℕ
err_bind = 6
