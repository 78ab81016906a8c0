-- ===== src/Errx/Errors/Crossing.antt =====
-- errx/errx.go, GRPCStatus, Reason and Is, and the methods of a response: an error that crosses gRPC. The printing of a metadata value,
-- and WithDetails of a status, are parameters.
use linhub.Base.{
  Any, Bool, List, Option, Text, [], ap, codes, decimal, eq_ℤ, false, get_elem?, inl, inr, length,
  negsuc, none, pos, refl, some, suc, ℤ, ◌++◌, ◌∙◌, ◌∷◌, ◌≡◌, ◌≢◌,
}
use linhub.Errx.Codes.{
  code_internal_server, from_grpc_code, get_error_level, get_http_code, grpc_ok, level_system,
  to_grpc_code,
}
use linhub.Errx.Codes.Statuses.{get_http_code_values}
use linhub.Errx.Errors.{
  ApiResponse, BizError, Detail, GoError, Heap, Status, apply_details, as_biz, biz,
  biz_code_of_status, biz_of_status, error_info, foreign, from_error, new_biz_error, wrapped,
}
use mathlib.Core.Option

printed_metadata : (Any → Text) → List (Text × Any) → List (Text × Text)
printed_metadata print [] = []
printed_metadata print ((k, v) ∷ m) = (k, print v) ∷ printed_metadata print m

status_metadata : (Any → Text) → Option (List (Text × Any)) → List (Text × Text)
unfolding printed_metadata
status_metadata print none = []
status_metadata print (some m) = printed_metadata print m

-- GRPCStatus; a status that WithDetails refuses is nil.
unfoldable pub grpc_status :
    (Any → Text) → (Status → Detail → Option Status) → BizError → Option Status
unfolding status_metadata
grpc_status print with_status_details e =
    with_status_details
      (record { code = to_grpc_code (get_http_code e.code); message = e.message; details = [] })
      (error_info e.reason (status_metadata print e.metadata))

-- Reason; `none` is a dereference of a nil `*BizError`.
unfoldable pub error_reason : {F : Type 0} → Heap → Option (GoError F) → Option Text
error_reason h none = some []
error_reason h (some e) = elim (as_biz e) [
  | none ↦ some (codes "InternalError")
  | some p ↦ Option.map (λ b. b.reason) (get_elem? h p)
]

code_text : ℤ → Text
code_text (pos n) = decimal n
code_text (negsuc n) = 45 ∷ decimal (suc n)

labelled : Text → Text → Text
labelled label [] = []
labelled label (c ∷ s) = label ++ c ∷ s

metadata_text : (List (Text × Any) → Text) → Option (List (Text × Any)) → Text
metadata_text print none = []
metadata_text print (some []) = []
metadata_text print (some (kv ∷ m)) = codes " metadata=" ++ print (kv ∷ m)

-- Error, for the way fmt prints a map.
unfoldable pub biz_error_text : (List (Text × Any) → Text) → BizError → Text
unfolding code_text labelled metadata_text
biz_error_text print e =
    codes "biz error: code="
    ++ (code_text e.code
        ++ (codes " reason="
            ++ (e.reason
                ++ (codes " message="
                    ++ (e.message
                        ++ (labelled (codes " details=") e.details
                            ++ metadata_text print e.metadata))))))

-- Is, for a target that is itself a business error or not; its chain is not followed.
unfoldable pub is_same : {F : Type 0} → Heap → BizError → GoError F → Option Bool
is_same h e (biz p) = Option.map (λ b. eq_ℤ b.code e.code) (get_elem? h p)
is_same h e (wrapped t target) = some false
is_same h e (foreign f) = some false

-- WithReason and WithDetails of a response.
unfoldable pub response_with_reason : {D : Type 0} → Text → ApiResponse D → ApiResponse D
response_with_reason reason resp = record resp { reason = reason }

unfoldable pub response_with_details : {D : Type 0} → Text → ApiResponse D → ApiResponse D
response_with_details details resp = record resp { details = details }

-- What gRPC documents of WithDetails: it refuses the code OK, and adds the detail otherwise.
pub record DetailLaws (with_status_details : Status → Detail → Option Status) : Type 0 where
  pub refuses : (s : Status) (d : Detail) → s.code ≡ grpc_ok → with_status_details s d ≡ none
  pub adds :
      (s : Status) (d : Detail)
      → s.code ≢ grpc_ok
      → with_status_details s d ≡ some (record s { details = s.details ++ d ∷ [] })

failing_status :
    (c : ℤ)
    → get_http_code c ≢ 200
    → (to_grpc_code (get_http_code c) ≢ grpc_ok)
      × (biz_code_of_status (from_grpc_code (to_grpc_code (get_http_code c)))
          ≡ code_internal_server)
unfolding to_grpc_code from_grpc_code biz_code_of_status
failing_status c h = elim (get_http_code_values c h) [
  | inl (inl e) ↦ rw e (λ z. cc, refl)
  | inl (inr e) ↦ rw e (λ z. cc, refl)
  | inr (inl e) ↦ rw e (λ z. cc, refl)
  | inr (inr e) ↦ rw e (λ z. cc, refl)
]

-- What FromError makes of an error whose status is that of `e`.
abbrev pub Crossed : BizError → BizError → Type 0
Crossed e b =
    (b.reason ≡ e.reason)
    × (b.message ≡ e.message)
    × (b.code ≡ code_internal_server)
    × (b.level ≡ level_system)

-- A business error whose HTTP status is a failure keeps its reason and its message when it crosses
-- gRPC, from GRPCStatus to FromError, but not its code: whatever that was, the new error has the code
-- of an internal error, at the system level. The condition is that WithDetails of a status does what
-- gRPC documents, and that the error received has that status and holds no business error.
pub from_error-grpc_status :
    {F : Type 0} (text : F → Text) (status_of : GoError F → Option Status) (print : Any → Text)
    (with_status_details : Status → Detail → Option Status) (h : Heap) (e : BizError)
    (received : GoError F)
    → DetailLaws with_status_details
    → get_http_code e.code ≢ 200
    → as_biz received ≡ none
    → status_of received ≡ grpc_status print with_status_details e
    → (b : BizError) × (from_error text status_of h (some received)
        ≡ (some (length h), h ++ b ∷ []))
      × Crossed e b
unfolding grpc_status from_error biz_of_status new_biz_error apply_details get_error_level
from_error-grpc_status text status_of print with_status_details h e received laws failing found
      same =
    let (not_ok, code) = failing_status e.code failing in
    let sent = laws.adds _ (error_info e.reason (status_metadata print e.metadata)) not_ok in
    let st : Status = record {
      code = to_grpc_code (get_http_code e.code);
      message = e.message;
      details = error_info e.reason (status_metadata print e.metadata) ∷ [];
    } in
    let status : status_of received ≡ some st = same ∙ sent in
    (
      biz_of_status text status_of received (some st),
      rw (found, status) refl,
      (refl, refl, code, ap get_error_level code ∙ internal_level),
    )
  where
    internal_level : get_error_level code_internal_server ≡ level_system
    internal_level = refl
