-- ===== src/Middleware/Recovery.antt =====
-- middleware/gin/recovery.go and middleware/grpc/recovery.go: panics of a handler. A value that is
-- recovered is its text. The writer of gin, with Written, Abort and AbortWithStatusJSON of the
-- context, and the hook are parameters; the hook may panic itself, which `true` says.
pub mod Answers
use linhub.Base.{Bool, Option, Text, [], codes, if◌then◌else◌, inl, inr, none, not, some, ℕ, ◌⊎◌}
use linhub.Errx.Codes.{code_internal_server, internal}
use linhub.Errx.Errors.{ApiResponse, BizError, Status, from_biz_error, new_biz_error}

-- How a handler ends.
pub data Ending (A : Type 0) : Type 0 where
  returned : A → Ending A
  panicked : Text → Ending A

-- The entry "panic recovered"; the path and the address are those of gin.
pub record PanicEntry : Type 0 where
  pub recovered : Text
  pub stack : Text
  pub method : Text
  pub origin : Option (Text × Text)

pub record RecoveryOptions (W : Type 0) : Type 0 where
  pub include_stack : Bool
  pub on_panic : Option (Text → Text → W → Bool × W)

-- WithIncludeStack and WithOnPanic.
unfoldable pub with_include_stack : {W : Type 0} → Bool → RecoveryOptions W → RecoveryOptions W
with_include_stack b o = record o { include_stack = b }

unfoldable pub with_on_panic :
    {W : Type 0} → (Text → Text → W → Bool × W) → RecoveryOptions W → RecoveryOptions W
with_on_panic fn o = record o { on_panic = some fn }

-- The call of the hook, whose own panic is dropped.
unfoldable pub run_hook : {W : Type 0} → Option (Text → Text → W → Bool × W) → Text → Text → W → W
run_hook none recovered stack w = w
run_hook (some hook) recovered stack w = (hook recovered stack w).1

-- The error of the answer; its pointer is not shared, so that WithDetails is a change of the value.
unfoldable pub panic_error : Bool → Text → BizError
panic_error include_stack stack =
    let biz_err =
      new_biz_error code_internal_server (codes "Internal") (codes "internal server error") in
    if include_stack then record biz_err { details = stack } else biz_err

module _ {W D : Type 0} (written : W → Bool) (abort : W → W)
    (abort_with_status_json : ℕ → ApiResponse D → W → W) where
  -- The deferred function of gin's Recovery: the entry that is logged, if any, and the writer.
  unfoldable pub recovery :
      RecoveryOptions W → Text → Text → Text → Text → Ending Unit × W → Option PanicEntry × W
  recovery cfg stack method path client_ip (returned _, w) = (none, w)
  recovery cfg stack method path client_ip (panicked rec, w) =
      let w1 = run_hook cfg.on_panic rec stack w in
      let resp = from_biz_error {D = D} (panic_error cfg.include_stack stack) in
      (
        some (record {
          recovered = rec;
          stack = stack;
          method = method;
          origin = some (path, client_ip);
        }),
        if not (written w1) then abort_with_status_json 500 resp w1 else abort w1,
      )

-- status.Error(codes.Internal, "internal server error").
abbrev pub panic_status : Status
panic_status = record { code = internal; message = codes "internal server error"; details = [] }

-- Recovery of gRPC: the response and the error, the entry and the state of the hook. When a handler
-- panics its response is nil. Its own error is any `F`.
unfoldable pub rpc_recovery :
    {W B F : Type 0}
    → Option (Text → Text → W → Bool × W)
    → Text
    → Text
    → Ending (Option B × Option F) × W
    → (Option B × Option (F ⊎ Status)) × Option PanicEntry × W
rpc_recovery on_panic stack full_method (returned (resp, none), w) = ((resp, none), none, w)
rpc_recovery on_panic stack full_method (returned (resp, some e), w) =
    ((resp, some (inl e)), none, w)
rpc_recovery on_panic stack full_method (panicked rec, w) = (
  (none, some (inr panic_status)),
  some (record { recovered = rec; stack = stack; method = full_method; origin = none }),
  run_hook on_panic rec stack w,
)
