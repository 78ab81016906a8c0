-- ===== src/Middleware/Recovery/Answers.antt =====
-- middleware/gin/recovery.go and middleware/grpc/recovery.go: what a client is told of a panic.
use linhub.Base.{
  Bool, Option, Text, [], ap, codes, false, if◌then◌else◌, inl, inr, length, none, not, refl, some,
  sym, true, ℕ, ◌++◌, ◌∙◌, ◌∷◌, ◌≡◌, ◌⊎◌,
}
use mathlib.Core.Path.{subst}
use linhub.Errx.Codes.{
  code_internal_server, from_grpc_code, get_error_level, get_http_code, internal,
}
use linhub.Errx.Errors.{
  ApiResponse, BizError, GoError, Heap, Status, as_biz, biz_code_of_status, failure, from_biz_error,
  from_error, new_biz_error,
}
use linhub.Middleware.Recovery.{
  Ending, RecoveryOptions, panic_error, panic_status, panicked, recovery, returned, rpc_recovery,
  run_hook,
}

sent_in : {F : Type 0} → Option (F ⊎ Status) → Status
sent_in none = panic_status
sent_in (some (inl e)) = panic_status
sent_in (some (inr st)) = st

module _ {W D : Type 0} (written : W → Bool) (abort : W → W)
    (abort_with_status_json : ℕ → ApiResponse D → W → W) where
  -- What gin's Recovery does when the handlers panic.
  pub panic_answer : RecoveryOptions W → Text → W → W
  panic_answer cfg stack w =
      if written w
      then abort w
      else abort_with_status_json (get_http_code code_internal_server)
          (record {
            code = code_internal_server;
            message = codes "internal server error";
            payload = none;
            reason = codes "Internal";
            details = if cfg.include_stack then stack else [];
          })
          w

  pub ending_answer : RecoveryOptions W → Text → Ending Unit → W → W
  ending_answer cfg stack (returned _) w = w
  ending_answer cfg stack (panicked rec) w =
      panic_answer cfg stack (run_hook cfg.on_panic rec stack w)

  written_cases :
      {X : Type 0} (include_stack b : Bool) (stack : Text) (a : X) (f : ApiResponse D → X)
      → (if not b then f (from_biz_error (panic_error include_stack stack)) else a) ≡ (
          if b
          then a
          else f (record {
            code = code_internal_server;
            message = codes "internal server error";
            payload = none;
            reason = codes "Internal";
            details = if include_stack then stack else [];
          }))
  unfolding from_biz_error failure panic_error new_biz_error
  written_cases true true stack a f = refl
  written_cases true false stack a f = refl
  written_cases false true stack a f = refl
  written_cases false false stack a f = refl

  internal_status : get_http_code code_internal_server ≡ 500
  unfolding get_http_code get_error_level
  internal_status = refl

  -- A panic does not get past gin's Recovery: after the hook, whose own panic is dropped, the request is
  -- aborted, and if nothing has been written the client gets the HTTP status of an internal error and
  -- the fixed text of one, which has the stack only if that is switched on. Handlers that return are
  -- left alone.
  pub recovery-answer :
      (cfg : RecoveryOptions W) (stack method path client_ip : Text) (end : Ending Unit) (w : W)
      → (recovery written abort abort_with_status_json cfg stack method path client_ip (end, w)).1
        ≡ ending_answer cfg stack end w
  unfolding recovery ending_answer panic_answer
  recovery-answer cfg stack method path client_ip (returned _) w = refl
  recovery-answer cfg stack method path client_ip (panicked rec) w =
      let w1 = run_hook cfg.on_panic rec stack w in
      rw internal_status (
        written_cases cfg.include_stack (written w1) stack (abort w1)
          (λ resp. abort_with_status_json 500 resp w1))

  -- The answers of the two recoveries for a status that the interceptor of gRPC sends: what gin sends,
  -- and what FromError makes of an error that carries the status.
  abbrev pub SameAnswer :
      {F : Type 0}
      → RecoveryOptions W
      → (F → Text)
      → (GoError F → Option Status)
      → Heap
      → GoError F
      → Text
      → W
      → W
      → Status
      → Type 0
  SameAnswer cfg text status_of h e stack before after sent =
      (sent.code ≡ internal)
      × (sent.message ≡ codes "internal server error")
      × (after
          ≡ abort_with_status_json 500
              (record {
                code = code_internal_server;
                message = sent.message;
                payload = none;
                reason = codes "Internal";
                details = if cfg.include_stack then stack else [];
              })
              before)
      × (b : BizError) × (from_error text status_of h (some e) ≡ (some (length h), h ++ b ∷ []))
      × (b.code ≡ code_internal_server)
      × (b.message ≡ sent.message)
      × (get_http_code b.code ≡ 500)

  unwritten_answer :
      (cfg : RecoveryOptions W) (stack : Text) (w : W)
      → written w ≡ false
      → panic_answer cfg stack w
        ≡ abort_with_status_json 500
            (record {
              code = code_internal_server;
              message = codes "internal server error";
              payload = none;
              reason = codes "Internal";
              details = if cfg.include_stack then stack else [];
            })
            w
  unfolding panic_answer
  unwritten_answer cfg stack w h = rw (h, internal_status) refl

  at_panic_status :
      {F : Type 0} (cfg : RecoveryOptions W) (stack method path client_ip rec : Text) (w : W)
      (text : F → Text) (status_of : GoError F → Option Status) (h : Heap) (e : GoError F)
      → written (run_hook cfg.on_panic rec stack w) ≡ false
      → status_of e ≡ some panic_status
      → as_biz e ≡ none
      → SameAnswer cfg text status_of h e stack
          (run_hook cfg.on_panic rec stack w)
          (recovery written abort abort_with_status_json cfg stack method path client_ip
            (panicked rec, w)).1
          panic_status
  unfolding from_error biz_code_of_status from_grpc_code new_biz_error ending_answer
  at_panic_status cfg stack method path client_ip rec w text status_of h e clean carried plain = (
    refl,
    refl,
    recovery-answer cfg stack method path client_ip (panicked rec) w
        ∙ unwritten_answer cfg stack (run_hook cfg.on_panic rec stack w) clean,
    new_biz_error code_internal_server (codes "gRPC") (codes "internal server error"),
    rw (plain, carried) refl,
    refl,
    refl,
    internal_status,
  )

  -- The two recoveries say the same of a panic. The interceptor of gRPC sends a status with the code
  -- Internal and a fixed text, and no response. The middleware of gin, when nothing has been written
  -- after the hook, aborts with the HTTP status 500 and a body with the code of an internal error, the
  -- same text, and the stack only if that is switched on. A client of gRPC whose error carries the
  -- status that was sent, and no business error, gets by FromError a new error with the code and the
  -- text of that body, whose HTTP status is 500 again.
  pub recovery-rpc_recovery :
      {V F : Type 0} (B : Type 0) (cfg : RecoveryOptions W) (stack method path client_ip rec : Text)
      (w : W) (on_panic : Option (Text → Text → V → Bool × V)) (full_method : Text) (v : V)
      (text : F → Text) (status_of : GoError F → Option Status) (h : Heap) (e : GoError F)
      (resp : Option B) (sent : Status)
      → written (run_hook cfg.on_panic rec stack w) ≡ false
      → (rpc_recovery {F = F} on_panic stack full_method (panicked rec, v)).0
        ≡ (resp, some (inr sent))
      → status_of e ≡ some sent
      → as_biz e ≡ none
      → (resp ≡ none)
        × SameAnswer cfg text status_of h e stack
            (run_hook cfg.on_panic rec stack w)
            (recovery written abort abort_with_status_json cfg stack method path client_ip
              (panicked rec, w)).1
            sent
  unfolding rpc_recovery sent_in
  recovery-rpc_recovery B cfg stack method path client_ip rec w on_panic full_method v text
        status_of h e resp sent clean answer carried plain =
      let same : panic_status ≡ sent = ap (λ r. sent_in r.1) answer in
      (
        ap (λ r. r.0) (sym answer),
        subst
            (λ st.
              status_of e ≡ some st
              → SameAnswer cfg text status_of h e stack (run_hook cfg.on_panic rec stack w)
                  (recovery written abort abort_with_status_json cfg stack method path client_ip
                    (panicked rec, w)).1
                  st)
            same
            (λ c.
              at_panic_status cfg stack method path client_ip rec w text status_of h e clean c
                plain)
            carried,
      )
