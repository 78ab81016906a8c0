-- ===== src/Middleware/Unary.antt =====
-- middleware/grpc/observability.go: the interceptor of gRPC. The handler, json.Marshal and the
-- metadata of the library are parameters. The duration is left out of the log.
use linhub.Base.{Bool, List, Option, Text, [], codes, if◌then◌else◌, none, some, ℤ}
use linhub.Middleware.Tracing.{
  ObservabilityOptions, SpanContext, inject_trace_id_only, inject_trace_response_headers,
}
use linhub.Middleware.Observability.{Body, ConfigOption, apply_options, log_level, measured}

-- The part of an entry for a request or a response: a text, or, at debug level, the payload.
pub data RpcPart : Type 0 where
  named : Text → RpcPart
  payload : Body → RpcPart

-- The entry "gRPC request completed".
pub record RpcEntry : Type 0 where
  pub level : ℤ
  pub request : RpcPart
  pub response : RpcPart
  pub source_ip : Text
  pub trace_id : Text
  pub span_id : Text

pub record Call (A : Type 0) : Type 0 where
  pub request : Option A
  pub full_method : Text
  pub span : SpanContext
  pub peer : Option Text

abbrev or_empty : Option Text → Text
or_empty none = []
or_empty (some t) = t

-- The configuration of gRPC's Observability; it has no paths.
unfoldable pub rpc_configured : List ConfigOption → ObservabilityOptions
unfolding apply_options
rpc_configured opts = apply_options opts (record {
  trace_injection_mode = inject_trace_id_only;
  custom_trace_header = [];
  skip_paths = [];
})

module _ {A B E M G : Type 0} (empty : M) (set : Text → Text → M → M) (is_empty_md : M → Bool)
    (set_header : M → G → G) (marshal : Option A → Text) (marshal_response : Option B → Text)
    (handler : Option A → G → (Option B × Option E) × G) where
  -- What json.Marshal gives for a value that is not nil.
  abbrev body_of {ℓ} : {X : Type ℓ} → (Option X → Text) → Option X → Text
  body_of f none = []
  body_of f (some x) = f (some x)

  rpc_status : Option E → Text
  rpc_status none = codes "OK"
  rpc_status (some _) = codes "ERROR"

  rpc_entry : Bool → Call A → Option B × Option E → RpcEntry
  unfolding rpc_status
  rpc_entry is_debug_level call (resp, err) = record {
    level = log_level is_debug_level;
    request =
        if is_debug_level
        then payload (measured (body_of marshal call.request))
        else named call.full_method;
    response =
        if is_debug_level
        then payload (measured (body_of marshal_response resp))
        else named (rpc_status err);
    source_ip = or_empty call.peer;
    trace_id = call.span.trace_id;
    span_id = call.span.span_id;
  }

  -- Observability of gRPC: the answer of the handler, the entry that is logged, and the stream.
  unfoldable pub rpc_observability :
      ObservabilityOptions → Bool → Call A → G → (Option B × Option E) × RpcEntry × G
  unfolding rpc_entry
  rpc_observability cfg is_debug_level call g =
      let g1 = inject_trace_response_headers empty set is_empty_md set_header call.span cfg g in
      let (answer, g2) = handler call.request g1 in
      (answer, rpc_entry is_debug_level call answer, g2)
