-- ===== src/Middleware/Observability.antt =====
-- middleware/gin/observability.go and middleware/grpc/observability.go: the configuration, the
-- middleware of gin and the interceptor of gRPC. The writer of gin with its methods, its Status and the
-- Header of the context, the handlers of gRPC and json.Marshal are parameters. The method and the path
-- of a request are taken not to be changed by the handlers. The duration is left out of the logs.
pub mod Logged
use linhub.Base.{
  Bool, List, Option, Text, [], codes, false, if◌then◌else◌, length, negsuc, none, pos, some, true,
  ℕ, ℤ, ◌++◌, ◌∷◌,
}
use linhub.Middleware.Paths.{should_skip_path}
use linhub.Middleware.Capture.{
  BodyCaptureWriter, Call, Chain, Stream, capture_request_body, max_captured_body_bytes, next,
  perform_captured,
}
use linhub.Middleware.Tracing.{
  ObservabilityOptions, SpanContext, TraceInjectionMode, inject_trace_headers, inject_trace_id_only,
  inject_w3c_trace_context,
}

abbrev pub ConfigOption : Type 0
ConfigOption = ObservabilityOptions → ObservabilityOptions

unfoldable pub with_trace_injection : TraceInjectionMode → ConfigOption
with_trace_injection mode o = record o { trace_injection_mode = mode }

unfoldable pub with_custom_trace_header : Text → ConfigOption
with_custom_trace_header header_name o = record o { custom_trace_header = header_name }

unfoldable pub with_skip_paths : List Text → ConfigOption
with_skip_paths paths o = record o { skip_paths = o.skip_paths ++ paths }

-- The paths of WithSkipMetrics.
abbrev pub common_paths : List Text
common_paths =
    codes "/health"
    ∷ codes "/healthz"
    ∷ codes "/health/*"
    ∷ codes "/ready"
    ∷ codes "/readiness"
    ∷ codes "/live"
    ∷ codes "/liveness"
    ∷ codes "/metrics"
    ∷ codes "/prometheus"
    ∷ codes "/status"
    ∷ codes "/ping"
    ∷ codes "/version"
    ∷ codes "/info"
    ∷ codes "/favicon.ico"
    ∷ codes "/robots.txt"
    ∷ []

unfoldable pub with_skip_metrics : ConfigOption
with_skip_metrics o = record o { skip_paths = o.skip_paths ++ common_paths }

unfoldable pub apply_options : List ConfigOption → ConfigOption
apply_options [] o = o
apply_options (opt ∷ opts) o = apply_options opts (opt o)

-- The configuration of gin's Observability.
unfoldable pub configured : List ConfigOption → ObservabilityOptions
unfolding apply_options
configured opts = apply_options opts (record {
  trace_injection_mode = inject_trace_id_only;
  custom_trace_header = [];
  skip_paths = codes "/metrics" ∷ [];
})

-- ObservabilityWithW3CTraceContext, ObservabilityWithTraceID, ObservabilityWithCustomHeader,
-- ObservabilitySkipMetrics and ObservabilityWithSkipPaths, each by its configuration.
unfoldable pub with_w3c_trace_context : ObservabilityOptions
unfolding configured with_trace_injection
with_w3c_trace_context = configured (with_trace_injection inject_w3c_trace_context ∷ [])

unfoldable pub with_trace_id : ObservabilityOptions
unfolding configured with_trace_injection
with_trace_id = configured (with_trace_injection inject_trace_id_only ∷ [])

unfoldable pub with_custom_header : Text → ObservabilityOptions
unfolding configured with_trace_injection with_custom_trace_header
with_custom_header header_name =
    configured
      (with_trace_injection inject_trace_id_only ∷ with_custom_trace_header header_name ∷ [])

unfoldable pub skip_metrics : ObservabilityOptions
unfolding configured with_skip_metrics
skip_metrics = configured (with_skip_metrics ∷ [])

unfoldable pub skip_only : List Text → ObservabilityOptions
unfolding configured with_skip_paths
skip_only paths = configured (with_skip_paths paths ∷ [])

pub record Request : Type 0 where
  pub path : Text
  pub method : Text
  pub body : Option Stream
  pub span : SpanContext
  pub client_ip : Text
  pub user_agent : Text

pub record Body : Type 0 where
  pub content : Text
  pub bytes : ℕ

-- The entry "HTTP request completed"; the bodies of the request and of the response are logged at
-- debug level only.
pub record HttpEntry : Type 0 where
  pub level : ℤ
  pub method : Text
  pub path : Text
  pub status_code : ℕ
  pub bodies : Option (Body × Body)
  pub source_ip : Text
  pub agent : Text
  pub trace_id : Text
  pub span_id : Text

abbrev pub measured : Text → Body
measured content = record { content = content; bytes = length content }

unfoldable pub log_level : Bool → ℤ
log_level is_debug_level = if is_debug_level then negsuc 3 else pos 0

unfoldable pub http_entry : Request → Bool → ℕ → Option (Body × Body) → HttpEntry
unfolding log_level
http_entry rq is_debug_level status_code bodies = record {
  level = log_level is_debug_level;
  method = rq.method;
  path = rq.path;
  status_code = status_code;
  bodies = bodies;
  source_ip = rq.client_ip;
  agent = rq.user_agent;
  trace_id = rq.span.trace_id;
  span_id = rq.span.span_id;
}

module _ {W : Type 0} {O R : Type 0} (perform : Call O → W → R × W) (header : Text → Text → W → W)
    (status : W → ℕ) (handlers : Option Stream → Chain O R) where
  -- The part of the middleware after the trace, with and without the capture.
  pub logged : Bool → Request → W → Option HttpEntry × W
  logged true rq w =
      let (request_body, body) = capture_request_body rq.body in
      let writer : BodyCaptureWriter perform = record {
        response_writer = w;
        body = [];
        limit = max_captured_body_bytes;
      } in
      let (_, after) = next (perform_captured perform) (handlers body) writer in
      (
        some (
            http_entry rq true (status after.response_writer)
              (some (measured request_body, measured after.body))),
        after.response_writer,
      )
  logged false rq w =
      let (_, after) = next perform (handlers rq.body) w in
      (some (http_entry rq false (status after) none), after)

  -- Observability of gin, for a request, with the state of the writer: the entry that is logged, if
  -- any, and the writer after it.
  unfoldable pub observability : ObservabilityOptions → Bool → Request → W → Option HttpEntry × W
  observability config is_debug_level rq w =
      if should_skip_path rq.path rq.method config.skip_paths
      then (none, (next perform (handlers rq.body) w).1)
      else logged is_debug_level rq (inject_trace_headers header rq.span config w)
