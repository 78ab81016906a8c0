-- ===== src/Middleware/Tracing.antt =====
-- middleware/gin/observability.go and middleware/grpc/observability.go: the trace that is put into
-- the header of a response. The writer of gin, the metadata of gRPC and grpc.SetHeader are parameters.
pub mod Pairs
use linhub.Base.{
  Bool, List, Option, Text, codes, if◌then◌else◌, is_empty, none, not, set, some, ℕ, ◌++◌,
}

-- TraceInjectionMode is an int: `other_mode` is any further one.
pub data TraceInjectionMode : Type 0 where
  inject_w3c_trace_context inject_trace_id_only inject_both inject_none : TraceInjectionMode
  other_mode : ℕ → TraceInjectionMode

pub record SpanContext : Type 0 where
  pub is_valid : Bool
  pub is_sampled : Bool
  pub trace_id : Text
  pub span_id : Text

-- ObservabilityOptions; those of gRPC have no paths.
pub record ObservabilityOptions : Type 0 where
  pub trace_injection_mode : TraceInjectionMode
  pub custom_trace_header : Text
  pub skip_paths : List Text

abbrev pub trace_parent_header_key : Text
trace_parent_header_key = codes "traceparent"

abbrev pub trace_id_header_key : Text
trace_id_header_key = codes "X-Trace-Id"

-- fmt.Sprintf("00-%s-%s-%s", traceID, spanID, traceFlags).
unfoldable pub traceparent : SpanContext → Text
traceparent s =
    let trace_flags = if not s.is_sampled then codes "00" else codes "01" in
    codes "00-" ++ s.trace_id ++ codes "-" ++ s.span_id ++ codes "-" ++ trace_flags

unfoldable pub header_key : ObservabilityOptions → Text
header_key config =
    if not (is_empty config.custom_trace_header)
    then config.custom_trace_header
    else trace_id_header_key

module _ {W : Type 0} (header : Text → Text → W → W) where
  inject_mode : TraceInjectionMode → SpanContext → ObservabilityOptions → W → W
  inject_mode inject_w3c_trace_context s config w = header trace_parent_header_key (traceparent s) w
  inject_mode inject_trace_id_only s config w = header (header_key config) s.trace_id w
  inject_mode inject_both s config w =
      header (header_key config) s.trace_id (header trace_parent_header_key (traceparent s) w)
  inject_mode inject_none s config w = w
  inject_mode (other_mode _) s config w = w

  -- injectTraceHeaders of gin; `header` is (*gin.Context).Header.
  unfoldable pub inject_trace_headers : SpanContext → ObservabilityOptions → W → W
  unfolding inject_mode
  inject_trace_headers s config w =
      if not s.is_valid then w else inject_mode config.trace_injection_mode s config w

-- metadata.MD with its Set, and grpc.SetHeader.
module _ {M : Type 0} {G : Type 0} (empty : M) (set : Text → Text → M → M) (is_empty_md : M → Bool)
    (set_header : M → G → G) where
  outgoing : TraceInjectionMode → SpanContext → ObservabilityOptions → Option M
  outgoing inject_w3c_trace_context s cfg = some (set trace_parent_header_key (traceparent s) empty)
  outgoing inject_trace_id_only s cfg = some (set (header_key cfg) s.trace_id empty)
  outgoing inject_both s cfg =
      some (set (header_key cfg) s.trace_id (set trace_parent_header_key (traceparent s) empty))
  outgoing inject_none s cfg = none
  outgoing (other_mode _) s cfg = some empty

  send : Option M → G → G
  send none g = g
  send (some out) g = if is_empty_md out then g else set_header out g

  -- injectTraceResponseHeaders of gRPC.
  unfoldable pub inject_trace_response_headers : SpanContext → ObservabilityOptions → G → G
  unfolding outgoing send
  inject_trace_response_headers s cfg g =
      if not s.is_valid then g else send (outgoing cfg.trace_injection_mode s cfg) g
