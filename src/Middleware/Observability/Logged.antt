-- ===== src/Middleware/Observability/Logged.antt =====
-- middleware/gin/observability.go, Observability: what a client and the log see of a request.
use linhub.Base.{
  Bool, List, Option, Text, [], ap, codes, false, if◌then◌else◌, length, ltb, negsuc, none, pos,
  refl, some, take, true, ℕ, ◌++◌, ◌<◌, ◌∙◌, ◌≡◌, ◌⊎◌,
}
use linhub.Middleware.Capture.{
  BodyCaptureWriter, Call, Chain, Stream, capture_request_body, logged_body,
  max_captured_body_bytes, next, perform_captured, written,
}
use linhub.Middleware.Capture.Bodies.{capture_request_body-Kept}
use linhub.Middleware.Observability.{
  Body, HttpEntry, Request, http_entry, log_level, logged, measured, observability,
}
use linhub.Middleware.Paths.{should_skip_path}
use linhub.Middleware.Capture.Writes.{next-perform_captured}
use linhub.Middleware.Tracing.{ObservabilityOptions, inject_trace_headers}

-- A body that is read without an error, at least as far as the middleware reads.
abbrev pub IsReadable : Option Stream → Type 0
IsReadable none = Unit
IsReadable (some s) = (s.failure ≡ none) ⊎ (max_captured_body_bytes < length s.rest)

-- A request's body as it is logged: cut, with a mark, when it is longer than the limit.
pub body_text : Option Stream → Text
body_text none = []
body_text (some s) =
    if ltb max_captured_body_bytes (length s.rest)
    then take max_captured_body_bytes s.rest ++ codes "...[truncated]"
    else s.rest

capture_readable :
    (body : Option Stream) → IsReadable body → capture_request_body body ≡ (body_text body, body)
unfolding body_text capture_request_body logged_body
capture_readable none ok = refl
capture_readable (some s) ok = (capture_request_body-Kept s).0 ok

module _ {W : Type 0} {O R : Type 0} (perform : Call O → W → R × W) (header : Text → Text → W → W)
    (status : W → ℕ) (handlers : Option Stream → Chain O R) where
  -- The bodies that are to be logged, for the calls that the handlers have made.
  pub wanted_bodies : Bool → Request → List (Call O) → Option (Body × Body)
  wanted_bodies true rq made =
      let request_body = body_text rq.body in
      let response_body = take max_captured_body_bytes (written made) in
      some (
        record { content = request_body; bytes = length request_body },
        record { content = response_body; bytes = length response_body },
      )
  wanted_bodies false rq made = none

  -- The entry of a request and the writer after it, from a run of the handlers.
  pub answered : Bool → Request → List (Call O) × W → Option HttpEntry × W
  answered is_debug_level rq (made, after) = (
    some (record {
      level = if is_debug_level then negsuc 3 else pos 0;
      method = rq.method;
      path = rq.path;
      status_code = status after;
      bodies = wanted_bodies is_debug_level rq made;
      source_ip = rq.client_ip;
      agent = rq.user_agent;
      trace_id = rq.span.trace_id;
      span_id = rq.span.span_id;
    }),
    after,
  )

  logged-answered :
      (is_debug_level : Bool) (rq : Request) (w : W)
      → IsReadable rq.body
      → logged perform header status handlers is_debug_level rq w
        ≡ answered is_debug_level rq (next perform (handlers rq.body) w)
  unfolding logged answered wanted_bodies http_entry log_level
  logged-answered true rq w ok =
      let writer : BodyCaptureWriter perform = record {
        response_writer = w;
        body = [];
        limit = max_captured_body_bytes;
      } in
      let (same, held) = next-perform_captured perform (handlers rq.body) writer refl in
      let entry : Text → W → Text → Option HttpEntry × W = λ request_body after body. (
        some (http_entry rq true (status after) (some (measured request_body, measured body))),
        after,
      ) in
      let run : Text × Option Stream → Option HttpEntry × W = λ c.
        let after = (next (perform_captured perform) (handlers c.1) writer).1 in
        entry c.0 after.response_writer after.body in
      let body = (next (perform_captured perform) (handlers rq.body) writer).1.body in
      ap run (capture_readable rq.body ok)
      ∙ ap (λ r. entry (body_text rq.body) r.1 body) same
      ∙ ap (entry (body_text rq.body) (next perform (handlers rq.body) w).1) held
  logged-answered false rq w ok = refl

  -- The middleware changes nothing of what the handlers do. For a request that is skipped nothing is
  -- logged and the writer is as the handlers leave it. For any other request with a readable body the
  -- handlers get the body as it was and a writer to which only the trace has been added, they leave it
  -- as without the middleware, and one entry is logged: it has the method, the path, the address, the
  -- agent and the span of the request and the status of that writer. At debug level it also has the
  -- body of the request, cut at the limit, and the start of what the handlers gave to Write, each with
  -- its length.
  pub observability-answered :
      (config : ObservabilityOptions) (is_debug_level : Bool) (rq : Request) (w : W)
      → IsReadable rq.body
      → observability perform header status handlers config is_debug_level rq w ≡ (
          if should_skip_path rq.path rq.method config.skip_paths
          then (none, (next perform (handlers rq.body) w).1)
          else answered is_debug_level rq
              (next perform (handlers rq.body) (inject_trace_headers header rq.span config w)))
  unfolding observability
  observability-answered config is_debug_level rq w ok =
      ap
        (λ r.
          if should_skip_path rq.path rq.method config.skip_paths
          then (none, (next perform (handlers rq.body) w).1)
          else r)
        (logged-answered is_debug_level rq (inject_trace_headers header rq.span config w) ok)
