-- ===== src/Middleware/Examples.antt =====
-- middleware/: the theorems about middleware at concrete requests.
use linhub.Base.{
  Bool, List, Option, Text, [], arith, codes, false, if◌then◌else◌, inl, inr, is_empty, length,
  none, not, refl, some, take, true, ℕ, ◌++◌, ◌<◌, ◌↔◌, ◌∷◌, ◌≡◌, ◌≤◌, ◌⊎◌,
}
use linhub.Errx.Errors.{ApiResponse, GoError, as_biz, foreign}
use linhub.Token.Paths.Glob.{Fits}
use linhub.Middleware.Paths.{match_path_pattern, should_skip_path}
use linhub.Middleware.Paths.Edges.{match_path_pattern-Fits}
use linhub.Middleware.Capture.{
  BodyCaptureWriter, Call, Chain, Stream, calls, capture_request_body, done, logged_body,
  max_captured_body_bytes, next, perform_captured, promoted, write, write_string, written,
}
use linhub.Middleware.Capture.Writes.{next-perform_captured, seen}
use linhub.Middleware.Capture.Bodies.{capture_request_body-Kept}
use linhub.Middleware.Tracing.{
  ObservabilityOptions, SpanContext, header_key, inject_both, inject_trace_headers, traceparent,
}
use linhub.Middleware.Tracing.Pairs.{mode_pairs, trace_pairs}
use linhub.Middleware.Observability.{Request, observability}
use linhub.Middleware.Observability.Logged.{answered, observability-answered}
use linhub.Middleware.Recovery.{
  RecoveryOptions, panic_status, panicked, recovery, rpc_recovery, run_hook,
}
use linhub.Middleware.Recovery.Answers.{SameAnswer, recovery-rpc_recovery}

abbrev slash_v : Text
slash_v = codes "/v"

match_path_pattern-Fits_example :
    ((match_path_pattern (codes "/v1") (slash_v ++ codes "*") ≡ true)
      ↔ Fits (slash_v ++ codes "*") (codes "/v1"))
    × ((match_path_pattern (codes "/v1") (codes "*" ++ slash_v) ≡ true)
        ↔ Fits (codes "*" ++ slash_v) (codes "/v1"))
    × ((match_path_pattern (codes "/v1") (codes "*" ++ slash_v ++ codes "*") ≡ true)
        ↔ Fits (codes "*" ++ slash_v ++ codes "*") (codes "/v1"))
match_path_pattern-Fits_example =
    match_path_pattern-Fits slash_v (codes "/v1")
      (λ e. omega (arith, e), (λ e. omega (arith, e), tt))

-- A writer that answers with the number of bytes, and a handler that writes, flushes, and writes a
-- string.
abbrev writer : Call Unit → Text → ℕ × Text
writer (write b) w = (length b, w ++ b)
writer (write_string s) w = (length s, w ++ s)
writer (promoted _) w = (0, w)

abbrev four_calls : Chain Unit ℕ
four_calls = calls (write (codes "ab")) (λ n.
    calls (promoted tt)
      (λ m. calls (write_string (codes "-")) (λ k. calls (write (codes "cd")) (λ j. done))))

abbrev small : BodyCaptureWriter writer
small = record { response_writer = []; body = []; limit = 3 }

next-perform_captured_example :
    (seen writer (next (perform_captured writer) four_calls small) ≡ next writer four_calls [])
    × ((next (perform_captured writer) four_calls small).1.body
        ≡ take 3 (written (next writer four_calls []).0))
next-perform_captured_example = next-perform_captured writer four_calls small refl

-- The buffer and the writer after the calls.
four_calls_kept :
    (next (perform_captured writer) four_calls small).1
    ≡ record { response_writer = codes "ab-cd"; body = codes "abc"; limit = 3 }
unfolding next perform_captured
four_calls_kept = refl

abbrev broken : Stream
broken = record { rest = codes "ab"; failure = some 7 }

capture_request_body-Kept_example :
    ((broken.failure ≡ none) ⊎ (max_captured_body_bytes < length broken.rest)
      → capture_request_body (some broken) ≡ (logged_body broken.rest, some broken))
    × ((e : ℕ)
        → broken.failure ≡ some e
        → length broken.rest ≤ max_captured_body_bytes
        → capture_request_body (some broken) ≡ ([], some (record { rest = []; failure = some e })))
capture_request_body-Kept_example = capture_request_body-Kept broken

abbrev span : SpanContext
span = record { is_valid = true; is_sampled = false; trace_id = codes "a1"; span_id = codes "b2" }

abbrev request : Request
request = record {
  path = codes "/v1";
  method = codes "POST";
  body = some (record { rest = codes "xy"; failure = none });
  span = span;
  client_ip = codes "::1";
  user_agent = codes "go";
}

abbrev set_header_of : Text → Text → Text → Text
set_header_of k v w = w

abbrev ok_status : Text → ℕ
ok_status w = 200

abbrev config : ObservabilityOptions
config = record {
  trace_injection_mode = inject_both;
  custom_trace_header = [];
  skip_paths = codes "/metrics" ∷ [];
}

observability-answered_example :
    observability writer set_header_of ok_status (λ b. four_calls) config true request [] ≡ (
      if should_skip_path request.path request.method config.skip_paths
      then (none, (next writer four_calls []).1)
      else answered writer set_header_of ok_status
          (λ b. four_calls)
          true
          request
          (next writer four_calls (inject_trace_headers set_header_of span config [])))
observability-answered_example =
    observability-answered writer set_header_of ok_status (λ b. four_calls) config true request []
      (inl refl)

abbrev Pairs : Type 0
Pairs = List (Text × Text)

abbrev put : Text → Text → Pairs → Pairs
put k v m = (k, v) ∷ m

abbrev no_pairs : Pairs → Bool
no_pairs [] = true
no_pairs (_ ∷ _) = false

-- The two pairs of a span that is not sampled.
two_pairs :
    trace_pairs span config
    ≡ (codes "traceparent", codes "00-a1-b2-00") ∷ (codes "X-Trace-Id", codes "a1") ∷ []
unfolding trace_pairs mode_pairs traceparent header_key
two_pairs = refl

abbrev options : RecoveryOptions Text
options = record { include_stack = false; on_panic = some (λ rec stack w. (true, w)) }

abbrev is_started : Text → Bool
is_started w = not (is_empty w)

abbrev reply : ℕ → ApiResponse ℕ → Text → Text
reply status resp w = resp.message

-- An error of another package.
abbrev plain_error : GoError ℕ
plain_error = foreign 1

plain : as_biz {F = ℕ} (foreign 1) ≡ none
unfolding as_biz
plain = refl

interceptor_sends :
    (rpc_recovery {B = ℕ} {F = ℕ} options.on_panic
      (codes "st")
      (codes "/v1.Api/Get")
      (panicked (codes "nil"), [])).0
    ≡ (none, some (inr panic_status))
unfolding rpc_recovery
interceptor_sends = refl

not_started : is_started (run_hook options.on_panic (codes "nil") (codes "st") []) ≡ false
unfolding run_hook
not_started = refl

recovery-rpc_recovery_example :
    (◌≡◌ {A = Option ℕ} none none)
    × SameAnswer is_started
        (λ w. w)
        reply
        options
        (λ f. [])
        (λ e. some panic_status)
        []
        plain_error
        (codes "st")
        (run_hook options.on_panic (codes "nil") (codes "st") [])
        (recovery is_started
          (λ w. w)
          reply
          options
          (codes "st")
          (codes "GET")
          (codes "/")
          (codes "::1")
          (panicked (codes "nil"), [])).1
        panic_status
recovery-rpc_recovery_example =
    recovery-rpc_recovery is_started (λ w. w) reply ℕ options (codes "st") (codes "GET") (codes "/")
      (codes "::1") (codes "nil") [] options.on_panic (codes "/v1.Api/Get") [] (λ f. [])
      (λ e. some panic_status) [] plain_error none panic_status not_started interceptor_sends refl
      plain
