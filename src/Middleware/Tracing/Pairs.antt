-- ===== src/Middleware/Tracing/Pairs.antt =====
-- middleware/gin and middleware/grpc, observability.go: the pairs that both put into a response.
use linhub.Base.{Bool, List, Text, [], false, if◌then◌else◌, not, refl, set, true, ◌++◌, ◌∷◌, ◌≡◌}
use linhub.Middleware.Tracing.{
  ObservabilityOptions, SpanContext, TraceInjectionMode, header_key, inject_both, inject_mode,
  inject_none, inject_trace_headers, inject_trace_id_only, inject_trace_response_headers,
  inject_w3c_trace_context, other_mode, outgoing, send, trace_parent_header_key, traceparent,
}

has_parent : TraceInjectionMode → Bool
has_parent inject_w3c_trace_context = true
has_parent inject_both = true
has_parent _ = false

has_id : TraceInjectionMode → Bool
has_id inject_trace_id_only = true
has_id inject_both = true
has_id _ = false

-- The pairs of a mode for a valid span: the W3C context first, then the plain identity.
unfoldable pub mode_pairs :
    TraceInjectionMode → SpanContext → ObservabilityOptions → List (Text × Text)
unfolding has_parent has_id
mode_pairs mode s config =
    (if has_parent mode then (trace_parent_header_key, traceparent s) ∷ [] else [])
    ++ (if has_id mode then (header_key config, s.trace_id) ∷ [] else [])

unfoldable pub trace_pairs : SpanContext → ObservabilityOptions → List (Text × Text)
trace_pairs s config =
    if not s.is_valid then [] else mode_pairs config.trace_injection_mode s config

unfoldable pub put_all : {S : Type 0} → (Text → Text → S → S) → List (Text × Text) → S → S
put_all put [] w = w
put_all put ((k, v) ∷ kvs) w = put_all put kvs (put k v w)

abbrev pub sent :
    {M G : Type 0} → (M → G → G) → (Text → Text → M → M) → M → List (Text × Text) → G → G
sent set_header set empty [] g = g
sent set_header set empty (kv ∷ kvs) g = set_header (put_all set (kv ∷ kvs) empty) g

guarded :
    {S : Type 0} (b : Bool) (f : List (Text × Text) → S) {w x : S} {ps : List (Text × Text)}
    → w ≡ f []
    → x ≡ f ps
    → (if b then w else x) ≡ f (if b then [] else ps)
guarded true f none_there there = none_there
guarded false f none_there there = there

module _ {W M G : Type 0} (header : Text → Text → W → W) (empty : M) (set : Text → Text → M → M)
    (is_empty_md : M → Bool) (set_header : M → G → G) where
  put_all-mode :
      (mode : TraceInjectionMode) (s : SpanContext) (config : ObservabilityOptions) (w : W)
      → inject_mode header mode s config w ≡ put_all header (mode_pairs mode s config) w
  unfolding inject_mode mode_pairs has_parent has_id put_all
  put_all-mode inject_w3c_trace_context s config w = refl
  put_all-mode inject_trace_id_only s config w = refl
  put_all-mode inject_both s config w = refl
  put_all-mode inject_none s config w = refl
  put_all-mode (other_mode _) s config w = refl

  module _ (fresh : is_empty_md empty ≡ true)
      (filled : (k v : Text) (m : M) → is_empty_md (set k v m) ≡ false) where
    sent-mode :
        (mode : TraceInjectionMode) (s : SpanContext) (config : ObservabilityOptions) (g : G)
        → send empty set is_empty_md set_header
            (outgoing empty set is_empty_md set_header mode s config)
            g
          ≡ sent set_header set empty (mode_pairs mode s config) g
    unfolding send outgoing mode_pairs has_parent has_id put_all
    sent-mode inject_w3c_trace_context s config g = rw (filled _ _ _) refl
    sent-mode inject_trace_id_only s config g = rw (filled _ _ _) refl
    sent-mode inject_both s config g = rw (filled _ _ _) refl
    sent-mode inject_none s config g = refl
    sent-mode (other_mode _) s config g = rw fresh refl

  -- gin and gRPC put the same pairs into a response, in the same order: gin into its header, one by one,
  -- and gRPC into new metadata that it sends at once, and only if there is a pair. No pair is put for a
  -- span that is not valid. The metadata is empty before something is set in it and not after.
  pub inject_trace_headers-pairs :
      is_empty_md empty ≡ true
      → ((k v : Text) (m : M) → is_empty_md (set k v m) ≡ false)
      → (s : SpanContext) (config : ObservabilityOptions) (w : W) (g : G)
      → (inject_trace_headers header s config w ≡ put_all header (trace_pairs s config) w)
        × (inject_trace_response_headers empty set is_empty_md set_header s config g
            ≡ sent set_header set empty (trace_pairs s config) g)
  unfolding inject_trace_headers inject_trace_response_headers trace_pairs put_all
  inject_trace_headers-pairs fresh filled s config w g =
      let mode = config.trace_injection_mode in
      (
        guarded (not s.is_valid) (λ ps. put_all header ps w) refl (put_all-mode mode s config w),
        guarded (not s.is_valid) (λ ps. sent set_header set empty ps g) refl
            (sent-mode fresh filled mode s config g),
      )
