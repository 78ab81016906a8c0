-- ===== src/Errx/Codes/Statuses.antt =====
-- Going between HTTP and gRPC statuses.
use linhub.Base.{arith, ℕ, ℤ, ◌≡◌, ◌≢◌, ◌⊎◌}
use linhub.Errx.Codes.{
  from_grpc_code, get_error_level, get_http_code, grpc_ok, level_business, level_status, level_user,
  system_status, to_grpc_code, unknown,
}
use linhub.Errx.Codes.Levels.{get_http_code-eq-200_iff}

-- An HTTP status that has a gRPC code of its own, that is one other than Unknown, comes back
-- unchanged from gRPC.
from_grpc_code-to_grpc_code :
    (status : ℕ) → to_grpc_code status ≢ unknown → from_grpc_code (to_grpc_code status) ≡ status
unfolding to_grpc_code from_grpc_code
from_grpc_code-to_grpc_code status h = ground arith

-- A failure whose level is user or business has the gRPC code OK.
pub to_grpc_code-get_http_code_ok :
    (code : ℤ)
    → (get_error_level code ≡ level_user) ⊎ (get_error_level code ≡ level_business)
    → to_grpc_code (get_http_code code) ≡ grpc_ok
unfolding to_grpc_code
to_grpc_code-get_http_code_ok code h = rw ((get_http_code-eq-200_iff code).1 (ground arith))

-- The statuses of a failure.
pub get_http_code_values :
    (c : ℤ)
    → get_http_code c ≢ 200
    → ((get_http_code c ≡ 500) ⊎ (get_http_code c ≡ 502))
      ⊎ ((get_http_code c ≡ 503) ⊎ (get_http_code c ≡ 504))
unfolding get_http_code level_status system_status
get_http_code_values c h = ground arith
