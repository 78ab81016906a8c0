-- ===== src/Errx/Codes.antt =====
-- errx/errx.go: codes, levels and their HTTP and gRPC statuses. A code is a Go int32, here an
-- integer of either sign; an HTTP status is a number (a negative int is in no case of the switch,
-- like any number that is not listed).
pub mod Levels
pub mod Statuses
use linhub.Base.{eq_ℤ, if◌then◌else◌, pos, quot_ℤ, rem_ℤ, ℕ, ℤ, ◌==◌, ◌||◌}

-- Levels.
abbrev pub level_system : ℤ
level_system = pos 1

abbrev pub level_user : ℤ
level_user = pos 2

abbrev pub level_business : ℤ
level_business = pos 3

abbrev pub level_upstream : ℤ
level_upstream = pos 4

abbrev pub level_downstream : ℤ
level_downstream = pos 5

-- The codes that the functions below name.
abbrev pub code_ok : ℤ
code_ok = pos 0

abbrev pub code_user_not_found : ℤ
code_user_not_found = pos 20101

abbrev pub code_user_permission_denied : ℤ
code_user_permission_denied = pos 20107

abbrev pub code_auth_unauthenticated : ℤ
code_auth_unauthenticated = pos 20401

abbrev pub code_auth_token_invalid : ℤ
code_auth_token_invalid = pos 20402

abbrev pub code_auth_token_expired : ℤ
code_auth_token_expired = pos 20403

abbrev pub code_internal_server : ℤ
code_internal_server = pos 10001

abbrev pub code_service_unavailable : ℤ
code_service_unavailable = pos 10002

abbrev pub code_request_timeout : ℤ
code_request_timeout = pos 10003

abbrev pub code_invalid_parameter : ℤ
code_invalid_parameter = pos 20001

abbrev pub code_invalid_request : ℤ
code_invalid_request = pos 20002

abbrev pub code_too_many_requests : ℤ
code_too_many_requests = pos 20003

unfoldable pub get_error_level : ℤ → ℤ
get_error_level code = if eq_ℤ code (pos 0) then pos 0 else rem_ℤ (quot_ℤ code 10000) 10

unfoldable pub get_module : ℤ → ℤ
get_module code = if eq_ℤ code (pos 0) then pos 0 else rem_ℤ (quot_ℤ code 100) 100

-- The inner switch of the system level.
system_status : ℤ → ℕ
system_status code =
    if eq_ℤ code code_service_unavailable
    then 503
    else if eq_ℤ code code_request_timeout
    then 504
    else 500

-- The switch on the level; the user and business levels and the default all answer 200.
level_status : ℤ → ℤ → ℕ
unfolding system_status
level_status level code =
    if eq_ℤ level level_system
    then system_status code
    else if eq_ℤ level level_upstream || eq_ℤ level level_downstream
    then 502
    else 200

unfoldable pub get_http_code : ℤ → ℕ
unfolding level_status
get_http_code code = if eq_ℤ code code_ok then 200 else level_status (get_error_level code) code

-- google.golang.org/grpc/codes: the codes that the switches name; `other` is any further number.
pub data GrpcCode : Type 0 where
  grpc_ok canceled unknown invalid_argument deadline_exceeded not_found already_exists : GrpcCode
  permission_denied resource_exhausted failed_precondition aborted out_of_range : GrpcCode
  unimplemented internal unavailable data_loss unauthenticated : GrpcCode
  other : ℕ → GrpcCode

unfoldable pub to_grpc_code : ℕ → GrpcCode
to_grpc_code code =
    if code == 200
    then grpc_ok
    else if code == 400
    then invalid_argument
    else if code == 401
    then unauthenticated
    else if code == 403
    then permission_denied
    else if code == 404
    then not_found
    else if code == 409
    then already_exists
    else if code == 429
    then resource_exhausted
    else if code == 500
    then internal
    else if code == 501
    then unimplemented
    else if code == 503
    then unavailable
    else if code == 504
    then deadline_exceeded
    else unknown

unfoldable pub from_grpc_code : GrpcCode → ℕ
from_grpc_code grpc_ok = 200
from_grpc_code canceled = 408
from_grpc_code unknown = 500
from_grpc_code invalid_argument = 400
from_grpc_code deadline_exceeded = 504
from_grpc_code not_found = 404
from_grpc_code already_exists = 409
from_grpc_code permission_denied = 403
from_grpc_code unauthenticated = 401
from_grpc_code resource_exhausted = 429
from_grpc_code failed_precondition = 400
from_grpc_code aborted = 409
from_grpc_code out_of_range = 400
from_grpc_code unimplemented = 501
from_grpc_code internal = 500
from_grpc_code unavailable = 503
from_grpc_code data_loss = 500
from_grpc_code (other _) = 500
