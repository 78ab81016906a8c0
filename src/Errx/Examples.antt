-- ===== src/Errx/Examples.antt =====
-- errx/errx.go: the theorems about errors at concrete values.
use linhub.Base.{
  All, Any, Option, Text, [], ap, arith, codes, get_or, none, opaque_value, pos, refl, set, some,
  string_value, ℕ, ◌++◌, ◌∷◌, ◌≡◌, ◌≢◌,
}
use linhub.Errx.Codes.{
  GrpcCode, aborted, already_exists, canceled, data_loss, deadline_exceeded, failed_precondition,
  get_error_level, get_http_code, grpc_ok, internal, invalid_argument, level_user, not_found, other,
  out_of_range, permission_denied, resource_exhausted, to_grpc_code, unauthenticated, unavailable,
  unimplemented, unknown,
}
use linhub.Errx.Errors.{
  BizError, Detail, GoError, Heap, Status, as_biz, err_bind, foreign, from_error, initial_heap,
  new_biz_error, with_details, wrapped,
}
use linhub.Errx.Errors.Sharing.{IsLevelled}
use linhub.Errx.Errors.Crossing.{Crossed, DetailLaws, from_error-grpc_status, grpc_status}
use linhub.Errx.Errors.Reachable.{IsKeptAt, Reachable, Reachable-IsKeptAt, after_details, start}

is_502 : get_http_code (pos 50101) ≢ 200
unfolding get_http_code get_error_level
is_502 = ground arith

to_404 : to_grpc_code 404 ≢ unknown
unfolding to_grpc_code
to_404 = λ e. cc

user_level : get_error_level (pos 20101) ≡ level_user
unfolding get_error_level
user_level = refl

abbrev first_error : BizError
first_error = record {
  code = pos 10001;
  level = pos 1;
  reason = codes "a";
  message = codes "b";
  details = [];
  metadata = none;
}

abbrev second_error : BizError
second_error = record first_error { code = pos 20002; level = pos 2 }

abbrev two_errors : Heap
two_errors = first_error ∷ second_error ∷ []

levels_ok : All IsLevelled two_errors
unfolding get_error_level
levels_ok = (refl, (refl, tt))

changed_errors :
    with_details two_errors 0 (codes "x")
    ≡ some (0, record first_error { details = codes "x" } ∷ second_error ∷ [])
unfolding with_details
changed_errors = refl

abbrev text_of : ℕ → Text
text_of n = n ∷ []

abbrev no_status : GoError ℕ → Option Status
no_status e = none

nothing_there : as_biz {F = ℕ} (wrapped (codes "w") (foreign 7)) ≡ none
unfolding as_biz
nothing_there = refl

add_detail : Status → Detail → GrpcCode → Option Status
add_detail s d grpc_ok = none
add_detail s d _ = some (record s { details = s.details ++ d ∷ [] })

add_detail_other :
    (s : Status) (d : Detail) (c : GrpcCode)
    → c ≢ grpc_ok
    → add_detail s d c ≡ some (record s { details = s.details ++ d ∷ [] })
unfolding add_detail
add_detail_other s d grpc_ok h = absurd (h refl)
add_detail_other s d canceled h = refl
add_detail_other s d unknown h = refl
add_detail_other s d invalid_argument h = refl
add_detail_other s d deadline_exceeded h = refl
add_detail_other s d not_found h = refl
add_detail_other s d already_exists h = refl
add_detail_other s d permission_denied h = refl
add_detail_other s d resource_exhausted h = refl
add_detail_other s d failed_precondition h = refl
add_detail_other s d aborted h = refl
add_detail_other s d out_of_range h = refl
add_detail_other s d unimplemented h = refl
add_detail_other s d internal h = refl
add_detail_other s d unavailable h = refl
add_detail_other s d data_loss h = refl
add_detail_other s d unauthenticated h = refl
add_detail_other s d (other n) h = refl

adding : Status → Detail → Option Status
unfolding add_detail
adding s d = add_detail s d s.code

adding-DetailLaws : DetailLaws adding
unfolding adding add_detail
adding-DetailLaws = record {
  refuses = λ s d h. ap (add_detail s d) h;
  adds = λ s d h. add_detail_other s d s.code h;
}

print_any : Any → Text
print_any (string_value s) = s
print_any (opaque_value n) = n ∷ []

upstream_error : BizError
upstream_error = new_biz_error (pos 40001) (codes "Upstream") (codes "no answer")

received_status : GoError Text → Option Status
unfolding adding upstream_error
received_status e = grpc_status print_any adding upstream_error

upstream_fails : get_http_code upstream_error.code ≢ 200
unfolding upstream_error new_biz_error get_http_code get_error_level
upstream_fails = ground arith

from_error-grpc_status_example :
    (b : BizError) × (from_error
        (λ s. s)
        received_status
        two_errors
        (some (foreign (codes "rpc error")))
      ≡ (some 2, two_errors ++ b ∷ []))
    × Crossed upstream_error b
unfolding received_status as_biz
from_error-grpc_status_example =
    from_error-grpc_status (λ s. s) received_status print_any adding two_errors upstream_error
      (foreign (codes "rpc error")) adding-DetailLaws upstream_fails refl refl

bind_details : Heap
bind_details =
    set initial_heap err_bind
      (record (get_or initial_heap err_bind first_error) { details = codes "x" })

bind_details-Reachable : Reachable text_of no_status bind_details
unfolding bind_details with_details initial_heap
bind_details-Reachable =
    after_details initial_heap bind_details err_bind err_bind (codes "x") start refl

Reachable-IsKeptAt_example :
    IsKeptAt bind_details err_bind (get_or initial_heap err_bind first_error)
unfolding initial_heap
Reachable-IsKeptAt_example =
    Reachable-IsKeptAt text_of no_status bind_details err_bind
      (get_or initial_heap err_bind first_error) bind_details-Reachable refl
