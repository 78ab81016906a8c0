-- ===== src/Core/Examples.antt =====
-- core/core.go: the theorems about requests at concrete handlers.
use linhub.Base.{Option, Text, [], codes, none, pos, refl, some, suc, zero, ℕ, ◌↔◌, ◌∷◌, ◌≡◌}
use linhub.Errx.Codes.{get_http_code}
use linhub.Errx.Errors.{
  BizError, GoError, Heap, Status, biz, err_bind, foreign, initial_heap, success,
}
use linhub.Core.{
  Reply, Step, apply_default, failed, finalize_request, finish, handle_request, passed, read_bound,
  read_request, validate_all, write_biz_error, write_response, write_success,
}
use linhub.Core.All.{Filled, last, should_bind_all, should_bind_all-Filled}
use linhub.Core.Pipeline.{FirstFailure, finalize_request-FirstFailure, handle_request_http}
use linhub.Core.Leak.{read_request_leak}

abbrev text_of : ℕ → Text
text_of n = n ∷ []

abbrev no_status : GoError ℕ → Option Status
no_status e = none

abbrev error_text : Heap → GoError ℕ → Text
error_text h e = codes "bad"

-- A validator that refuses 0, and a binder that refuses everything.
abbrev positive : Step ℕ ℕ
positive h zero = (some (foreign 1), h, zero)
positive h (suc n) = (none, h, suc n)

abbrev refuse : Step ℕ ℕ
refuse h n = (some (foreign 2), h, n)

abbrev accept : Step ℕ ℕ
accept h n = (none, h, n)

abbrev echo : Heap → ℕ → Option ℕ × Option (GoError ℕ) × Heap
echo h n = (some n, none, h)

abbrev errors : Heap
errors = initial_heap

abbrev seven_zeros : Heap
seven_zeros =
    let e : BizError = record {
      code = pos 20001;
      level = pos 2;
      reason = [];
      message = [];
      details = [];
      metadata = none;
    } in
    e ∷ e ∷ e ∷ e ∷ e ∷ e ∷ e ∷ []

abbrev seventh : BizError
seventh = record {
  code = pos 20001;
  level = pos 2;
  reason = [];
  message = [];
  details = [];
  metadata = none;
}

finalize_request-FirstFailure_example :
    (finalize_request (some suc) (none ∷ some positive ∷ some refuse ∷ []) [] 0
      ≡ failed (foreign 2) [] 1)
    ↔ FirstFailure
        (foreign 2)
        []
        1
        (none ∷ some positive ∷ some refuse ∷ [])
        []
        (apply_default (some suc) 0)
finalize_request-FirstFailure_example =
    finalize_request-FirstFailure (some suc) (none ∷ some positive ∷ some refuse ∷ []) [] 0
      (foreign 2) [] 1

abbrev reply_of_five : Reply ℕ
reply_of_five = record {
  http = 200;
  body = record {
    code = pos 0;
    message = codes "success";
    payload = some 5;
    reason = [];
    details = [];
  };
}

replied :
    (handle_request text_of no_status error_text accept echo none (some positive ∷ []) [] 5).0
    ≡ some reply_of_five
unfolding handle_request read_request finish write_response success finalize_request validate_all
    write_success read_bound
replied = refl

handle_request_http_example : 200 ≡ get_http_code (pos 0)
handle_request_http_example =
    handle_request_http text_of no_status error_text accept echo none (some positive ∷ []) [] 5
      reply_of_five replied

was_read : read_request error_text accept none (some positive ∷ []) [] 5 ≡ passed [] 5
unfolding read_request finalize_request validate_all read_bound
was_read = refl

read_request_leak_example :
    (h₁ h₂ : Heap) × (r : Reply ℕ) × (read_request error_text refuse none [] seven_zeros 1
      ≡ failed (biz err_bind) h₁ 1)
    × (read_request error_text refuse none [] h₁ 2 ≡ failed (biz err_bind) h₂ 2)
    × (write_biz_error h₂ (some err_bind) ≡ some r)
    × (r.body.details ≡ codes "bad")
read_request_leak_example =
    read_request_leak error_text refuse refuse none [] seven_zeros 1 2 (foreign 2) (foreign 2)
      seventh refl refl (λ h'. refl)

should_bind_all-Filled_example :
    (should_bind_all error_text accept positive
        (some accept)
        (some suc)
        (none ∷ some positive ∷ [])
        errors
        1
      ≡ passed errors 2)
    ↔ (g : Heap) × (s : ℕ) × Filled (accept ∷ positive ∷ last (some accept)) errors 1 g s
      × (finalize_request (some suc) (none ∷ some positive ∷ []) g s ≡ passed errors 2)
should_bind_all-Filled_example =
    should_bind_all-Filled error_text accept positive (some accept) (some suc)
      (none ∷ some positive ∷ []) errors errors 1 2
