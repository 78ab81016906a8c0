-- ===== src/Errx/Codes/Levels.antt =====
-- The fields of a code LMMNN, and the levels that decide the HTTP status.
use linhub.Base.{arith, eq_ℤ, pos, true, ℕ, ℤ, ◌*◌, ◌+◌, ◌<◌, ◌↔◌, ◌≡◌, ◌≢◌, ◌⊎◌}
use linhub.Errx.Codes.{
  code_ok, code_service_unavailable, get_error_level, get_http_code, get_module, level_downstream,
  level_system, level_upstream,
}

-- A code written as LMMNN from a level below 10, a module below 100 and a number below 100 gives
-- back its level and its module.
level_module-digits :
    (l m n : ℕ)
    → l < 10
    → m < 100
    → n < 100
    → (get_error_level (pos (l * 10000 + m * 100 + n)) ≡ pos l)
      × (get_module (pos (l * 10000 + m * 100 + n)) ≡ pos m)
unfolding get_error_level get_module
level_module-digits l m n hl hm hn = (ground arith, ground arith)

level_of_ok : (code : ℤ) → eq_ℤ code code_ok ≡ true → get_error_level code ≡ pos 0
unfolding get_error_level
level_of_ok code h = rw h

-- The HTTP status of a code is 200 exactly when its level is none of system, upstream and
-- downstream, whatever the sign of the code.
pub get_http_code-eq-200_iff :
    (code : ℤ)
    → (get_http_code code ≡ 200) ↔ (
        (get_error_level code ≢ level_system)
        × (get_error_level code ≢ level_upstream)
        × (get_error_level code ≢ level_downstream))
unfolding get_http_code
get_http_code-eq-200_iff code = ground (arith, level_of_ok code)

-- A status other than 200 is a 5xx: 500, 503 or 504 for a code of the system level, 502 for one of
-- the upstream or the downstream level, and no other level has one.
get_http_code_failure :
    (code : ℤ)
    → get_http_code code ≢ 200
    → ((get_error_level code ≡ level_system)
        × ((get_http_code code ≡ 500) ⊎ (get_http_code code ≡ 503) ⊎ (get_http_code code ≡ 504)))
      ⊎ (((get_error_level code ≡ level_upstream) ⊎ (get_error_level code ≡ level_downstream))
          × (get_http_code code ≡ 502))
unfolding get_http_code
get_http_code_failure code h = ground (arith, level_of_ok code)

-- The HTTP status is 503 for the code of an unavailable service and for no other code.
get_http_code-eq-503_iff :
    (code : ℤ) → (get_http_code code ≡ 503) ↔ (code ≡ code_service_unavailable)
unfolding get_http_code get_error_level
get_http_code-eq-503_iff code = ground arith
