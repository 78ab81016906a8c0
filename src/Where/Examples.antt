-- ===== src/Where/Examples.antt =====
-- store/where/where.go: the theorems about options at concrete values.
use linhub.Base.{List, [], codes, opaque_value, pos, some, string_value, ◌++◌, ◌∷◌, ◌≡◌}
use linhub.Where.{Options, count_options, default_limit, empty_options}
use linhub.Where.Apply.{Call, limit}
use linhub.Where.Counting.{keep, selects_rows, trace, trace-count_options}

-- A handle that records the calls.
abbrev record_call : Call → List Call → List Call
record_call c cs = cs ++ c ∷ []

abbrev some_options : Options
some_options = record empty_options {
  offset = pos 20;
  limit = pos 10;
  filters = some ((string_value (codes "id"), opaque_value 3) ∷ []);
  orders = codes "id desc" ∷ [];
  joins = record { query = codes "JOIN a"; args = [] } ∷ [];
}

trace-count_options_example :
    trace (count_options some_options)
    ≡ keep selects_rows (trace some_options) ++ limit default_limit ∷ []
trace-count_options_example = trace-count_options some_options
