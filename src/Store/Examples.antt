-- ===== src/Store/Examples.antt =====
-- store/store.go: the theorems about stores over a table of numbers.
use linhub.Base.{
  List, Option, [], codes, if◌then◌else◌, length, ltb, none, opaque_value, pos, refl, some,
  string_value, suc, zero, ℕ, ◌↔◌, ◌∷◌, ◌≡◌,
}
use linhub.Where.{Options, empty_options}
use linhub.Where.Apply.{Call, model}
use linhub.Store.{
  Ctx, Gorm, State, count, create, create_op, db, delete_op, list, list_op, list_query, perform,
  raw, settle, stored, tx_from_context,
}
use linhub.Store.Answers.{errors_of, logged_errors, narrows, perform-eq-none_iff, perform-log}
use linhub.Store.Transactions.{perform_all, run, run_in_transaction}
use linhub.Store.Listing.{list_ok}

-- A table is a list of rows, and a handle the calls made on it; rows above 9 are refused.
abbrev Table : Type 0
Table = List ℕ

abbrev insert : List Call → ℕ → Table → ℕ × Option ℕ × Table
insert h n t = if ltb 9 n then (n, some 1, t) else (n, none, n ∷ t)

abbrev table : Gorm (List Call) Table ℕ ℕ
table = record {
  step = λ c cs. c ∷ cs;
  model_of = λ n cs. model ∷ cs;
  create_row = insert;
  save_row = insert;
  updates_map = λ h m t. (pos 0, none, t);
  updates = λ h n t. ((n, pos 1), none, t);
  delete_rows = λ h t. (pos (length t), none, []);
  first_row = λ h t. (0, some 2, t);
  count_rows = λ h t. (pos (length t), none, t);
  find_rows = λ h t. (t, none, t);
  primary_key = some (codes "uid");
}

abbrev storage_of : ℕ → Ctx ℕ (List Call) → List Call
storage_of zero ctx = []
storage_of (suc n) ctx = model ∷ storage_of n ctx

abbrev background : Ctx ℕ (List Call)
background = record { tx = none; rest = 0 }

abbrev start : State Table ℕ
start = record { world = 3 ∷ 4 ∷ []; log = [] }

abbrev by_id : Options
by_id = record empty_options { filters = some ((string_value (codes "id"), opaque_value 3) ∷ []) }

perform-eq-none_iff_example :
    (perform table (storage_of 0) background (delete_op none) start ≡ none)
    ↔ (narrows {T = ℕ} (delete_op none) ≡ some none)
perform-eq-none_iff_example =
    perform-eq-none_iff table (storage_of 0) background (delete_op none) start

abbrev after_refusal : State Table ℕ
after_refusal = record {
  world = 3 ∷ 4 ∷ [];
  log = (1, codes "Failed to insert object into database") ∷ [];
}

refused_insert :
    perform table (storage_of 0) background (create_op 10) start
    ≡ some (stored 10, some 1, after_refusal)
unfolding perform create db raw settle tx_from_context
refused_insert = refl

perform-log_example : logged_errors after_refusal.log ≡ errors_of (some 1) (logged_errors start.log)
perform-log_example =
    perform-log table (storage_of 0) background (create_op 10) start after_refusal (stored 10)
      (some 1) refused_insert

list_ok_example :
    ((e : ℕ)
      → (count table (storage_of 0) background (some by_id) start).1 ≡ some e
      → list table (storage_of 0) background (some by_id) start
        ≡ ((pos 0, []), some e, (count table (storage_of 0) background (some by_id) start).2))
    × ((list table (storage_of 0) background (some by_id) start).1 ≡ none
        → ((count table (storage_of 0) background (some by_id) start).1 ≡ none)
          × ((list table (storage_of 0) background (some by_id) start).0.0
              ≡ (count table (storage_of 0) background (some by_id) start).0)
          × ((list table (storage_of 0) background (some by_id) start).0.1
              ≡ (table.find_rows
                  (list_query table (some by_id) (raw table (storage_of 0) background))
                  (count table (storage_of 0) background (some by_id) start).2.world).0))
list_ok_example = list_ok table (storage_of 0) background (some by_id) start

-- A transaction on a new handle, undone when the function returns an error.
abbrev ended : State Table ℕ → Option (Option ℕ × State Table ℕ) → Option (Option ℕ × State Table ℕ)
ended before none = none
ended before (some (none, after)) = some (none, after)
ended before (some (some e, after)) = some (some e, record after { world = before.world })

abbrev transaction :
    List Call
    → (List Call → State Table ℕ → Option (Option ℕ × State Table ℕ))
    → State Table ℕ
    → Option (Option ℕ × State Table ℕ)
transaction h body s = ended s (body [] s)

abbrev under : Ctx ℕ (List Call) → List Call → List Call
under ctx h = h

run_in_transaction_example :
    run under transaction 9
      (some (some []))
      background
      (perform_all table (storage_of 0) (create_op 5 ∷ list_op none ∷ create_op 10 ∷ []))
      start
    ≡ run under transaction 9
        (some (some []))
        background
        (perform_all table (storage_of 3) (create_op 5 ∷ list_op none ∷ create_op 10 ∷ []))
        start
run_in_transaction_example =
    run_in_transaction table under transaction 9 (some (some [])) (storage_of 0) (storage_of 3)
      background (create_op 5 ∷ list_op none ∷ create_op 10 ∷ []) start
