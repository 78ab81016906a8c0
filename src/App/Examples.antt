-- ===== src/App/Examples.antt =====
-- app/app.go: the run of a command at concrete values.
use linhub.Base.{List, [], false, if◌then◌else◌, none, refl, some, true, ℕ, ◌==◌, ◌∷◌, ◌≡◌}
use linhub.App.{App, AppOptions, Step, run_command}
use linhub.App.Stages.{run_command-stages, run_stages, stages}

-- Steps that write down their number; the number 4 fails.
abbrev step : ℕ → Step ℕ (List ℕ)
step n w = (if n == 4 then some n else none, n ∷ w)

abbrev app_options : AppOptions ℕ (List ℕ)
app_options = record { unmarshal = step 2; complete = none; validate = some (step 3) }

abbrev app : App ℕ (List ℕ)
app = record {
  run = step 7;
  run_ctx = some (step 6);
  health_check_func = some (step 4);
  options = some app_options;
  silence = true;
  no_config = false;
  watch = false;
}

run_command-stages_example :
    run_command (step 1) (λ w. 9 ∷ w) (λ a w. 8 ∷ w) app []
    ≡ run_stages (stages (step 1) (λ w. 9 ∷ w) (λ a w. 8 ∷ w) app) []
run_command-stages_example = run_command-stages (step 1) (λ w. 9 ∷ w) (λ a w. 8 ∷ w) app []

-- The health check fails after the logger is set up, so that nothing is run.
not_run : run_command (step 1) (λ w. 9 ∷ w) (λ a w. 8 ∷ w) app [] ≡ (some 4, 4 ∷ 9 ∷ 3 ∷ 2 ∷ 1 ∷ [])
unfolding run_command
not_run = refl
