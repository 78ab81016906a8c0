-- ===== src/App/Stages.antt =====
-- app/app.go, runCommand: the stages of a run.
use linhub.Base.{
  List, Option, [], ap, append_assoc, if◌then◌else◌, none, not, refl, some, sym, ◌++◌, ◌∙◌, ◌∷◌,
  ◌≡◌,
}
use linhub.App.{App, AppOptions, Step, optional, read_options, run_command, start, then_if_ok}

module _ {E W : Type 0} where
  -- The steps one after the other, up to the first error.
  unfoldable pub run_stages : List (Step E W) → Step E W
  run_stages [] w = (none, w)
  run_stages (m ∷ ms) w = then_if_ok (m w) (run_stages ms)

  abbrev pub stage_of : Option (Step E W) → List (Step E W)
  stage_of none = []
  stage_of (some m) = m ∷ []

  abbrev pub option_stages : Option (AppOptions E W) → List (Step E W)
  option_stages none = []
  option_stages (some o) = o.unmarshal ∷ stage_of o.complete ++ stage_of o.validate

  -- A step that cannot fail.
  abbrev pub always : (W → W) → Step E W
  always f w = (none, f w)

  abbrev pub start_stage : App E W → Step E W
  start_stage app = elim app.run_ctx [ none ↦ app.run | some run ↦ run ]

  unfoldable pub stages : Step E W → (W → W) → (App E W → W → W) → App E W → List (Step E W)
  stages bind initialize_logger print app =
      bind
      ∷ (option_stages app.options
          ++ (always initialize_logger
              ∷ always (λ w. if not app.silence then print app w else w)
              ∷ (stage_of app.health_check_func ++ start_stage app ∷ [])))

  -- A continuation that runs some stages.
  abbrev Runs : Step E W → List (Step E W) → Type 0
  Runs k ms = (w : W) → k w ≡ run_stages ms w

  then_if_ok-Runs :
      (k : Step E W) (ms : List (Step E W)) (r : Option E × W)
      → Runs k ms
      → then_if_ok r k ≡ then_if_ok r (run_stages ms)
  then_if_ok-Runs k ms (none, w) h = h w
  then_if_ok-Runs k ms (some e, w) h = refl

  optional-Runs :
      (o : Option (Step E W)) (k : Step E W) (ms : List (Step E W))
      → Runs k ms
      → Runs (optional o k) (stage_of o ++ ms)
  unfolding optional run_stages
  optional-Runs none k ms h w = h w
  optional-Runs (some m) k ms h w = then_if_ok-Runs k ms (m w) h

  read_options-Runs :
      (o : Option (AppOptions E W)) (k : Step E W) (ms : List (Step E W))
      → Runs k ms
      → Runs (read_options o k) (option_stages o ++ ms)
  unfolding read_options run_stages
  read_options-Runs none k ms h w = h w
  read_options-Runs (some o) k ms h w =
      let methods = stage_of o.complete ++ stage_of o.validate ++ ms in
      then_if_ok-Runs (optional o.complete (optional o.validate k)) methods (o.unmarshal w) (λ w1.
        optional-Runs o.complete (optional o.validate k) (stage_of o.validate ++ ms)
          (optional-Runs o.validate k ms h) w1
        ∙ ap (λ l. run_stages l w1)
            (sym (append_assoc (stage_of o.complete) (stage_of o.validate) ms)))

  start-Runs : (app : App E W) → Runs (start app) (start_stage app ∷ [])
  unfolding start run_stages
  start-Runs app w = by_ctx app.run_ctx
    where
      last : (r : Option E × W) → r ≡ then_if_ok r (λ w1. (none, w1))
      last (none, w1) = refl
      last (some e, w1) = refl

      by_ctx :
          (run_ctx : Option (Step E W))
          → elim run_ctx [ none ↦ app.run w | some run ↦ run w ]
            ≡ then_if_ok
                (elim run_ctx as (λ _. Step E W) [ none ↦ app.run | some run ↦ run ] w)
                (λ w1. (none, w1))
      by_ctx none = last (app.run w)
      by_ctx (some run) = last (run w)

  -- The command of an application runs its stages in this order, up to the first error, which is its
  -- result: the flags are bound; the options, if there are any, are read, completed and checked, the
  -- latter two if they have the method; the logger is set up and the start is printed, unless the
  -- application is silent, neither of which can fail; the health check is run if there is one; and the
  -- function with a context is run, or the one without if that is missing.
  pub run_command-stages :
      (bind : Step E W) (initialize_logger : W → W) (print : App E W → W → W) (app : App E W)
      (w : W)
      → run_command bind initialize_logger print app w
        ≡ run_stages (stages bind initialize_logger print app) w
  unfolding run_command run_stages stages
  run_command-stages bind initialize_logger print app w =
      let rest : Step E W = λ w1.
        optional app.health_check_func (start app)
          (if not app.silence then print app (initialize_logger w1) else initialize_logger w1) in
      let later : List (Step E W) =
        always initialize_logger
        ∷ always (λ w. if not app.silence then print app w else w)
        ∷ (stage_of app.health_check_func ++ start_stage app ∷ []) in
      then_if_ok-Runs (read_options app.options rest) (option_stages app.options ++ later) (bind w)
        (read_options-Runs app.options rest later (λ w1.
          optional-Runs app.health_check_func (start app) (start_stage app ∷ []) (start-Runs app)
            (if not app.silence then print app (initialize_logger w1) else initialize_logger w1)))
