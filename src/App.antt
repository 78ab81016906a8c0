-- ===== src/App.antt =====
-- app/app.go: the options of an application, the command that it runs, and the options of its logger.
-- The calls of viper, the printing and the callbacks are parameters that act on a world. A request
-- for the version, which prints it and ends the program, is left out.
pub mod Stages
mod Examples
use linhub.Base.{Bool, List, Option, Text, codes, false, if◌then◌else◌, none, not, some, true}
use linhub.Log.{Options, new_options}

-- A call that may fail.
abbrev pub Step : Type 0 → Type 0 → Type 0
Step E W = W → Option E × W

-- The options that an application reads, with the two methods that they may have.
pub record AppOptions (E W : Type 0) : Type 0 where
  pub unmarshal : Step E W
  pub complete : Option (Step E W)
  pub validate : Option (Step E W)

pub record App (E W : Type 0) : Type 0 where
  pub run : Step E W
  pub run_ctx : Option (Step E W)
  pub health_check_func : Option (Step E W)
  pub options : Option (AppOptions E W)
  pub silence : Bool
  pub no_config : Bool
  pub watch : Bool

-- NewApp before its options.
abbrev pub new_app : {E W : Type 0} → App E W
new_app = record {
  run = λ w. (none, w);
  run_ctx = none;
  health_check_func = none;
  options = none;
  silence = false;
  no_config = false;
  watch = false;
}

module _ {E W : Type 0} where
  unfoldable pub with_options : AppOptions E W → App E W → App E W
  with_options opts app = record app { options = some opts }

  unfoldable pub with_run_func : Step E W → App E W → App E W
  with_run_func run app = record app { run = run }

  unfoldable pub with_context_run_func : Step E W → App E W → App E W
  with_context_run_func run app = record app { run_ctx = some run }

  unfoldable pub with_health_check_func : Step E W → App E W → App E W
  with_health_check_func fn app = record app { health_check_func = some fn }

  unfoldable pub with_silence : App E W → App E W
  with_silence app = record app { silence = true }

  unfoldable pub with_no_config : App E W → App E W
  with_no_config app = record app { no_config = true }

  unfoldable pub with_watch_config : App E W → App E W
  with_watch_config app = record app { watch = true }

  -- `if err := m; err != nil { return err }`.
  abbrev pub then_if_ok : Option E × W → Step E W → Option E × W
  then_if_ok (none, w) k = k w
  then_if_ok (some e, w) k = (some e, w)

  optional : Option (Step E W) → Step E W → Step E W
  optional none k w = k w
  optional (some m) k w = then_if_ok (m w) k

  read_options : Option (AppOptions E W) → Step E W → Step E W
  unfolding optional
  read_options none k w = k w
  read_options (some o) k w =
      then_if_ok (o.unmarshal w) (optional o.complete (optional o.validate k))

  start : App E W → Step E W
  start app w = elim app.run_ctx [ none ↦ app.run w | some run ↦ run w ]

  -- runCommand, for the binding of the flags, the set-up of the logger and the printing.
  unfoldable pub run_command : Step E W → (W → W) → (App E W → W → W) → App E W → Step E W
  unfolding read_options start
  run_command bind_p_flags initialize_logger print app w = then_if_ok (bind_p_flags w) (
      read_options app.options (λ w1.
        let w2 = initialize_logger w1 in
        let w3 = if not app.silence then print app w2 else w2 in
        optional app.health_check_func (start app) w3))

-- The keys of viper that are read: whether a key is set, and its value.
pub record Viper : Type 0 where
  pub is_set : Text → Bool
  pub get_string : Text → Text
  pub get_string_slice : Text → List Text

-- The options that initializeLogger gives to log.Init; the two keys of deprecated options are left out.
unfoldable pub logger_options : Viper → Options
logger_options v = record new_options {
  level =
      if v.is_set (codes "log.level") then v.get_string (codes "log.level") else new_options.level;
  format =
      if v.is_set (codes "log.format")
      then v.get_string (codes "log.format")
      else new_options.format;
  output_paths =
      if v.is_set (codes "log.output-paths")
      then v.get_string_slice (codes "log.output-paths")
      else new_options.output_paths;
}
