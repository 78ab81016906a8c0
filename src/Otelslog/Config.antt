-- ===== src/Otelslog/Config.antt =====
-- otelslog/handler.go: the options of a handler. A provider and an attribute of the instrumentation
-- are only carried, as numbers. The name of a level has only ASCII spaces around it.
use linhub.Otelslog.Handler.{Handler}
use linhub.Base.{
  Bool, List, Option, Text, [], codes, false, if◌then◌else◌, negsuc, none, pos, some, str_eq,
  to_upper, trim_space, ℕ, ℤ, ◌||◌, ◌∷◌,
}

pub record Config : Type 0 where
  pub provider : Option ℕ
  pub version : Text
  pub schema_url : Text
  pub attributes : Option (List ℕ)
  pub source : Bool
  pub level : ℤ

abbrev pub zero_config : Config
zero_config = record {
  provider = none;
  version = [];
  schema_url = [];
  attributes = none;
  source = false;
  level = pos 0;
}

unfoldable pub with_version : Text → Config → Config
with_version version c = record c { version = version }

unfoldable pub with_schema_url : Text → Config → Config
with_schema_url url c = record c { schema_url = url }

unfoldable pub with_attributes : Option (List ℕ) → Config → Config
with_attributes attributes c = record c { attributes = attributes }

unfoldable pub with_logger_provider : Option ℕ → Config → Config
with_logger_provider provider c = record c { provider = provider }

unfoldable pub with_source : Bool → Config → Config
with_source source c = record c { source = source }

unfoldable pub with_level : ℤ → Config → Config
with_level level c = record c { level = level }

-- parseLevelString: LevelDebug is -4, LevelInfo 0, LevelWarn 4 and LevelError 8.
unfoldable pub parse_level_string : Text → ℤ
parse_level_string s =
    let name = to_upper (trim_space s) in
    if str_eq name (codes "DEBUG")
    then negsuc 3
    else if str_eq name (codes "INFO")
    then pos 0
    else if str_eq name (codes "WARN") || str_eq name (codes "WARNING")
    then pos 4
    else if str_eq name (codes "ERROR")
    then pos 8
    else pos 0

unfoldable pub with_level_string : Text → Config → Config
unfolding parse_level_string with_level
with_level_string s c = with_level (parse_level_string s) c

apply_options : List (Config → Config) → Config → Config
apply_options [] c = c
apply_options (f ∷ fs) c = apply_options fs (f c)

or_global : ℕ → Option ℕ → Option ℕ
or_global global none = some global
or_global global (some p) = some p

-- newConfig, for the global provider.
unfoldable pub new_config : ℕ → List (Config → Config) → Config
unfolding apply_options or_global
new_config global opts =
    let c = apply_options opts zero_config in record c { provider = or_global global c.provider }

-- NewHandler; the logger is that of the provider.
unfoldable pub new_handler : {L : Type 0} → ℕ → List (Config → Config) → Handler L
unfolding new_config
new_handler global opts =
    let c = new_config global opts in
    record { attrs = []; group = []; level = c.level; source = c.source }
