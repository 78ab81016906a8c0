-- ===== src/Log.antt =====
-- log/options.go and log/gorm.go: the levels of the logger, and what it logs of a query of GORM. The
-- levels of GORM are parameters. A level has only ASCII spaces around it. The options are those fields
-- that are read here.
pub mod Fanout
pub mod Gorm
pub mod Logger
mod Examples
use linhub.Base.{
  Bool, List, Option, Text, [], codes, false, if◌then◌else◌, leb, ltb, ltb_ℤ, negsuc, none, not,
  pos, some, str_eq, to_lower, trim_space, true, ℕ, ℤ, ◌&&◌, ◌++◌, ◌==◌, ◌||◌, ◌∷◌,
}

-- Whether a text is one of some words.
unfoldable pub is_one_of : List Text → Text → Bool
is_one_of [] s = false
is_one_of (w ∷ ws) s = str_eq s w || is_one_of ws s

-- parseLevel: the level, and whether there is an error. LevelDebug is -4, LevelInfo 0, LevelWarn 4
-- and LevelError 8.
unfoldable pub parse_level : Text → ℤ × Bool
parse_level s =
    let name = to_lower (trim_space s) in
    if is_one_of ([] ∷ codes "info" ∷ []) name
    then (pos 0, false)
    else if str_eq name (codes "debug")
    then (negsuc 3, false)
    else if is_one_of (codes "warn" ∷ codes "warning" ∷ []) name
    then (pos 4, false)
    else if str_eq name (codes "error")
    then (pos 8, false)
    else if is_one_of (codes "panic" ∷ codes "fatal" ∷ []) name
    then (pos 8, false)
    else (pos 0, true)

pub record Options : Type 0 where
  pub level : Text
  pub format : Text
  pub add_source : Bool
  pub output_paths : List Text
  pub enable_otel : Bool
  pub service_name : Text

-- NewOptions.
abbrev pub new_options : Options
new_options = record {
  level = codes "INFO";
  format = codes "text";
  add_source = false;
  output_paths = codes "stdout" ∷ [];
  enable_otel = false;
  service_name = codes "linhub";
}

pub data OptionsError : Type 0 where
  invalid_level : Text → OptionsError
  invalid_format : Text → OptionsError

-- Validate.
unfoldable pub validate : Options → List OptionsError
unfolding parse_level
validate o =
    (if (parse_level o.level).1 then invalid_level o.level ∷ [] else [])
    ++ (if is_one_of (codes "text" ∷ codes "json" ∷ [] ∷ []) o.format
        then []
        else invalid_format o.format ∷ [])

-- LogLevel of GORM, which is a number.
pub record GormLevels : Type 0 where
  pub silent : ℕ
  pub error : ℕ
  pub warn : ℕ
  pub info : ℕ

-- gormLevelMap.
unfoldable pub gorm_level_map : GormLevels → Text → Option ℕ
gorm_level_map g s =
    if is_one_of (codes "silent" ∷ codes "panic" ∷ []) s
    then some g.silent
    else if str_eq s (codes "error")
    then some g.error
    else if is_one_of (codes "warn" ∷ codes "warning" ∷ []) s
    then some g.warn
    else if is_one_of (codes "info" ∷ codes "debug" ∷ []) s
    then some g.info
    else none

or_warn : GormLevels → Option ℕ → ℕ
or_warn g none = g.warn
or_warn g (some l) = l

-- gormLevel, for the logger's options, which may be nil.
unfoldable pub gorm_level : GormLevels → Option Options → ℕ
unfolding gorm_level_map or_warn
gorm_level g none = g.warn
gorm_level g (some o) = or_warn g (gorm_level_map g o.level)

mode_text : GormLevels → ℕ → Text
mode_text g l =
    if leb l g.silent
    then codes "error"
    else if l == g.error
    then codes "error"
    else if l == g.warn
    then codes "warn"
    else codes "info"

-- LogMode: the options of the copy; it panics without options.
unfoldable pub log_mode : GormLevels → ℕ → Option Options → Option Options
unfolding mode_text
log_mode g l none = none
log_mode g l (some o) = some (record o { level = mode_text g l })

-- Info, Warn and Error of GORM's interface: the level at which they log, if they do.
unfoldable pub gorm_info : GormLevels → Option Options → Option ℤ
unfolding gorm_level
gorm_info g o = if ltb (gorm_level g o) g.info then none else some (pos 0)

unfoldable pub gorm_warn : GormLevels → Option Options → Option ℤ
unfolding gorm_level
gorm_warn g o = if ltb (gorm_level g o) g.warn then none else some (pos 4)

unfoldable pub gorm_error : GormLevels → Option Options → Option ℤ
unfolding gorm_level
gorm_error g o = if ltb (gorm_level g o) g.error then none else some (pos 8)

pub data QueryLog : Type 0 where
  query_failed : ℕ → ℤ → QueryLog
  slow_sql : ℤ → QueryLog
  query : ℤ → QueryLog

-- An error of a query, with the answer of errors.Is for ErrRecordNotFound.
abbrev is_failure : Option (ℕ × Bool) → Bool
is_failure none = false
is_failure (some (e, not_found)) = not not_found

abbrev error_number : Option (ℕ × Bool) → ℕ
error_number none = 0
error_number (some (e, not_found)) = e

-- 200 milliseconds, in nanoseconds.
slow_sql_threshold : ℤ
slow_sql_threshold = pos 200000000

-- Trace: the level and the entry that it logs, if any, for the time that the query took. The text of
-- the query and its rows, which every entry also has, are left out.
unfoldable pub trace : GormLevels → Option Options → ℤ → Option (ℕ × Bool) → Option (ℤ × QueryLog)
unfolding gorm_level slow_sql_threshold
trace g o elapsed err =
    let level = gorm_level g o in
    if leb level g.silent
    then none
    else if is_failure err && leb g.error level
    then some (pos 8, query_failed (error_number err) elapsed)
    else if ltb_ℤ slow_sql_threshold elapsed && leb g.warn level
    then some (pos 4, slow_sql elapsed)
    else if leb g.info level
    then some (negsuc 3, query elapsed)
    else none
