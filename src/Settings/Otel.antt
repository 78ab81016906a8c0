-- ===== src/Settings/Otel.antt =====
-- options/slog_options.go and options/otel_options.go: the options of the log and of telemetry. The
-- sampling ratio, a float, is a parameter with its two comparisons. A level has only ASCII
-- spaces around it.
pub mod Levels
pub mod Providers
use mathlib.Core.Option
use linhub.Base.{
  Bool, List, Option, Text, [], any, codes, contains, false, if◌then◌else◌, is_empty, map, negsuc,
  none, not, pos, some, str_eq, to_upper, trim_space, true, ℤ, ◌&&◌, ◌++◌, ◌>>=◌, ◌||◌, ◌∷◌,
}
use linhub.Settings.Flags.{Flag, FlagLibrary, add_flags, flag}

pub record SlogOptions : Type 0 where
  pub level : Text
  pub add_source : Bool
  pub format : Text
  pub time_format : Text
  pub output : Text

-- NewSlogOptions.
abbrev pub new_slog_options : SlogOptions
new_slog_options = record {
  level = codes "info";
  add_source = false;
  format = codes "text";
  time_format = [];
  output = codes "stdout";
}

pub data OTelError : Type 0 where
  invalid_log_level invalid_log_format invalid_output_path invalid_output_mode : Text → OTelError
  service_name_required service_instance_id_required endpoint_required : OTelError
  sampling_ratio_out_of_range output_directory_required : OTelError

one_of : List Text → Text → Bool
one_of words s = any (str_eq s) words

-- `if … { errs = append(errs, …) }`.
error_if : Bool → OTelError → List OTelError
error_if b e = if b then e ∷ [] else []

-- Validate of SlogOptions. An absolute path has a slash in it.
unfoldable pub validate_slog : SlogOptions → List OTelError
unfolding one_of error_if
validate_slog o =
    error_if
      (not (
        one_of (codes "DEBUG" ∷ codes "INFO" ∷ codes "WARN" ∷ codes "WARNING" ∷ codes "ERROR" ∷ [])
          (to_upper (trim_space o.level))))
      (invalid_log_level o.level)
    ++ error_if (not (one_of (codes "json" ∷ codes "text" ∷ []) o.format))
        (invalid_log_format o.format)
    ++ error_if
        (not (str_eq o.output (codes "stdout"))
          && not (str_eq o.output (codes "stderr"))
          && not (is_empty o.output)
          && not (contains o.output (codes "/")))
        (invalid_output_path o.output)

-- ToSlogLevel.
unfoldable pub to_slog_level : SlogOptions → ℤ
unfolding one_of
to_slog_level o =
    let name = to_upper (trim_space o.level) in
    if str_eq name (codes "DEBUG")
    then negsuc 3
    else if str_eq name (codes "INFO")
    then pos 0
    else if one_of (codes "WARN" ∷ codes "WARNING" ∷ []) name
    then pos 4
    else if str_eq name (codes "ERROR")
    then pos 8
    else pos 0

abbrev pub slog_flags : List (Flag SlogOptions)
slog_flags =
    flag ".level" (λ o. record o { level = o.level })
    ∷ flag ".format" (λ o. record o { format = o.format })
    ∷ flag ".add-source" (λ o. record o { add_source = o.add_source })
    ∷ flag ".time-format" (λ o. record o { time_format = o.time_format })
    ∷ flag ".output" (λ o. record o { output = o.output })
    ∷ []

-- OutputMode, by its text.
unfoldable pub output_mode_is_valid : Text → Bool
unfolding one_of
output_mode_is_valid mode =
    one_of (codes "console" ∷ codes "file" ∷ codes "otel" ∷ codes "classic" ∷ codes "hybrid" ∷ [])
      mode

pub record OTelOptions (F : Type 0) : Type 0 where
  pub endpoint : Text
  pub insecure : Bool
  pub service_name : Text
  pub service_version : Text
  pub service_instance_id : Text
  pub environment : Text
  pub sampling_ratio : F
  pub with_resource : Bool
  pub output_mode : Text
  pub output_dir : Text
  pub level : Text
  pub add_source : Bool
  pub slog : Option SlogOptions

synced : Text → Bool → SlogOptions → SlogOptions
synced level add_source s = record s { level = level; add_source = add_source }

-- syncSlogOptions.
unfoldable pub sync_slog_options : {F : Type 0} → OTelOptions F → OTelOptions F
unfolding synced
sync_slog_options o = record o { slog = Option.map (synced o.level o.add_source) o.slog }

-- NewOTelOptions, for the name of the host and the ratio 1.0.
unfoldable pub new_otel_options : {F : Type 0} → Text → F → OTelOptions F
unfolding sync_slog_options
new_otel_options hostname one = sync_slog_options (record {
  endpoint = codes "localhost:4317";
  insecure = true;
  service_name = codes "unknown-service";
  service_version = codes "1.0.0";
  service_instance_id = hostname;
  environment = codes "development";
  sampling_ratio = one;
  with_resource = false;
  output_mode = codes "classic";
  output_dir = codes "./otel-output";
  level = codes "info";
  add_source = false;
  slog = some new_slog_options;
})

slog_errors : Option SlogOptions → List OTelError
slog_errors none = []
slog_errors (some s) = validate_slog s

-- Validate of OTelOptions, with the options as it leaves them. The comparisons are `r < 0` and `r > 1`.
unfoldable pub validate_otel :
    {F : Type 0} → (F → Bool) → (F → Bool) → OTelOptions F → List OTelError × OTelOptions F
unfolding slog_errors error_if
validate_otel below_zero above_one o0 =
    let o = sync_slog_options o0 in
    (
      slog_errors o.slog
          ++ error_if (not (output_mode_is_valid o.output_mode)) (invalid_output_mode o.output_mode)
          ++ error_if (is_empty o.service_name) service_name_required
          ++ error_if (is_empty o.service_instance_id) service_instance_id_required
          ++ error_if (str_eq o.output_mode (codes "otel") && is_empty o.endpoint) endpoint_required
          ++ error_if (below_zero o.sampling_ratio || above_one o.sampling_ratio)
              sampling_ratio_out_of_range
          ++ error_if (str_eq o.output_mode (codes "file") && is_empty o.output_dir)
              output_directory_required,
      o,
    )

-- The flags of AddFlags other than those of slog; fs.Var does not set the output mode.
abbrev pub otel_flags : {F : Type 0} → List (Flag (OTelOptions F))
otel_flags =
    flag ".service-name" (λ o. record o { service_name = o.service_name })
    ∷ flag ".service-version" (λ o. record o { service_version = o.service_version })
    ∷ flag ".service-instance-id" (λ o. record o { service_instance_id = o.service_instance_id })
    ∷ flag ".environment" (λ o. record o { environment = o.environment })
    ∷ flag ".endpoint" (λ o. record o { endpoint = o.endpoint })
    ∷ flag ".insecure" (λ o. record o { insecure = o.insecure })
    ∷ flag ".sampling-ratio" (λ o. record o { sampling_ratio = o.sampling_ratio })
    ∷ flag ".with-resource" (λ o. record o { with_resource = o.with_resource })
    ∷ flag ".output-mode" (λ o. o)
    ∷ flag ".output-dir" (λ o. record o { output_dir = o.output_dir })
    ∷ flag ".level" (λ o. record o { level = o.level })
    ∷ flag ".add-source" (λ o. record o { add_source = o.add_source })
    ∷ []

module _ {S F : Type 0} (lib : FlagLibrary S) where
  add_slog_flags : Text → Option SlogOptions → OTelOptions F × S → Option (OTelOptions F × S)
  add_slog_flags full_prefix none (o, fs) = some (o, fs)
  add_slog_flags full_prefix (some s) (o, fs) =
      add_flags lib (full_prefix ++ codes ".slog") slog_flags (s, fs) >>= λ (s', fs').
      some (record o { slog = some s' }, fs')

  -- AddFlags.
  unfoldable pub add_otel_flags : Text → OTelOptions F × S → Option (OTelOptions F × S)
  unfolding add_slog_flags
  add_otel_flags full_prefix st = add_flags lib full_prefix otel_flags st >>= λ (o, fs).
      add_slog_flags full_prefix o.slog (o, fs)
