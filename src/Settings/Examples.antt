-- ===== src/Settings/Examples.antt =====
-- options/: the theorems about the options at concrete values.
use linhub.Base.{
  IsAscii, List, Option, Text, [], any, arith, codes, false, has_prefix, if◌then◌else◌, lower,
  ltb_ℤ, negsuc, none, pos, refl, replace_from, some, str_eq, to_lower, to_upper, trim_space, true,
  upper, ℕ, ◌↔◌, ◌∷◌, ◌≡◌, ◌≢◌,
}
use linhub.Settings.Flags.{FlagLibrary, add_flags}
use linhub.Settings.Flags.Defined.{FlagLaws, IsUnused}
use linhub.Settings.Tls.{
  Outcome, TlsLibrary, TlsOptions, failed, gave, new_tls_options, tls_config, validate_tls,
}
use linhub.Settings.Tls.Loading.{OnceOrNever, tls_config-OnceOrNever}
use linhub.Settings.Kafka.{
  KafkaOptions, ScramAlgorithm, add_kafka_flags, get_mechanism, kafka_errors, new_kafka_options,
  validate_kafka,
}
use linhub.Settings.Kafka.Checks.{add_kafka_flags_ok, flag_names, with_names}
use linhub.Settings.Kafka.Mechanisms.{get_mechanism-validate_kafka}
use linhub.Util.Lists.{find_string, string_in}
use linhub.Settings.Clients.{mysql_flags, new_mysql_options, new_redis_options, postgresql_flags}
use linhub.Settings.Clients.Effects.{add_flags-idle_connections}
use linhub.Settings.Otel.{new_otel_options, new_slog_options, to_slog_level, validate_slog}
use linhub.Settings.Otel.Levels.{to_slog_level-agrees}
use linhub.Settings.Otel.Providers.{
  Telemetry, TelemetryLibrary, apply, init_logs, init_metrics, init_traces, metrics, shutdown,
  stage_failed, staged,
}
use linhub.Settings.Otel.Providers.Closing.{Applied, apply-Applied, kept}
use linhub.Log.{parse_level}
use linhub.Otelslog.Config.{parse_level_string}

-- A set of flags as the list of its names.
define_name : Text → List Text → Option (List Text)
define_name n taken = if any (str_eq n) taken then none else some (n ∷ taken)

abbrev list_flags : FlagLibrary (List Text)
list_flags = record { define = define_name; names = λ s. s }

list_laws : FlagLaws list_flags
unfolding define_name
list_laws = record { define_new = λ n s fresh. (n ∷ s, rw fresh refl, refl) }

abbrev one_flag : List Text
one_flag = codes "verbose" ∷ []

free_kafka : IsUnused (codes "kafka") one_flag
unfolding has_prefix
free_kafka = refl

add_kafka_flags_ok_example :
    ((fs' : List Text) × (add_kafka_flags list_flags
          (codes "kafka")
          (record (new_kafka_options (negsuc 1)) { tls_options = some new_tls_options }, one_flag)
        ≡ some (record (new_kafka_options (negsuc 1)) { tls_options = some new_tls_options }, fs'))
      × (fs' ≡ with_names (codes "kafka") flag_names one_flag))
    × (add_kafka_flags list_flags
          (codes "kafka")
          (record (new_kafka_options (negsuc 1)) { tls_options = none }, one_flag)
        ≡ none)
add_kafka_flags_ok_example =
    add_kafka_flags_ok list_laws (codes "kafka") (new_kafka_options (negsuc 1)) new_tls_options
      one_flag free_kafka

add_flags-idle_connections_example :
    ((fs' : List Text) × (add_flags list_flags (codes "mysql") mysql_flags (new_mysql_options, [])
        ≡ some (
          record new_mysql_options {
            max_idle_connections = new_mysql_options.max_open_connections;
          },
          fs',
        )))
    × ((fs' : List Text) × (add_flags list_flags
            (codes "mysql")
            postgresql_flags
            (new_mysql_options, [])
          ≡ some (
            record new_mysql_options {
              max_idle_connections = new_mysql_options.max_open_connections;
            },
            fs',
          )))
add_flags-idle_connections_example =
    add_flags-idle_connections list_laws (codes "mysql") new_mysql_options [] refl

positive_read : ltb_ℤ (pos 0) new_redis_options.read_timeout ≡ true
unfolding new_redis_options
positive_read = refl

abbrev plain_pair : Text → Text → ℕ
plain_pair username password = 1

abbrev scram_fails : ScramAlgorithm → Text → Text → Outcome ℕ ℕ
scram_fails algorithm username password = failed 2

abbrev mixed_case : KafkaOptions
mixed_case = record (new_kafka_options (pos 0)) {
  brokers = codes "::1" ∷ [];
  tls_options = some (record new_tls_options { use_tls = true });
  sasl_mechanism = codes "Plain";
}

mixed_case_accepted : validate_kafka mixed_case ≡ some []
unfolding validate_kafka kafka_errors new_kafka_options string_in find_string str_eq to_lower lower
    replace_from has_prefix validate_tls
mixed_case_accepted = refl

get_mechanism-validate_kafka_example :
    (get_mechanism plain_pair scram_fails mixed_case ≡ gave none)
    ↔ ((codes "Plain" ≢ to_lower (codes "Plain")) × (codes "Plain" ≢ to_upper (codes "Plain")))
get_mechanism-validate_kafka_example =
    get_mechanism-validate_kafka plain_pair scram_fails mixed_case
      (omega arith, (omega arith, (omega arith, (omega arith, (omega arith, tt))))) (λ e. cc)
      mixed_case_accepted

-- Files of one block, which is a certificate.
abbrev files : TlsLibrary ℕ ℕ ℕ ℕ (List ℕ)
files = record {
  load_key_pair = λ cert key. failed 1;
  read_file = λ path. gave 5;
  decode = λ file. (some 6, 0);
  parse_certificate = λ block. gave 7;
  empty_pool = [];
  add_cert = λ c pool. c ∷ pool;
}

abbrev with_ca_file : TlsOptions
with_ca_file = record {
  use_tls = true;
  insecure_skip_verify = false;
  ca_cert = codes "ca.pem";
  cert = [];
  key = [];
}

tls_config-OnceOrNever_example :
    OnceOrNever files with_ca_file.ca_cert (λ n. tls_config files n with_ca_file)
tls_config-OnceOrNever_example = tls_config-OnceOrNever files with_ca_file

accepted : validate_slog new_slog_options ≡ []
unfolding validate_slog str_eq to_upper trim_space upper has_prefix
accepted = refl

IsAscii-level : IsAscii (trim_space new_slog_options.level)
unfolding trim_space
IsAscii-level = (omega arith, (omega arith, (omega arith, (omega arith, tt))))

to_slog_level-agrees_example :
    (parse_level new_slog_options.level ≡ (to_slog_level new_slog_options, false))
    × (parse_level_string new_slog_options.level ≡ to_slog_level new_slog_options)
to_slog_level-agrees_example = to_slog_level-agrees new_slog_options IsAscii-level accepted

abbrev quiet : TelemetryLibrary ℕ ℕ ℕ ℕ ℕ
quiet = record {
  otlp = λ s e i. gave 1;
  to_writer = λ s f. gave 2;
  empty_exporter = 3;
  prometheus = failed 9;
  tracer_provider = λ x f. 10;
  meter_provider = λ x. 11;
  logger_provider = λ b x. 12;
  create_file = λ d s. gave 20;
  apply_slog = λ s. gave tt;
  shutdown_provider = λ p. none;
  close_file = λ f. none;
}

abbrev fresh : Telemetry ℕ ℕ
fresh = record { tracer = none; meter = none; logger = none; files = []; installed = [] }

-- The exporter of metrics fails in the classic mode.
abbrev traced : Telemetry ℕ ℕ
traced = record fresh { tracer = some 10; installed = 10 ∷ [] }

fails_at_metrics :
    apply quiet (new_otel_options (codes "host") 1) fresh
    ≡ some (failed (stage_failed metrics 9), traced)
unfolding apply new_otel_options init_traces init_metrics init_logs staged str_eq
fails_at_metrics = refl

apply-Applied_example :
    Applied {E = ℕ} (failed (stage_failed metrics 9)) (kept traced)
    × ((shutdown quiet traced).0 ≡ traced.installed)
    × ((shutdown quiet traced).1 ≡ traced.files)
    × ((shutdown quiet traced).3.files ≡ [])
apply-Applied_example =
    apply-Applied quiet (new_otel_options (codes "host") 1) fresh traced
      (failed (stage_failed metrics 9)) refl fails_at_metrics
