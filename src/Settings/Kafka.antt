-- ===== src/Settings/Kafka.antt =====
-- options/kafka_options.go: the options of a Kafka client. A mechanism of the SASL library, and the
-- libraries of TLS and of flags, are parameters. A time is a number of nanoseconds. The pointer to the
-- TLS options may be nil; using it is then a panic, which is `none`.
pub mod Checks
pub mod Mechanisms
use mathlib.Core.Option
use linhub.Base.{
  Bool, List, Option, Text, [], any, codes, eq_ℤ, false, if◌then◌else◌, is_empty, leb_ℤ, map, none,
  not, pos, some, str_eq, to_lower, true, ℕ, ℤ, ◌&&◌, ◌*◌, ◌++◌, ◌>>=◌, ◌∷◌,
}
use linhub.Util.Lists.{string_in}
use linhub.Settings.Flags.{Flag, FlagLibrary, add_flags, flag}
use linhub.Settings.Tls.{
  Outcome, TlsError, TlsOptions, failed, gave, new_tls_options, tls_flags, validate_tls,
}

pub record WriterOptions : Type 0 where
  pub max_attempts : ℤ
  pub required_acks : ℤ
  pub async : Bool
  pub batch_size : ℤ
  pub batch_timeout : ℤ
  pub batch_bytes : ℤ

pub record ReaderOptions : Type 0 where
  pub group_id : Text
  pub partition : ℤ
  pub queue_capacity : ℤ
  pub min_bytes : ℤ
  pub max_bytes : ℤ
  pub max_wait : ℤ
  pub read_batch_timeout : ℤ
  pub heartbeat_interval : ℤ
  pub commit_interval : ℤ
  pub rebalance_timeout : ℤ
  pub start_offset : ℤ
  pub max_attempts : ℤ

pub record KafkaOptions : Type 0 where
  pub brokers : List Text
  pub topic : Text
  pub client_id : Text
  pub timeout : ℤ
  pub tls_options : Option TlsOptions
  pub sasl_mechanism : Text
  pub username : Text
  pub password : Text
  pub algorithm : Text
  pub compressed : Bool
  pub writer_options : WriterOptions
  pub reader_options : ReaderOptions

seconds : ℕ → ℤ
seconds n = pos (n * 1000000000)

mib : ℤ
mib = pos 1048576

-- NewKafkaOptions, for kafka.FirstOffset.
unfoldable pub new_kafka_options : ℤ → KafkaOptions
unfolding seconds mib
new_kafka_options first_offset = record {
  brokers = [];
  topic = [];
  client_id = [];
  timeout = seconds 3;
  tls_options = some new_tls_options;
  sasl_mechanism = [];
  username = [];
  password = [];
  algorithm = [];
  compressed = false;
  writer_options = record {
    max_attempts = pos 10;
    required_acks = pos 1;
    async = true;
    batch_size = pos 100;
    batch_timeout = seconds 1;
    batch_bytes = mib;
  };
  reader_options = record {
    group_id = [];
    partition = pos 0;
    queue_capacity = pos 100;
    min_bytes = pos 1;
    max_bytes = mib;
    max_wait = seconds 10;
    read_batch_timeout = seconds 10;
    heartbeat_interval = seconds 3;
    commit_interval = seconds 0;
    rebalance_timeout = seconds 30;
    start_offset = first_offset;
    max_attempts = pos 3;
  };
}

pub data KafkaError : Type 0 where
  broker_empty mechanism_without_tls timeout_not_positive partition_and_group : KafkaError
  batch_timeout_not_positive : KafkaError
  unsupported_mechanism : Text → KafkaError
  tls_error : TlsError → KafkaError

-- `if … { errs = append(errs, …) }`.
abbrev pub error_if : {E : Type 0} → Bool → E → List E
error_if b e = if b then e ∷ [] else []

is_nil : List Text → Bool
is_nil [] = true
is_nil (_ ∷ _) = false

-- The cases of a switch.
unfoldable pub is_case : Text → List Text → Bool
is_case s cases = any (str_eq s) cases

unfoldable pub kafka_errors : TlsOptions → KafkaOptions → List KafkaError
unfolding is_nil
kafka_errors tls o =
    error_if (is_nil o.brokers) broker_empty
    ++ error_if (not tls.use_tls && not (is_empty o.sasl_mechanism)) mechanism_without_tls
    ++ error_if
        (not (string_in (to_lower o.sasl_mechanism) (codes "plain" ∷ codes "scram" ∷ [] ∷ [])))
        (unsupported_mechanism o.sasl_mechanism)
    ++ error_if (leb_ℤ o.timeout (pos 0)) timeout_not_positive
    ++ error_if
        (not (is_empty o.reader_options.group_id) && not (eq_ℤ o.reader_options.partition (pos 0)))
        partition_and_group
    ++ error_if (leb_ℤ o.writer_options.batch_timeout (pos 0)) batch_timeout_not_positive
    ++ map tls_error (validate_tls tls)

-- Validate.
unfoldable pub validate_kafka : KafkaOptions → Option (List KafkaError)
unfolding kafka_errors
validate_kafka o = Option.map (λ tls. kafka_errors tls o) o.tls_options

-- The flags of AddFlags other than those of TLS.
abbrev pub kafka_flags : List (Flag KafkaOptions)
kafka_flags =
    flag ".brokers" (λ o. record o { brokers = o.brokers })
    ∷ flag ".topic" (λ o. record o { topic = o.topic })
    ∷ flag ".client-id" (λ o. record o { client_id = o.client_id })
    ∷ flag ".timeout" (λ o. record o { timeout = o.timeout })
    ∷ flag ".mechanism" (λ o. record o { sasl_mechanism = o.sasl_mechanism })
    ∷ flag ".username" (λ o. record o { username = o.username })
    ∷ flag ".password" (λ o. record o { password = o.password })
    ∷ flag ".algorithm" (λ o. record o { algorithm = o.algorithm })
    ∷ flag ".compressed" (λ o. record o { compressed = o.compressed })
    ∷ flag ".required-acks" (λ o. record o {
      writer_options = record o.writer_options { required_acks = o.writer_options.required_acks };
    })
    ∷ flag ".writer.max-attempts" (λ o. record o {
      writer_options = record o.writer_options { max_attempts = o.writer_options.max_attempts };
    })
    ∷ flag ".writer.async" (λ o. record o {
      writer_options = record o.writer_options { async = o.writer_options.async };
    })
    ∷ flag ".writer.batch-size" (λ o. record o {
      writer_options = record o.writer_options { batch_size = o.writer_options.batch_size };
    })
    ∷ flag ".writer.batch-timeout" (λ o. record o {
      writer_options = record o.writer_options { batch_timeout = o.writer_options.batch_timeout };
    })
    ∷ flag ".writer.batch-bytes" (λ o. record o {
      writer_options = record o.writer_options { batch_bytes = o.writer_options.batch_bytes };
    })
    ∷ flag ".reader.group-id" (λ o. record o {
      reader_options = record o.reader_options { group_id = o.reader_options.group_id };
    })
    ∷ flag ".reader.partition" (λ o. record o {
      reader_options = record o.reader_options { partition = o.reader_options.partition };
    })
    ∷ flag ".reader.queue-capacity" (λ o. record o {
      reader_options = record o.reader_options { queue_capacity = o.reader_options.queue_capacity };
    })
    ∷ flag ".reader.min-bytes" (λ o. record o {
      reader_options = record o.reader_options { min_bytes = o.reader_options.min_bytes };
    })
    ∷ flag ".reader.max-bytes" (λ o. record o {
      reader_options = record o.reader_options { max_bytes = o.reader_options.max_bytes };
    })
    ∷ flag ".reader.max-wait" (λ o. record o {
      reader_options = record o.reader_options { max_wait = o.reader_options.max_wait };
    })
    ∷ flag ".reader.read-batch-timeout" (λ o. record o {
      reader_options = record o.reader_options {
        read_batch_timeout = o.reader_options.read_batch_timeout;
      };
    })
    ∷ flag ".reader.heartbeat-interval" (λ o. record o {
      reader_options = record o.reader_options {
        heartbeat_interval = o.reader_options.heartbeat_interval;
      };
    })
    ∷ flag ".reader.commit-interval" (λ o. record o {
      reader_options = record o.reader_options {
        commit_interval = o.reader_options.commit_interval;
      };
    })
    ∷ flag ".reader.rebalance-timeout" (λ o. record o {
      reader_options = record o.reader_options {
        rebalance_timeout = o.reader_options.rebalance_timeout;
      };
    })
    ∷ flag ".reader.start-offset" (λ o. record o {
      reader_options = record o.reader_options { start_offset = o.reader_options.start_offset };
    })
    ∷ flag ".reader.max-attempts" (λ o. record o {
      reader_options = record o.reader_options { max_attempts = o.reader_options.max_attempts };
    })
    ∷ []

-- AddFlags; each flag of TLS reads a field of the TLS options.
unfoldable pub add_tls_flags :
    {S : Type 0} → FlagLibrary S → Text → Option TlsOptions × S → Option (Option TlsOptions × S)
add_tls_flags lib full_prefix (none, fs) = none
add_tls_flags lib full_prefix (some tls, fs) =
    Option.map (λ r. (some r.0, r.1)) (add_flags lib full_prefix tls_flags (tls, fs))

unfoldable pub add_kafka_flags :
    {S : Type 0} → FlagLibrary S → Text → KafkaOptions × S → Option (KafkaOptions × S)
unfolding add_tls_flags
add_kafka_flags lib full_prefix (o, fs) =
    add_tls_flags lib (full_prefix ++ codes ".tls") (o.tls_options, fs) >>= λ (tls_options, fs').
    add_flags lib full_prefix kafka_flags (record o { tls_options = tls_options }, fs')

-- The hash of a SCRAM mechanism.
pub data ScramAlgorithm : Type 0 where
  sha256 sha512 : ScramAlgorithm

module _ {M E : Type 0} (plain : Text → Text → M)
    (scram : ScramAlgorithm → Text → Text → Outcome E M) where
  made : Outcome E M → Outcome E (Option M)
  made (failed e) = failed e
  made (gave m) = gave (some m)

  -- GetMechanism; a nil mechanism is `none` inside.
  unfoldable pub get_mechanism : KafkaOptions → Outcome E (Option M)
  unfolding made
  get_mechanism o =
      if is_empty o.sasl_mechanism
      then gave none
      else if is_case o.sasl_mechanism (codes "PLAIN" ∷ codes "plain" ∷ [])
      then gave (some (plain o.username o.password))
      else if is_case o.sasl_mechanism (codes "SCRAM" ∷ codes "scram" ∷ [])
      then made (
          scram
            (if is_case o.algorithm (codes "sha-512" ∷ codes "SHA-512" ∷ [])
              then sha512
              else sha256)
            o.username o.password)
      else gave none
