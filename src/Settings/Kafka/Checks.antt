-- ===== src/Settings/Kafka/Checks.antt =====
-- options/kafka_options.go: the flags of Kafka.
use linhub.Base.{
  List, Text, [], ap, append_assoc, codes, none, refl, some, str_eq, true, ◌++◌, ◌∙◌, ◌∷◌, ◌≡◌,
}
use linhub.Settings.Flags.{FlagLibrary}
use linhub.Settings.Flags.Defined.{
  FlagLaws, IsFree, IsFree-defined, IsUnused, IsUnused-IsFree, IsUnused-append, add_flags_ok,
  all_distinct, apart_from, defined, suffixes,
}
use linhub.Settings.Tls.{TlsOptions, tls_flags}
use linhub.Settings.Kafka.{KafkaOptions, add_kafka_flags, add_tls_flags, kafka_flags}

distinct_tls : all_distinct (suffixes tls_flags) ≡ true
unfolding all_distinct str_eq
distinct_tls = refl

distinct_kafka : all_distinct (suffixes kafka_flags) ≡ true
unfolding all_distinct str_eq
distinct_kafka = refl

kafka_apart : apart_from (codes ".tls") (suffixes kafka_flags) (suffixes tls_flags) ≡ true
unfolding apart_from str_eq
kafka_apart = refl

-- The names of the flags, after the prefix, in the order in which they are defined.
abbrev pub flag_names : List Text
flag_names =
    codes ".tls.use-tls"
    ∷ codes ".tls.insecure-skip-verify"
    ∷ codes ".tls.ca-cert"
    ∷ codes ".tls.cert"
    ∷ codes ".tls.key"
    ∷ codes ".brokers"
    ∷ codes ".topic"
    ∷ codes ".client-id"
    ∷ codes ".timeout"
    ∷ codes ".mechanism"
    ∷ codes ".username"
    ∷ codes ".password"
    ∷ codes ".algorithm"
    ∷ codes ".compressed"
    ∷ codes ".required-acks"
    ∷ codes ".writer.max-attempts"
    ∷ codes ".writer.async"
    ∷ codes ".writer.batch-size"
    ∷ codes ".writer.batch-timeout"
    ∷ codes ".writer.batch-bytes"
    ∷ codes ".reader.group-id"
    ∷ codes ".reader.partition"
    ∷ codes ".reader.queue-capacity"
    ∷ codes ".reader.min-bytes"
    ∷ codes ".reader.max-bytes"
    ∷ codes ".reader.max-wait"
    ∷ codes ".reader.read-batch-timeout"
    ∷ codes ".reader.heartbeat-interval"
    ∷ codes ".reader.commit-interval"
    ∷ codes ".reader.rebalance-timeout"
    ∷ codes ".reader.start-offset"
    ∷ codes ".reader.max-attempts"
    ∷ []

-- A set of names after some names with a prefix have been added, the last one first.
abbrev pub with_names : Text → List Text → List Text → List Text
with_names p [] taken = taken
with_names p (n ∷ ns) taken = with_names p ns ((p ++ n) ∷ taken)

all_names :
    (p : Text) (taken : List Text)
    → defined p kafka_flags (defined (p ++ codes ".tls") tls_flags taken)
      ≡ with_names p flag_names taken
all_names p taken =
    rw
      (
        append_assoc p (codes ".tls") (codes ".use-tls"),
        append_assoc p (codes ".tls") (codes ".insecure-skip-verify"),
        append_assoc p (codes ".tls") (codes ".ca-cert"),
        append_assoc p (codes ".tls") (codes ".cert"),
        append_assoc p (codes ".tls") (codes ".key"),
      )
      refl

add_tls_flags_ok :
    {S : Type 0} {lib : FlagLibrary S} (laws : FlagLaws lib) (p : Text) (tls : TlsOptions) (fs : S)
    → IsUnused p (lib.names fs)
    → (fs' : S) × (add_tls_flags lib p (some tls, fs) ≡ some (some tls, fs'))
      × (lib.names fs' ≡ defined p tls_flags (lib.names fs))
unfolding add_tls_flags
add_tls_flags_ok {lib = lib} laws p tls fs unused =
    let (fs1, first, now) =
      add_flags_ok laws p tls_flags tls fs distinct_tls
        (IsUnused-IsFree p (suffixes tls_flags) (lib.names fs) unused) in
    (fs1, rw first refl, now)

-- AddFlags of Kafka, when its TLS options are not nil and no flag that is already defined starts with
-- the prefix: it does not panic and leaves the options as they are, and the set then has the names
-- that it had and exactly the thirty-two of the list above, each after the prefix. When the TLS
-- options are nil it panics.
pub add_kafka_flags_ok :
    {S : Type 0} {lib : FlagLibrary S} (laws : FlagLaws lib) (p : Text) (o : KafkaOptions)
    (tls : TlsOptions) (fs : S)
    → IsUnused p (lib.names fs)
    → ((fs' : S) × (add_kafka_flags lib p (record o { tls_options = some tls }, fs)
          ≡ some (record o { tls_options = some tls }, fs'))
        × (lib.names fs' ≡ with_names p flag_names (lib.names fs)))
      × (add_kafka_flags lib p (record o { tls_options = none }, fs) ≡ none)
unfolding add_kafka_flags add_tls_flags
add_kafka_flags_ok {lib = lib} laws p o tls fs unused =
    let within = IsUnused-append p (codes ".tls") (lib.names fs) unused in
    let (fs1, first, now) = add_tls_flags_ok laws (p ++ codes ".tls") tls fs within in
    let free : IsFree p (suffixes kafka_flags) (lib.names fs1) = rw now (
      IsFree-defined p (codes ".tls") (suffixes kafka_flags) tls_flags (lib.names fs) kafka_apart
        (IsUnused-IsFree p (suffixes kafka_flags) (lib.names fs) unused)) in
    let (fs2, second, then_) =
      add_flags_ok laws p kafka_flags (record o { tls_options = some tls }) fs1 distinct_kafka
        free in
    (
      (fs2, rw first second, then_ ∙ ap (defined p kafka_flags) now ∙ all_names p (lib.names fs)),
      refl,
    )
