-- ===== src/Settings/Otel/Providers.antt =====
-- options/otel_options.go: Apply, which makes the providers of telemetry, and Shutdown. The exporters,
-- the providers and the files belong to libraries: they are parameters. The resource that every
-- provider is given is left out.
pub mod Closing
use linhub.Base.{
  Bool, List, Option, Text, [], any, codes, if◌then◌else◌, none, some, str_eq, ◌++◌, ◌∷◌,
}
use linhub.Settings.Tls.{Outcome, failed, gave}
use linhub.Settings.Otel.{OTelOptions, SlogOptions, sync_slog_options}

pub data Signal : Type 0 where
  traces metrics logs : Signal

-- The exporters of a signal to a collector, and to a file or to the standard output; the other
-- exporters; the providers; files; and SlogOptions.Apply.
pub record TelemetryLibrary (E F File X P : Type 0) : Type 0 where
  pub otlp : Signal → Text → Bool → Outcome E X
  pub to_writer : Signal → Option File → Outcome E X
  pub empty_exporter : X
  pub prometheus : Outcome E X
  pub tracer_provider : X → F → P
  pub meter_provider : Option X → P
  pub logger_provider : Bool → X → P
  pub create_file : Text → Signal → Outcome E File
  pub apply_slog : SlogOptions → Outcome E Unit
  pub shutdown_provider : P → Option E
  pub close_file : File → Option E

-- The providers and the files of the options, and the providers that have been made global, in order.
pub record Telemetry (File P : Type 0) : Type 0 where
  pub tracer : Option P
  pub meter : Option P
  pub logger : Option P
  pub files : List File
  pub installed : List P

-- An error with the stage of Apply that it is wrapped by.
pub data ApplyError (E : Type 0) : Type 0 where
  stage_failed : Signal → E → ApplyError E

module _ {E F File X P : Type 0} (lib : TelemetryLibrary E F File X P) where
  to_file : Signal → Outcome E File → Telemetry File P → Outcome E X × Telemetry File P
  to_file signal (failed e) t = (failed e, t)
  to_file signal (gave f) t =
      (lib.to_writer signal (some f), record t { files = t.files ++ f ∷ [] })

  -- createFileWriter and the exporter to it; the default case, which writes to the standard output.
  exporter_of_mode : Signal → OTelOptions F → Telemetry File P → Outcome E X × Telemetry File P
  unfolding to_file
  exporter_of_mode signal o t =
      if str_eq o.output_mode (codes "file")
      then to_file signal (lib.create_file o.output_dir signal) t
      else (lib.to_writer signal none, t)

  is_mode : OTelOptions F → List Text → Bool
  is_mode o modes = any (str_eq o.output_mode) modes

  trace_exporter : OTelOptions F → Telemetry File P → Outcome E X × Telemetry File P
  unfolding exporter_of_mode is_mode
  trace_exporter o t =
      if is_mode o (codes "classic" ∷ [])
      then (gave lib.empty_exporter, t)
      else if is_mode o (codes "otel" ∷ codes "hybrid" ∷ [])
      then (lib.otlp traces o.endpoint o.insecure, t)
      else exporter_of_mode traces o t

  install_tracer :
      OTelOptions F → Outcome E X × Telemetry File P → Outcome E Unit × Telemetry File P
  install_tracer o (failed e, t) = (failed e, t)
  install_tracer o (gave x, t) =
      let tp = lib.tracer_provider x o.sampling_ratio in
      (gave tt, record t { tracer = some tp; installed = t.installed ++ tp ∷ [] })

  -- initTraces.
  unfoldable pub init_traces : OTelOptions F → Telemetry File P → Outcome E Unit × Telemetry File P
  unfolding install_tracer trace_exporter
  init_traces o t = install_tracer o (trace_exporter o t)

  some_reader : Outcome E X × Telemetry File P → Outcome E (Option X) × Telemetry File P
  some_reader (failed e, t) = (failed e, t)
  some_reader (gave x, t) = (gave (some x), t)

  -- The reader of a file: the error of the exporter is assigned to a variable of the case, so that it
  -- is lost, and the provider is made without a reader.
  file_reader : Outcome E File → Telemetry File P → Outcome E (Option X) × Telemetry File P
  file_reader (failed e) t = (failed e, t)
  file_reader (gave f) t = (
    gave (elim (lib.to_writer metrics (some f)) [ failed e ↦ none | gave x ↦ some x ]),
    record t { files = t.files ++ f ∷ [] },
  )

  metric_reader : OTelOptions F → Telemetry File P → Outcome E (Option X) × Telemetry File P
  unfolding some_reader file_reader is_mode
  metric_reader o t =
      if is_mode o (codes "classic" ∷ codes "hybrid" ∷ [])
      then some_reader (lib.prometheus, t)
      else if is_mode o (codes "otel" ∷ [])
      then some_reader (lib.otlp metrics o.endpoint o.insecure, t)
      else if is_mode o (codes "file" ∷ [])
      then file_reader (lib.create_file o.output_dir metrics) t
      else some_reader (lib.to_writer metrics none, t)

  install_meter : Outcome E (Option X) × Telemetry File P → Outcome E Unit × Telemetry File P
  install_meter (failed e, t) = (failed e, t)
  install_meter (gave reader, t) =
      let mp = lib.meter_provider reader in
      (gave tt, record t { meter = some mp; installed = t.installed ++ mp ∷ [] })

  -- initMetrics.
  unfoldable pub init_metrics : OTelOptions F → Telemetry File P → Outcome E Unit × Telemetry File P
  unfolding install_meter metric_reader
  init_metrics o t = install_meter (metric_reader o t)

  log_exporter : OTelOptions F → Telemetry File P → Outcome E X × Telemetry File P
  unfolding exporter_of_mode is_mode
  log_exporter o t =
      if is_mode o (codes "otel" ∷ [])
      then (lib.otlp logs o.endpoint o.insecure, t)
      else exporter_of_mode logs o t

  install_logger :
      OTelOptions F → Outcome E X × Telemetry File P → Outcome E Unit × Telemetry File P
  unfolding is_mode
  install_logger o (failed e, t) = (failed e, t)
  install_logger o (gave x, t) =
      let lp = lib.logger_provider (is_mode o (codes "console" ∷ [])) x in
      (gave tt, record t { logger = some lp; installed = t.installed ++ lp ∷ [] })

  apply_to_slog : Option SlogOptions → Option (Outcome E Unit)
  apply_to_slog none = none
  apply_to_slog (some s) = some (lib.apply_slog s)

  beside : Telemetry File P → Option (Outcome E Unit) → Option (Outcome E Unit × Telemetry File P)
  beside t none = none
  beside t (some r) = some (r, t)

  -- initLogs; `none` is the panic of Apply of a nil SlogOptions.
  unfoldable pub init_logs :
      OTelOptions F → Telemetry File P → Option (Outcome E Unit × Telemetry File P)
  unfolding beside apply_to_slog install_logger log_exporter is_mode
  init_logs o t =
      if is_mode o (codes "classic" ∷ codes "hybrid" ∷ [])
      then beside t (apply_to_slog o.slog)
      else some (install_logger o (log_exporter o t))

  -- `if err := …; err != nil { return … }`.
  unfoldable pub staged :
      Signal
      → Outcome E Unit × Telemetry File P
      → (Telemetry File P → Option (Outcome (ApplyError E) Unit × Telemetry File P))
      → Option (Outcome (ApplyError E) Unit × Telemetry File P)
  staged signal (failed e, t) continue = some (failed (stage_failed signal e), t)
  staged signal (gave _, t) continue = continue t

  finished : Telemetry File P → Option (Outcome (ApplyError E) Unit × Telemetry File P)
  finished t = some (gave tt, t)

  unfoldable pub log_stage :
      Option (Outcome E Unit × Telemetry File P)
      → Option (Outcome (ApplyError E) Unit × Telemetry File P)
  unfolding staged finished
  log_stage none = none
  log_stage (some r) = staged logs r finished

  -- Apply.
  unfoldable pub apply :
      OTelOptions F → Telemetry File P → Option (Outcome (ApplyError E) Unit × Telemetry File P)
  apply o0 t =
      let o = sync_slog_options o0 in
      staged traces (init_traces o t)
        λ t1. staged metrics (init_metrics o t1) λ t2. log_stage (init_logs o t2)

  shut_provider : Option P → List P
  shut_provider none = []
  shut_provider (some p) = p ∷ []

  errors_of : {A : Type 0} → (A → Option E) → List A → List E
  errors_of f [] = []
  errors_of f (a ∷ xs) = let rest = errors_of f xs in elim (f a) [ none ↦ rest | some e ↦ e ∷ rest ]

  -- Shutdown: the providers that are shut down, in order, the files that are closed, the errors, and
  -- the state.
  unfoldable pub shutdown : Telemetry File P → List P × List File × List E × Telemetry File P
  unfolding shut_provider errors_of
  shutdown t =
      let ps = shut_provider t.tracer ++ shut_provider t.meter ++ shut_provider t.logger in
      (
        ps,
        t.files,
        errors_of lib.shutdown_provider ps ++ errors_of lib.close_file t.files,
        record t { files = [] },
      )
