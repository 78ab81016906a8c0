-- ===== src/Settings/Otel/Providers/Closing.antt =====
-- options/otel_options.go: what Shutdown finds after Apply.
use mathlib.Core.Path.{subst}
use linhub.Base.{
  Bool, List, Option, [], ap, codes, false, if◌then◌else◌, none, refl, some, str_eq, sym, true,
  ◌++◌, ◌∙◌, ◌∷◌, ◌≡◌,
}
use linhub.Settings.Tls.{Outcome, failed, gave}
use linhub.Settings.Otel.{OTelOptions, sync_slog_options}
use linhub.Settings.Otel.Providers.{
  ApplyError, Signal, Telemetry, TelemetryLibrary, apply, apply_to_slog, beside, exporter_of_mode,
  file_reader, finished, init_logs, init_metrics, init_traces, install_logger, install_meter,
  install_tracer, is_mode, log_exporter, log_stage, logs, metric_reader, metrics, shut_provider,
  shutdown, some_reader, stage_failed, staged, to_file, trace_exporter, traces,
}

if_either {ℓ} :
    {A : Type 0} (P : A → Type ℓ) (b : Bool) {x y : A} → P x → P y → P (if b then x else y)
if_either P true px py = px
if_either P false px py = py

-- The three providers, and what has been installed.
abbrev pub Kept : Type 0 → Type 0
Kept P = Option P × Option P × Option P × List P

abbrev pub kept : {File P : Type 0} → Telemetry File P → Kept P
kept t = (t.tracer, t.meter, t.logger, t.installed)

-- What there is after each way in which Apply ends, from nothing.
pub data Applied {E P : Type 0} : Outcome (ApplyError E) Unit → Kept P → Type 0 where
  no_traces : (e : E) → Applied (failed (stage_failed traces e)) (none, none, none, [])
  no_metrics :
      (e : E) (tp : P) → Applied (failed (stage_failed metrics e)) (some tp, none, none, tp ∷ [])
  no_logs :
      (e : E) (tp mp : P)
      → Applied (failed (stage_failed logs e)) (some tp, some mp, none, tp ∷ mp ∷ [])
  without_logger : (tp mp : P) → Applied (gave tt) (some tp, some mp, none, tp ∷ mp ∷ [])
  with_logger : (tp mp lp : P) → Applied (gave tt) (some tp, some mp, some lp, tp ∷ mp ∷ lp ∷ [])

module _ {E F File X P : Type 0} (lib : TelemetryLibrary E F File X P) (o : OTelOptions F) where
  to_file-kept :
      (signal : Signal) (r : Outcome E File) (t : Telemetry File P)
      → kept (to_file lib signal r t).1 ≡ kept t
  unfolding to_file
  to_file-kept signal (failed e) t = refl
  to_file-kept signal (gave f) t = refl

  file_reader-kept :
      (r : Outcome E File) (t : Telemetry File P) → kept (file_reader lib r t).1 ≡ kept t
  unfolding file_reader
  file_reader-kept (failed e) t = refl
  file_reader-kept (gave f) t = refl

  some_reader-kept :
      (r : Outcome E X) (t : Telemetry File P) → kept (some_reader lib (r, t)).1 ≡ kept t
  unfolding some_reader
  some_reader-kept (failed e) t = refl
  some_reader-kept (gave x) t = refl

  module _ (t : Telemetry File P) where
    abbrev IsKept : {R : Type 0} → R × Telemetry File P → Type 0
    IsKept r = kept r.1 ≡ kept t

    exporter_of_mode-IsKept : (signal : Signal) → IsKept (exporter_of_mode lib signal o t)
    unfolding exporter_of_mode
    exporter_of_mode-IsKept signal =
        if_either IsKept (str_eq o.output_mode (codes "file"))
          (to_file-kept signal (lib.create_file o.output_dir signal) t) refl

    trace_exporter-IsKept : IsKept (trace_exporter lib o t)
    unfolding trace_exporter
    trace_exporter-IsKept = if_either IsKept (is_mode lib o (codes "classic" ∷ [])) refl (
        if_either IsKept (is_mode lib o (codes "otel" ∷ codes "hybrid" ∷ [])) refl
          (exporter_of_mode-IsKept traces))

    metric_reader-IsKept : IsKept (metric_reader lib o t)
    unfolding metric_reader
    metric_reader-IsKept =
        if_either IsKept (is_mode lib o (codes "classic" ∷ codes "hybrid" ∷ []))
          (some_reader-kept lib.prometheus t)
          (if_either IsKept (is_mode lib o (codes "otel" ∷ []))
            (some_reader-kept (lib.otlp metrics o.endpoint o.insecure) t)
            (if_either IsKept (is_mode lib o (codes "file" ∷ []))
              (file_reader-kept (lib.create_file o.output_dir metrics) t)
              (some_reader-kept (lib.to_writer metrics none) t)))

    log_exporter-IsKept : IsKept (log_exporter lib o t)
    unfolding log_exporter
    log_exporter-IsKept =
        if_either IsKept (is_mode lib o (codes "otel" ∷ [])) refl (exporter_of_mode-IsKept logs)

  abbrev Traced : Outcome E Unit × Telemetry File P → Type 0
  Traced (failed e, t) = kept t ≡ (none, none, none, [])
  Traced (gave _, t) = (tp : P) × (kept t ≡ (some tp, none, none, tp ∷ []))

  install_tracer-Traced :
      (r : Outcome E X) (t : Telemetry File P)
      → kept t ≡ (none, none, none, [])
      → Traced (install_tracer lib o (r, t))
  unfolding install_tracer
  install_tracer-Traced (failed e) t h = h
  install_tracer-Traced (gave x) t h =
      let tp = lib.tracer_provider x o.sampling_ratio in
      (tp, ap (λ k. (some tp, k.1, k.2, k.3 ++ tp ∷ [])) h)

  abbrev Metered : P → Outcome E Unit × Telemetry File P → Type 0
  Metered tp (failed e, t) = kept t ≡ (some tp, none, none, tp ∷ [])
  Metered tp (gave _, t) = (mp : P) × (kept t ≡ (some tp, some mp, none, tp ∷ mp ∷ []))

  install_meter-Metered :
      (tp : P) (r : Outcome E (Option X)) (t : Telemetry File P)
      → kept t ≡ (some tp, none, none, tp ∷ [])
      → Metered tp (install_meter lib (r, t))
  unfolding install_meter
  install_meter-Metered tp (failed e) t h = h
  install_meter-Metered tp (gave x) t h =
      let mp = lib.meter_provider x in (mp, ap (λ k. (k.0, some mp, k.2, k.3 ++ mp ∷ [])) h)

  abbrev Ended : Option (Outcome (ApplyError E) Unit × Telemetry File P) → Type 0
  Ended none = Unit
  Ended (some (r, t)) = Applied r (kept t)

  log_stage-Ended :
      (tp mp : P) (r : Outcome E X) (t : Telemetry File P)
      → kept t ≡ (some tp, some mp, none, tp ∷ mp ∷ [])
      → Ended (log_stage lib (some (install_logger lib o (r, t))))
  unfolding log_stage staged finished install_logger
  log_stage-Ended tp mp (failed e) t h = subst (Applied _) (sym h) (no_logs e tp mp)
  log_stage-Ended tp mp (gave x) t h =
      let lp = lib.logger_provider (is_mode lib o (codes "console" ∷ [])) x in
      subst (Applied _) (sym (ap (λ k. (k.0, k.1, some lp, k.3 ++ lp ∷ [])) h))
        (with_logger tp mp lp)

  slog-Ended :
      (tp mp : P) (r : Option (Outcome E Unit)) (t : Telemetry File P)
      → kept t ≡ (some tp, some mp, none, tp ∷ mp ∷ [])
      → Ended (log_stage lib (beside lib t r))
  unfolding log_stage staged finished beside
  slog-Ended tp mp none t h = tt
  slog-Ended tp mp (some (failed e)) t h = subst (Applied _) (sym h) (no_logs e tp mp)
  slog-Ended tp mp (some (gave _)) t h = subst (Applied _) (sym h) (without_logger tp mp)

  init_logs-Ended :
      (tp mp : P) (t : Telemetry File P)
      → kept t ≡ (some tp, some mp, none, tp ∷ mp ∷ [])
      → Ended (log_stage lib (init_logs lib o t))
  unfolding init_logs
  init_logs-Ended tp mp t h =
      if_either (λ r. Ended (log_stage lib r))
        (is_mode lib o (codes "classic" ∷ codes "hybrid" ∷ []))
        (slog-Ended tp mp (apply_to_slog lib o.slog) t h)
        (log_stage-Ended tp mp _ _ (log_exporter-IsKept t ∙ h))

  metrics-Ended :
      (tp : P) (r : Outcome E Unit × Telemetry File P)
      → Metered tp r
      → Ended (staged lib metrics r (λ t2. log_stage lib (init_logs lib o t2)))
  unfolding staged
  metrics-Ended tp (failed e, t) h = subst (Applied _) (sym h) (no_metrics e tp)
  metrics-Ended tp (gave _, t) (mp, h) = init_logs-Ended tp mp t h

  traces-Ended :
      (r : Outcome E Unit × Telemetry File P)
      → Traced r
      → Ended (
          staged lib traces r (λ t1.
            staged lib metrics (init_metrics lib o t1) (λ t2. log_stage lib (init_logs lib o t2))))
  unfolding staged init_metrics
  traces-Ended (failed e, t) h = subst (Applied _) (sym h) (no_traces e)
  traces-Ended (gave _, t) (tp, h) =
      metrics-Ended tp _ (install_meter-Metered tp _ _ (metric_reader-IsKept t ∙ h))

module _ {E F File X P : Type 0} (lib : TelemetryLibrary E F File X P) where
  shut-Applied :
      {r : Outcome (ApplyError E) Unit} (k : Kept P)
      → Applied r k
      → shut_provider lib k.0 ++ shut_provider lib k.1 ++ shut_provider lib k.2 ≡ k.3
  unfolding shut_provider
  shut-Applied _ (no_traces e) = refl
  shut-Applied _ (no_metrics e tp) = refl
  shut-Applied _ (no_logs e tp mp) = refl
  shut-Applied _ (without_logger tp mp) = refl
  shut-Applied _ (with_logger tp mp lp) = refl

  shutdown-Applied :
      (r : Outcome (ApplyError E) Unit) (t : Telemetry File P)
      → Applied r (kept t)
      → (shutdown lib t).0 ≡ t.installed
  unfolding shutdown shut_provider
  shutdown-Applied r t h = shut-Applied (kept t) h

  -- Apply from nothing ends in one of five ways: it fails at the first, the second or the third signal,
  -- and has then installed the providers of the signals before, or it succeeds, with two providers or
  -- with all three. In each of them Shutdown shuts down the very providers that have been installed,
  -- each once and in the same order, closes the files of the options and forgets them.
  pub apply-Applied :
      (o : OTelOptions F) (t t' : Telemetry File P) (r : Outcome (ApplyError E) Unit)
      → kept t ≡ (none, none, none, [])
      → apply lib o t ≡ some (r, t')
      → Applied r (kept t')
        × ((shutdown lib t').0 ≡ t'.installed)
        × ((shutdown lib t').1 ≡ t'.files)
        × ((shutdown lib t').3.files ≡ [])
  unfolding apply init_traces shutdown
  apply-Applied o t t' r nothing ran =
      let o' = sync_slog_options o in
      let ended : Applied r (kept t') = subst (Ended lib o') ran (
        traces-Ended lib o' _
          (install_tracer-Traced lib o' _ _ (trace_exporter-IsKept lib o' t ∙ nothing))) in
      (ended, shutdown-Applied r t' ended, refl, refl)
