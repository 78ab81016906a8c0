-- ===== src/Log/Logger.antt =====
-- log/log.go: making a logger, the global one, and messages. The writers, the handlers of slog and of
-- OpenTelemetry and the record of a message are parameters. A map of extractors is a list of its
-- entries, in the order in which a range visits them.
pub mod Global
use linhub.Base.{
  Bool, List, Option, Text, [], codes, if◌then◌else◌, is_empty, none, not, pos, some, str_eq,
  to_lower, trim_space, ℤ, ◌++◌, ◌∷◌,
}
use linhub.Settings.Tls.{Outcome, failed, gave}
use linhub.Log.{Options, is_one_of, new_options, parse_level}

pub record LogLibrary (E Wr H : Type 0) : Type 0 where
  pub stdout : Wr
  pub stderr : Wr
  pub open_file : Text → Outcome E Wr
  pub multi_writer : List Wr → Wr
  pub json_handler : Wr → Bool → ℤ → H
  pub text_handler : Wr → Bool → ℤ → H
  pub otel_handler : Text → H
  pub fanout_handler : List H → H
  pub with_attrs : List (Text × Text) → H → H
  pub enabled : H → ℤ → Bool

-- A slogLogger, for contexts in `C`.
pub record Logger (C H : Type 0) : Type 0 where
  pub logger : H
  pub opts : Options
  pub context_extractors : List (Text × (C → Text))

-- The global logger, and the default one of slog.
pub record Globals (C H : Type 0) : Type 0 where
  pub std : Logger C H
  pub slog_default : H

err_field : Option Text → List (Text × Text)
err_field none = []
err_field (some e) = (codes "err", e) ∷ []

module _ {E Wr H : Type 0} (lib : LogLibrary E Wr H) where
  writer_of : Text → Outcome E Wr
  writer_of p =
      let name = to_lower (trim_space p) in
      if is_one_of ([] ∷ codes "stdout" ∷ []) name
      then gave lib.stdout
      else if str_eq name (codes "stderr")
      then gave lib.stderr
      else lib.open_file p

  prepend : Outcome E Wr → Outcome E (List Wr) → Outcome E (List Wr)
  prepend (failed e) rest = failed e
  prepend (gave w) (failed e) = failed e
  prepend (gave w) (gave ws) = gave (w ∷ ws)

  writers_of : List Text → Outcome E (List Wr)
  unfolding writer_of prepend
  writers_of [] = gave []
  writers_of (p ∷ ps) = prepend (writer_of p) (writers_of ps)

  joined : Outcome E (List Wr) → Outcome E Wr
  joined (failed e) = failed e
  joined (gave (w ∷ [])) = gave w
  joined (gave ws) = gave (lib.multi_writer ws)

  -- resolveWriter.
  unfoldable pub resolve_writer : List Text → Outcome E Wr
  unfolding joined writers_of
  resolve_writer [] = gave lib.stdout
  resolve_writer (p ∷ ps) = joined (writers_of (p ∷ ps))

  base_handler : Options → Wr → H
  base_handler o writer =
      if str_eq o.format (codes "json")
      then lib.json_handler writer o.add_source (parse_level o.level).0
      else lib.text_handler writer o.add_source (parse_level o.level).0

  bridged : Options → H → H
  bridged o h =
      if o.enable_otel
      then lib.fanout_handler (
          h
          ∷ lib.otel_handler (if is_empty o.service_name then codes "linhub" else o.service_name)
          ∷ [])
      else h

  or_new_options : Option Options → Options
  or_new_options none = new_options
  or_new_options (some o) = o

  module _ {C : Type 0} where
    logger_of : Options → List (Logger C H → Logger C H) → Outcome E Wr → Outcome E (Logger C H)
    unfolding bridged base_handler
    logger_of o options (failed e) = failed e
    logger_of o options (gave writer) = gave (
        apply_all options (record {
          logger = bridged o (base_handler o writer);
          opts = o;
          context_extractors = [];
        }))
      where
        apply_all : List (Logger C H → Logger C H) → Logger C H → Logger C H
        apply_all [] l = l
        apply_all (opt ∷ opts) l = apply_all opts (opt l)

    -- newSlogLogger.
    unfoldable pub new_slog_logger :
        Option Options → List (Logger C H → Logger C H) → Outcome E (Logger C H)
    unfolding logger_of or_new_options
    new_slog_logger opts options =
        let o = or_new_options opts in logger_of o options (resolve_writer o.output_paths)

    installed : Globals C H → Outcome E (Logger C H) → Globals C H
    installed g (failed e) = g
    installed g (gave l) = record { std = l; slog_default = l.logger }

    -- Init; a failure is printed and the loggers are kept.
    unfoldable pub init :
        Option Options → List (Logger C H → Logger C H) → Globals C H → Globals C H
    unfolding installed
    init opts options g = installed g (new_slog_logger opts options)

    put_entry : Text × (C → Text) → List (Text × (C → Text)) → List (Text × (C → Text))
    put_entry kv [] = kv ∷ []
    put_entry (k, f) ((k', f') ∷ m) =
        let rest = put_entry (k, f) m in if str_eq k k' then (k, f) ∷ m else (k', f') ∷ rest

    put_entries : List (Text × (C → Text)) → List (Text × (C → Text)) → List (Text × (C → Text))
    unfolding put_entry
    put_entries [] m = m
    put_entries (kv ∷ kvs) m = put_entries kvs (put_entry kv m)

    -- WithContextExtractor.
    unfoldable pub with_context_extractor : List (Text × (C → Text)) → Logger C H → Logger C H
    unfolding put_entries
    with_context_extractor extractors l = record l {
      context_extractors = put_entries extractors l.context_extractors;
    }

    -- The fields of a context that are not empty.
    unfoldable pub extracted : C → List (Text × (C → Text)) → List (Text × Text)
    extracted ctx [] = []
    extracted ctx ((k, f) ∷ m) =
        let rest = extracted ctx m in if is_empty (f ctx) then rest else (k, f ctx) ∷ rest

    with_fields : Logger C H → List (Text × Text) → Logger C H
    with_fields l [] = l
    with_fields l (kv ∷ kvs) = record l { logger = lib.with_attrs (kv ∷ kvs) l.logger }

    -- W; a nil context is `none`.
    unfoldable pub w : Option C → Logger C H → Logger C H
    unfolding extracted with_fields
    w none l = l
    w (some ctx) l = with_fields l (extracted ctx l.context_extractors)

    -- logw: the message and its keys and values that are passed on at a level, if any.
    unfoldable pub logw :
        Logger C H → ℤ → Text → List (Text × Text) → Option (ℤ × Text × List (Text × Text))
    logw l level msg keyvals =
        if not (lib.enabled l.logger level) then none else some (level, msg, keyvals)

    -- Errorw, for the text of the error.
    unfoldable pub errorw :
        Logger C H
        → Option Text
        → Text
        → List (Text × Text)
        → Option (ℤ × Text × List (Text × Text))
    unfolding err_field logw
    errorw l err msg keyvals = logw l (pos 8) msg (keyvals ++ err_field err)
