-- ===== src/Log/Examples.antt =====
-- log/gorm.go and log/fanout.go: the theorems at GORM's four levels, and for handlers that count.
use linhub.Log.{GormLevels, Options, is_one_of, new_options, parse_level}
use linhub.Log.Logger.{Globals, LogLibrary, Logger, new_slog_logger, resolve_writer}
use linhub.Log.Logger.Global.{init_all, init_all-last}
use linhub.Settings.Tls.{failed, gave}
use linhub.Log.Gorm.{InARow}
use linhub.Log.Fanout.{SlogHandler, each, enabled_ones, first_of, handle, handle-each}
use linhub.Base.{
  List, [], codes, has_prefix, leb_ℤ, lower, none, pos, refl, some, str_eq, to_lower, trim_space,
  true, ℕ, ℤ, ◌++◌, ◌∷◌, ◌≡◌,
}

gorm : GormLevels
gorm = record { silent = 1; error = 2; warn = 3; info = 4 }

gorm-InARow : InARow gorm
unfolding gorm
gorm-InARow = record { error = refl; warn = refl; info = refl }

-- A handler is the error it gives, and the world the list of the handlers that had a record.
counting : SlogHandler ℕ ℤ ℕ (List ℕ)
counting = record {
  enabled = λ h l. leb_ℤ (pos h) l;
  handle = λ h r w. (some h, w ++ h ∷ []);
  with_attrs = λ a h. h;
  with_group = λ name h. h;
  level = λ r. r;
}

handle-each_example : handle counting (9 ∷ 2 ∷ 1 ∷ []) (pos 4) [] ≡ (
  first_of counting (each counting (enabled_ones counting (pos 4) (9 ∷ 2 ∷ 1 ∷ [])) (pos 4) []).0,
  (each counting (enabled_ones counting (pos 4) (9 ∷ 2 ∷ 1 ∷ [])) (pos 4) []).1,
)
unfolding counting
handle-each_example = handle-each counting (9 ∷ 2 ∷ 1 ∷ []) (pos 4) []

-- No file can be opened.
abbrev closed_files : LogLibrary ℕ ℕ ℕ
closed_files = record {
  stdout = 1;
  stderr = 2;
  open_file = λ p. failed 5;
  multi_writer = λ ws. 3;
  json_handler = λ w a l. 10;
  text_handler = λ w a l. 20;
  otel_handler = λ n. 30;
  fanout_handler = λ hs. 40;
  with_attrs = λ kvs h. h;
  enabled = λ h l. true;
}

abbrev to_a_file : Options
to_a_file = record new_options { output_paths = codes "app.log" ∷ [] }

abbrev text_logger : Logger ℕ ℕ
text_logger = record { logger = 20; opts = new_options; context_extractors = [] }

builds_default : new_slog_logger closed_files {C = ℕ} none [] ≡ gave text_logger
unfolding new_slog_logger resolve_writer to_lower trim_space lower is_one_of str_eq has_prefix
    parse_level
builds_default = refl

fails_with_a_file : new_slog_logger closed_files {C = ℕ} (some to_a_file) [] ≡ failed 5
unfolding new_slog_logger resolve_writer to_lower trim_space lower is_one_of str_eq has_prefix
fails_with_a_file = refl

abbrev first_globals : Globals ℕ ℕ
first_globals = record {
  std = record { logger = 7; opts = new_options; context_extractors = [] };
  slog_default = 8;
}

init_all-last_example :
    init_all closed_files ((none, []) ∷ (some to_a_file, []) ∷ []) first_globals
    ≡ record { std = text_logger; slog_default = 20 }
init_all-last_example =
    init_all-last closed_files [] (none, []) ((some to_a_file, []) ∷ []) text_logger first_globals
      builds_default ((5, fails_with_a_file), tt)
