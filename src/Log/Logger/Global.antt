-- ===== src/Log/Logger/Global.antt =====
-- log/log.go, Init: the global logger.
use linhub.Base.{All, List, Option, [], ap, refl, ◌++◌, ◌∙◌, ◌∷◌, ◌≡◌}
use linhub.Settings.Tls.{failed, gave}
use linhub.Log.{Options}
use linhub.Log.Logger.{Globals, LogLibrary, Logger, init, installed, new_slog_logger}

-- Options with the functional options of a call of Init.
abbrev pub Setup : Type 0 → Type 0 → Type 0
Setup C H = Option Options × List (Logger C H → Logger C H)

module _ {E Wr H C : Type 0} (lib : LogLibrary E Wr H) where
  abbrev pub init_all : List (Setup C H) → Globals C H → Globals C H
  init_all [] g = g
  init_all ((o, opts) ∷ calls) g = init_all calls (init lib o opts g)

  -- A call whose options give a logger.
  abbrev pub Builds : Setup C H → Logger C H → Type 0
  Builds (o, opts) l = new_slog_logger lib o opts ≡ gave l

  abbrev pub Fails : Setup C H → Type 0
  Fails (o, opts) = (e : E) × (new_slog_logger lib o opts ≡ failed e)

  init-Fails : (o : Setup C H) (g : Globals C H) → Fails o → init lib o.0 o.1 g ≡ g
  unfolding init installed
  init-Fails o g (e, h) = rw h refl

  init-Builds :
      (o : Setup C H) (l : Logger C H) (g : Globals C H)
      → Builds o l
      → init lib o.0 o.1 g ≡ record { std = l; slog_default = l.logger }
  unfolding init installed
  init-Builds o l g h = rw h refl

  init_all-Fails :
      (calls : List (Setup C H)) (g : Globals C H) → All Fails calls → init_all calls g ≡ g
  init_all-Fails [] g _ = refl
  init_all-Fails (o ∷ calls) g (here, there) =
      ap (init_all calls) (init-Fails o g here) ∙ init_all-Fails calls g there

  -- Init may be called any number of times. The last call that can open its outputs decides: both the
  -- global logger and the default one of slog are the logger of its options, whatever was there before
  -- and however many calls have failed since.
  pub init_all-last :
      (before : List (Setup C H)) (o : Setup C H) (after : List (Setup C H)) (l : Logger C H)
      (g : Globals C H)
      → Builds o l
      → All Fails after
      → init_all (before ++ o ∷ after) g ≡ record { std = l; slog_default = l.logger }
  init_all-last [] o after l g builds fail =
      ap (init_all after) (init-Builds o l g builds) ∙ init_all-Fails after _ fail
  init_all-last (b ∷ before) o after l g builds fail =
      init_all-last before o after l (init lib b.0 b.1 g) builds fail
