-- ===== src/Util/Registry/Runs.antt =====
-- store/registry/registry.go: what a migration runs.
use linhub.Base.{Option, [], none, refl, some, ◌++◌, ◌∷◌, ◌≡◌}
use linhub.Util.Registry.{Registry, migrate, migrate_in, or_new, register, register_in}

module _ {M E D : Type 0} (auto_migrate : M → D → Option E × D) where
  -- A further model, after the outcome of those before it.
  abbrev pub then_migrate : M → Option E × D → Option E × D
  then_migrate model (none, db) = auto_migrate model db
  then_migrate model (some e, db) = (some e, db)

  migrate_one : (r : Option E × D) → elim r.0 [ none ↦ (none, r.1) | some e ↦ (some e, r.1) ] ≡ r
  migrate_one (none, db) = refl
  migrate_one (some e, db) = refl

  migrate_in-append :
      (r : Registry M) (model : M) (db : D)
      → migrate_in auto_migrate (r ++ model ∷ []) db
        ≡ then_migrate model (migrate_in auto_migrate r db)
  unfolding migrate_in
  migrate_in-append [] model db = migrate_one (auto_migrate model db)
  migrate_in-append (m ∷ r) model db = by_first (auto_migrate m db) (migrate_in-append r model)
    where
      by_first :
          (first : Option E × D)
          → ((db' : D)
              → migrate_in auto_migrate (r ++ model ∷ []) db'
                ≡ then_migrate model (migrate_in auto_migrate r db'))
          → elim first.0 [
            | none ↦ migrate_in auto_migrate (r ++ model ∷ []) first.1
            | some e ↦ (some e, first.1)
          ]
            ≡ then_migrate model (elim first.0 [
              | none ↦ migrate_in auto_migrate r first.1
              | some e ↦ (some e, first.1)
            ])
      by_first (none, db') later = later db'
      by_first (some e, db') later = refl

  -- Registering a model adds one call of AutoMigrate at the end of a migration: it is made on the
  -- database that the migration of the models before leaves, and only if that one has no error, which
  -- is otherwise the error of the whole.
  pub migrate-register :
      (model : M) (global : Option (Registry M)) (db : D)
      → migrate auto_migrate (register model global) db
        ≡ then_migrate model (migrate auto_migrate global db)
  unfolding migrate register or_new register_in migrate_in
  migrate-register model none db = migrate_one (auto_migrate model db)
  migrate-register model (some r) db = migrate_in-append r model db
