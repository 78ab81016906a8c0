-- ===== src/Util/Registry.antt =====
-- store/registry/registry.go: the models that are registered, and their migration. AutoMigrate of GORM
-- is a parameter, with the database as a state.
pub mod Runs
use linhub.Base.{List, Option, [], none, some, ◌++◌, ◌∷◌}

-- The models of a registry, in the order of their registration.
abbrev pub Registry : Type 0 → Type 0
Registry M = List M

-- (*Registry).Register.
unfoldable pub register_in : {M : Type 0} → Registry M → M → Registry M
register_in r model = r ++ model ∷ []

or_new : {M : Type 0} → Option (Registry M) → Registry M
or_new none = []
or_new (some r) = r

-- Register: the global registry is made by the first call.
unfoldable pub register : {M : Type 0} → M → Option (Registry M) → Option (Registry M)
unfolding or_new register_in
register model global = some (register_in (or_new global) model)

module _ {M E D : Type 0} (auto_migrate : M → D → Option E × D) where
  -- (*Registry).Migrate: the first error ends the loop.
  unfoldable pub migrate_in : Registry M → D → Option E × D
  migrate_in [] db = (none, db)
  migrate_in (model ∷ r) db =
      let (err, db') = auto_migrate model db in
      elim err [ none ↦ migrate_in r db' | some e ↦ (some e, db') ]

  -- Migrate.
  unfoldable pub migrate : Option (Registry M) → D → Option E × D
  unfolding migrate_in
  migrate none db = (none, db)
  migrate (some r) db = migrate_in r db
