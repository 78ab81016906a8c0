-- ===== src/Util/Examples.antt =====
-- util/strings/strings.go and store/registry/registry.go: the theorems at concrete values.
use linhub.Base.{List, Option, Text, [], codes, if◌then◌else◌, none, refl, some, ℕ, ◌==◌, ◌∷◌, ◌≡◌}
use linhub.Util.Registry.{migrate, migrate_in}

abbrev base_list : List Text
base_list = codes "a" ∷ codes "b" ∷ codes "a" ∷ []

abbrev other_list : List Text
other_list = codes "b" ∷ []

-- Tables by their numbers; the number 3 cannot be migrated.
abbrev auto_migrate : ℕ → List ℕ → Option ℕ × List ℕ
auto_migrate model db = if model == 3 then (some model, db) else (none, model ∷ db)

-- The model after the failing one is not migrated.
stops_at_three : migrate auto_migrate (some (1 ∷ 3 ∷ 4 ∷ [])) [] ≡ (some 3, 1 ∷ [])
unfolding migrate migrate_in
stops_at_three = refl
