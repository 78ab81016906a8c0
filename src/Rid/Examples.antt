-- ===== src/Rid/Examples.antt =====
-- rid/rid.go: the theorems about identifiers at concrete prefixes and counters.
use linhub.Base.{arith, codes, refl, ℕ, ◌≡◌}
use linhub.Rid.Unique.{new-injective}

abbrev five : ℕ
five = 5

new-injective_example : (codes "user" ≡ codes "user") × (five ≡ five)
new-injective_example =
    new-injective (codes "user") (codes "user") 11 five five (omega arith) (omega arith)
      (omega arith) (omega arith) (omega arith) refl
