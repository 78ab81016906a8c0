-- ===== src/Id/Examples.antt =====
-- id/code.go: the theorems about codes at concrete options.
use linhub.Base.{List, arith, codes, length, pos, refl, some, ℕ, ◌≡◌}
use linhub.Id.{CodeOptions, new_code}
use linhub.Id.Codes.{
  AreDistinct, IsOver, distinct, distinct-AreDistinct, new_code-injective, new_code_total,
}

-- Codes of one letter out of two.
abbrev short_options : CodeOptions
short_options = record { chars = codes "ab"; n1 = pos 1; n2 = pos 1; l = 1; salt = 0 }

new_code_total_example :
    (c : List ℕ) × (new_code short_options 5 ≡ some c) × (length c ≡ 1) × IsOver (codes "ab") c
new_code_total_example =
    new_code_total short_options 5 (omega arith) (omega arith) (omega arith) (omega arith)

code_of_1 : new_code short_options 1 ≡ some (codes "b")
unfolding new_code
code_of_1 = refl

code_of_3 : new_code short_options 3 ≡ some (codes "b")
unfolding new_code
code_of_3 = refl

short-AreDistinct : AreDistinct (codes "ab")
unfolding distinct
short-AreDistinct = distinct-AreDistinct (codes "ab") refl

abbrev twelve : ℕ
twelve = 12

new_code-injective_example : twelve ≡ twelve
new_code-injective_example = new_code-injective twelve twelve (omega arith) (omega arith) refl
