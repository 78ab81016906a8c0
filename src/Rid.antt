-- ===== src/Rid.antt =====
-- rid/rid.go: resource identifiers, a prefix and a code of six characters. The salt that Salt derives
-- from the machine's identity is an argument.
pub mod Unique
mod Examples
use linhub.Base.{List, Option, Text, codes, pos, some, ℕ, ◌++◌, ◌>>=◌}
use linhub.Id.{
  CodeOptions, default_code_options, new_code, with_code_chars, with_code_l, with_code_salt,
}

abbrev pub default_charset : List ℕ
default_charset = codes "abcdefghijklmnopqrstuvwxyz1234567890"

-- The options that New gives to NewCode, applied in order to the default ones.
unfoldable pub id_options : ℕ → CodeOptions
unfolding with_code_chars with_code_l with_code_salt
id_options salt =
    with_code_salt salt (with_code_l (pos 6) (with_code_chars default_charset default_code_options))

abbrev prefixed : Text → List ℕ → Option Text
prefixed prefix code = some (prefix ++ (codes "-" ++ code))

-- (ResourceID).New; `none` is a panic in NewCode.
unfoldable pub new : Text → ℕ → ℕ → Option Text
unfolding id_options
new prefix salt counter = do code ← new_code (id_options salt) counter; prefixed prefix code
