-- ===== src/Id.antt =====
-- id/code.go and id/options.go: a code of fixed length for a number. `byte` arithmetic wraps at 256
-- and `uint64` arithmetic at 2 ^ 64; `none` is a panic, a division by zero or an index out of range.
pub mod Digits
pub mod Codes
mod Examples
use linhub.Base.{
  List, Option, [], codes, get_elem?, if◌then◌else◌, length, ltb, ltb_ℤ, none, pos, pos_part, some,
  suc, word64, zero, ℕ, ℤ, ◌%◌, ◌*◌, ◌+◌, ◌/◌, ◌==◌, ◌>>=◌, ◌^◌, ◌||◌, ◌∷◌,
}

-- `chars` is not empty and `l` is positive, which the options below keep.
pub record CodeOptions : Type 0 where
  pub chars : List ℕ
  pub n1 : ℤ
  pub n2 : ℤ
  pub l : ℕ
  pub salt : ℕ

-- The default of getCodeOptionsOrSetDefault.
abbrev pub default_code_options : CodeOptions
default_code_options = record {
  chars = codes "23456789ABCDEFGHJKLMNPQRSTVWXY";
  n1 = pos 17;
  n2 = pos 5;
  l = 8;
  salt = 123567369;
}

unfoldable pub with_code_chars : List ℕ → CodeOptions → CodeOptions
with_code_chars [] o = o
with_code_chars (c ∷ cs) o = record o { chars = c ∷ cs }

unfoldable pub with_code_n1 : ℤ → CodeOptions → CodeOptions
with_code_n1 n o = record o { n1 = n }

unfoldable pub with_code_n2 : ℤ → CodeOptions → CodeOptions
with_code_n2 n o = record o { n2 = n }

unfoldable pub with_code_l : ℤ → CodeOptions → CodeOptions
with_code_l l o = if ltb_ℤ (pos 0) l then record o { l = pos_part l } else o

unfoldable pub with_code_salt : ℕ → CodeOptions → CodeOptions
with_code_salt salt o = if ltb 0 salt then record o { salt = salt } else o

abbrev byte : ℕ → ℕ
byte n = n % 256

-- One value of the first loop: `d` is the digit and `first` the value at index 0.
abbrev mix : ℕ → ℕ → ℕ → ℕ → ℕ
mix len i first d = byte (byte d + byte (byte i * first)) % byte len

-- The first loop from index `i` on, with `n` rounds left.
diffuse_from : ℕ → ℕ → ℕ → ℕ → ℕ → List ℕ
diffuse_from len zero i first id = []
diffuse_from len (suc n) i first id =
    mix len i first (id % len) ∷ diffuse_from len n (i + 1) first (id / len)

-- At index 0 the value read at index 0 is the digit itself, times 0.
pub diffuse : ℕ → ℕ → ℕ → List ℕ
unfolding diffuse_from
diffuse len zero id = []
diffuse len (suc n) id =
    let first = mix len 0 (byte (id % len)) (id % len) in
    first ∷ diffuse_from len n 1 first (id / len)

abbrev shuffled_index : ℕ → ℕ → ℕ → ℕ
shuffled_index l n2 i = byte (byte i * n2) % byte l

-- The second loop from index `i` on, with `n` rounds left.
confuse : List ℕ → ℕ → ℕ → List ℕ → ℕ → ℕ → Option (List ℕ)
confuse chars l n2 values zero i = some []
confuse chars l n2 values (suc n) i = do
  v ← get_elem? values (shuffled_index l n2 i)
  c ← get_elem? chars v
  rest ← confuse chars l n2 values n (i + 1)
  some (c ∷ rest)

-- `id*uint64(ops.n1) + ops.salt`.
abbrev enlarged : CodeOptions → ℕ → ℕ
enlarged o id = (id * word64 o.n1 + o.salt) % 2 ^ 64

-- NewCode, after the options have been applied.
unfoldable pub new_code : CodeOptions → ℕ → Option (List ℕ)
unfolding diffuse confuse
new_code o id =
    if (byte (length o.chars) == 0) || (byte o.l == 0)
    then none
    else confuse o.chars o.l (byte (word64 o.n2)) (diffuse (length o.chars) o.l (enlarged o id)) o.l
        0
