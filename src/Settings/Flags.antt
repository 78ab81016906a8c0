-- ===== src/Settings/Flags.antt =====
-- options/: AddFlags. A set of flags belongs to package pflag: it is a parameter, with what the library
-- documents. A method of it such as StringVar sets the variable to the default that it is given and
-- defines the flag; it panics, which is `none`, when the flag is already defined.
pub mod Defined
use mathlib.Core.Option
use Prim.Native.String.{String}
use linhub.Base.{List, Option, Text, [], codes, map, some, ◌++◌, ◌>>=◌, ◌∷◌}

pub record FlagLibrary (S : Type 0) : Type 0 where
  pub define : Text → S → Option S
  pub names : S → List Text

-- A flag of some options: what its name has after the prefix, and the assignment of its default.
pub record Flag (O : Type 0) : Type 0 where
  pub suffix : Text
  pub set_default : O → O

abbrev pub flag : {O : Type 0} → String → (O → O) → Flag O
flag suffix set_default = record { suffix = codes suffix; set_default = set_default }

module _ {S : Type 0} (lib : FlagLibrary S) where
  -- One call such as fs.StringVar(&o.Addr, fullPrefix+".addr", o.Addr, …).
  unfoldable pub add_flag : {O : Type 0} → Text → Flag O → O × S → Option (O × S)
  add_flag full_prefix f (o, fs) =
      Option.map (λ fs'. (f.set_default o, fs')) (lib.define (full_prefix ++ f.suffix) fs)

  unfoldable pub add_flags : {O : Type 0} → Text → List (Flag O) → O × S → Option (O × S)
  add_flags full_prefix [] st = some st
  add_flags full_prefix (f ∷ fl) st = add_flag full_prefix f st >>= add_flags full_prefix fl
