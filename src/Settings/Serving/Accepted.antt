-- ===== src/Settings/Serving/Accepted.antt =====
-- options/helper.go and options/jwt_options.go: what the checks accept.
use linhub.Base.{
  Bool, Option, Text, [], append-empty_iff, arith, none, refl, some, sym, true, ◌↔◌, ◌∷◌, ◌≡◌, ◌≢◌,
  ◌⊎◌,
}
use linhub.Util.Lists.{string_in}
use linhub.Settings.Serving.{
  AddressLibrary, JwtOptions, check_key, check_method, check_split, signing_methods,
  validate_address, validate_jwt,
}
use mathlib.Core.Path.{subst}
use mathlib.Core.Option.{some-injective}

-- Of the host and the port that an address is split into: the host is empty or parses, and the
-- port parses.
abbrev PartsParse : AddressLibrary → Text × Text → Type 0
PartsParse net (host, port) =
    ((host ≡ []) ⊎ (net.parses_ip host ≡ true)) × (net.parses_port port ≡ true)

parts_ok :
    (net : AddressLibrary) (addr host port : Text)
    → (check_split net addr (some (host, port)) ≡ none) ↔ PartsParse net (host, port)
unfolding check_split
parts_ok net addr [] port = ground arith
parts_ok net addr (c ∷ host) port = ground arith

check_split_ok :
    (net : AddressLibrary) (addr : Text) (parts : Option (Text × Text))
    → (check_split net addr parts ≡ none)
      ↔ ((hp : Text × Text) × (parts ≡ some hp) × PartsParse net hp)
unfolding check_split
check_split_ok net addr none = ground arith
check_split_ok net addr (some (host, port)) =
    let law = parts_ok net addr host port in
    (
      λ e. ((host, port), refl, law.0 e),
      λ (hp, same, parse). law.1 (subst (PartsParse net) (sym (some-injective _ _ same)) parse),
    )

-- An address is accepted exactly when it is split into a host and a port, the host is empty or an
-- address that parses, and the port parses.
validate_address_ok :
    (net : AddressLibrary) (addr : Text)
    → (validate_address net addr ≡ none)
      ↔ ((hp : Text × Text) × (net.split_host_port addr ≡ some hp) × PartsParse net hp)
unfolding validate_address
validate_address_ok net addr = check_split_ok net addr (net.split_host_port addr)

check_key_ok :
    (has_length : Text → Bool) (prefix key : Text)
    → (check_key has_length prefix key ≡ []) ↔ ((key ≢ []) × (has_length key ≡ true))
unfolding check_key
check_key_ok has_length prefix [] = ground arith
check_key_ok has_length prefix (c ∷ key) = ground arith

check_method_ok :
    (prefix method : Text)
    → (check_method prefix method ≡ []) ↔ (string_in method signing_methods ≡ true)
unfolding check_method
check_method_ok prefix method = ground arith

-- The options of a token have no error exactly when the key is not empty and has the length that
-- is asked for, and the method is one of the three.
validate_jwt_ok :
    (has_length : Text → Bool) (s : JwtOptions)
    → (validate_jwt has_length s ≡ []) ↔ (
        (s.key ≢ [])
        × (has_length s.key ≡ true)
        × (string_in s.signing_method signing_methods ≡ true))
unfolding validate_jwt
validate_jwt_ok has_length s =
    let both =
      append-empty_iff (check_key has_length s.full_prefix s.key)
        (check_method s.full_prefix s.signing_method) in
    let key = check_key_ok has_length s.full_prefix s.key in
    let method = check_method_ok s.full_prefix s.signing_method in ground (arith, both, key, method)
