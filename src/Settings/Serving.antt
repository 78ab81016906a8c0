-- ===== src/Settings/Serving.antt =====
-- options/helper.go, options/http_options.go, options/grpc_options.go and options/jwt_options.go: the
-- check of an address, the options of the two servers, and those of JSON Web Tokens. Package net, the
-- network helpers of Kubernetes and package govalidator are parameters. A time is a number of
-- nanoseconds.
mod Accepted
use linhub.Base.{
  Bool, List, Option, Text, [], codes, if◌then◌else◌, is_empty, none, not, pos, some, ℤ, ◌&&◌, ◌*◌,
  ◌++◌, ◌∷◌,
}
use linhub.Util.Lists.{string_in}
use linhub.Settings.Flags.{Flag, FlagLibrary, add_flags, flag}

-- What is called to read an address: net.SplitHostPort, ParseIPSloppy and ParsePort, which allows 0;
-- the last two only by whether they succeed.
pub record AddressLibrary : Type 0 where
  pub split_host_port : Text → Option (Text × Text)
  pub parses_ip : Text → Bool
  pub parses_port : Text → Bool

pub data AddressError : Type 0 where
  bad_format : Text → AddressError
  bad_host : Text → AddressError
  bad_port : Text → AddressError

-- ValidateAddress, from the split address on; `none` is no error.
unfoldable pub check_split : AddressLibrary → Text → Option (Text × Text) → Option AddressError
check_split net addr none = some (bad_format addr)
check_split net addr (some (host, port)) =
    if not (is_empty host) && not (net.parses_ip host)
    then some (bad_host host)
    else (if not (net.parses_port port) then some (bad_port port) else none)

unfoldable pub validate_address : AddressLibrary → Text → Option AddressError
unfolding check_split
validate_address net addr = check_split net addr (net.split_host_port addr)

-- HTTPOptions and GRPCOptions, which have the same fields.
pub record ServerOptions : Type 0 where
  pub network : Text
  pub addr : Text
  pub timeout : ℤ

unfoldable pub new_http_options : ServerOptions
new_http_options = record {
  network = codes "tcp";
  addr = codes "0.0.0.0:38443";
  timeout = pos (30 * 1000000000);
}

unfoldable pub new_grpc_options : ServerOptions
new_grpc_options = record {
  network = codes "tcp";
  addr = codes "0.0.0.0:39090";
  timeout = pos (30 * 1000000000);
}

abbrev error_list : {E : Type 0} → Option E → List E
error_list none = []
error_list (some e) = e ∷ []

unfoldable pub validate_grpc : AddressLibrary → ServerOptions → List AddressError
validate_grpc net o = error_list (validate_address net o.addr)

-- The receiver may be nil.
unfoldable pub validate_http : AddressLibrary → Option ServerOptions → List AddressError
validate_http net none = []
validate_http net (some o) = error_list (validate_address net o.addr)

abbrev pub server_flags : List (Flag ServerOptions)
server_flags =
    flag ".network" (λ o. record o { network = o.network })
    ∷ flag ".addr" (λ o. record o { addr = o.addr })
    ∷ flag ".timeout" (λ o. record o { timeout = o.timeout })
    ∷ []

-- Nothing assigns full_prefix, which is not exported.
pub record JwtOptions : Type 0 where
  pub key : Text
  pub expired : ℤ
  pub max_refresh : ℤ
  pub signing_method : Text
  pub full_prefix : Text

unfoldable pub new_jwt_options : JwtOptions
new_jwt_options = record {
  key = [];
  expired = pos (2 * 3600000000000);
  max_refresh = pos (2 * 3600000000000);
  signing_method = codes "HS256";
  full_prefix = [];
}

-- Each error has the prefix that its message names.
pub data JwtError : Type 0 where
  key_required : Text → JwtError
  key_length : Text → JwtError
  method_unsupported : Text → Text → JwtError

abbrev pub signing_methods : List Text
signing_methods = codes "HS256" ∷ codes "HS384" ∷ codes "HS512" ∷ []

unfoldable pub check_key : (Text → Bool) → Text → Text → List JwtError
check_key has_length prefix key =
    if is_empty key
    then key_required prefix ∷ []
    else (if not (has_length key) then key_length prefix ∷ [] else [])

unfoldable pub check_method : Text → Text → List JwtError
check_method prefix method =
    if string_in method signing_methods then [] else method_unsupported prefix method ∷ []

-- Validate, for the test govalidator.StringLength(_, "32", "256").
unfoldable pub validate_jwt : (Text → Bool) → JwtOptions → List JwtError
validate_jwt has_length s =
    check_key has_length s.full_prefix s.key ++ check_method s.full_prefix s.signing_method

abbrev pub jwt_flags : List (Flag JwtOptions)
jwt_flags =
    flag ".key" (λ o. record o { key = o.key })
    ∷ flag ".expired" (λ o. record o { expired = o.expired })
    ∷ flag ".max-refresh" (λ o. record o { max_refresh = o.max_refresh })
    ∷ flag ".signing-method" (λ o. record o { signing_method = o.signing_method })
    ∷ []

-- AddFlags does nothing without a set of flags.
unfoldable pub add_jwt_flags :
    {S : Type 0} → FlagLibrary S → Text → JwtOptions → Option S → Option (JwtOptions × Option S)
add_jwt_flags lib full_prefix s none = some (s, none)
add_jwt_flags lib full_prefix s (some fs) = elim (add_flags lib full_prefix jwt_flags (s, fs)) [
  | none ↦ none
  | some (s', fs') ↦ some (s', some fs')
]
