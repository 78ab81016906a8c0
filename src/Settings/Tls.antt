-- ===== src/Settings/Tls.antt =====
-- options/tls_options.go: the TLS options. Files, key pairs, PEM and certificates belong to the
-- standard library: they are parameters.
pub mod Loading
use linhub.Base.{
  Bool, List, Option, Text, [], codes, false, if◌then◌else◌, is_empty, none, not, some, suc, zero,
  ℕ, ◌&&◌, ◌||◌, ◌∷◌,
}
use linhub.Settings.Flags.{Flag, flag}

pub record TlsOptions : Type 0 where
  pub use_tls : Bool
  pub insecure_skip_verify : Bool
  pub ca_cert : Text
  pub cert : Text
  pub key : Text

-- NewTLSOptions.
abbrev pub new_tls_options : TlsOptions
new_tls_options = record {
  use_tls = false;
  insecure_skip_verify = false;
  ca_cert = [];
  cert = [];
  key = [];
}

pub data TlsError : Type 0 where
  only_one_of_cert_and_key : TlsError

unfoldable pub validate_tls : TlsOptions → List TlsError
validate_tls o =
    if not o.use_tls
    then []
    else if (not (is_empty o.cert) && is_empty o.key) || (is_empty o.cert && not (is_empty o.key))
    then only_one_of_cert_and_key ∷ []
    else []

-- AddFlags.
abbrev pub tls_flags : List (Flag TlsOptions)
tls_flags =
    flag ".use-tls" (λ o. record o { use_tls = o.use_tls })
    ∷ flag ".insecure-skip-verify" (λ o. record o { insecure_skip_verify = o.insecure_skip_verify })
    ∷ flag ".ca-cert" (λ o. record o { ca_cert = o.ca_cert })
    ∷ flag ".cert" (λ o. record o { cert = o.cert })
    ∷ flag ".key" (λ o. record o { key = o.key })
    ∷ []

unfoldable pub scheme : TlsOptions → Text
scheme o = if o.use_tls then codes "https" else codes "http"

-- What a call gives: an error, or a value.
pub data Outcome (E A : Type 0) : Type 0 where
  failed : E → Outcome E A
  gave : A → Outcome E A

pub record TlsLibrary (E Data Block Cert Pool : Type 0) : Type 0 where
  pub load_key_pair : Text → Text → Outcome E Cert
  pub read_file : Text → Outcome E Data
  pub decode : Data → Option Block × Data
  pub parse_certificate : Block → Outcome E Cert
  pub empty_pool : Pool
  pub add_cert : Cert → Pool → Pool

-- A *tls.Config.
pub record TlsConfig (Cert Pool : Type 0) : Type 0 where
  pub skip_verify : Bool
  pub certificates : Option Cert
  pub root_cas : Option Pool

module _ {E Data Block Cert Pool : Type 0} (lib : TlsLibrary E Data Block Cert Pool) where
  add_block : Pool → Outcome E Cert → (Pool → Option (Outcome E Pool)) → Option (Outcome E Pool)
  add_block capool (failed e) continue = some (failed e)
  add_block capool (gave cacert) continue = continue (lib.add_cert cacert capool)

  next_round : Pool → Option Block → (Pool → Option (Outcome E Pool)) → Option (Outcome E Pool)
  unfolding add_block
  next_round capool none continue = some (gave capool)
  next_round capool (some block) continue = add_block capool (lib.parse_certificate block) continue

  -- The loop over the blocks of a file, with a number of rounds that it may take; `none` when they are
  -- not enough. Every round decodes the same data.
  unfoldable pub ca_loop : ℕ → Data → Pool → Option (Outcome E Pool)
  unfolding next_round
  ca_loop zero file capool = none
  ca_loop (suc n) file capool = next_round capool (lib.decode file).0 (ca_loop n file)

  with_roots :
      TlsConfig Cert Pool
      → Option (Outcome E Pool)
      → Option (Outcome E (Option (TlsConfig Cert Pool)))
  with_roots config none = none
  with_roots config (some (failed e)) = some (failed e)
  with_roots config (some (gave capool)) =
      some (gave (some (record config { root_cas = some capool })))

  read_ca :
      ℕ → Outcome E Data → TlsConfig Cert Pool → Option (Outcome E (Option (TlsConfig Cert Pool)))
  unfolding with_roots
  read_ca n (failed e) config = some (failed e)
  read_ca n (gave file) config = with_roots config (ca_loop n file lib.empty_pool)

  with_ca : ℕ → Text → TlsConfig Cert Pool → Option (Outcome E (Option (TlsConfig Cert Pool)))
  unfolding read_ca
  with_ca n [] config = some (gave (some config))
  with_ca n (c ∷ path) config = read_ca n (lib.read_file (c ∷ path)) config

  with_pair : Outcome E Cert → TlsConfig Cert Pool → Outcome E (TlsConfig Cert Pool)
  with_pair (failed e) config = failed e
  with_pair (gave cert) config = gave (record config { certificates = some cert })

  key_pair : TlsOptions → TlsConfig Cert Pool → Outcome E (TlsConfig Cert Pool)
  unfolding with_pair
  key_pair o config =
      if not (is_empty o.cert) && not (is_empty o.key)
      then with_pair (lib.load_key_pair o.cert o.key) config
      else gave config

  after_pair :
      ℕ → Text → Outcome E (TlsConfig Cert Pool) → Option (Outcome E (Option (TlsConfig Cert Pool)))
  unfolding with_ca
  after_pair n ca_cert (failed e) = some (failed e)
  after_pair n ca_cert (gave config) = with_ca n ca_cert config

  unfoldable pub paired : TlsOptions → Outcome E (TlsConfig Cert Pool)
  unfolding key_pair
  paired o =
      key_pair o
        (record { skip_verify = o.insecure_skip_verify; certificates = none; root_cas = none })

  -- TLSConfig, with a number of rounds for its loop; a nil configuration is `none` inside.
  unfoldable pub tls_config : ℕ → TlsOptions → Option (Outcome E (Option (TlsConfig Cert Pool)))
  unfolding after_pair
  tls_config n o = if not o.use_tls then some (gave none) else after_pair n o.ca_cert (paired o)
