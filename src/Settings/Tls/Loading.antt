-- ===== src/Settings/Tls/Loading.antt =====
-- options/tls_options.go, TLSConfig: when its loop ends.
use linhub.Base.{
  Bool, Option, Option-cases, Text, [], ap, arith, false, if◌then◌else◌, inl, inr, is_empty, none,
  not, refl, some, suc, true, zero, ℕ, ◌&&◌, ◌∙◌, ◌∷◌, ◌≡◌, ◌⊎◌,
}
use linhub.Settings.Tls.{
  Outcome, TlsConfig, TlsLibrary, TlsOptions, add_block, after_pair, ca_loop, failed, gave,
  key_pair, next_round, paired, read_ca, tls_config, with_ca, with_pair, with_roots,
}

Outcome-cases :
    {E A : Type 0} (r : Outcome E A) → ((e : E) × (r ≡ failed e)) ⊎ ((a : A) × (r ≡ gave a))
Outcome-cases (failed e) = inl (e, refl)
Outcome-cases (gave a) = inr (a, refl)

module _ {E Data Block Cert Pool : Type 0} (lib : TlsLibrary E Data Block Cert Pool) where
  -- The file of the CA starts with a certificate, as such a file does.
  abbrev pub HasCert : Data → Type 0
  HasCert file =
      (b : Block) × (c : Cert) × ((lib.decode file).0 ≡ some b) × (lib.parse_certificate b ≡ gave c)

  loop_forever :
      (n : ℕ) (file : Data) (capool : Pool) → HasCert file → ca_loop lib n file capool ≡ none
  unfolding ca_loop next_round add_block
  loop_forever zero file capool has = refl
  loop_forever (suc n) file capool (b, c, first, parsed) =
      rw (first, parsed) (loop_forever n file (lib.add_cert c capool) (b, c, first, parsed))

  abbrev Result : Type 0
  Result = Outcome E (Option (TlsConfig Cert Pool))

  -- A loop with one round gives its result with any more; or it never does, and then the file of the CA
  -- has a certificate.
  abbrev pub OnceOrNever : Text → (ℕ → Option Result) → Type 0
  OnceOrNever ca_cert f =
      ((r : Result) × ((n : ℕ) → f (suc n) ≡ some r))
      ⊎ ((file : Data) × (lib.read_file ca_cert ≡ gave file)
          × HasCert file
          × ((n : ℕ) → f n ≡ none))

  loop_once :
      (file : Data) (capool : Pool)
      → ((r : Outcome E Pool) × ((n : ℕ) → ca_loop lib (suc n) file capool ≡ some r)) ⊎ HasCert file
  unfolding ca_loop next_round add_block
  loop_once file capool = elim (Option-cases (lib.decode file).0) [
    | inl e ↦ inl (gave capool, λ n. rw e refl)
    | inr (b, e) ↦ elim (Outcome-cases (lib.parse_certificate b)) [
      | inl (err, bad) ↦ inl (failed err, λ n. rw (e, bad) refl)
      | inr (c, good) ↦ inr (b, c, e, good)
    ]
  ]

  roots_of : TlsConfig Cert Pool → Outcome E Pool → Result
  roots_of config (failed e) = failed e
  roots_of config (gave capool) = gave (some (record config { root_cas = some capool }))

  with_roots-some :
      (config : TlsConfig Cert Pool) (r : Outcome E Pool)
      → with_roots lib config (some r) ≡ some (roots_of config r)
  unfolding with_roots roots_of
  with_roots-some config (failed e) = refl
  with_roots-some config (gave capool) = refl

  read_ca_once :
      (ca_cert : Text) (r : Outcome E Data) (config : TlsConfig Cert Pool)
      → lib.read_file ca_cert ≡ r
      → OnceOrNever ca_cert (λ n. read_ca lib n r config)
  unfolding read_ca with_roots
  read_ca_once ca_cert (failed e) config read = inl (failed e, λ n. refl)
  read_ca_once ca_cert (gave file) config read = elim (loop_once file lib.empty_pool) [
    | inl (r, ends) ↦
        inl (roots_of config r, λ n. ap (with_roots lib config) (ends n) ∙ with_roots-some config r)
    | inr has ↦
        inr (
          file,
          read,
          has,
          λ n. ap (with_roots lib config) (loop_forever n file lib.empty_pool has),
        )
  ]

  with_ca_once :
      (ca_cert : Text) (config : TlsConfig Cert Pool)
      → OnceOrNever ca_cert (λ n. with_ca lib n ca_cert config)
  unfolding with_ca
  with_ca_once [] config = inl (gave (some config), λ n. refl)
  with_ca_once (c ∷ path) config = read_ca_once (c ∷ path) (lib.read_file (c ∷ path)) config refl

  after_pair_once :
      (ca_cert : Text) (r : Outcome E (TlsConfig Cert Pool))
      → OnceOrNever ca_cert (λ n. after_pair lib n ca_cert r)
  unfolding after_pair
  after_pair_once ca_cert (failed e) = inl (failed e, λ n. refl)
  after_pair_once ca_cert (gave config) = with_ca_once ca_cert config

  -- TLSConfig either returns, after at most one round of its loop, or never returns, however many
  -- rounds its loop is given. It never returns only when the file of the CA starts with a block that is
  -- a certificate, which is what such a file is for.
  pub tls_config-OnceOrNever : (o : TlsOptions) → OnceOrNever o.ca_cert (λ n. tls_config lib n o)
  unfolding tls_config
  tls_config-OnceOrNever o = by_use o.use_tls
    where
      by_use :
          (use_tls : Bool)
          → OnceOrNever o.ca_cert (λ n.
            if not use_tls then some (gave none) else after_pair lib n o.ca_cert (paired lib o))
      by_use false = inl (gave none, λ n. refl)
      by_use true = after_pair_once o.ca_cert (paired lib o)

  with_ca_forever :
      (ca_cert : Text) (config : TlsConfig Cert Pool) (file : Data) (n : ℕ)
      → is_empty ca_cert ≡ false
      → lib.read_file ca_cert ≡ gave file
      → HasCert file
      → with_ca lib n ca_cert config ≡ none
  unfolding with_ca read_ca with_roots
  with_ca_forever [] config file n has_ca read has = absurd (ground arith)
  with_ca_forever (c ∷ path) config file n has_ca read has =
      ap (λ r. read_ca lib n r config) read
      ∙ ap (with_roots lib config) (loop_forever n file lib.empty_pool has)

  abbrev bare : TlsOptions → TlsConfig Cert Pool
  bare o = record { skip_verify = o.insecure_skip_verify; certificates = none; root_cas = none }

  paired_alone : (o : TlsOptions) → o.cert ≡ [] → paired lib o ≡ gave (bare o)
  unfolding paired key_pair with_pair
  paired_alone o no_pair =
      ap
        (λ c.
          if not (is_empty c) && not (is_empty o.key)
          then with_pair lib (lib.load_key_pair c o.key) (bare o)
          else gave (bare o))
        no_pair

  -- With TLS, and no key pair to load, a file of the CA that starts with a certificate makes TLSConfig
  -- run for ever.
  pub tls_config-forever :
      (o : TlsOptions) (file : Data) (n : ℕ)
      → o.use_tls ≡ true
      → o.cert ≡ []
      → is_empty o.ca_cert ≡ false
      → lib.read_file o.ca_cert ≡ gave file
      → HasCert file
      → tls_config lib n o ≡ none
  unfolding tls_config after_pair
  tls_config-forever o file n tls no_pair has_ca read has =
      ap (λ b. if not b then some (gave none) else after_pair lib n o.ca_cert (paired lib o)) tls
      ∙ ap (after_pair lib n o.ca_cert) (paired_alone o no_pair)
      ∙ with_ca_forever o.ca_cert (bare o) file n has_ca read has
