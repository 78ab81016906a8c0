-- ===== src/Settings/Kafka/Mechanisms.antt =====
-- options/kafka_options.go: mechanisms that Validate accepts and GetMechanism does not know.
use mathlib.Core.Option
use mathlib.Core.Option.{some-injective}
use linhub.Base.{
  Bool, Bool-cases, IsAscii, List, Option, Text, [], ap, append-empty_iff, arith, capitals, codes,
  eq_ℤ, false, has_prefix, inl, inr, is_empty, leb_ℤ, lower, map, none, not, pos, refl,
  replace_from, small, some, str_eq, str_eq_iff, sym, to_lower, to_lower-IsAscii, to_lower-to_upper,
  to_upper, true, ◌&&◌, ◌++◌, ◌↔◌, ◌∙◌, ◌∷◌, ◌≡◌, ◌≢◌, ◌⊎◌,
}
use linhub.Util.Lists.{find_string, string_in}
use linhub.Settings.Kafka.{
  KafkaError, KafkaOptions, ScramAlgorithm, batch_timeout_not_positive, broker_empty, error_if,
  get_mechanism, is_case, is_nil, kafka_errors, made, mechanism_without_tls, partition_and_group,
  timeout_not_positive, tls_error, unsupported_mechanism, validate_kafka,
}
use linhub.Settings.Tls.{Outcome, TlsOptions, failed, gave, validate_tls}

mechanisms : List Text
mechanisms = codes "plain" ∷ codes "scram" ∷ [] ∷ []

error_passes : (b : Bool) (e : KafkaError) → error_if (not b) e ≡ [] → b ≡ true
error_passes true e h = refl
error_passes false e h = cc

third_passes :
    (b : Bool) (e : KafkaError) (a c d f g h : List KafkaError)
    → a ++ c ++ error_if (not b) e ++ d ++ f ++ g ++ h ≡ []
    → b ≡ true
third_passes b e a c d f g h k =
    let upto_g = ((append-empty_iff (a ++ c ++ error_if (not b) e ++ d ++ f ++ g) h).0 k).0 in
    let upto_f = ((append-empty_iff (a ++ c ++ error_if (not b) e ++ d ++ f) g).0 upto_g).0 in
    let upto_d = ((append-empty_iff (a ++ c ++ error_if (not b) e ++ d) f).0 upto_f).0 in
    let upto_e = ((append-empty_iff (a ++ c ++ error_if (not b) e) d).0 upto_d).0 in
    error_passes b e ((append-empty_iff (a ++ c) (error_if (not b) e)).0 upto_e).1

accepted_mechanism :
    (tls : TlsOptions) (o : KafkaOptions)
    → kafka_errors tls o ≡ []
    → string_in (to_lower o.sasl_mechanism) mechanisms ≡ true
unfolding kafka_errors mechanisms
accepted_mechanism tls o ok =
    third_passes (string_in (to_lower o.sasl_mechanism) mechanisms)
      (unsupported_mechanism o.sasl_mechanism) (error_if (is_nil o.brokers) broker_empty)
      (error_if (not tls.use_tls && not (is_empty o.sasl_mechanism)) mechanism_without_tls)
      (error_if (leb_ℤ o.timeout (pos 0)) timeout_not_positive)
      (error_if
        (not (is_empty o.reader_options.group_id) && not (eq_ℤ o.reader_options.partition (pos 0)))
        partition_and_group)
      (error_if (leb_ℤ o.writer_options.batch_timeout (pos 0)) batch_timeout_not_positive)
      (map tls_error (validate_tls tls)) ok

mapped_empty :
    {A B : Type 0} (f : A → List B) (o : Option A) → Option.map f o ≡ some [] → (v : A) × (f v ≡ [])
mapped_empty f none h = cc
mapped_empty f (some v) h = (v, some-injective _ _ h)

validated :
    (o : KafkaOptions)
    → validate_kafka o ≡ some []
    → string_in (to_lower o.sasl_mechanism) mechanisms ≡ true
unfolding validate_kafka
validated o ok =
    let (tls, none_left) = mapped_empty (λ tls. kafka_errors tls o) o.tls_options ok in
    accepted_mechanism tls o none_left

string_in_cases :
    (n : Text)
    → string_in n mechanisms ≡ true
    → (n ≡ codes "plain") ⊎ ((n ≡ codes "scram") ⊎ (n ≡ []))
unfolding string_in find_string mechanisms
string_in_cases n h = elim (Bool-cases (str_eq n (codes "plain"))) [
  | inl e ↦ inl ((str_eq_iff _ _).0 e)
  | inr e ↦ elim (Bool-cases (str_eq n (codes "scram"))) [
    | inl e' ↦ inr (inl ((str_eq_iff _ _).0 e'))
    | inr e' ↦ elim (Bool-cases (str_eq n [])) [
      | inl e'' ↦ inr (inr ((str_eq_iff _ _).0 e''))
      | inr e'' ↦ let no = rw (e, e', e'') at h in cc
    ]
  ]
]

-- A text with the letters of a word is one of its two spellings unless it differs from both its own
-- small letters and its own capitals.
is_case-spelling :
    (s w : Text)
    → IsAscii s
    → small w ≡ true
    → to_lower s ≡ w
    → (is_case s (capitals w ∷ w ∷ []) ≡ false) ↔ ((s ≢ to_lower s) × (s ≢ to_upper s))
unfolding is_case
is_case-spelling s w ascii ok low =
    let up : to_upper s ≡ capitals w =
      (str_eq_iff _ _).0 (sym (to_lower-to_upper s w ascii ok) ∙ (str_eq_iff _ _).1 low) in
    rw (low, up) (ground (arith, str_eq_iff s w, str_eq_iff s (capitals w)))

other_word : (s w t : Text) → to_lower s ≡ w → str_eq w (to_lower t) ≡ false → str_eq s t ≡ false
other_word s w t low apart = elim (Bool-cases (str_eq s t)) [
  | inr e ↦ e
  | inl e ↦
      let same : w ≡ to_lower t = sym low ∙ ap to_lower ((str_eq_iff s t).0 e) in
      let no = (str_eq_iff w (to_lower t)).1 same in cc
]

not_scram :
    (s : Text) → to_lower s ≡ codes "plain" → is_case s (codes "SCRAM" ∷ codes "scram" ∷ []) ≡ false
unfolding is_case to_lower lower replace_from has_prefix str_eq
not_scram s low =
    rw (other_word s _ (codes "SCRAM") low refl, other_word s _ (codes "scram") low refl) refl

not_plain :
    (s : Text) → to_lower s ≡ codes "scram" → is_case s (codes "PLAIN" ∷ codes "plain" ∷ []) ≡ false
unfolding is_case to_lower lower replace_from has_prefix str_eq
not_plain s low =
    rw (other_word s _ (codes "PLAIN") low refl, other_word s _ (codes "plain") low refl) refl

small_words : (small (codes "plain") ≡ true) × (small (codes "scram") ≡ true)
unfolding small
small_words = (refl, refl)

nonempty_text : (s : Text) → s ≢ [] → is_empty s ≡ false
nonempty_text [] h = absurd (h refl)
nonempty_text (c ∷ s) h = refl

no_letters : (s : Text) → IsAscii s → to_lower s ≡ [] → s ≡ []
no_letters [] ascii low = refl
no_letters (c ∷ s) ascii low = let no = sym (to_lower-IsAscii (c ∷ s) ascii) ∙ low in cc

module _ {M E : Type 0} (plain : Text → Text → M)
    (scram : ScramAlgorithm → Text → Text → Outcome E M) where
  made_some : (r : Outcome E M) → made plain scram r ≢ gave none
  unfolding made
  made_some (failed e) h = cc
  made_some (gave m) h = cc

  unused_iff :
      (o : KafkaOptions)
      → is_empty o.sasl_mechanism ≡ false
      → (get_mechanism plain scram o ≡ gave none) ↔ (
          (is_case o.sasl_mechanism (codes "PLAIN" ∷ codes "plain" ∷ []) ≡ false)
          × (is_case o.sasl_mechanism (codes "SCRAM" ∷ codes "scram" ∷ []) ≡ false))
  unfolding get_mechanism
  unused_iff o nonempty =
      rw nonempty
        (elim (Bool-cases (is_case o.sasl_mechanism (codes "PLAIN" ∷ codes "plain" ∷ []))) [
          | inl e ↦ rw e (λ h. cc, λ (h, _). cc)
          | inr e ↦
              elim (Bool-cases (is_case o.sasl_mechanism (codes "SCRAM" ∷ codes "scram" ∷ []))) [
                | inl e' ↦ rw (e, e') (λ h. absurd (made_some _ h), λ (_, h). cc)
                | inr e' ↦ rw (e, e') (λ h. (refl, refl), λ h. refl)
              ]
        ])

  -- When Validate of Kafka has no error and the options have an ASCII mechanism that is not empty,
  -- GetMechanism returns no mechanism and no error, so that the client connects without
  -- authentication, exactly when the mechanism is spelled with letters of both cases.
  pub get_mechanism-validate_kafka :
      (o : KafkaOptions)
      → IsAscii o.sasl_mechanism
      → o.sasl_mechanism ≢ []
      → validate_kafka o ≡ some []
      → (get_mechanism plain scram o ≡ gave none) ↔ (
          (o.sasl_mechanism ≢ to_lower o.sasl_mechanism)
          × (o.sasl_mechanism ≢ to_upper o.sasl_mechanism))
  get_mechanism-validate_kafka o ascii some_mechanism ok =
      let s = o.sasl_mechanism in
      let law = unused_iff o (nonempty_text s some_mechanism) in
      elim (string_in_cases (to_lower s) (validated o ok)) [
        | inl low ↦
            let spelled = is_case-spelling s (codes "plain") ascii small_words.0 low in
            (λ h. spelled.0 (law.0 h).0, λ h. law.1 (spelled.1 h, not_scram s low))
        | inr (inl low) ↦
            let spelled = is_case-spelling s (codes "scram") ascii small_words.1 low in
            (λ h. spelled.0 (law.0 h).1, λ h. law.1 (not_plain s low, spelled.1 h))
        | inr (inr low) ↦ absurd (some_mechanism (no_letters s ascii low))
      ]
