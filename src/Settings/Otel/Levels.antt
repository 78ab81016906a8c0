-- ===== src/Settings/Otel/Levels.antt =====
-- options/slog_options.go, log/options.go and otelslog/config.go: three readers of a level.
use linhub.Base.{
  All, Bool, Bool-cases, IsAscii, List, Text, [], any, ap, arith, capitals, codes, false,
  has_prefix, if◌then◌else◌, inl, inr, lower, negsuc, not, pos, refl, replace_from, small, str_eq,
  str_eq_iff, to_lower, to_lower-to_upper, to_upper, trim_space, true, upper, ℤ, ◌++◌, ◌||◌, ◌∙◌,
  ◌∷◌, ◌≡◌,
}
use linhub.Settings.Otel.{
  OTelError, SlogOptions, error_if, invalid_log_level, new_slog_options, one_of, to_slog_level,
  validate_slog,
}
use linhub.Log.{is_one_of, parse_level}
use linhub.Otelslog.Config.{parse_level_string}

folded :
    (s w name : Text)
    → IsAscii s
    → small w ≡ true
    → to_upper s ≡ name
    → str_eq (to_lower s) w ≡ str_eq name (capitals w)
folded s w name ascii h e = to_lower-to_upper s w ascii h ∙ ap (λ n. str_eq n (capitals w)) e

-- parseLevel on a text in capitals.
upper_level : Text → ℤ × Bool
upper_level name =
    if str_eq name [] || (str_eq name (codes "INFO") || false)
    then (pos 0, false)
    else if str_eq name (codes "DEBUG")
    then (negsuc 3, false)
    else if str_eq name (codes "WARN") || (str_eq name (codes "WARNING") || false)
    then (pos 4, false)
    else if str_eq name (codes "ERROR")
    then (pos 8, false)
    else if str_eq name (codes "PANIC") || (str_eq name (codes "FATAL") || false)
    then (pos 8, false)
    else (pos 0, true)

parse_level-upper :
    (t name : Text)
    → IsAscii (trim_space t)
    → to_upper (trim_space t) ≡ name
    → parse_level t ≡ upper_level name
unfolding parse_level is_one_of upper_level small
parse_level-upper t name ascii e =
    let s = trim_space t in
    rw
      (
        folded s [] _ ascii refl e,
        folded s (codes "info") _ ascii refl e,
        folded s (codes "debug") _ ascii refl e,
        folded s (codes "warn") _ ascii refl e,
        folded s (codes "warning") _ ascii refl e,
        folded s (codes "error") _ ascii refl e,
        folded s (codes "panic") _ ascii refl e,
        folded s (codes "fatal") _ ascii refl e,
      )
      refl

-- A conclusion that follows from each of some words follows when a text is one of them.
each_word :
    {C : Type 0} (n : Text) (ws : List Text)
    → All (λ w. n ≡ w → C) ws
    → any (str_eq n) ws ≡ true
    → C
each_word n [] _ h = absurd (ground arith)
each_word n (w ∷ ws) (here, there) h = elim (Bool-cases (str_eq n w)) [
  | inl e ↦ here ((str_eq_iff n w).0 e)
  | inr e ↦ each_word n ws there (ground arith)
]

abbrev Agree : SlogOptions → Type 0
Agree o =
    (parse_level o.level ≡ (to_slog_level o, false))
    × (parse_level_string o.level ≡ to_slog_level o)

Agree-debug :
    (o : SlogOptions)
    → IsAscii (trim_space o.level)
    → to_upper (trim_space o.level) ≡ codes "DEBUG"
    → Agree o
unfolding to_slog_level parse_level_string upper_level str_eq
Agree-debug o ascii e = rw (parse_level-upper o.level (codes "DEBUG") ascii e, e) (refl, refl)

Agree-info :
    (o : SlogOptions)
    → IsAscii (trim_space o.level)
    → to_upper (trim_space o.level) ≡ codes "INFO"
    → Agree o
unfolding to_slog_level parse_level_string upper_level str_eq
Agree-info o ascii e = rw (parse_level-upper o.level (codes "INFO") ascii e, e) (refl, refl)

Agree-warn :
    (o : SlogOptions)
    → IsAscii (trim_space o.level)
    → to_upper (trim_space o.level) ≡ codes "WARN"
    → Agree o
unfolding to_slog_level parse_level_string upper_level str_eq
Agree-warn o ascii e = rw (parse_level-upper o.level (codes "WARN") ascii e, e) (refl, refl)

Agree-warning :
    (o : SlogOptions)
    → IsAscii (trim_space o.level)
    → to_upper (trim_space o.level) ≡ codes "WARNING"
    → Agree o
unfolding to_slog_level parse_level_string upper_level str_eq
Agree-warning o ascii e = rw (parse_level-upper o.level (codes "WARNING") ascii e, e) (refl, refl)

Agree-error :
    (o : SlogOptions)
    → IsAscii (trim_space o.level)
    → to_upper (trim_space o.level) ≡ codes "ERROR"
    → Agree o
unfolding to_slog_level parse_level_string upper_level str_eq
Agree-error o ascii e = rw (parse_level-upper o.level (codes "ERROR") ascii e, e) (refl, refl)

slog_levels : List Text
slog_levels = codes "DEBUG" ∷ codes "INFO" ∷ codes "WARN" ∷ codes "WARNING" ∷ codes "ERROR" ∷ []

first_passes :
    (b : Bool) (e : OTelError) (xs ys : List OTelError)
    → (error_if (not b) e ++ xs) ++ ys ≡ []
    → b ≡ true
unfolding error_if
first_passes true e xs ys h = refl
first_passes false e xs ys h = cc

validate_slog-level :
    (o : SlogOptions)
    → validate_slog o ≡ []
    → any (str_eq (to_upper (trim_space o.level))) slog_levels ≡ true
unfolding validate_slog slog_levels one_of
validate_slog-level o ok =
    first_passes (any (str_eq (to_upper (trim_space o.level))) slog_levels)
      (invalid_log_level o.level) _ _ ok

-- When Validate of SlogOptions has no error, and the level is ASCII without the spaces around it, the
-- level is read in the same way, and without an error, by SlogOptions, by the logger of package log and
-- by the handler of otelslog.
pub to_slog_level-agrees :
    (o : SlogOptions)
    → IsAscii (trim_space o.level)
    → validate_slog o ≡ []
    → (parse_level o.level ≡ (to_slog_level o, false))
      × (parse_level_string o.level ≡ to_slog_level o)
unfolding slog_levels
to_slog_level-agrees o ascii ok =
    each_word (to_upper (trim_space o.level)) slog_levels
      (
        Agree-debug o ascii,
        (
          Agree-info o ascii,
          (Agree-warn o ascii, (Agree-warning o ascii, (Agree-error o ascii, tt))),
        ),
      )
      (validate_slog-level o ok)

-- The level that is written with a dotless i is accepted and is an error to the logger.
dotless_info :
    (validate_slog (record new_slog_options { level = 196 ∷ 177 ∷ codes "nfo" }) ≡ [])
    × (parse_level (196 ∷ 177 ∷ codes "nfo") ≡ (pos 0, true))
unfolding validate_slog parse_level is_one_of str_eq to_upper to_lower upper lower trim_space
    replace_from has_prefix
dotless_info = (refl, refl)
