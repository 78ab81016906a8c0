-- ===== src/Log/Gorm.antt =====
-- log/gorm.go: the level of the logger after LogMode.
use linhub.Log.{
  GormLevels, Options, gorm_level, gorm_level_map, is_one_of, log_mode, mode_text, or_warn,
  query_failed, trace,
}
use linhub.Base.{
  Bool-cases, arith, false, if◌then◌else◌, inl, inr, leb, ltb, pos, refl, some, str_eq, suc, true,
  ℕ, ℤ, ◌==◌, ◌||◌, ◌∙◌, ◌≡◌, ◌≤◌,
}

-- The levels of GORM are four numbers in a row.
pub record InARow (g : GormLevels) : Type 0 where
  pub error : g.error ≡ suc g.silent
  pub warn : g.warn ≡ suc g.error
  pub info : g.info ≡ suc g.warn

level_of_mode :
    (g : GormLevels) (l : ℕ) (o : Options)
    → gorm_level g (log_mode g l (some o)) ≡ (
        if leb l g.silent || (l == g.error)
        then g.error
        else if l == g.warn
        then g.warn
        else g.info)
unfolding gorm_level log_mode mode_text gorm_level_map is_one_of str_eq or_warn
level_of_mode g l o = elim (Bool-cases (leb l g.silent)) [
  | inl a ↦ rw a refl
  | inr a ↦ elim (Bool-cases (l == g.error)) [
    | inl b ↦ rw (a, b) refl
    | inr b ↦ elim (Bool-cases (l == g.warn)) [
      | inl d ↦ rw (a, b, d) refl
      | inr d ↦ rw (a, b, d) refl
    ]
  ]
]

clamped :
    (l s e w n : ℕ)
    → e ≡ suc s
    → w ≡ suc e
    → n ≡ suc w
    → (if leb l s || (l == e) then e else if l == w then w else n)
      ≡ (if ltb l e then e else if ltb n l then n else l)
clamped l s e w n h k m = ground arith

-- LogMode sets the level that is asked for, within the levels from Error to Info: a level below
-- Error, such as Silent, sets Error, and one above Info sets Info.
gorm_level-log_mode :
    (g : GormLevels) (l : ℕ) (o : Options)
    → InARow g
    → gorm_level g (log_mode g l (some o))
      ≡ (if ltb l g.error then g.error else if ltb g.info l then g.info else l)
gorm_level-log_mode g l o row =
    level_of_mode g l o ∙ clamped l g.silent g.error g.warn g.info row.error row.warn row.info

-- After LogMode with Silent or a lower level, a query that fails with another error than a missing
-- record is still logged, at the level of errors.
pub trace-log_mode_silent :
    (g : GormLevels) (l e : ℕ) (o : Options) (elapsed : ℤ)
    → InARow g
    → l ≤ g.silent
    → trace g (log_mode g l (some o)) elapsed (some (e, false))
      ≡ some (pos 8, query_failed e elapsed)
unfolding trace
trace-log_mode_silent g l e o elapsed row h =
    let small : ltb l g.error ≡ true = ground (arith, row.error) in
    let level : gorm_level g (log_mode g l (some o)) ≡ g.error =
      gorm_level-log_mode g l o row ∙ (rw small refl) in
    let loud : leb g.error g.silent ≡ false = ground (arith, row.error) in
    let enough : leb g.error g.error ≡ true = ground arith in rw (level, loud, enough) refl
