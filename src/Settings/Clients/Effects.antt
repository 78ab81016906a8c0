-- ===== src/Settings/Clients/Effects.antt =====
-- options/mysql_options.go, options/postgresql_options.go and options/redis_options.go: what the flags
-- and the check do to the options.
use linhub.Base.{
  Bool, Bool-cases, Text, arith, eq_ℤ, false, if◌then◌else◌, inl, inr, ltb_ℤ, negsuc, pos, refl,
  some, str_eq, true, ℤ, ◌+ℤ◌, ◌≡◌,
}
use linhub.Settings.Flags.{FlagLibrary, add_flags}
use linhub.Settings.Flags.Defined.{
  FlagLaws, IsUnused, IsUnused-IsFree, add_flags_ok, all_distinct, suffixes,
}
use linhub.Settings.Clients.{
  RedisOptions, SqlOptions, mysql_flags, or_number, postgresql_flags, seconds, validate_redis,
}

distinct_mysql : all_distinct (suffixes mysql_flags) ≡ true
unfolding all_distinct str_eq
distinct_mysql = refl

distinct_postgresql : all_distinct (suffixes postgresql_flags) ≡ true
unfolding all_distinct str_eq
distinct_postgresql = refl

-- The AddFlags of MySQL and of PostgreSQL do not panic when no flag starts with the prefix yet, and
-- both change the options: the number of idle connections becomes the number of open ones.
pub add_flags-idle_connections :
    {S : Type 0} {lib : FlagLibrary S} (laws : FlagLaws lib) (p : Text) (o : SqlOptions) (fs : S)
    → IsUnused p (lib.names fs)
    → ((fs' : S) × (add_flags lib p mysql_flags (o, fs)
          ≡ some (record o { max_idle_connections = o.max_open_connections }, fs')))
      × ((fs' : S) × (add_flags lib p postgresql_flags (o, fs)
            ≡ some (record o { max_idle_connections = o.max_open_connections }, fs')))
add_flags-idle_connections {lib = lib} laws p o fs unused =
    let (fs1, done1, _) =
      add_flags_ok laws p mysql_flags o fs distinct_mysql
        (IsUnused-IsFree p (suffixes mysql_flags) (lib.names fs) unused) in
    let (fs2, done2, _) =
      add_flags_ok laws p postgresql_flags o fs distinct_postgresql
        (IsUnused-IsFree p (suffixes postgresql_flags) (lib.names fs) unused) in
    ((fs1, done1), (fs2, done2))

or_number_idem : (d n : ℤ) → or_number d (or_number d n) ≡ or_number d n
unfolding or_number
or_number_idem d n = elim (Bool-cases (eq_ℤ n (pos 0))) [
  | inl e ↦ rw e (same (eq_ℤ d (pos 0)))
  | inr e ↦ rw (e, e) refl
]
  where
    same : (b : Bool) → (if b then d else d) ≡ d
    same true = refl
    same false = refl

or_number_nonzero : (d n : ℤ) → eq_ℤ d (pos 0) ≡ false → eq_ℤ (or_number d n) (pos 0) ≡ false
unfolding or_number
or_number_nonzero d n h = elim (Bool-cases (eq_ℤ n (pos 0))) [ inl e ↦ rw e h | inr e ↦ rw e e ]

positive : (d : ℤ) → ltb_ℤ (pos 0) d ≡ true → eq_ℤ d (pos 0) ≡ false
positive (pos n) h = ground arith
positive (negsuc n) h = ground arith

longer : (d : ℤ) → ltb_ℤ (pos 0) d ≡ true → eq_ℤ (d +ℤ seconds 1) (pos 0) ≡ false
unfolding seconds
longer (pos n) h = ground arith
longer (negsuc n) h = ground arith

-- Validate of Redis may be called any number of times: from the second time on it changes nothing.
-- With a positive read timeout it leaves a write timeout and a pool timeout that are not zero.
pub validate_redis_idem :
    (o : RedisOptions)
    → (ltb_ℤ (pos 0) o.read_timeout ≡ true)
    → (validate_redis (validate_redis o) ≡ validate_redis o)
      × (eq_ℤ (validate_redis o).write_timeout (pos 0) ≡ false)
      × (eq_ℤ (validate_redis o).pool_timeout (pos 0) ≡ false)
unfolding validate_redis
validate_redis_idem o h = (
  rw
      (
        or_number_idem o.read_timeout o.write_timeout,
        or_number_idem (o.read_timeout +ℤ seconds 1) o.pool_timeout,
      )
      refl,
  or_number_nonzero o.read_timeout o.write_timeout (positive o.read_timeout h),
  or_number_nonzero (o.read_timeout +ℤ seconds 1) o.pool_timeout (longer o.read_timeout h),
)
