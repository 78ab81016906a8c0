-- ===== src/Settings/Clients.antt =====
-- options/mysql_options.go, options/postgresql_options.go and options/redis_options.go: the options of
-- three clients, with the defaults of db/mysql.go and db/postgresql.go. A time is a number of
-- nanoseconds.
pub mod Effects
use linhub.Base.{Bool, List, Text, [], codes, eq_ℤ, false, if◌then◌else◌, pos, ℕ, ℤ, ◌*◌, ◌+ℤ◌, ◌∷◌}
use linhub.Settings.Flags.{Flag, flag}

-- MySQLOptions and PostgreSQLOptions, which have the same fields.
pub record SqlOptions : Type 0 where
  pub addr : Text
  pub username : Text
  pub password : Text
  pub database : Text
  pub max_idle_connections : ℤ
  pub max_open_connections : ℤ
  pub max_connection_life_time : ℤ
  pub log_level : ℤ

seconds : ℕ → ℤ
seconds n = pos (n * 1000000000)

unfoldable pub new_mysql_options : SqlOptions
unfolding seconds
new_mysql_options = record {
  addr = codes "127.0.0.1:3306";
  username = [];
  password = [];
  database = [];
  max_idle_connections = pos 10;
  max_open_connections = pos 20;
  max_connection_life_time = seconds 1800;
  log_level = pos 1;
}

unfoldable pub new_postgresql_options : SqlOptions
unfolding seconds
new_postgresql_options = record {
  addr = codes "127.0.0.1:5432";
  username = codes "onex";
  password = codes "onex(#)666";
  database = codes "onex";
  max_idle_connections = pos 100;
  max_open_connections = pos 100;
  max_connection_life_time = seconds 10;
  log_level = pos 1;
}

abbrev pub mysql_flags : List (Flag SqlOptions)
mysql_flags =
    flag ".host" (λ o. record o { addr = o.addr })
    ∷ flag ".username" (λ o. record o { username = o.username })
    ∷ flag ".password" (λ o. record o { password = o.password })
    ∷ flag ".database" (λ o. record o { database = o.database })
    ∷ flag ".max-idle-connections" (λ o. record o { max_idle_connections = o.max_open_connections })
    ∷ flag ".max-open-connections" (λ o. record o { max_open_connections = o.max_open_connections })
    ∷ flag ".max-connection-life-time"
        (λ o. record o { max_connection_life_time = o.max_connection_life_time })
    ∷ flag ".log-mode" (λ o. record o { log_level = o.log_level })
    ∷ []

abbrev pub postgresql_flags : List (Flag SqlOptions)
postgresql_flags =
    flag ".addr" (λ o. record o { addr = o.addr })
    ∷ flag ".username" (λ o. record o { username = o.username })
    ∷ flag ".password" (λ o. record o { password = o.password })
    ∷ flag ".database" (λ o. record o { database = o.database })
    ∷ flag ".max-idle-connections" (λ o. record o { max_idle_connections = o.max_open_connections })
    ∷ flag ".max-open-connections" (λ o. record o { max_open_connections = o.max_open_connections })
    ∷ flag ".max-connection-life-time"
        (λ o. record o { max_connection_life_time = o.max_connection_life_time })
    ∷ flag ".log-mode" (λ o. record o { log_level = o.log_level })
    ∷ []

or_default : Text → Text → Text
or_default d [] = d
or_default d (c ∷ s) = c ∷ s

or_number : ℤ → ℤ → ℤ
or_number d n = if eq_ℤ n (pos 0) then d else n

-- setMySQLDefaults; the logger is left out.
unfoldable pub set_mysql_defaults : SqlOptions → SqlOptions
unfolding or_default or_number seconds
set_mysql_defaults o = record o {
  addr = or_default (codes "127.0.0.1:3306") o.addr;
  max_idle_connections = or_number (pos 10) o.max_idle_connections;
  max_open_connections = or_number (pos 20) o.max_open_connections;
  max_connection_life_time = or_number (seconds 1800) o.max_connection_life_time;
}

pub record RedisOptions : Type 0 where
  pub addr : Text
  pub username : Text
  pub password : Text
  pub database : ℤ
  pub max_retries : ℤ
  pub min_idle_conns : ℤ
  pub dial_timeout : ℤ
  pub read_timeout : ℤ
  pub write_timeout : ℤ
  pub pool_timeout : ℤ
  pub pool_size : ℤ
  pub enable_trace : Bool

unfoldable pub new_redis_options : RedisOptions
unfolding seconds
new_redis_options = record {
  addr = codes "127.0.0.1:6379";
  username = [];
  password = [];
  database = pos 0;
  max_retries = pos 3;
  min_idle_conns = pos 0;
  dial_timeout = seconds 5;
  read_timeout = seconds 3;
  write_timeout = seconds 3;
  pool_timeout = pos 0;
  pool_size = pos 10;
  enable_trace = false;
}

-- Validate of RedisOptions, which has no error: the options that it leaves.
unfoldable pub validate_redis : RedisOptions → RedisOptions
unfolding or_number seconds
validate_redis o = record o {
  write_timeout = or_number o.read_timeout o.write_timeout;
  pool_timeout = or_number (o.read_timeout +ℤ seconds 1) o.pool_timeout;
}

abbrev pub redis_flags : List (Flag RedisOptions)
redis_flags =
    flag ".addr" (λ o. record o { addr = o.addr })
    ∷ flag ".username" (λ o. record o { username = o.username })
    ∷ flag ".password" (λ o. record o { password = o.password })
    ∷ flag ".database" (λ o. record o { database = o.database })
    ∷ flag ".max-retries" (λ o. record o { max_retries = o.max_retries })
    ∷ flag ".min-idle-conns" (λ o. record o { min_idle_conns = o.min_idle_conns })
    ∷ flag ".dial-timeout" (λ o. record o { dial_timeout = o.dial_timeout })
    ∷ flag ".read-timeout" (λ o. record o { read_timeout = o.read_timeout })
    ∷ flag ".write-timeout" (λ o. record o { write_timeout = o.write_timeout })
    ∷ flag ".pool-timeout" (λ o. record o { pool_timeout = o.pool_timeout })
    ∷ flag ".pool-size" (λ o. record o { pool_size = o.pool_size })
    ∷ flag ".enable-trace" (λ o. record o { enable_trace = o.enable_trace })
    ∷ []
