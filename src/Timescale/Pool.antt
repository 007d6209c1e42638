-- ===== src/Timescale/Pool.antt =====
-- pkgs/database/timescaledb/pool.go: the text that a connection is opened with, and the database
-- that the setup creates. Opening a connection, and the text of a duration, are parameters.

use spectra_gnoland_indexer.Common.{
  ℕ, String, Bool, true, Option, none, some, List, [], ◌∷◌, ◌++◌, codes, str_eq, ℤ, int_codes,
  replace_all, contains_text, if◌then◌else◌,
}
use spectra_gnoland_indexer.DbInit.Statements.{concat}

-- a duration is in seconds
pub record DatabasePoolConfig : Type 0 where
  pub user : String
  pub password : String
  pub host : String
  pub port : ℤ
  pub dbname : String
  pub sslmode : String
  pub ssl_root_cert : String
  pub ssl_cert : String
  pub ssl_key : String
  pub pool_max_conns : ℤ
  pub pool_min_conns : ℤ
  pub pool_max_conn_lifetime : ℤ
  pub pool_max_conn_idle_time : ℤ
  pub pool_health_check_period : ℤ
  pub pool_max_conn_lifetime_jitter : ℤ

-- in single quotes, with a backslash before each backslash and each quote
unfoldable pub quote_dsn_value : List ℕ → List ℕ
quote_dsn_value value =
    (b'\'' ∷ [])
    ++ replace_all (replace_all value b'\\' (b'\\' ∷ b'\\' ∷ [])) b'\'' (b'\\' ∷ b'\'' ∷ [])
    ++ b'\'' ∷ []

abbrev pub setting : String → List ℕ → List ℕ
setting key value = codes key ++ value

abbrev quoted_setting : String → String → List ℕ
quoted_setting key value = setting key (quote_dsn_value (codes value))

-- a file of a certificate, if there is one
abbrev optional_setting : String → String → List ℕ
optional_setting key value = if str_eq value "" then [] else quoted_setting key value

unfoldable pub build_dsn : (ℤ → List ℕ) → DatabasePoolConfig → List ℕ
build_dsn format_duration c =
    quoted_setting "host=" c.host
    ++ setting " port=" (int_codes c.port)
    ++ quoted_setting " user=" c.user
    ++ quoted_setting " password=" c.password
    ++ quoted_setting " dbname=" c.dbname
    ++ quoted_setting " sslmode=" c.sslmode
    ++ setting " pool_max_conns=" (int_codes c.pool_max_conns)
    ++ setting " pool_min_conns=" (int_codes c.pool_min_conns)
    ++ setting " pool_max_conn_lifetime=" (format_duration c.pool_max_conn_lifetime)
    ++ setting " pool_max_conn_idle_time=" (format_duration c.pool_max_conn_idle_time)
    ++ setting " pool_health_check_period=" (format_duration c.pool_health_check_period)
    ++ setting " pool_max_conn_lifetime_jitter=" (format_duration c.pool_max_conn_lifetime_jitter)
    ++ optional_setting " sslrootcert=" c.ssl_root_cert
    ++ optional_setting " sslcert=" c.ssl_cert
    ++ optional_setting " sslkey=" c.ssl_key

-- an error that says that the database is there is none
abbrev is_created : String → Option (List ℕ) → Bool
is_created dbname none = true
is_created dbname (some text) =
    contains_text text (codes (concat ("database " ∷ dbname ∷ " already exists" ∷ [])))

abbrev with_dbname : DatabasePoolConfig → String → DatabasePoolConfig
with_dbname c name = record {
  user = c.user;
  password = c.password;
  host = c.host;
  port = c.port;
  dbname = name;
  sslmode = c.sslmode;
  ssl_root_cert = c.ssl_root_cert;
  ssl_cert = c.ssl_cert;
  ssl_key = c.ssl_key;
  pool_max_conns = c.pool_max_conns;
  pool_min_conns = c.pool_min_conns;
  pool_max_conn_lifetime = c.pool_max_conn_lifetime;
  pool_max_conn_idle_time = c.pool_max_conn_idle_time;
  pool_health_check_period = c.pool_health_check_period;
  pool_max_conn_lifetime_jitter = c.pool_max_conn_lifetime_jitter;
}

module _ {World : Type 0} where
  -- `exec` gives the text of its error
  unfoldable pub create_database :
      (String → World → Option (List ℕ) × World) → String → World → Bool × World
  create_database exec dbname w =
      let (error, after) = exec (concat ("CREATE DATABASE " ∷ dbname ∷ [])) w in
      (is_created dbname error, after)

  -- `close` closes the connection that there is, and `connect` opens one with the text
  unfoldable pub switch_database :
      (ℤ → List ℕ)
      → (World → World)
      → (List ℕ → World → Bool × World)
      → DatabasePoolConfig
      → String
      → World
      → Bool × World
  switch_database format_duration close connect c dbname w =
      connect (build_dsn format_duration (with_dbname c dbname)) (close w)
