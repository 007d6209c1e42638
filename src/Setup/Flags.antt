-- ===== src/Setup/Flags.antt =====
-- indexer/cli/func.go and setup.go: the flags of the setup commands, and the command create-user.
-- The flags, the environment ("" for a variable that is not set), the reading of a number and of
-- a password are parameters.

use spectra_gnoland_indexer.Common.{
  ℕ, String, Bool, true, false, not, ◌&&◌, Option, none, some, List, [], ◌∷◌, ◌++◌, contains,
  string_comparable, str_eq, codes, contains_text, ℤ, pos, negsuc, ltb, leb, ◌==◌, if◌then◌else◌,
}
use spectra_gnoland_indexer.DbInit.Statements.{concat, appoint_privileges}
use spectra_gnoland_indexer.DbInit.Versions.{Created, finished, fatal}
use spectra_gnoland_indexer.Schema.Tables.{all_table_names}
use spectra_gnoland_indexer.Schema.Aggregates.{all_aggr_table_names}
use spectra_gnoland_indexer.Timescale.Pool.{DatabasePoolConfig}

abbrev allowed_ssl_modes : List String
allowed_ssl_modes = "disable" ∷ "require" ∷ "verify-ca" ∷ "verify-full" ∷ "allow" ∷ "prefer" ∷ []

abbrev allowed_user_privileges : List String
allowed_user_privileges = "reader" ∷ "writer" ∷ "keymgr" ∷ []

-- `dbParams`, also for the flags as they are given
pub record DbParams : Type 0 where
  pub host : String
  pub port : ℤ
  pub user : String
  pub name : String
  pub password : String
  pub ssl_mode : String
  pub ssl_root_cert : String
  pub ssl_cert : String
  pub ssl_key : String

-- a text, or another one if it is empty
abbrev or_text : String → String → String
or_text s t = if str_eq s "" then t else s

unfoldable get_flag_string_with_default : String → String → String
get_flag_string_with_default value default_value = or_text value default_value

abbrev is_zero : ℤ → Bool
is_zero (pos n) = n == 0
is_zero (negsuc n) = false

abbrev port_or : ℤ → ℤ
port_or port = if is_zero port then pos 5432 else port

-- a port from 1 to 65535
abbrev is_port : ℤ → Bool
is_port (pos n) = not (ltb n 1) && leb n 65535
is_port (negsuc n) = false

module _ (getenv : String → String) (scan_port : String → Option ℤ) where
  -- `none` for an error
  abbrev port_of : ℤ → Option ℤ
  port_of port =
      if is_zero port && not (str_eq (getenv "DB_PORT") "")
      then scan_port (getenv "DB_PORT")
      else some port

  abbrev with_port : DbParams → String → Option ℤ → Option DbParams
  with_port flags default_db_name none = none
  with_port flags default_db_name (some port) =
      let ssl_mode = or_text flags.ssl_mode "disable" in
      if not (contains ssl_mode allowed_ssl_modes)
      then none
      else if not (is_port (port_or port))
      then none
      else some (record {
        host = or_text (or_text flags.host (getenv "DB_HOST")) "localhost";
        port = port_or port;
        user = or_text (or_text flags.user (getenv "DB_USER")) "postgres";
        name = or_text (or_text flags.name (getenv "DB_NAME")) default_db_name;
        password = "";
        ssl_mode = ssl_mode;
        ssl_root_cert = or_text flags.ssl_root_cert (getenv "DB_SSLROOTCERT");
        ssl_cert = or_text flags.ssl_cert (getenv "DB_SSLCERT");
        ssl_key = or_text flags.ssl_key (getenv "DB_SSLKEY");
      })

  unfoldable pub parse_common_flags : DbParams → String → Option DbParams
  parse_common_flags flags default_db_name = with_port flags default_db_name (port_of flags.port)

-- what the terminal gives, or `none` for an error
unfoldable prompt_password : (String → String) → Option String → Option String
prompt_password getenv typed =
    if str_eq (getenv "DB_PASSWORD") "" then typed else some (getenv "DB_PASSWORD")

-- a duration is in seconds
unfoldable pub create_database_config : DbParams → DatabasePoolConfig
create_database_config p = record {
  user = p.user;
  password = p.password;
  host = p.host;
  port = p.port;
  dbname = p.name;
  sslmode = p.ssl_mode;
  ssl_root_cert = p.ssl_root_cert;
  ssl_cert = p.ssl_cert;
  ssl_key = p.ssl_key;
  pool_max_conns = pos 10;
  pool_min_conns = pos 1;
  pool_max_conn_lifetime = pos 600;
  pool_max_conn_idle_time = pos 300;
  pool_health_check_period = pos 60;
  pool_max_conn_lifetime_jitter = pos 60;
}

-- a user that is there already is no error
abbrev pub user_exists : Option (List ℕ) → Bool
user_exists none = true
user_exists (some text) = contains_text text (codes "already exists")

-- the tables whose rights a user is given
abbrev table_names_for : String → List String
table_names_for privilege =
    if str_eq privilege "reader" then all_table_names ++ all_aggr_table_names else all_table_names

module _ {World : Type 0} where
  -- `CreateUser` of indexer/db_init/tables.go, with the password that is typed
  unfoldable create_user :
      (String → World → Option (List ℕ) × World) → Option String → String → World → Bool × World
  create_user exec_text none user_name w = (false, w)
  create_user exec_text (some password) user_name w =
      let (error, after) =
        exec_text (concat ("CREATE USER " ∷ user_name ∷ " WITH PASSWORD '" ∷ password ∷ "'" ∷ []))
          w in
      (user_exists error, after)

  abbrev or_fatal : Bool × World → (World → Created World) → Created World
  or_fatal (true, w) next = next w
  or_fatal (false, w) next = fatal

  abbrev with_params :
      (String → World → Bool × World)
      → (String → World → Option (List ℕ) × World)
      → Option DbParams
      → Option String
      → Option String
      → String
      → String
      → World
      → Created World
  with_params exec exec_text none password typed privilege user_name w = fatal
  with_params exec exec_text (some params) none typed privilege user_name w = fatal
  with_params exec exec_text (some params) (some password) typed privilege user_name w =
      if not (contains privilege allowed_user_privileges)
      then fatal
      else or_fatal (create_user exec_text typed user_name w) (λ w.
        or_fatal (appoint_privileges exec user_name privilege (table_names_for privilege) w)
          (λ w. finished (true, w)))

  -- the command create-user, with the password of the connection and the one that is typed for
  -- the user
  unfoldable create_user_cmd :
      (String → String)
      → (String → Option ℤ)
      → (String → World → Bool × World)
      → (String → World → Option (List ℕ) × World)
      → DbParams
      → Option String
      → Option String
      → String
      → String
      → World
      → Created World
  create_user_cmd getenv scan_port exec exec_text flags password typed privilege user_name w =
      with_params exec exec_text (parse_common_flags getenv scan_port flags "gnoland")
        (prompt_password getenv password) typed privilege user_name w
