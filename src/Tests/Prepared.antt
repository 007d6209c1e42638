-- ===== src/Tests/Prepared.antt =====
-- The setup of a database that keeps the statements it ran.

use spectra_gnoland_indexer.Common.{
  String, ◌≡◌, refl, true, none, some, List, [], ◌∷◌, ◌++◌, codes, pos, split, parse_int,
  parse_digits, str_eq, if◌then◌else◌,
}
use spectra_gnoland_indexer.DbInit.Versions.{finished, get_timescale_db_version, is_modern_version}
use spectra_gnoland_indexer.Timescale.Pool.{
  DatabasePoolConfig, quote_dsn_value, create_database, switch_database,
}
use spectra_gnoland_indexer.Timescale.Quoted.{read_value, read_value-quote_dsn_value}
use spectra_gnoland_indexer.Setup.{SetupDb, initialize_new_database}
use spectra_gnoland_indexer.Setup.Flags.{DbParams, parse_common_flags, create_database_config}
use spectra_gnoland_indexer.Setup.Script.{run_all, script}
use spectra_gnoland_indexer.Setup.Creates.{HasModernVersion, initialize_new_database-script}

abbrev db : SetupDb
db = record {
  World = List String;
  exec = λ sql w. (true, w ++ sql ∷ []);
  exec_text = λ sql w. (none, w ++ sql ∷ []);
  version = λ w. some (codes "2.19.3");
  current_database = λ w. some "postgres";
  close = λ w. w;
  connect = λ dsn w. (true, w);
  format_duration = λ d. codes "1m0s";
}

modern : HasModernVersion db
unfolding get_timescale_db_version is_modern_version split parse_int parse_digits
modern = λ w. (record { major = pos 2; minor = pos 19; patch = pos 3 }, refl, refl)

abbrev flags : DbParams
flags = record {
  host = "";
  port = pos 0;
  user = "bob";
  name = "";
  password = "";
  ssl_mode = "";
  ssl_root_cert = "";
  ssl_cert = "";
  ssl_key = "";
}

abbrev given : DbParams
given = record {
  host = "localhost";
  port = pos 5433;
  user = "bob";
  name = "postgres";
  password = "";
  ssl_mode = "disable";
  ssl_root_cert = "";
  ssl_cert = "";
  ssl_key = "";
}

abbrev getenv : String → String
getenv name = if str_eq name "DB_PORT" then "5433" else ""

parsed_flags : parse_common_flags getenv (λ s. some (pos 5433)) flags "postgres" ≡ some given
unfolding parse_common_flags
parsed_flags = refl

abbrev config : DatabasePoolConfig
config = create_database_config given

initialize_new_database-script_example :
    initialize_new_database db config "gnoland" "test" []
    ≡ finished (run_all db.exec (script "test") (true, "CREATE DATABASE gnoland" ∷ []))
unfolding create_database switch_database
initialize_new_database-script_example =
    initialize_new_database-script db modern config "gnoland" "test" []

read_value-quote_dsn_value_example :
    read_value (quote_dsn_value (codes "it's \\") ++ codes " port=5432")
    ≡ some (codes "it's \\", codes " port=5432")
read_value-quote_dsn_value_example =
    read_value-quote_dsn_value (codes "it's \\") (codes " port=5432")
