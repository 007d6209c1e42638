-- ===== src/Tests/Launched.antt =====
-- The indexer started in the historic mode.

use spectra_gnoland_indexer.Common.{
  ℕ, String, ◌≡◌, refl, true, false, none, some, [], ◌∷◌, GoMap, pos, has_prefix,
}
use spectra_gnoland_indexer.AddressCache.{AddressCache}
use spectra_gnoland_indexer.RateLimit.{ChannelRateLimiter}
use spectra_gnoland_indexer.MainOperator.{Config, Environment, RpcFlags, RunningFlags, load_config}

abbrev config : Config
config = record {
  rpc_url = "http://localhost:26657";
  user_agent = none;
  pool_max_conns = pos 0;
  pool_min_conns = pos 0;
  pool_max_conn_lifetime = pos 0;
  pool_max_conn_idle_time = pos 0;
  pool_health_check_period = pos 0;
  pool_max_conn_lifetime_jitter = pos 0;
  live_pooling = pos 5000000000;
  max_block_chunk_size = 4;
  max_transaction_chunk_size = 100;
  chain_name = "test";
  retry_amount = none;
  pause = none;
  pause_time = none;
  exponential_backoff = none;
}

loaded_config : load_config {Bytes = String} (λ file. (config, true)) (some "file") ≡ some config
unfolding load_config has_prefix
loaded_config = refl

abbrev environment : Environment
environment = record {
  host = "localhost";
  port = pos 5432;
  user = "postgres";
  sslmode = "disable";
  ssl_root_cert = "";
  ssl_cert = "";
  ssl_key = "";
  password = "12345678";
  dbname = "gnoland";
}

abbrev rpc : RpcFlags
rpc = record { requests_per_window = 100; timeout = pos 20000000000; time_window = pos 60000000000 }

-- the address table of the database
abbrev table : GoMap String ℕ
table = ("g1a", 1) ∷ []

abbrev caches : AddressCache × AddressCache
caches =
    (record { address = table; highest_index = 1 }, record { address = table; highest_index = 1 })

abbrev flags : RunningFlags
flags = record {
  running_mode = "historic";
  skip_initial_db_check = false;
  compress_events = false;
  from_height = 3;
  to_height = 12;
}

abbrev limiter : ChannelRateLimiter
limiter = record { tokens = 100; capacity = 100; closed = false; refilling = true }
