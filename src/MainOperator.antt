-- ===== src/MainOperator.antt =====
-- indexer/main_operator/operator.go, indexer/config/loader.go: the configuration, its defaults,
-- and the choice of the running mode. Reading files and the environment, YAML and the connection
-- to the database are parameters; a duration is in nanoseconds, and the number of requests is not
-- negative. The signal handler (ContextHook) and the debug server, which run beside, are left out.
pub mod Launches
use mathlib.Core.Option
use spectra_gnoland_indexer.Common.{
  ℕ, ◌*◌, String, Bool, true, false, not, ◌&&◌, ◌||◌, Option, none, some, codes, has_prefix, str_eq,
  ltb, ◌==◌, if◌then◌else◌, ℤ, pos, negsuc, Outcome, done, panicked, List, [], GoMap,
}
use spectra_gnoland_indexer.AddressCache.{AddressCache, new_address_cache}
use spectra_gnoland_indexer.AddressCache.Database.{AddressDb}
use spectra_gnoland_indexer.Query.{QueryOperator, new_query_operator}
use spectra_gnoland_indexer.RateLimit.{ChannelRateLimiter, new_channel_rate_limiter}
use spectra_gnoland_indexer.Orchestrator.State.{Orchestrator, new_orchestrator}
use spectra_gnoland_indexer.Timescale.Pool.{DatabasePoolConfig}

pub record Config : Type 0 where
  pub rpc_url : String
  pub user_agent : Option String
  pub pool_max_conns : ℤ
  pub pool_min_conns : ℤ
  pub pool_max_conn_lifetime : ℤ
  pub pool_max_conn_idle_time : ℤ
  pub pool_health_check_period : ℤ
  pub pool_max_conn_lifetime_jitter : ℤ
  pub live_pooling : ℤ
  pub max_block_chunk_size : ℕ
  pub max_transaction_chunk_size : ℕ
  pub chain_name : String
  pub retry_amount : Option ℕ
  pub pause : Option ℕ
  pub pause_time : Option ℕ
  pub exponential_backoff : Option ℕ

pub record Environment : Type 0 where
  pub host : String
  pub port : ℤ
  pub user : String
  pub sslmode : String
  pub ssl_root_cert : String
  pub ssl_cert : String
  pub ssl_key : String
  pub password : String
  pub dbname : String

pub record RpcFlags : Type 0 where
  pub requests_per_window : ℕ
  pub timeout : ℤ
  pub time_window : ℤ

pub record RunningFlags : Type 0 where
  pub running_mode : String
  pub skip_initial_db_check : Bool
  pub compress_events : Bool
  pub from_height : ℕ
  pub to_height : ℕ

abbrev pub has_scheme : String → Bool
has_scheme url =
    has_prefix (codes url) (codes "http://") || has_prefix (codes url) (codes "https://")

-- what YAML made of the file, and whether it succeeded; `none` is an error
abbrev pub accepted : Config → Bool → Option Config
accepted c parsed =
    if str_eq c.rpc_url ""
    then none
    else if not (has_scheme c.rpc_url)
    then none
    else if str_eq c.chain_name ""
    then none
    else if parsed
    then some c
    else none

unfoldable pub load_config :
    {Bytes : Type 0} → (Bytes → Config × Bool) → Option Bytes → Option Config
load_config unmarshal none = none
load_config unmarshal (some file) = let (c, parsed) = unmarshal file in accepted c parsed

abbrev or_int : ℤ → ℤ → ℤ
or_int (pos n) d = if n == 0 then d else pos n
or_int (negsuc n) d = negsuc n

abbrev pub minutes : ℕ → ℤ
minutes n = pos (n * 60000000000)

-- the pool that is opened, with the defaults
abbrev pub pool_config : Config → Environment → DatabasePoolConfig
pool_config c e = record {
  user = e.user;
  password = e.password;
  host = e.host;
  port = e.port;
  dbname = e.dbname;
  sslmode = e.sslmode;
  ssl_root_cert = e.ssl_root_cert;
  ssl_cert = e.ssl_cert;
  ssl_key = e.ssl_key;
  pool_max_conns = or_int c.pool_max_conns (pos 100);
  pool_min_conns = or_int c.pool_min_conns (pos 10);
  pool_max_conn_lifetime = or_int c.pool_max_conn_lifetime (minutes 10);
  pool_max_conn_idle_time = or_int c.pool_max_conn_idle_time (minutes 5);
  pool_health_check_period = or_int c.pool_health_check_period (minutes 1);
  pool_max_conn_lifetime_jitter = or_int c.pool_max_conn_lifetime_jitter (minutes 1);
}

-- `none` for a window below 0, which ends the program
abbrev window_of : ℤ → Option ℕ
window_of (pos n) = some (if n == 0 then 60000000000 else n)
window_of (negsuc n) = none

abbrev pub requests_of : ℕ → ℕ
requests_of n = if n == 0 then 10000000 else n

pub record DataProcessor : Type 0 where
  pub address_cache : AddressCache
  pub validator_cache : AddressCache
  pub chain_name : String
  pub tx_hash_cache : GoMap String ℕ

-- the batch size is only the space that the map begins with
abbrev pub new_data_processor : AddressCache → AddressCache → String → DataProcessor
new_data_processor address_cache validator_cache chain_name = record {
  address_cache = address_cache;
  validator_cache = validator_cache;
  chain_name = chain_name;
  tx_hash_cache = [];
}

-- `pool` stands for the database, and `rate_limiter` for the client of the node
pub record MajorConstructors : Type 0 where
  pub pool : DatabasePoolConfig
  pub rate_limiter : ChannelRateLimiter
  pub validator_cache : AddressCache
  pub address_cache : AddressCache
  pub data_processor : DataProcessor
  pub query_operator : QueryOperator

abbrev pub constructors :
    DatabasePoolConfig
    → ChannelRateLimiter
    → Config
    → AddressCache
    → AddressCache
    → MajorConstructors
constructors pool limiter c validator_cache address_cache = record {
  pool = pool;
  rate_limiter = limiter;
  validator_cache = validator_cache;
  address_cache = address_cache;
  data_processor = new_data_processor address_cache validator_cache c.chain_name;
  query_operator = new_query_operator c.retry_amount c.pause c.pause_time c.exponential_backoff;
}

module _ (db : AddressDb) where
  abbrev with_addresses :
      AddressCache → Option AddressCache × db.State → Option (AddressCache × AddressCache)
  with_addresses validator_cache (none, s) = none
  with_addresses validator_cache (some address_cache, s) = some (validator_cache, address_cache)

  abbrev with_validators :
      String → Option AddressCache × db.State → Option (AddressCache × AddressCache)
  with_validators chain_name (none, s) = none
  with_validators chain_name (some validator_cache, s) =
      with_addresses validator_cache (new_address_cache db chain_name false s)

  -- the cache of the validators, then that of the other accounts
  abbrev pub load_caches : String → db.State → Option (AddressCache × AddressCache)
  load_caches chain_name s = with_validators chain_name (new_address_cache db chain_name true s)

abbrev constructed :
    DatabasePoolConfig
    → Config
    → Option (AddressCache × AddressCache)
    → Outcome ChannelRateLimiter
    → Outcome (Option MajorConstructors)
constructed pool c caches panicked = panicked
constructed pool c none (done limiter) = done none
constructed pool c (some (validator_cache, address_cache)) (done limiter) =
    done (some (constructors pool limiter c validator_cache address_cache))

-- `connect` opens the pool; where it gives `none`, and where any other step does, the program ends
-- with a log of level fatal
module _ (db : AddressDb) (connect : DatabasePoolConfig → Option db.State) where
  -- an empty address of the node ends the program
  unfoldable pub initialize_database : Config → Environment → Option db.State
  initialize_database c e = if str_eq c.rpc_url "" then none else connect (pool_config c e)

  abbrev with_window :
      Option ℕ
      → Option db.State
      → Config
      → Environment
      → RpcFlags
      → Outcome (Option MajorConstructors)
  with_window none s c e flags = done none
  with_window (some window) none c e flags = done none
  with_window (some window) (some s) c e flags =
      if has_scheme c.rpc_url
      then constructed (pool_config c e) c (load_caches db c.chain_name s)
          (new_channel_rate_limiter (requests_of flags.requests_per_window) window)
      else done none

  unfoldable pub initialize_major_constructors :
      Config → Environment → RpcFlags → Outcome (Option MajorConstructors)
  initialize_major_constructors c e flags =
      with_window (window_of flags.time_window) (initialize_database c e) c e flags

-- what InitMainOperator comes to: a log of level fatal, a panic, or one of the two loops
pub data Launch : Type 0 where
  fatal : Launch
  panic : Launch
  live : MajorConstructors → Orchestrator → Bool → Bool → Launch
  historic : MajorConstructors → Orchestrator → ℕ → ℕ → Bool → Launch

abbrev chosen : MajorConstructors → RunningFlags → Outcome Orchestrator → Launch
chosen mc flags panicked = panic
chosen mc flags (done orch) =
    if str_eq flags.running_mode "live"
    then live mc orch flags.skip_initial_db_check flags.compress_events
    else if str_eq flags.running_mode "historic"
    then (if flags.from_height == 0 || flags.to_height == 0
        then fatal
        else if ltb flags.to_height flags.from_height
        then fatal
        else historic mc orch flags.from_height flags.to_height flags.compress_events)
    else fatal

abbrev launched : Outcome (Option MajorConstructors) → Config → RunningFlags → Launch
launched panicked c flags = panic
launched (done none) c flags = fatal
launched (done (some mc)) c flags =
    chosen mc flags (new_orchestrator flags.running_mode c.chain_name c.max_block_chunk_size)

unfoldable pub init_main_operator :
    (db : AddressDb)
    → (DatabasePoolConfig → Option db.State)
    → Option Config
    → Option Environment
    → RpcFlags
    → RunningFlags
    → Launch
init_main_operator db connect none env rpc flags = fatal
init_main_operator db connect (some c) none rpc flags = fatal
init_main_operator db connect (some c) (some e) rpc flags =
    launched (initialize_major_constructors db connect c e rpc) c flags
