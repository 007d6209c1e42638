-- ===== src/ApiKeys.antt =====
-- api/keystore/keystore.go and pkgs/database/timescaledb/key_mgmt.go: the keys of the API and
-- their limits, as they are reloaded from the database.
pub mod Reloads
pub mod Table
pub mod Disabled
use spectra_gnoland_indexer.Common.{
  ℕ, zero, suc, ◌≡◌, ◌↔◌, refl, Bool, true, false, ◌&&◌, Option, none, some, List, [], ◌∷◌, ◌==◌,
  if◌then◌else◌, text_comparable, GoMap, lookup, put, arith, replicate,
}
use spectra_gnoland_indexer.ApiLimit.{NetWork, RateLimiter}

-- copy(hash[:], slice) into so many zero bytes
unfoldable pub fixed_bytes : ℕ → List ℕ → List ℕ
fixed_bytes zero s = []
fixed_bytes (suc n) [] = replicate (suc n) 0
fixed_bytes (suc n) (b ∷ s) = b ∷ fixed_bytes n s

-- the rows that are read, each with its hash and its limit or an error of the scan, and whether the
-- reading came to the end
pub record KeyRows : Type 0 where
  pub rows : List (Option (List ℕ × ℕ))
  pub complete : Bool

unfoldable pub scan_keys : List (Option (List ℕ × ℕ)) → GoMap (List ℕ) ℕ → Option (GoMap (List ℕ) ℕ)
scan_keys [] keys = some keys
scan_keys (none ∷ rows) keys = none
scan_keys (some (hash, limit) ∷ rows) keys = scan_keys rows (put (fixed_bytes 32 hash) limit keys)

-- `none` for an error of the query, of a scan or of the reading
unfoldable pub get_all_api_keys_with_limits : Option KeyRows → Option (GoMap (List ℕ) ℕ)
get_all_api_keys_with_limits none = none
get_all_api_keys_with_limits (some r) = if r.complete then scan_keys r.rows [] else none

pub record KeyStore : Type 0 where
  pub keys : GoMap (List ℕ) ℕ

abbrev pub new_key_store : KeyStore
new_key_store = record { keys = [] }

unfoldable pub get_key_limit : KeyStore → List ℕ → Option ℕ
get_key_limit ks hash = lookup hash ks.keys

abbrev pub reloaded : KeyStore → Option (GoMap (List ℕ) ℕ) → Bool × KeyStore
reloaded ks none = (false, ks)
reloaded ks (some keys) = (true, record { keys = keys })

-- with whether it succeeded
unfoldable pub refresh : KeyStore → Option KeyRows → Bool × KeyStore
refresh ks answer = reloaded ks (get_all_api_keys_with_limits answer)

-- the rounds of the periodic refresh, each with the answer of the database
unfoldable pub refreshes : KeyStore → List (Option KeyRows) → KeyStore
refreshes ks [] = ks
refreshes ks (answer ∷ answers) = refreshes (refresh ks answer).1 answers

-- the limiter that asks this store
abbrev pub with_keys :
    {net : NetWork} {World : Type 0} → KeyStore → RateLimiter net World → RateLimiter net World
with_keys ks rl = record {
  increment = rl.increment;
  expire_nx = rl.expire_nx;
  get_key_limit = get_key_limit ks;
  sum256 = rl.sum256;
  ip_rpm = rl.ip_rpm;
  window = rl.window;
  trusted_proxies = rl.trusted_proxies;
  rate_paths = rl.rate_paths;
}
