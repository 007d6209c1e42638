-- ===== src/Tests/Limited.antt =====
-- A rate limiter of two requests for each address, whose counters are the list of what was counted.
use spectra_gnoland_indexer.Common.{
  lookup, put, same_text, same_text→eq, ◌≡◌, ℕ, suc, refl, ap, sym, ◌++◌, true, false, Option, none,
  some, List, [], ◌∷◌, codes, if◌then◌else◌, min, Bool-cases, inl, inr,
}
use spectra_gnoland_indexer.ApiLimit.{
  Request, NetWork, RateLimiter, is_trusted_proxy, remote_host, subject, middleware, real_ip,
}
use spectra_gnoland_indexer.ApiLimit.Windows.{IsCounter, AllLimited, asked, passes, passes-limit}
use spectra_gnoland_indexer.ApiLimit.Headers.{middleware_untrusted}
use spectra_gnoland_indexer.ApiKeys.{
  KeyRows, new_key_store, refreshes, refresh, scan_keys, get_all_api_keys_with_limits,
  get_key_limit, fixed_bytes, with_keys,
}
use spectra_gnoland_indexer.ApiKeys.Reloads.{subject-refreshes}
use spectra_gnoland_indexer.ApiKeys.Table.{ApiKey, key_rows, disable_key_by_name}
use spectra_gnoland_indexer.ApiKeys.Disabled.{subject-disable_key_by_name}

abbrev Log : Type 0
Log = List (List ℕ)

abbrev count : Log → List ℕ → ℕ
count [] k = 0
count (key ∷ log) k = if same_text key k then suc (count log k) else count log k

abbrev plain : NetWork
plain = record {
  Ip = List ℕ;
  IpNet = List ℕ;
  split_host_port = λ addr. some addr;
  parse_ip = λ host. some host;
  network_holds = same_text;
  trim_space = λ s. s;
}

abbrev rl : RateLimiter plain Log
rl = record {
  increment = λ key log. (some (suc (count log key)), key ∷ log);
  expire_nx = λ key window log. (true, log);
  get_key_limit = λ hash. none;
  sum256 = λ s. s;
  ip_rpm = 2;
  window = 60;
  trusted_proxies = (9 ∷ []) ∷ [];
  rate_paths = [];
}

counted_once :
    (log : Log) (key j : List ℕ)
    → count (key ∷ log) j ≡ (if same_text key j then suc (count log key) else count log j)
counted_once log key j = elim (Bool-cases (same_text key j)) [
  | inl e ↦ rw e (ap (λ i. suc (count log i)) (sym (same_text→eq key j e)))
  | inr e ↦ rw e
]

rl-IsCounter : IsCounter rl count
rl-IsCounter = record {
  incremented = λ key log. (key ∷ log, refl, λ j. counted_once log key j);
  kept = λ key j window log. refl;
}

abbrev from_address : ℕ → Request
from_address a = record {
  path = codes "/blocks";
  remote_addr = a ∷ [];
  api_key = [];
  forwarded_for = [];
  real_ip_header = [];
}

abbrev requests : List Request
requests = from_address 1 ∷ from_address 2 ∷ from_address 1 ∷ from_address 1 ∷ []

requests-AllLimited : AllLimited rl (codes "ip:" ++ 1 ∷ []) 2 requests
unfolding subject real_ip remote_host is_trusted_proxy
requests-AllLimited = ((λ l e. cc), ((λ l e. cc), ((λ l e. cc), ((λ l e. cc), tt))))

passes-limit_example :
    passes rl (codes "ip:" ++ 1 ∷ []) requests []
    ≡ min 2 (asked rl (codes "ip:" ++ 1 ∷ []) requests)
passes-limit_example =
    passes-limit rl count rl-IsCounter (codes "ip:" ++ 1 ∷ []) 2 requests [] requests-AllLimited
      refl

three_asked : asked rl (codes "ip:" ++ 1 ∷ []) requests ≡ 3
unfolding subject real_ip remote_host is_trusted_proxy
three_asked = refl

middleware_untrusted_example :
    middleware rl (record (from_address 1) { forwarded_for = 2 ∷ []; real_ip_header = 3 ∷ [] }) []
    ≡ middleware rl (from_address 1) []
unfolding is_trusted_proxy remote_host
middleware_untrusted_example = middleware_untrusted rl (from_address 1) (2 ∷ []) (3 ∷ []) [] refl

-- a key is its own hash here; the second answer breaks off, and the third is an error
abbrev hash : List ℕ
hash = fixed_bytes 32 (7 ∷ [])

abbrev answers : List (Option KeyRows)
answers =
    some (record { rows = some (7 ∷ [], 100) ∷ some (8 ∷ [], 5) ∷ []; complete = true })
    ∷ some (record { rows = some (8 ∷ [], 5) ∷ []; complete = false })
    ∷ none
    ∷ []

abbrev with_key : Request
with_key = record (from_address 1) { api_key = hash }

subject-refreshes_example :
    subject (with_keys (refreshes new_key_store answers) rl) with_key
    ≡ some (codes "key:0700000000000000", 100)
unfolding fixed_bytes
subject-refreshes_example = subject-refreshes rl answers with_key 7 (fixed_bytes 31 []) refl

abbrev keys : List ApiKey
keys =
    record {
      prefix = "ab";
      hash = fixed_bytes 32 (7 ∷ []);
      name = "app";
      rpm_limit = 100;
      is_active = true;
    }
    ∷ record {
      prefix = "cd";
      hash = fixed_bytes 32 (8 ∷ []);
      name = "other";
      rpm_limit = 5;
      is_active = true;
    }
    ∷ []

subject-disable_key_by_name_example :
    subject
      (with_keys
        (refreshes new_key_store
          (answers ++ some (key_rows (disable_key_by_name true "app" keys).1) ∷ []))
        rl)
      with_key
    ≡ none
unfolding fixed_bytes
subject-disable_key_by_name_example =
    subject-disable_key_by_name rl answers "app" keys with_key 7 (fixed_bytes 31 []) refl

unknown_key :
    subject
      (with_keys (refreshes new_key_store answers) rl)
      (record (from_address 1) { api_key = codes "wrong" })
    ≡ none
unfolding subject refreshes refresh scan_keys get_all_api_keys_with_limits get_key_limit fixed_bytes
    lookup put
unknown_key = refl
