-- ===== src/ApiLimit.antt =====
-- api/ratelimit/ratelimit.go: the rate limits of the API. A text is a list of codes; the
-- functions of package net, SHA-256, the counters of Valkey and the store of the keys are
-- parameters.
pub mod Windows
pub mod Headers
use mathlib.Core.Option
use spectra_gnoland_indexer.Common.{
  has_prefix, contains_text, ℕ, zero, suc, ◌+◌, ◌-◌, ◌*◌, ◌/◌, ◌%◌, String, Bool, true, false, not,
  ◌&&◌, ◌||◌, Option, none, some, List, [], ◌∷◌, ◌++◌, ltb, leb, ◌==◌, codes, if◌then◌else◌, max,
}

-- the parts of a request that are read; a header that is not there is empty
pub record Request : Type 0 where
  pub path : List ℕ
  pub remote_addr : List ℕ
  pub api_key : List ℕ
  pub forwarded_for : List ℕ
  pub real_ip_header : List ℕ

pub record NetWork : Type 1 where
  pub Ip : Type 0
  pub IpNet : Type 0
  pub split_host_port : List ℕ → Option (List ℕ)
  pub parse_ip : List ℕ → Option Ip
  pub network_holds : IpNet → Ip → Bool
  pub trim_space : List ℕ → List ℕ

-- the limiter's parts: `increment` gives the new count, or nothing for an error
pub record RateLimiter (net : NetWork) (World : Type 0) : Type 0 where
  pub increment : List ℕ → World → Option ℕ × World
  pub expire_nx : List ℕ → ℕ → World → Bool × World
  pub get_key_limit : List ℕ → Option ℕ
  pub sum256 : List ℕ → List ℕ
  pub ip_rpm : ℕ
  pub window : ℕ
  pub trusted_proxies : List net.IpNet
  pub rate_paths : List (List ℕ)

-- a bare address is the network of this address alone
abbrev with_mask : List ℕ → List ℕ
with_mask cidr =
    if contains_text cidr (codes "/")
    then cidr
    else if contains_text cidr (codes ":")
    then cidr ++ codes "/128"
    else cidr ++ codes "/32"

-- `parse_cidr` is net.ParseCIDR; a network that it does not accept is left out
unfoldable networks : {IpNet : Type 0} → (List ℕ → Option IpNet) → List (List ℕ) → List IpNet
networks parse_cidr [] = []
networks parse_cidr (cidr ∷ cidrs) = elim (parse_cidr (with_mask cidr)) [
  | none ↦ networks parse_cidr cidrs
  | some n ↦ n ∷ networks parse_cidr cidrs
]

module _ {net : NetWork} {World : Type 0} (parse_cidr : List ℕ → Option net.IpNet)
    (increment : List ℕ → World → Option ℕ × World) (expire_nx : List ℕ → ℕ → World → Bool × World)
    (get_key_limit : List ℕ → Option ℕ) (sum256 : List ℕ → List ℕ) where
  -- Valkey, the store of the keys and the hash, with the networks of the trusted proxies
  unfoldable new_rate_limiter : ℕ → ℕ → List (List ℕ) → RateLimiter net World
  new_rate_limiter ip_rpm window trusted_proxy_cidrs = record {
    increment = increment;
    expire_nx = expire_nx;
    get_key_limit = get_key_limit;
    sum256 = sum256;
    ip_rpm = ip_rpm;
    window = window;
    trusted_proxies = networks parse_cidr trusted_proxy_cidrs;
    rate_paths = [];
  }

abbrev set_rate_paths :
    {net : NetWork} {World : Type 0} → RateLimiter net World → List (List ℕ) → RateLimiter net World
set_rate_paths rl paths = record rl { rate_paths = paths }

unfoldable pub matches_any : List ℕ → List (List ℕ) → Bool
matches_any path [] = false
matches_any path (p ∷ paths) = has_prefix path p || matches_any path paths

-- no path is restricted if there are no prefixes
abbrev pub is_limited : List ℕ → List (List ℕ) → Bool
is_limited path [] = true
is_limited path (p ∷ paths) = matches_any path (p ∷ paths)

-- the text before the first comma, or nothing if there is no comma
unfoldable pub before_comma : List ℕ → Option (List ℕ)
before_comma [] = none
before_comma (c ∷ s) =
    let rest = Option.map (λ t. c ∷ t) (before_comma s) in if c == b',' then some [] else rest

-- a comma at the very start is not looked at
abbrev first_entry : Option (List ℕ) → List ℕ → List ℕ
first_entry none header = header
first_entry (some []) header = header
first_entry (some (c ∷ s)) header = c ∷ s

-- hex.EncodeToString
abbrev hex_digit : ℕ → ℕ
hex_digit d = if ltb d 10 then b'0' + d else b'a' + d - 10

abbrev pub hex : List ℕ → List ℕ
hex [] = []
hex (b ∷ bytes) = hex_digit (b / 16) ∷ hex_digit (b % 16) ∷ hex bytes

abbrev pub first_bytes : ℕ → List ℕ → List ℕ
first_bytes zero s = []
first_bytes (suc n) [] = []
first_bytes (suc n) (b ∷ s) = b ∷ first_bytes n s

-- what the middleware answers; the request is passed on with the headers of limit and remaining
-- requests, if they are set
pub data Reply : Type 0 where
  passed : Option (ℕ × ℕ) → Reply
  unauthorized : Reply
  too_many : ℕ → ℕ → ℕ → Reply

module _ {net : NetWork} {World : Type 0} (rl : RateLimiter net World) where
  open net use {split_host_port, parse_ip, network_holds, trim_space}

  abbrev in_any : List net.IpNet → net.Ip → Bool
  in_any [] ip = false
  in_any (n ∷ networks) ip = network_holds n ip || in_any networks ip

  unfoldable pub is_trusted_proxy : Option net.Ip → Bool
  is_trusted_proxy none = false
  is_trusted_proxy (some ip) = in_any rl.trusted_proxies ip

  -- the host of the remote address, or all of it
  unfoldable pub remote_host : Request → List ℕ
  remote_host r = elim (split_host_port r.remote_addr) [ none ↦ r.remote_addr | some host ↦ host ]

  abbrev forwarded : List ℕ → List ℕ → List ℕ → List ℕ
  forwarded host [] [] = host
  forwarded host [] (c ∷ header) = trim_space (c ∷ header)
  forwarded host (c ∷ header) _ = trim_space (first_entry (before_comma (c ∷ header)) (c ∷ header))

  unfoldable pub real_ip : Request → List ℕ
  real_ip r =
      let host = remote_host r in
      let sent = forwarded host r.forwarded_for r.real_ip_header in
      if is_trusted_proxy (parse_ip host) then sent else host

  -- the identifier of the client and its limit, or nothing for an unknown key
  abbrev pub subject_of : List ℕ → Request → Option (List ℕ × ℕ)
  subject_of [] r = some (codes "ip:" ++ real_ip r, rl.ip_rpm)
  subject_of (c ∷ key) r = elim (rl.get_key_limit (rl.sum256 (c ∷ key))) [
    | none ↦ none
    | some limit ↦ some (codes "key:" ++ hex (first_bytes 8 (rl.sum256 (c ∷ key))), limit)
  ]

  unfoldable pub subject : Request → Option (List ℕ × ℕ)
  subject r = subject_of r.api_key r

  -- a failing counter lets the request pass
  abbrev pub counted : List ℕ → ℕ → Option ℕ × World → Reply × World
  counted key limit (none, w) = (passed none, w)
  counted key limit (some count, w) =
      let after = (rl.expire_nx key rl.window w).1 in
      let remaining = limit - count in
      if ltb limit count
      then (too_many limit remaining rl.window, after)
      else (passed (some (limit, remaining)), after)

  abbrev pub limited : Option (List ℕ × ℕ) → World → Reply × World
  limited none w = (unauthorized, w)
  limited (some (identifier, limit)) w =
      let key = codes "rl:" ++ identifier in counted key limit (rl.increment key w)

  unfoldable pub middleware : Request → World → Reply × World
  middleware r w =
      if is_limited r.path rl.rate_paths then limited (subject r) w else (passed none, w)
