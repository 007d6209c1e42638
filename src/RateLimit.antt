-- ===== src/RateLimit.antt =====
-- indexer/rpc_client/rate_limit/rate_limit.go: the token bucket of the RPC client. The buffered
-- channel is the number of its tokens; the ticker, the refilling goroutine and the callers
-- interleave, one event at a time.
pub mod Grants
use spectra_gnoland_indexer.Common.{
  ℕ, zero, suc, ◌+◌, ◌-◌, ◌<◌, ◌/◌, ◌≡◌, Bool, true, false, List, [], ◌∷◌, Outcome, done, panicked,
  ltb, ◌==◌, if◌then◌else◌,
}

-- `closed` is the channel `done`; `refilling` says that the goroutine has not returned
pub record ChannelRateLimiter : Type 0 where
  pub tokens : ℕ
  pub capacity : ℕ
  pub closed : Bool
  pub refilling : Bool

-- the bucket is full at first; the division and `NewTicker` panic on zero
unfoldable pub new_channel_rate_limiter : ℕ → ℕ → Outcome ChannelRateLimiter
new_channel_rate_limiter requests_allowed time_window =
    if requests_allowed == 0
    then panicked
    else if (time_window / requests_allowed) == 0
    then panicked
    else done (record {
      tokens = requests_allowed;
      capacity = requests_allowed;
      closed = false;
      refilling = true;
    })

-- a tick adds a token; a full bucket skips it
unfoldable pub refill : ChannelRateLimiter → ChannelRateLimiter
refill r = if ltb r.tokens r.capacity then record r { tokens = r.tokens + 1 } else r

unfoldable pub allow : ChannelRateLimiter → Bool × ChannelRateLimiter
allow r = if r.tokens == 0 then (false, r) else (true, record r { tokens = r.tokens - 1 })

pub record ChannelRateLimiterStatus : Type 0 where
  pub tokens_available : ℕ
  pub capacity : ℕ
  pub is_empty : Bool
  pub is_full : Bool

unfoldable get_status : ChannelRateLimiter → ChannelRateLimiterStatus
get_status r = record {
  tokens_available = r.tokens;
  capacity = r.capacity;
  is_empty = r.tokens == 0;
  is_full = r.tokens == r.capacity;
}

pub data Event : Type 0 where
  -- the ticker fires, and the goroutine refills
  ticked : Event
  -- `Allow` returns its argument
  allowed : Bool → Event
  -- `Wait` returns
  waited : Event
  -- `Close`, and the goroutine's return
  closing returned : Event

-- `Wait` has no step on an empty bucket: it blocks
pub data Step (r : ChannelRateLimiter) : Event → ChannelRateLimiter → Type 0 where
  tick_step : {r' : ChannelRateLimiter} → r.refilling ≡ true → r' ≡ refill r → Step r ticked r'
  allow_step : {b : Bool} {r' : ChannelRateLimiter} → allow r ≡ (b, r') → Step r (allowed b) r'
  wait_step :
      {r' : ChannelRateLimiter}
      → 0 < r.tokens
      → r' ≡ record r { tokens = r.tokens - 1 }
      → Step r waited r'
  close_step :
      {r' : ChannelRateLimiter}
      → r.closed ≡ false
      → r' ≡ record r { closed = true }
      → Step r closing r'
  return_step :
      {r' : ChannelRateLimiter}
      → r.closed ≡ true
      → r' ≡ record r { refilling = false }
      → Step r returned r'

-- a run with its events
abbrev pub Run : ChannelRateLimiter → List Event → ChannelRateLimiter → Type 0
Run r [] r' = r' ≡ r
Run r (e ∷ es) r' = (m : ChannelRateLimiter) × Step r e m × Run m es r'
