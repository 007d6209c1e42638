-- ===== src/Tests/Limits.antt =====
-- A rate limiter of two requests: a request, a tick, and three requests more.
use spectra_gnoland_indexer.Common.{ℕ, ◌+◌, ◌≤◌, refl, true, false, List, [], ◌∷◌, arith}
use spectra_gnoland_indexer.RateLimit.{
  ChannelRateLimiter, new_channel_rate_limiter, refill, allow, Event, ticked, allowed, waited,
  tick_step, allow_step, wait_step, Run,
}
use spectra_gnoland_indexer.RateLimit.Grants.{grants, ticks, new_channel_rate_limiter-grants}

abbrev limiter : ℕ → ChannelRateLimiter
limiter tokens = record { tokens = tokens; capacity = 2; closed = false; refilling = true }

abbrev events : List Event
events = allowed true ∷ ticked ∷ waited ∷ allowed true ∷ allowed false ∷ []

run_of_events : Run (limiter 2) events (limiter 0)
unfolding allow refill
run_of_events = (
  limiter 1,
  allow_step refl,
  (
    limiter 2,
    tick_step refl refl,
    (
      limiter 1,
      wait_step (omega arith) refl,
      (limiter 0, allow_step refl, (limiter 0, allow_step refl, refl)),
    ),
  ),
)

new_channel_rate_limiter-grants_example : (0 ≤ 2) × (grants events + 0 ≤ 2 + ticks events)
unfolding new_channel_rate_limiter
new_channel_rate_limiter-grants_example =
    new_channel_rate_limiter-grants 2 60 (limiter 2) (limiter 0) events refl run_of_events

later_run : Run (limiter 1) (ticked ∷ waited ∷ []) (limiter 1)
unfolding allow refill
later_run = (limiter 2, tick_step refl refl, (limiter 1, wait_step (omega arith) refl, refl))
