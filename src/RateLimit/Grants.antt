-- ===== src/RateLimit/Grants.antt =====
-- How many requests the rate limiter grants.
use spectra_gnoland_indexer.Common.{
  ℕ, ◌+◌, ◌/◌, ◌≤◌, ◌<◌, ◌≡◌, refl, ◌∙◌, subst, true, false, List, [], ◌∷◌, Outcome, done, panicked,
  ltb, ◌==◌, arith, Bool-cases, inl, inr,
}
use spectra_gnoland_indexer.RateLimit.{
  ChannelRateLimiter, new_channel_rate_limiter, refill, allow, Event, ticked, allowed, waited,
  closing, returned, Step, tick_step, allow_step, wait_step, close_step, return_step, Run,
}

abbrev grant : Event → ℕ
grant ticked = 0
grant (allowed true) = 1
grant (allowed false) = 0
grant waited = 1
grant closing = 0
grant returned = 0

abbrev pub tick : Event → ℕ
tick ticked = 1
tick (allowed b) = 0
tick waited = 0
tick closing = 0
tick returned = 0

abbrev pub grants : List Event → ℕ
grants [] = 0
grants (e ∷ es) = grant e + grants es

abbrev pub ticks : List Event → ℕ
ticks [] = 0
ticks (e ∷ es) = tick e + ticks es

-- one event: the bucket never overflows, and a token is lost only when it is full
abbrev Keeps : ChannelRateLimiter → Event → ChannelRateLimiter → Type 0
Keeps r e r' =
    (r'.capacity ≡ r.capacity)
    × (r'.tokens ≤ r'.capacity)
    × (r'.tokens + grant e ≤ r.tokens + tick e)
    × (r.tokens + tick e ≤ r.capacity → r'.tokens + grant e ≡ r.tokens + tick e)

refill-Keeps : (r : ChannelRateLimiter) → r.tokens ≤ r.capacity → Keeps r ticked (refill r)
unfolding refill
refill-Keeps r h = elim (Bool-cases (ltb r.tokens r.capacity)) [
  | inl t ↦ rw t (refl, ground arith, omega arith, λ k. omega arith)
  | inr f ↦ rw f (refl, h, omega arith, λ k. ground arith)
]

allow-Keeps :
    (r : ChannelRateLimiter) → r.tokens ≤ r.capacity → Keeps r (allowed (allow r).0) (allow r).1
unfolding allow
allow-Keeps r h = elim (Bool-cases (r.tokens == 0)) [
  | inl t ↦ rw t (refl, h, omega arith, λ k. refl)
  | inr f ↦
      let some_left : 0 < r.tokens = ground arith in
      rw f (refl, omega arith, omega arith, λ k. omega arith)
]

Step-Keeps :
    {e : Event} (r r' : ChannelRateLimiter) → r.tokens ≤ r.capacity → Step r e r' → Keeps r e r'
Step-Keeps r r' h (tick_step a e) = rw e (refill-Keeps r h)
Step-Keeps r r' h (allow_step e) = subst (λ p. Keeps r (allowed p.0) p.1) e (allow-Keeps r h)
Step-Keeps r r' h (wait_step p e) = rw e (refl, omega arith, omega arith, λ k. omega arith)
Step-Keeps r r' h (close_step c e) = rw e (refl, h, omega arith, λ k. refl)
Step-Keeps r r' h (return_step c e) = rw e (refl, h, omega arith, λ k. refl)

Run-Keeps :
    (es : List Event) (r r' : ChannelRateLimiter)
    → r.tokens ≤ r.capacity
    → Run r es r'
    → (r'.capacity ≡ r.capacity)
      × (r'.tokens ≤ r'.capacity)
      × (r'.tokens + grants es ≤ r.tokens + ticks es)
      × (r.tokens + ticks es ≤ r.capacity → r'.tokens + grants es ≡ r.tokens + ticks es)
Run-Keeps [] r r' h e = rw e (refl, h, omega arith, λ k. refl)
Run-Keeps (x ∷ es) r r' h (m, s, run) =
    let (c, b, l, x1) = Step-Keeps r m h s in
    let (c', b', l', x') = Run-Keeps es m r' b run in
    (
      c' ∙ c,
      b',
      omega (arith, l, l'),
      λ k. omega (arith, x1 (omega arith), x' (omega (arith, x1 (omega arith), c))),
    )

abbrev IsFull : ℕ → Outcome ChannelRateLimiter → Type 0
IsFull n (done r) = (r.tokens ≡ n) × (r.capacity ≡ n)
IsFull n panicked = Unit

new_channel_rate_limiter-IsFull : (n w : ℕ) → IsFull n (new_channel_rate_limiter n w)
unfolding new_channel_rate_limiter
new_channel_rate_limiter-IsFull n w = elim (Bool-cases (n == 0)) [
  | inl t ↦ rw t tt
  | inr f ↦ elim (Bool-cases ((w / n) == 0)) [
    | inl t ↦ rw (f, t) tt
    | inr g ↦ rw (f, g) (refl, refl)
  ]
]

-- A new rate limiter grants at most its capacity and one more request for each tick, whatever the
-- order of the ticks and the requests; the bucket never holds more tokens than its capacity.
pub new_channel_rate_limiter-grants :
    (requests_allowed time_window : ℕ) (r r' : ChannelRateLimiter) (es : List Event)
    → new_channel_rate_limiter requests_allowed time_window ≡ done r
    → Run r es r'
    → (r'.tokens ≤ requests_allowed) × (grants es + r'.tokens ≤ requests_allowed + ticks es)
new_channel_rate_limiter-grants n w r r' es e run =
    let (t, c) = subst (IsFull n) e (new_channel_rate_limiter-IsFull n w) in
    let (c', b, l, x) = Run-Keeps es r r' (omega (arith, t, c)) run in
    (omega (arith, c, c', b), omega (arith, t, l))

-- While no more ticks have come than there was room for, none is lost: the tokens that are left and
-- the granted requests are together what there was and one for each tick.
run-grants :
    (es : List Event) (r r' : ChannelRateLimiter)
    → r.tokens + ticks es ≤ r.capacity
    → Run r es r'
    → r'.tokens + grants es ≡ r.tokens + ticks es
run-grants es r r' h run = let (c, b, l, x) = Run-Keeps es r r' (omega (arith, h)) run in x h
