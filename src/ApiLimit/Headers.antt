-- ===== src/ApiLimit/Headers.antt =====
-- Which headers api/ratelimit/ratelimit.go believes.
use spectra_gnoland_indexer.Common.{
  ℕ, ◌≡◌, refl, ap, false, none, some, codes, ◌++◌, List, [], ◌∷◌, if◌then◌else◌,
}
use spectra_gnoland_indexer.ApiLimit.{
  Request, NetWork, RateLimiter, passed, is_limited, is_trusted_proxy, remote_host, real_ip,
  subject, subject_of, limited, middleware,
}

module _ {net : NetWork} {World : Type 0} (rl : RateLimiter net World) where
  abbrev with_headers : Request → List ℕ → List ℕ → Request
  with_headers r forwarded_for real_ip_header = record r {
    forwarded_for = forwarded_for;
    real_ip_header = real_ip_header;
  }

  real_ip_untrusted :
      (r : Request) (f x : List ℕ)
      → is_trusted_proxy rl (net.parse_ip (remote_host rl r)) ≡ false
      → real_ip rl (with_headers r f x) ≡ real_ip rl r
  unfolding real_ip remote_host
  real_ip_untrusted r f x h = rw h

  subject_untrusted :
      (key : List ℕ) (r : Request) (f x : List ℕ)
      → is_trusted_proxy rl (net.parse_ip (remote_host rl r)) ≡ false
      → subject_of rl key (with_headers r f x) ≡ subject_of rl key r
  subject_untrusted [] r f x h =
      ap (λ ip. some (codes "ip:" ++ ip, rl.ip_rpm)) (real_ip_untrusted r f x h)
  subject_untrusted (c ∷ key) r f x h = refl

  -- A request that does not come from a trusted proxy is answered, and counted, without regard to
  -- its headers X-Forwarded-For and X-Real-Ip.
  pub middleware_untrusted :
      (r : Request) (forwarded_for real_ip_header : List ℕ) (w : World)
      → is_trusted_proxy rl (net.parse_ip (remote_host rl r)) ≡ false
      → middleware rl
          (record r { forwarded_for = forwarded_for; real_ip_header = real_ip_header })
          w
        ≡ middleware rl r w
  unfolding middleware subject
  middleware_untrusted r forwarded_for real_ip_header w h =
      ap (λ s. if is_limited r.path rl.rate_paths then limited rl s w else (passed none, w))
        (subject_untrusted r.api_key r forwarded_for real_ip_header h)
