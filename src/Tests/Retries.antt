-- ===== src/Tests/Retries.antt =====
-- The retry wrapper on functions that fail for a while, and for good.
use spectra_gnoland_indexer.Common.{
  ℕ, ◌+◌, ◌<◌, ◌≡◌, refl, true, false, none, some, [], ◌∷◌, done, Result, ok, err, arith,
  if◌then◌else◌, ltb, String,
}
use spectra_gnoland_indexer.Retry.{Run, sleeps_after, generic_retry_query}
use spectra_gnoland_indexer.Retry.Sleeps.{Fails, sum, slept}
use spectra_gnoland_indexer.Retry.Results.{generic_retry_query-success, generic_retry_query-failure}

-- fails four times
abbrev flaky : ℕ → Result String ℕ
flaky k = if ltb k 4 then err "timeout" else ok (k + 100)

abbrev dead : ℕ → Result String ℕ
dead k = err "refused"

flaky-Fails : (k : ℕ) → k < 4 → Fails (flaky k)
flaky-Fails k h = ("timeout", ground arith)

generic_retry_query-success_example :
    (r : Run String ℕ) × (generic_retry_query 0 6 3 15 2 flaky ≡ done r)
    × (r.result ≡ record { value = 104; error = none; success = true })
    × (r.calls ≡ 5)
    × (sum r.sleeps ≡ slept 3 15 2 4)
generic_retry_query-success_example =
    generic_retry_query-success 0 6 3 15 2 flaky (omega arith) 4 104 (omega arith) flaky-Fails refl

generic_retry_query-failure_example :
    (r : Run String ℕ) × (generic_retry_query 0 6 3 15 2 dead ≡ done r)
    × (r.result.success ≡ false)
    × (r.result.value ≡ 0)
    × ((e : String) × (dead 5 ≡ err e) × (r.result.error ≡ some e))
    × (r.calls ≡ 6)
    × (sum r.sleeps ≡ slept 3 15 2 5)
generic_retry_query-failure_example =
    generic_retry_query-failure 0 6 3 15 2 dead (omega arith) (omega arith)
      (λ k h. ("refused", refl))

-- with the default settings a call that never succeeds sleeps 45 seconds
defaults_sleep : slept 3 15 2 5 ≡ 45
defaults_sleep = refl

sleeps_in_order :
    generic_retry_query 0 6 3 15 2 flaky
    ≡ done (record {
      result = record { value = 104; error = none; success = true };
      sleeps = 2 ∷ 4 ∷ 6 ∷ 15 ∷ 8 ∷ [];
      calls = 5;
    })
unfolding generic_retry_query sleeps_after
sleeps_in_order = refl
