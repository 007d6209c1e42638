-- ===== src/Retry/Results.antt =====
-- What `GenericRetryQuery` and `RetryWithContext` of indexer/retry/worker.go promise a caller.
use spectra_gnoland_indexer.Common.{
  ℕ, ◌+◌, ◌-◌, ◌<◌, ◌≡◌, true, false, none, some, done, Result, ok, err, arith,
}
use spectra_gnoland_indexer.Retry.{Run, generic_retry_query}
use spectra_gnoland_indexer.Retry.Sleeps.{
  Fails, sum, slept, slept-zero, attempts_success, attempts_failure,
}

module _ {ℓ κ} {E : Type κ} {T : Type ℓ} (zv : T) (n p pt b : ℕ) (fn : ℕ → Result E T)
    (pos : 0 < p) where
  -- If the attempt `j`, counted from 0 and below the retry amount, is the first to succeed, the
  -- wrapper does not panic: it returns that attempt's value with no error, after exactly j + 1
  -- calls, and it has slept b * (1 + ... + j) and one pause for each `p` failures among the j.
  pub generic_retry_query-success :
      (j : ℕ) (v : T)
      → j < n
      → ((k : ℕ) → k < j → Fails (fn k))
      → fn j ≡ ok v
      → (r : Run E T) × (generic_retry_query zv n p pt b fn ≡ done r)
        × (r.result ≡ record { value = v; error = none; success = true })
        × (r.calls ≡ j + 1)
        × (sum r.sleeps ≡ slept p pt b j)
  unfolding generic_retry_query
  generic_retry_query-success j v lt f s =
      let (r, run, res, cs, ss) =
        attempts_success n p pt b pos zv fn n 0 j none v (omega arith) (omega arith) lt f s in
      (r, run, res, cs, omega (arith, slept-zero p pt b))

  -- If each of the `n` attempts fails, and there is at least one, the wrapper does not panic: it
  -- reports failure with the zero value and the error of the last attempt, after exactly n calls,
  -- and it has not slept after the last one.
  pub generic_retry_query-failure :
      0 < n
      → ((k : ℕ) → k < n → Fails (fn k))
      → (r : Run E T) × (generic_retry_query zv n p pt b fn ≡ done r)
        × (r.result.success ≡ false)
        × (r.result.value ≡ zv)
        × ((e : E) × (fn (n - 1) ≡ err e) × (r.result.error ≡ some e))
        × (r.calls ≡ n)
        × (sum r.sleeps ≡ slept p pt b (n - 1))
  unfolding generic_retry_query
  generic_retry_query-failure h f =
      let (r, run, res, val, cs, er, ss) =
        attempts_failure n p pt b pos zv fn n 0 none (omega arith) f in
      (r, run, res, val, er h, cs, omega (arith, slept-zero p pt b, ss h))
