-- ===== src/Query.antt =====
-- indexer/query: the query operator, which fans RPC queries out and retries the ones that fail.
-- The RPC client is a parameter: what the call number `k` for one height or hash returns. The
-- retry settings are not negative.
pub mod Fetch
pub mod Ranges
use spectra_gnoland_indexer.Common.{
  ℕ, suc, ◌+◌, String, Bool, true, false, Option, none, some, List, [], ◌∷◌, map, length,
  range_from, ltb, ◌==◌, if◌then◌else◌, Outcome, done, panicked, ◌>>=◌, ◌>>◌, Result, ok, err,
  add64, sub64, max_int64,
}
use spectra_gnoland_indexer.Retry.{retry_with_context}
use spectra_gnoland_indexer.Swarm.{fan_out}

pub record QueryOperator : Type 0 where
  pub retry_amount : ℕ
  pub pause : ℕ
  pub pause_time : ℕ
  pub exponential_backoff : ℕ

-- durations in nanoseconds
abbrev pub second : ℕ
second = 1000000000

abbrev default_retry_amount : ℕ
default_retry_amount = 6

abbrev default_pause : ℕ
default_pause = 3

abbrev default_pause_time : ℕ
default_pause_time = 15000000000

abbrev default_exponential_backoff : ℕ
default_exponential_backoff = 2000000000

-- a setting that is nil or zero takes its default
abbrev or_default : Option ℕ → ℕ → ℕ
or_default none d = d
or_default (some n) d = if n == 0 then d else n

unfoldable pub new_query_operator : Option ℕ → Option ℕ → Option ℕ → Option ℕ → QueryOperator
new_query_operator retry_amount pause pause_time exponential_backoff = record {
  retry_amount = or_default retry_amount default_retry_amount;
  pause = or_default pause default_pause;
  pause_time = or_default pause_time default_pause_time;
  exponential_backoff = or_default exponential_backoff default_exponential_backoff;
}

module _ {ℓ} {T : Type ℓ} where
  -- a panic in any goroutine ends the program
  abbrev pub none_panics : List (Outcome (Option T)) → Outcome (Unit {0})
  none_panics [] = done tt
  none_panics (o ∷ os) = o >>= λ _. none_panics os

  abbrev pub written : Outcome (Option T) → Option (Option T)
  written (done t) = some t
  written panicked = none

module _ {ℓ κ} {E : Type κ} {T : Type ℓ} where
  -- the closure given to the retry wrapper returns a pointer
  abbrev pub as_pointer : Result E T → Result E (Option T)
  as_pointer (ok t) = ok (some t)
  as_pointer (err e) = err e

  -- the body of one goroutine, up to the write: the pointer that its slot receives
  unfoldable pub fetch : QueryOperator → (ℕ → Result E T) → Outcome (Option T)
  unfolding retry_with_context
  fetch q calls = elim (calls 0) [
    | ok t ↦ done (some t)
    | err _ ↦
        retry_with_context none q.retry_amount q.pause q.pause_time q.exponential_backoff
          (λ k. as_pointer (calls (suc k))) (λ result. result) (λ retry_err. none)
  ]

  unfoldable pub fetch_all {μ} :
      {K : Type μ}
      → QueryOperator
      → (K → ℕ → Result E T)
      → List K
      → List ℕ
      → Outcome (List (Option T))
  unfolding fetch fan_out
  fetch_all q rpc keys sched = do
    none_panics (map (λ k. fetch q (rpc k)) keys)
    done (fan_out (λ k. written (fetch q (rpc k))) keys none sched)

  -- `make` panics on a length beyond `int`
  unfoldable pub get_from_to_blocks :
      QueryOperator → (ℕ → ℕ → Result E T) → ℕ → ℕ → List ℕ → Outcome (List (Option T))
  get_from_to_blocks q get_block from_height to_height sched =
      let diff = add64 (sub64 to_height from_height) 1 in
      if ltb diff 1
      then done []
      else if ltb max_int64 diff
      then panicked
      else fetch_all q get_block (map (add64 from_height) (range_from 0 diff)) sched

  -- the same code over `GetCommit`
  unfoldable pub get_from_to_commits :
      QueryOperator → (ℕ → ℕ → Result E T) → ℕ → ℕ → List ℕ → Outcome (List (Option T))
  get_from_to_commits q get_commit from_height to_height sched =
      let diff = add64 (sub64 to_height from_height) 1 in
      if ltb diff 1
      then done []
      else if ltb max_int64 diff
      then panicked
      else fetch_all q get_commit (map (add64 from_height) (range_from 0 diff)) sched

  unfoldable pub get_transactions :
      QueryOperator → (String → ℕ → Result E T) → List String → List ℕ → Outcome (List (Option T))
  get_transactions q get_tx txs sched =
      if ltb (length txs) 1 then done [] else fetch_all q get_tx txs sched
