-- ===== src/Retry.antt =====
-- indexer/retry/worker.go: the retry wrapper around an RPC query.
-- The wrapped function is a sequence of outcomes, one for each call of it. Durations are numbers
-- of one unit, and do not overflow.
pub mod Sleeps
pub mod Results
use spectra_gnoland_indexer.Common.{
  ℕ, zero, suc, ◌+◌, ◌-◌, ◌*◌, ◌%◌, Bool, true, false, Option, none, some, List, [], ◌∷◌, ◌++◌, ltb,
  ◌==◌, if◌then◌else◌, Outcome, done, panicked, ◌>>=◌, Result, ok, err,
}

pub record RetryResult {ℓ κ} (E : Type κ) (T : Type ℓ) : Type (ℓ ⊔ κ) where
  pub value : T
  pub error : Option E
  pub success : Bool

-- what one run leaves behind: the value sent on the channel, the sleeps in order, and the number
-- of calls of the wrapped function
pub record Run {ℓ κ} (E : Type κ) (T : Type ℓ) : Type (ℓ ⊔ κ) where
  pub result : RetryResult E T
  pub sleeps : List ℕ
  pub calls : ℕ

-- the sleeps behind the failed attempt `i`; `%` by zero panics
unfoldable pub sleeps_after : ℕ → ℕ → ℕ → ℕ → ℕ → Outcome (List ℕ)
sleeps_after retry_amount pause pause_time exponential_backoff i =
    if ltb (i + 1) retry_amount
    then if pause == 0
      then panicked
      else done
          (exponential_backoff * (i + 1) ∷ (if (i + 1) % pause == 0 then pause_time ∷ [] else []))
    else done []

module _ {ℓ κ} {E : Type κ} {T : Type ℓ} where
  abbrev pub add_sleeps : List ℕ → Run E T → Run E T
  add_sleeps s r = record r { sleeps = s ++ r.sleeps }

  module _ (zero_value : T) (retry_amount pause pause_time exponential_backoff : ℕ)
      (fn : ℕ → Result E T) where
    -- the loop, with the attempts that are left, from attempt `i`
    unfoldable pub attempts : ℕ → ℕ → Option E → Outcome (Run E T)
    attempts zero i last_err = done (record {
      result = record { value = zero_value; error = last_err; success = false };
      sleeps = [];
      calls = i;
    })
    attempts (suc left) i last_err = elim (fn i) [
      | ok result ↦ done (record {
        result = record { value = result; error = none; success = true };
        sleeps = [];
        calls = i + 1;
      })
      | err e ↦ do
        s ← sleeps_after retry_amount pause pause_time exponential_backoff i
        r ← attempts left (i + 1) (some e)
        done (add_sleeps s r)
    ]

    unfoldable pub generic_retry_query : Outcome (Run E T)
    unfolding attempts
    generic_retry_query = attempts retry_amount 0 none

    -- one of the two callbacks runs, once
    unfoldable pub retry_with_context {μ} : {R : Type μ} → (T → R) → (Option E → R) → Outcome R
    unfolding generic_retry_query
    retry_with_context on_success on_failure = do
      r ← generic_retry_query
      done (if r.result.success then on_success r.result.value else on_failure r.result.error)
