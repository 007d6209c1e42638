-- ===== src/ContextHook.antt =====
-- indexer/context_hook/hook.go: what a signal does. The wait for the operations, which ends with
-- them or after 30 seconds, changes nothing of what follows and is left out.
use spectra_gnoland_indexer.Common.{ℕ, zero, suc, Bool, Option, none, some, Outcome, done, panicked}

-- the signals that are registered
pub data Signal : Type 0 where
  interrupt : Signal
  sigterm : Signal
  sigquit : Signal

-- a function that is nil is `none`; it gives false for an error
pub record SignalHandler (World : Type 0) : Type 0 where
  pub cancel : World → World
  pub cleanup : Option (World → Bool × World)
  pub state_dump : Option (World → Bool × World)

-- the wait group of the operations; one that goes below zero panics
unfoldable register_operation : ℕ → ℕ
register_operation shutdown_wg = suc shutdown_wg

unfoldable operation_complete : ℕ → Outcome ℕ
operation_complete zero = panicked
operation_complete (suc shutdown_wg) = done shutdown_wg

module _ {World : Type 0} where
  -- an error is only logged
  abbrev run_hook : Option (World → Bool × World) → World → World
  run_hook none w = w
  run_hook (some f) w = (f w).1

  -- the exit code, and what is left
  unfoldable pub graceful_shutdown : SignalHandler World → World → ℕ × World
  graceful_shutdown sh w = (0, run_hook sh.cleanup (sh.cancel w))

  unfoldable pub emergency_shutdown : SignalHandler World → World → ℕ × World
  emergency_shutdown sh w = (1, run_hook sh.state_dump (sh.cancel w))

  -- what the goroutine of StartListening does with a signal
  unfoldable pub on_signal : SignalHandler World → Signal → World → ℕ × World
  on_signal sh interrupt w = graceful_shutdown sh w
  on_signal sh sigterm w = graceful_shutdown sh w
  on_signal sh sigquit w = emergency_shutdown sh w
