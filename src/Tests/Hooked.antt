-- ===== src/Tests/Hooked.antt =====
-- Constants that are read again and again, and a signal handler whose world is the list of what
-- has been done, latest first.
use spectra_gnoland_indexer.Common.{ℕ, String, ◌≡◌, refl, false, Option, some, none, List, [], ◌∷◌}
use spectra_gnoland_indexer.ContextHook.{
  SignalHandler, sigterm, sigquit, on_signal, graceful_shutdown, emergency_shutdown,
}
use spectra_gnoland_indexer.Api.Constants.{
  Answered, ticked, stopped, new_in_memory_handler, refresh_loop, refresh_constants,
}

abbrev handler : SignalHandler (List String)
handler = record {
  cancel = λ w. "cancel" ∷ w;
  cleanup = some (λ w. (false, "cleanup" ∷ w));
  state_dump = none;
}

-- the cleanup fails, and the exit code is 0 all the same
failed_cleanup : on_signal handler sigterm [] ≡ (0, "cleanup" ∷ "cancel" ∷ [])
unfolding on_signal graceful_shutdown
failed_cleanup = refl

no_dump : on_signal handler sigquit [] ≡ (1, "cancel" ∷ [])
unfolding on_signal emergency_shutdown
no_dump = refl

abbrev answered : Option ℕ → Option ℕ → Answered ℕ
answered avg total = record { avg = avg; total = total }

-- the second query fails at first and later on, and nothing is read after the stop
kept_values :
    new_in_memory_handler 0 (answered (some 4) none) (
      ticked (answered (some 5) (some 90))
      ∷ ticked (answered none none)
      ∷ stopped
      ∷ ticked (answered (some 6) (some 91))
      ∷ [])
    ≡ record { avg_block_prod_time = 5; total_addresses_count = 90 }
unfolding new_in_memory_handler refresh_loop refresh_constants
kept_values = refl
