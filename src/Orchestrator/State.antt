-- ===== src/Orchestrator/State.antt =====
-- The orchestrator's own state (indexer/orchestrator/types.go), and what a round of its loops
-- finds.
use spectra_gnoland_indexer.Common.{
  ℕ, String, Bool, false, ◌||◌, List, [], ◌∷◌, ◌++◌, ◌+◌, ◌-◌, heights, Outcome, done, panicked,
  str_eq, if◌then◌else◌,
}
use spectra_gnoland_indexer.Orchestrator.{QueryOps, Task}

-- the fields that change, and the settings that the loops read
pub record Orchestrator : Type 0 where
  pub running_mode : String
  pub chain_name : String
  pub max_block_chunk_size : ℕ
  pub is_processing : Bool
  pub current_processing_height : ℕ

-- any other running mode panics
unfoldable pub new_orchestrator : String → String → ℕ → Outcome Orchestrator
new_orchestrator running_mode chain_name max_block_chunk_size =
    if str_eq running_mode "live" || str_eq running_mode "historic"
    then done (record {
      running_mode = running_mode;
      chain_name = chain_name;
      max_block_chunk_size = max_block_chunk_size;
      is_processing = false;
      current_processing_height = 0;
    })
    else panicked

-- whether the context is done, the answers of the node, and the order in which the goroutines of
-- each phase take effect
pub record Round : Type 0 where
  pub cancelled : Bool
  pub query : QueryOps
  pub orders : List Task → List Task

-- the heights of a list of chunks, each from its first height to its last
abbrev pub chunk_heights : List (ℕ × ℕ) → List ℕ
chunk_heights [] = []
chunk_heights ((s, e) ∷ cs) = heights s (e - s + 1) ++ chunk_heights cs
