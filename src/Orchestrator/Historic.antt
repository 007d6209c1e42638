-- ===== src/Orchestrator/Historic.antt =====
-- `HistoricProcess` of indexer/orchestrator/operator.go: a range of heights, in chunks.
-- The world `W` is what the data processor changes. The answers of the node and the order of the
-- goroutines may differ from round to round. The loop takes fuel, and `none` means that it ran out.
pub mod Chunks
use mathlib.Core.Option
use spectra_gnoland_indexer.Common.{
  ℕ, zero, suc, ◌+◌, Bool, true, false, Option, none, some, List, [], ◌∷◌, Outcome, done, ◌>>=◌,
  min, add64, sub64, leb, if◌then◌else◌,
}
use spectra_gnoland_indexer.Orchestrator.{Hashing, DataProcessorOps, process_chunk}
use spectra_gnoland_indexer.Orchestrator.State.{Orchestrator, Round}

pub record HistoricRun (W : Type 0) : Type 0 where
  pub orchestrator : Orchestrator
  pub world : W
  pub chunks : List (ℕ × ℕ)
  pub interrupted : Bool

abbrev pub add_chunk : {W : Type 0} → ℕ × ℕ → HistoricRun W → HistoricRun W
add_chunk c r = record r { chunks = c ∷ r.chunks }

-- the end of a chunk; the sums are those of `uint64`
abbrev pub chunk_end_of : ℕ → ℕ → ℕ → ℕ
chunk_end_of start_height size to_height = min (sub64 (add64 start_height size) 1) to_height

module _ {W : Type 0} (hashing : Hashing) (dp : DataProcessorOps W) (rounds : ℕ → Round)
    (to_height : ℕ) (compress_events : Bool) where
  -- the deferred function resets `isProcessing`
  abbrev pub stop : Orchestrator → W → Bool → Outcome (Option (HistoricRun W))
  stop o w interrupted = done (
      some (record {
        orchestrator = record o { is_processing = false };
        world = w;
        chunks = [];
        interrupted = interrupted;
      }))

  -- round `k`; an error of a chunk is logged, and the loop goes on
  unfoldable pub historic_loop : ℕ → ℕ → ℕ → Orchestrator → W → Outcome (Option (HistoricRun W))
  historic_loop zero k start_height o w = done none
  historic_loop (suc fuel) k start_height o w =
      let r = rounds k in
      let chunk_end = chunk_end_of start_height o.max_block_chunk_size to_height in
      let o' : Orchestrator = record o { current_processing_height = chunk_end } in
      let next = (do
        (err, w') ←
            process_chunk dp hashing r.query r.orders start_height chunk_end compress_events w
        run ← historic_loop fuel (k + 1) (add64 chunk_end 1) o' w'
        done (Option.map (add_chunk (start_height, chunk_end)) run)) in
      if leb start_height to_height
      then if r.cancelled then stop o w true else next
      else stop o w false

  unfoldable pub historic_process : ℕ → ℕ → Orchestrator → W → Outcome (Option (HistoricRun W))
  unfolding historic_loop
  historic_process fuel from_height o w =
      historic_loop fuel 0 from_height
        (record o { is_processing = true; current_processing_height = from_height }) w
