-- ===== src/Orchestrator/Live.antt =====
-- `LiveProcess` of indexer/orchestrator/operator.go: it follows the height of the node. A finite
-- list of rounds is what the loop has met so far; the pauses and the metrics are not modelled.
pub mod Steps
pub mod Follows
use spectra_gnoland_indexer.Common.{
  ℕ, ◌+◌, String, Bool, true, false, Option, none, some, List, [], ◌∷◌, ◌++◌, Outcome, done,
  panicked, ◌>>=◌, min, add64, sub64, ◌==◌, if◌then◌else◌,
}
use spectra_gnoland_indexer.Orchestrator.{Hashing, DataProcessorOps, process_chunk}
use spectra_gnoland_indexer.Orchestrator.State.{Orchestrator, Round}

-- `GetLatestBlockHeight` of the node gives an error or a height
abbrev pub LiveRound : Type 0
LiveRound = Option ℕ × Round

-- the state of the loop, and the chunks that were processed so far
pub record LiveRun (W : Type 0) : Type 0 where
  pub orchestrator : Orchestrator
  pub last_processed_height : ℕ
  pub world : W
  pub chunks : List (ℕ × ℕ)

-- the first height: of the database, or of the node
abbrev pub live_start : Bool → Option ℕ → Option ℕ → Option ℕ
live_start skip_initial_db_check db_height latest_height =
    if skip_initial_db_check then latest_height else db_height

abbrev pub begin : {W : Type 0} → Orchestrator → W → ℕ → LiveRun W
begin o w last_processed_height = record {
  orchestrator = record o {
    is_processing = true;
    current_processing_height = last_processed_height;
  };
  last_processed_height = last_processed_height;
  world = w;
  chunks = [];
}

-- the deferred function resets `isProcessing`
abbrev pub finish : {W : Type 0} → LiveRun W → LiveRun W
finish s = record s { orchestrator = record (s.orchestrator) { is_processing = false } }

-- what follows `processChunk`: an error leaves the last height as it was
abbrev pub chunk_done : {W : Type 0} → ℕ → ℕ → Option String → W → LiveRun W → LiveRun W
chunk_done chunk_start chunk_end (some err) w s = record s {
  orchestrator = record (s.orchestrator) { current_processing_height = chunk_start };
  world = w;
}
chunk_done chunk_start chunk_end none w s = record s {
  orchestrator = record (s.orchestrator) { current_processing_height = chunk_end };
  last_processed_height = chunk_end;
  world = w;
  chunks = s.chunks ++ (chunk_start, chunk_end) ∷ [];
}

-- the end of the next chunk; the sums are those of `uint64`
unfoldable pub live_chunk_end : ℕ → ℕ → ℕ → ℕ
live_chunk_end last latest_height size =
    let current_chunk_size = min (sub64 latest_height last) size in
    min (sub64 (add64 (add64 last 1) current_chunk_size) 1) latest_height

module _ {W : Type 0} (hashing : Hashing) (dp : DataProcessorOps W) (compress_events : Bool) where
  abbrev live_chunk : Round → ℕ → LiveRun W → Outcome (LiveRun W)
  live_chunk r latest_height s =
      let last = s.last_processed_height in
      let chunk_start = add64 last 1 in
      let chunk_end = live_chunk_end last latest_height s.orchestrator.max_block_chunk_size in
      do
        (err, w) ←
            process_chunk dp hashing r.query r.orders chunk_start chunk_end compress_events s.world
        done (chunk_done chunk_start chunk_end err w s)

  -- one round that the context does not end
  unfoldable pub live_step : Option ℕ → Round → LiveRun W → Outcome (LiveRun W)
  live_step none r s = done s
  live_step (some latest_height) r s =
      let blocks_behind = sub64 latest_height s.last_processed_height in
      if blocks_behind == 0 then done s else live_chunk r latest_height s

  unfoldable pub live_loop : List LiveRound → LiveRun W → Outcome (LiveRun W)
  unfolding live_step
  live_loop [] s = done s
  live_loop ((latest_height, r) ∷ rs) s =
      let next = (do s' ← live_step latest_height r s; live_loop rs s') in
      if r.cancelled then done (finish s) else next

  -- without a first height of the node the process returns; without one of the database
  -- `l.Fatal` ends the program, which is written as a panic
  unfoldable pub live_from :
      Bool → Option ℕ → List LiveRound → Orchestrator → W → Outcome (LiveRun W)
  unfolding live_loop
  live_from true none rs o w = done (finish (begin o w 0))
  live_from false none rs o w = panicked
  live_from skip_initial_db_check (some last) rs o w = live_loop rs (begin o w last)

  -- `skipInitialDbCheck` says whether the database or the node gives the first height
  unfoldable pub live_process :
      Bool → Option ℕ → Option ℕ → List LiveRound → Orchestrator → W → Outcome (LiveRun W)
  unfolding live_from
  live_process skip_initial_db_check db_height latest_height rs o w =
      live_from skip_initial_db_check (live_start skip_initial_db_check db_height latest_height) rs
        o w
