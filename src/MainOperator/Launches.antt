-- ===== src/MainOperator/Launches.antt =====
-- indexer/main_operator/operator.go: what the historic mode processes from its flags and the
-- configuration.

use spectra_gnoland_indexer.Common.{false}
use spectra_gnoland_indexer.AddressCache.{AddressCache}
use spectra_gnoland_indexer.Orchestrator.State.{Orchestrator}
use spectra_gnoland_indexer.MainOperator.{Config}

-- the orchestrator of the historic mode before it starts
abbrev pub historic_orchestrator : Config → Orchestrator
historic_orchestrator c = record {
  running_mode = "historic";
  chain_name = c.chain_name;
  max_block_chunk_size = c.max_block_chunk_size;
  is_processing = false;
  current_processing_height = 0;
}
