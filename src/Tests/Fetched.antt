-- ===== src/Tests/Fetched.antt =====
-- Blocks of two heights, with the transactions of one of them.
use spectra_gnoland_indexer.Common.{
  ℕ, ◌≡◌, refl, String, Option, some, List, [], ◌∷◌, map, ok, err, arith,
}
use spectra_gnoland_indexer.Timescale.Types.{BlockData}
use spectra_gnoland_indexer.Timescale.Blocks.{TxRow, get_blocks_between, with_hashes, hashes_at}
use spectra_gnoland_indexer.Api.{bad_request}
use spectra_gnoland_indexer.Api.Ranges.{
  get_from_to_blocks_response, get_from_to_blocks_response-hashes_at,
}

abbrev block_at : ℕ → BlockData
block_at height = record {
  hash = "h";
  height = height;
  timestamp = 50;
  chain_id = "dev";
  txs = [];
  proposer = "g1a";
  tx_counter = 0;
}

abbrev blocks : ℕ → ℕ → String → Option (List BlockData)
blocks from_height to_height chain_name = some (block_at 4 ∷ block_at 5 ∷ [])

abbrev txs : ℕ → ℕ → String → Option (List TxRow)
txs from_height to_height chain_name = some (("t1", 5) ∷ ("t2", 5) ∷ [])

abbrev message : ℕ → ℕ → String
message from_height to_height = "not found"

get_from_to_blocks_response-hashes_at_example :
    get_from_to_blocks_response (get_blocks_between blocks txs) "gno" message 4 5
    ≡ ok (
        map
          (λ c. with_hashes (hashes_at c.height (("t1", 5) ∷ ("t2", 5) ∷ [])) c)
          (block_at 4 ∷ block_at 5 ∷ []))
get_from_to_blocks_response-hashes_at_example =
    get_from_to_blocks_response-hashes_at blocks txs message "gno" 4 5 (block_at 4)
      (block_at 5 ∷ []) (("t1", 5) ∷ ("t2", 5) ∷ []) (omega arith) (omega arith) refl refl

too_wide :
    get_from_to_blocks_response (get_blocks_between blocks txs) "gno" message 4 200
    ≡ err (bad_request "from_height and to_height difference must be less than 100")
unfolding get_from_to_blocks_response
too_wide = refl
