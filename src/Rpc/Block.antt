-- ===== src/Rpc/Block.antt =====
-- indexer/rpc_client/blocks.go: the helper methods of `BlockResponse`. `get_height` gives `none`
-- for an error.
use spectra_gnoland_indexer.Common.{
  ℕ, String, Bool, true, false, Option, none, some, List, [], parse_uint,
}
use spectra_gnoland_indexer.Rpc.{BlockResponse, Precommit, zero_time}

unfoldable pub get_height : Option BlockResponse → Option ℕ
get_height none = none
get_height (some br) = parse_uint br.result.block.header.height

unfoldable pub get_timestamp : Option BlockResponse → ℕ
get_timestamp none = zero_time
get_timestamp (some br) = br.result.block.header.time

unfoldable get_chain_id : Option BlockResponse → String
get_chain_id none = ""
get_chain_id (some br) = br.result.block.header.chain_id

unfoldable pub get_proposer_address : Option BlockResponse → String
get_proposer_address none = ""
get_proposer_address (some br) = br.result.block.header.proposer_address

unfoldable get_block_hash : Option BlockResponse → String
get_block_hash none = ""
get_block_hash (some br) = br.result.block_meta.block_id.hash

-- nil for a nil block and for a block with no list of transactions
unfoldable pub get_tx_hashes : Option BlockResponse → Option (List String)
get_tx_hashes none = none
get_tx_hashes (some br) = br.result.block.block_data.txs

unfoldable get_precommits : Option BlockResponse → List (Option Precommit)
get_precommits none = []
get_precommits (some br) = br.result.block.last_commit.precommits

unfoldable is_valid : Option BlockResponse → Bool
is_valid none = false
is_valid (some br) = elim br.error [ none ↦ true | some e ↦ false ]
