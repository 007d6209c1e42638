-- ===== src/Rpc/Commits.antt =====
-- indexer/rpc_client/commit.go: the helper methods of `CommitResponse`. `get_height` gives `none`
-- for an error.
use spectra_gnoland_indexer.Common.{ℕ, String, Option, none, some, List, [], parse_uint}
use spectra_gnoland_indexer.Rpc.{CommitResponse, Precommit, zero_time}

unfoldable pub get_height : Option CommitResponse → Option ℕ
get_height none = none
get_height (some cr) = parse_uint cr.result.signed_header.header.height

unfoldable pub get_timestamp : Option CommitResponse → ℕ
get_timestamp none = zero_time
get_timestamp (some cr) = cr.result.signed_header.header.time

unfoldable pub get_signers : Option CommitResponse → List (Option Precommit)
get_signers none = []
get_signers (some cr) = cr.result.signed_header.commit.precommits

unfoldable pub get_proposer_address : Option CommitResponse → String
get_proposer_address none = ""
get_proposer_address (some cr) = cr.result.signed_header.header.proposer_address
