-- ===== src/Rpc/Tx.antt =====
-- indexer/rpc_client/transactions.go: the helper methods of `TxResponse`. `get_height` and those of
-- the gas give `none` for an error.
use spectra_gnoland_indexer.Common.{
  ℕ, String, Bool, true, false, not, Option, none, some, List, [], parse_uint,
}
use spectra_gnoland_indexer.Rpc.{TxResponse, RpcEvent}

abbrev is_nil {ℓ} : {A : Type ℓ} → Option A → Bool
is_nil none = true
is_nil (some a) = false

unfoldable pub get_hash : Option TxResponse → String
get_hash none = ""
get_hash (some tr) = tr.result.hash

unfoldable get_height : Option TxResponse → Option ℕ
get_height none = none
get_height (some tr) = parse_uint tr.result.height

unfoldable get_events : Option TxResponse → List RpcEvent
get_events none = []
get_events (some tr) = tr.result.tx_result.response_base.events

unfoldable get_gas_wanted : Option TxResponse → Option ℕ
get_gas_wanted none = none
get_gas_wanted (some tr) = parse_uint tr.result.tx_result.gas_wanted

unfoldable get_gas_used : Option TxResponse → Option ℕ
get_gas_used none = none
get_gas_used (some tr) = parse_uint tr.result.tx_result.gas_used

unfoldable get_tx : Option TxResponse → String
get_tx none = ""
get_tx (some tr) = tr.result.tx

unfoldable get_index : Option TxResponse → ℕ
get_index none = 0
get_index (some tr) = tr.result.index

unfoldable is_valid : Option TxResponse → Bool
is_valid none = false
is_valid (some tr) = is_nil tr.error

unfoldable has_error : Option TxResponse → Bool
has_error none = false
has_error (some tr) = not (is_nil tr.result.tx_result.response_base.error)
