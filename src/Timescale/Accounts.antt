-- ===== src/Timescale/Accounts.antt =====
-- pkgs/database/timescaledb: the other queries of queries_address.go, and `GetTransactionsByOffset`
-- of queries_tx.go, over what the database answers.
use spectra_gnoland_indexer.Common.{
  ℕ, String, Bool, ◌≡◌, refl, true, false, ◌∷◌, Option, none, some, List, [], map, Result, ok, err,
}
use mathlib.Core.Option
use spectra_gnoland_indexer.Timescale.{DbError, not_found, failure, Select}
use spectra_gnoland_indexer.Timescale.Types.{AddressTx, Amount, Event, Transaction}
use spectra_gnoland_indexer.Timescale.Views.{Rows, fold_answer, append_scanned, single}
use spectra_gnoland_indexer.Timescale.Volumes.{whole, all_read}
use spectra_gnoland_indexer.Timescale.Events.{
  Decoding, FullTxData, TxRows, scan_answer, scan_rows, scan_transaction_rows, to_transaction,
  decode_events, with_events,
}

-- the id of an address: no row, one that cannot be scanned, or the id
abbrev scan_id : Option (Option ℕ) → Result DbError ℕ
scan_id none = err not_found
scan_id (some none) = err failure
scan_id (some (some id)) = ok id

unfoldable get_account_id :
    (String → String → Option (Option ℕ)) → String → String → Result DbError ℕ
get_account_id query_row address chain_name = scan_id (query_row address chain_name)

unfoldable exec_acc_query :
    (Select → Option (Rows AddressTx)) → Select → Result DbError (List AddressTx)
exec_acc_query query select = fold_answer append_scanned [] (query select)

-- the highest id of a chain; a chain without addresses is an error like any other
unfoldable get_total_addresses_count : (String → Option (Option ℕ)) → String → Result DbError ℕ
get_total_addresses_count query_row chain_name = single (query_row chain_name)

-- the columns that the query of `GetTransactionsByOffset` selects
pub record OffsetColumns : Type 0 where
  pub tx_hash : List ℕ
  pub timestamp : ℕ
  pub block_height : ℕ
  pub tx_events : List Event
  pub gas_used : ℕ
  pub gas_wanted : ℕ
  pub fee : Amount
  pub msg_types : List String
  pub success : Bool
  pub error_log : Option String

module _ {Float Bytes : Type 0} (decoding : Decoding Float Bytes) (nil : Bytes) where
  -- the compressed events stay nil, and the compression stays off
  abbrev scan_offset : OffsetColumns → FullTxData Bytes
  scan_offset row = record {
    tx_hash = row.tx_hash;
    timestamp = row.timestamp;
    block_height = row.block_height;
    tx_events = row.tx_events;
    tx_events_compressed = nil;
    compression_on = false;
    gas_used = row.gas_used;
    gas_wanted = row.gas_wanted;
    fee = row.fee;
    msg_types = row.msg_types;
    success = row.success;
    error_log = row.error_log;
  }

  abbrev scan_offsets : Option (Rows OffsetColumns) → Option (TxRows Bytes)
  scan_offsets none = none
  scan_offsets (some r) =
      some (record { rows = map (Option.map scan_offset) r.rows; complete = r.complete })

  unfoldable get_transactions_by_offset :
      (String → ℕ → ℕ → Option (Rows OffsetColumns))
      → String
      → ℕ
      → ℕ
      → Result DbError (List Transaction)
  get_transactions_by_offset query chain_name limit offset =
      scan_answer decoding (scan_offsets (query chain_name limit offset))

  scan_rows-with_events :
      (rows : List OffsetColumns)
      → scan_rows (decode_events decoding) (map (Option.map scan_offset) (all_read rows)) true
        ≡ ok (map (λ row. with_events (scan_offset row) row.tx_events) rows)
  unfolding scan_rows to_transaction
  scan_rows-with_events [] = refl
  scan_rows-with_events (row ∷ rows) = rw (scan_rows-with_events rows) refl

  -- If all rows can be read, GetTransactionsByOffset gives them in order with the events of the
  -- column tx_events, whatever a row keeps of compressed events.
  get_transactions_by_offset-with_events :
      (query : String → ℕ → ℕ → Option (Rows OffsetColumns)) (chain_name : String)
      (limit offset : ℕ) (rows : List OffsetColumns)
      → query chain_name limit offset ≡ some (whole rows)
      → get_transactions_by_offset query chain_name limit offset
        ≡ ok (map (λ row. with_events (scan_offset row) row.tx_events) rows)
  unfolding get_transactions_by_offset scan_transaction_rows
  get_transactions_by_offset-with_events query chain_name limit offset rows e =
      rw e (scan_rows-with_events rows)
