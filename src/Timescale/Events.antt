-- ===== src/Timescale/Events.antt =====
-- pkgs/database/timescaledb/queries_tx.go: transactions as they are read, with their events
-- native or compressed (`decodeEvents`, and `ToTransaction` of pkgs/database/types.go). zstd, the
-- protobuf encoding and the writing of a float are parameters; the rows of a query are those that
-- were read, each `none` if it could not be scanned, and whether the reading came to its end.
use mathlib.Core.Option
use spectra_gnoland_indexer.Common.{
  ℕ, String, Bool, true, false, Option, none, some, List, [], ◌∷◌, map, Result, ok, err, format_int,
  str_eq, if◌then◌else◌,
}
use spectra_gnoland_indexer.EventAttributes.{
  AttributeValue, bool_value, int64_value, double_value, string_value,
}
use spectra_gnoland_indexer.Timescale.{DbError, not_found, failure}
use spectra_gnoland_indexer.Timescale.Types.{Attribute, Event, Amount, Transaction}

module _ (Float : Type 0) where
  -- a protobuf attribute, whose value may be missing
  pub record ReadAttribute : Type 0 where
    pub key : String
    pub value : Option (AttributeValue Float)

  pub record ReadEvent : Type 0 where
    pub at_type : String
    pub type : String
    pub attributes : List ReadAttribute
    pub pkg_path : Option String

  pub record Decoding (Bytes : Type 0) : Type 0 where
    pub is_empty : Bytes → Bool
    pub decode_all : Bytes → Option Bytes
    pub unmarshal : Bytes → Option (List ReadEvent)
    pub format_float : Float → String

-- strconv.FormatBool
abbrev pub format_bool : Bool → String
format_bool true = "true"
format_bool false = "false"

-- the columns of a transaction, as they are scanned
pub record FullTxData (Bytes : Type 0) : Type 0 where
  pub tx_hash : List ℕ
  pub timestamp : ℕ
  pub block_height : ℕ
  pub tx_events : List Event
  pub tx_events_compressed : Bytes
  pub compression_on : Bool
  pub gas_used : ℕ
  pub gas_wanted : ℕ
  pub fee : Amount
  pub msg_types : List String
  pub success : Bool
  pub error_log : Option String

pub record TxRows (Bytes : Type 0) : Type 0 where
  pub rows : List (Option (FullTxData Bytes))
  pub complete : Bool

-- `SortOrder.SQL`
pub data Sorted : Type 0 where
  asc : Sorted
  desc : Sorted

unfoldable pub sort_order_sql : String → Sorted
sort_order_sql s = if str_eq s "asc" then asc else desc

-- the loop of `scanTransactionRows`, with what comes after it
abbrev pub scanned :
    Result DbError Transaction
    → Result DbError (List Transaction)
    → Result DbError (List Transaction)
scanned (err e) rest = err e
scanned (ok tx) (err e) = err e
scanned (ok tx) (ok txs) = ok (tx ∷ txs)

abbrev some_found : Result DbError (List Transaction) → Result DbError (List Transaction)
some_found (err e) = err e
some_found (ok []) = err not_found
some_found (ok (tx ∷ txs)) = ok (tx ∷ txs)

abbrev order_or_default : Option String → Sorted
order_or_default none = sort_order_sql "desc"
order_or_default (some s) = sort_order_sql s

module _ {Bytes : Type 0} where
  abbrev pub with_events : FullTxData Bytes → List Event → Transaction
  with_events f events = record {
    tx_hash = f.tx_hash;
    timestamp = f.timestamp;
    block_height = f.block_height;
    tx_events = events;
    gas_used = f.gas_used;
    gas_wanted = f.gas_wanted;
    fee = f.fee;
    msg_types = f.msg_types;
    success = f.success;
    error_log = f.error_log;
  }

  abbrev decoded_transaction : FullTxData Bytes → Option (List Event) → Result DbError Transaction
  decoded_transaction f none = err failure
  decoded_transaction f (some events) = ok (with_events f events)

  -- `decode` is never nil here
  unfoldable pub to_transaction :
      (Bytes → Option (List Event)) → FullTxData Bytes → Result DbError Transaction
  to_transaction decode f =
      if f.compression_on
      then decoded_transaction f (decode f.tx_events_compressed)
      else ok (with_events f f.tx_events)

  unfoldable pub scan_rows :
      (Bytes → Option (List Event))
      → List (Option (FullTxData Bytes))
      → Bool
      → Result DbError (List Transaction)
  scan_rows decode [] true = ok []
  scan_rows decode [] false = err failure
  scan_rows decode (none ∷ rows) complete = err failure
  scan_rows decode (some f ∷ rows) complete =
      scanned (to_transaction decode f) (scan_rows decode rows complete)

module _ {Float Bytes : Type 0} (decoding : Decoding Float Bytes) where
  open decoding use {is_empty, decode_all, unmarshal, format_float}

  -- a value that is missing is the empty text
  abbrev pub format_value : Option (AttributeValue Float) → String
  format_value none = ""
  format_value (some (string_value s)) = s
  format_value (some (int64_value i)) = format_int i
  format_value (some (bool_value b)) = format_bool b
  format_value (some (double_value f)) = format_float f

  abbrev pub decoded_attribute : ReadAttribute Float → Attribute
  decoded_attribute a = record { key = a.key; value = format_value a.value }

  abbrev pub decoded_event : ReadEvent Float → Event
  decoded_event e = record {
    at_type = e.at_type;
    type = e.type;
    attributes = map decoded_attribute e.attributes;
    pkg_path = Option.get_or e.pkg_path "";
  }

  unfoldable pub decompress_events : Bytes → Option Bytes
  decompress_events tx_events = decode_all tx_events

  unfoldable pub proto_unmarshal : Bytes → Option (List (ReadEvent Float))
  proto_unmarshal raw = unmarshal raw

  abbrev pub unmarshalled : Option Bytes → Option (List (ReadEvent Float))
  unmarshalled none = none
  unmarshalled (some raw) = proto_unmarshal raw

  abbrev decoded_events : Option (List (ReadEvent Float)) → Option (List Event)
  decoded_events none = none
  decoded_events (some events) = some (map decoded_event events)

  -- `none` for an error
  unfoldable pub decode_events : Bytes → Option (List Event)
  decode_events tx_events =
      if is_empty tx_events
      then some []
      else decoded_events (unmarshalled (decompress_events tx_events))

  unfoldable pub scan_transaction_rows : TxRows Bytes → Result DbError (List Transaction)
  scan_transaction_rows rows = scan_rows decode_events rows.rows rows.complete

  abbrev pub found : Option (Option (FullTxData Bytes)) → Result DbError Transaction
  found none = err not_found
  found (some none) = err failure
  found (some (some f)) = to_transaction decode_events f

  -- the row of a hash: none, one that cannot be scanned, or its columns
  unfoldable get_transaction :
      (List ℕ → String → Option (Option (FullTxData Bytes)))
      → List ℕ
      → String
      → Result DbError Transaction
  get_transaction query_row tx_hash chain_name = found (query_row tx_hash chain_name)

  abbrev pub scan_answer : Option (TxRows Bytes) → Result DbError (List Transaction)
  scan_answer none = err failure
  scan_answer (some rows) = scan_transaction_rows rows

  -- the query by chain, order and limit
  unfoldable get_last_x_transactions :
      (String → Sorted → ℕ → Option (TxRows Bytes))
      → String
      → ℕ
      → Option String
      → Result DbError (List Transaction)
  get_last_x_transactions query chain_name x sort_order =
      some_found (scan_answer (query chain_name (order_or_default sort_order) x))
