-- ===== src/DataProcessor/Transactions.antt =====
-- `ProcessTransactions` of indexer/data_processor/operator.go, and the helpers of types.go.
use spectra_gnoland_indexer.Common.{
  ℕ, zero, suc, String, Bool, true, false, Option, none, some, List, [], ◌∷◌, length, ltb, ◌==◌,
  Outcome, done, panicked, ◌>>=◌, GoMap, lookup, string_comparable, parse_uint, if◌then◌else◌,
}
use spectra_gnoland_indexer.Rpc.{zero_time}
use spectra_gnoland_indexer.Rpc.Tx
use spectra_gnoland_indexer.Swarm.{fan_out}
use spectra_gnoland_indexer.Orchestrator.{TransactionsData}
use spectra_gnoland_indexer.Decoder.{DecodedMsg}
use spectra_gnoland_indexer.Decoder.Product.{get_msg_types}
use spectra_gnoland_indexer.DataProcessor.{collect_valid}
use spectra_gnoland_indexer.DataProcessor.Events.{
  NativeEvent, Encoding, EventResult, event_solver, is_compressed, get_native_events,
  get_compressed_data,
}

pub record TransactionGeneral (Bytes : Type 0) : Type 0 where
  pub tx_id : ℕ
  pub chain_name : String
  pub timestamp : ℕ
  pub block_height : ℕ
  pub msg_types : List String
  pub tx_events : Option (List NativeEvent)
  pub tx_events_compressed : Option Bytes
  pub compression_on : Bool
  pub gas_used : ℕ
  pub gas_wanted : ℕ
  pub fee_amount : ℕ
  pub fee_denom : String
  pub success : Bool
  pub error_log : Option (List ℕ)

abbrev is_none {ℓ} : {A : Type ℓ} → Option A → Bool
is_none none = true
is_none (some a) = false

unfoldable pub get_success : TransactionsData → Bool
get_success t = is_none t.response.result.tx_result.response_base.error

-- the first `n` bytes
abbrev take_bytes : ℕ → List ℕ → List ℕ
take_bytes zero bs = []
take_bytes (suc n) [] = []
take_bytes (suc n) (b ∷ bs) = b ∷ take_bytes n bs

-- the first 255 bytes of the log; nil if it is empty
unfoldable pub get_transaction_error_details : TransactionsData → Option (List ℕ)
get_transaction_error_details t =
    let log = t.response.result.tx_result.response_base.log in
    if length log == 0
    then none
    else if ltb 255 (length log)
    then some (take_bytes 255 log)
    else some log

module _ {Bytes Float : Type 0} (encoding : Encoding Bytes Float)
    (decode : String → Option DecodedMsg) (chain_name : String) where
  -- the row, from what the steps of `processTransaction` gave
  abbrev transaction_row :
      TransactionsData → DecodedMsg → ℕ → ℕ → ℕ → EventResult Bytes → TransactionGeneral Bytes
  transaction_row t dm tx_id gas_wanted gas_used events = record {
    tx_id = tx_id;
    chain_name = chain_name;
    timestamp = t.timestamp;
    block_height = t.block_height;
    msg_types = get_msg_types dm;
    tx_events = get_native_events events;
    tx_events_compressed = get_compressed_data events;
    compression_on = is_compressed events;
    gas_used = gas_used;
    gas_wanted = gas_wanted;
    fee_amount = dm.basic_data.fee.amount;
    fee_denom = dm.basic_data.fee.denom;
    success = get_success t;
    error_log = if get_success t then none else get_transaction_error_details t;
  }

  -- an id, the gas and the events, or nothing is written
  abbrev checked_row :
      TransactionsData
      → DecodedMsg
      → Option ℕ
      → Option ℕ
      → Option ℕ
      → Option (EventResult Bytes)
      → Option (TransactionGeneral Bytes)
  checked_row t dm (some tx_id) (some gas_wanted) (some gas_used) (some events) =
      some (transaction_row t dm tx_id gas_wanted gas_used events)
  checked_row t dm _ _ _ _ = none

  unfoldable pub process_transaction :
      GoMap String ℕ → Bool → TransactionsData × DecodedMsg → Option (TransactionGeneral Bytes)
  process_transaction tx_hash_cache compress_events (t, dm) =
      checked_row t dm (lookup (Tx.get_hash (some t.response)) tx_hash_cache)
        (parse_uint t.response.result.tx_result.gas_wanted)
        (parse_uint t.response.result.tx_result.gas_used)
        (event_solver encoding t.response compress_events)

  -- a transaction that cannot be decoded ends the program
  abbrev with_decoded :
      TransactionsData → Option DecodedMsg → Outcome (TransactionsData × DecodedMsg)
  with_decoded t none = panicked
  with_decoded t (some dm) = done (t, dm)

  unfoldable pub decode_all : List TransactionsData → Outcome (List (TransactionsData × DecodedMsg))
  decode_all [] = done []
  decode_all (t ∷ ts) = do
    p ← with_decoded t (decode t.response.result.tx)
    ps ← decode_all ts
    done (p ∷ ps)

  abbrev pub zero_transaction : TransactionGeneral Bytes
  zero_transaction = record {
    tx_id = 0;
    chain_name = "";
    timestamp = zero_time;
    block_height = 0;
    msg_types = [];
    tx_events = none;
    tx_events_compressed = none;
    compression_on = false;
    gas_used = 0;
    gas_wanted = 0;
    fee_amount = 0;
    fee_denom = "";
    success = false;
    error_log = none;
  }

  -- the slot of a row with its valid flag
  abbrev pub flagged : Option (TransactionGeneral Bytes) → Option (Bool × TransactionGeneral Bytes)
  flagged none = none
  flagged (some row) = some (true, row)

  -- an error of the insert is logged
  unfoldable pub process_transactions :
      {W : Type 0}
      → (List (TransactionGeneral Bytes) → W → Bool × W)
      → List ℕ
      → List TransactionsData
      → GoMap String ℕ
      → Bool
      → W
      → Outcome W
  unfolding decode_all process_transaction collect_valid fan_out
  process_transactions insert_rows sched transactions tx_hash_cache compress_events w = do
    ps ← decode_all transactions
    done
        (insert_rows
          (collect_valid (
            fan_out (λ p. flagged (process_transaction tx_hash_cache compress_events p)) ps
              (false, zero_transaction) sched))
          w).1
