-- ===== src/DataProcessor/Unsupported.antt =====
-- indexer/data_processor/operator.go with indexer/decoder: a transaction that cannot be decoded.

use spectra_gnoland_indexer.Common.{
  ℕ, zero, suc, String, ◌≡◌, ◌∙◌, Bool, false, Option, none, some, List, [], ◌∷◌, get_elem?,
  panicked, GoMap, inl, inr, Option-cases,
}
use spectra_gnoland_indexer.Orchestrator.{TransactionsData}
use spectra_gnoland_indexer.Decoder.{StdMsg, DecodedMsg, Strings}
use spectra_gnoland_indexer.Decoder.Registry.{type_name}
use spectra_gnoland_indexer.Decoder.Decoding.{
  Amino, StdTx, all_supported, decode_std_tx_from_base64, get_message_from_std_tx, new_decoded_msg,
}
use spectra_gnoland_indexer.DataProcessor.Events.{Encoding}
use spectra_gnoland_indexer.DataProcessor.Messages.{
  MessageServices, transaction_decoding, process_messages,
}
use spectra_gnoland_indexer.DataProcessor.Transactions.{
  TransactionGeneral, decode_all, process_transactions,
}

all_supported_stops :
    (msgs : List StdMsg) (j : ℕ) (m : StdMsg)
    → get_elem? msgs j ≡ some m
    → type_name m ≡ none
    → all_supported msgs ≡ false
unfolding all_supported
all_supported_stops [] j m at e = cc
all_supported_stops (n ∷ msgs) zero m at e = let here : type_name n ≡ none = cc in rw here
all_supported_stops (n ∷ msgs) (suc j) m at e = elim (Option-cases (type_name n)) [
  | inl first ↦ rw first
  | inr (t, first) ↦ rw first (all_supported_stops msgs j m at e)
]

new_decoded_msg_unsupported :
    (amino : Amino) (encoded_tx : String) (tx : StdTx) (j : ℕ) (m : StdMsg)
    → decode_std_tx_from_base64 amino encoded_tx ≡ some tx
    → get_elem? tx.msgs j ≡ some m
    → type_name m ≡ none
    → new_decoded_msg amino encoded_tx ≡ none
unfolding new_decoded_msg get_message_from_std_tx
new_decoded_msg_unsupported amino encoded_tx tx j m decoded at e =
    elim (Option-cases (amino.decode_string encoded_tx)) [
      | inl no_bytes ↦ rw (decoded, no_bytes)
      | inr (bz, bytes) ↦ rw (decoded, bytes, all_supported_stops tx.msgs j m at e)
    ]

transaction_decoding_stops :
    (strings : Strings) (services : MessageServices) (chain_name : String)
    (txs : List TransactionsData) (i : ℕ) (t : TransactionsData)
    → get_elem? txs i ≡ some t
    → services.decode t.response.result.tx ≡ none
    → transaction_decoding strings services chain_name txs ≡ panicked
unfolding transaction_decoding
transaction_decoding_stops strings services chain_name [] i t at e = cc
transaction_decoding_stops strings services chain_name (u ∷ txs) zero t at e =
    let here : services.decode u.response.result.tx ≡ none = cc in rw (here, transaction_decoding)
transaction_decoding_stops strings services chain_name (u ∷ txs) (suc i) t at e =
    let later = transaction_decoding_stops strings services chain_name txs i t at e in
    elim (Option-cases (services.decode u.response.result.tx)) [
      | inl first ↦ rw (first, transaction_decoding)
      | inr (dm, first) ↦ rw (first, transaction_decoding, later)
    ]

module _ {Bytes Float : Type 0} (encoding : Encoding Bytes Float)
    (decode : String → Option DecodedMsg) (chain_name : String) where
  decode_all_stops :
      (txs : List TransactionsData) (i : ℕ) (t : TransactionsData)
      → get_elem? txs i ≡ some t
      → decode t.response.result.tx ≡ none
      → decode_all encoding decode chain_name txs ≡ panicked
  unfolding decode_all
  decode_all_stops [] i t at e = cc
  decode_all_stops (u ∷ txs) zero t at e =
      let here : decode u.response.result.tx ≡ none = cc in rw here
  decode_all_stops (u ∷ txs) (suc i) t at e = elim (Option-cases (decode u.response.result.tx)) [
    | inl first ↦ rw first
    | inr (dm, first) ↦ rw (first, decode_all_stops txs i t at e)
  ]

-- If NewDecodedMsg decodes the transactions, and one of them has a message without a codec, both
-- ProcessMessages and ProcessTransactions end the program, whatever the other transactions are.
pub process_unsupported :
    (amino : Amino) (strings : Strings) (services : MessageServices) (chain_name : String)
    {Bytes Float World : Type 0} (encoding : Encoding Bytes Float)
    (insert_rows : List (TransactionGeneral Bytes) → World → Bool × World) (sched : List ℕ)
    (txs : List TransactionsData) (tx_hash_cache : GoMap String ℕ) (compress_events : Bool)
    (w : services.World) (v : World) (i j : ℕ) (t : TransactionsData) (tx : StdTx) (m : StdMsg)
    → ((s : String) → services.decode s ≡ new_decoded_msg amino s)
    → get_elem? txs i ≡ some t
    → decode_std_tx_from_base64 amino t.response.result.tx ≡ some tx
    → get_elem? tx.msgs j ≡ some m
    → type_name m ≡ none
    → (process_messages strings services chain_name sched txs tx_hash_cache w ≡ panicked)
      × (process_transactions encoding
            (new_decoded_msg amino)
            chain_name
            insert_rows
            sched
            txs
            tx_hash_cache
            compress_events
            v
          ≡ panicked)
unfolding process_messages process_transactions
process_unsupported amino strings services chain_name encoding insert_rows sched txs tx_hash_cache
      compress_events w v i j t tx m decodes at decoded inner unknown =
    let refused =
      new_decoded_msg_unsupported amino t.response.result.tx tx j m decoded inner unknown in
    (
      rw (
          transaction_decoding_stops strings services chain_name txs i t at
            (decodes t.response.result.tx ∙ refused)),
      rw (decode_all_stops encoding (new_decoded_msg amino) chain_name txs i t at refused),
    )
