-- ===== src/Schema/Copy.antt =====
-- pkgs/schema/copyrow.go: the values of a row in the order of its columns.
use spectra_gnoland_indexer.Common.{ℕ, String, Bool, Option, none, some, List, [], ◌∷◌}
use spectra_gnoland_indexer.DataProcessor.{Blocks, ValidatorBlockSigning}
use spectra_gnoland_indexer.DataProcessor.Messages.{AddressTx}
use spectra_gnoland_indexer.DataProcessor.Events.{NativeEvent}
use spectra_gnoland_indexer.DataProcessor.Transactions.{TransactionGeneral}
use spectra_gnoland_indexer.Schema.{Amount}
use spectra_gnoland_indexer.Schema.Rows.{
  Message, msg_send, msg_multi_send, msg_call, msg_add_package, msg_run, msg_auth_cr_session,
  msg_auth_rv_session, msg_auth_rv_all_sessions,
}

module _ (Bytes : Type 0) where
  mutual
    -- a value of a column
    pub data Value : Type 0 where
      null : Value
      int : ℕ → Value
      text : String → Value
      text_codes : List ℕ → Value
      time : ℕ → Value
      boolean : Bool → Value
      bytes : Bytes → Value
      amount : Amount → Value
      event : NativeEvent → Value
      array : Values → Value

    pub data Values : Type 0 where
      nil : Values
      cons : Value → Values → Values

  -- the types that go through COPY FROM
  pub data Insertable : Type 0 where
    block : Blocks Bytes → Insertable
    signing : ValidatorBlockSigning → Insertable
    transaction : TransactionGeneral Bytes → Insertable
    address_tx : AddressTx → Insertable
    message : Message → Insertable

module _ {Bytes : Type 0} where
  abbrev pub values : {A : Type 0} → (A → Value Bytes) → List A → Values Bytes
  values value [] = nil
  values value (x ∷ xs) = cons (value x) (values value xs)

  -- a nil slice becomes a NULL array
  abbrev pub pg_array : {A : Type 0} → (A → Value Bytes) → Option (List A) → Value Bytes
  pg_array value none = null
  pg_array value (some xs) = array (values value xs)

  -- a nil pointer or a nil slice of bytes
  abbrev pub pointer : {A : Type 0} → (A → Value Bytes) → Option A → Value Bytes
  pointer value none = null
  pointer value (some x) = value x

  unfoldable pub copy_row : Insertable Bytes → List (Value Bytes)
  copy_row (block r) =
      bytes r.hash ∷ int r.height ∷ time r.timestamp ∷ text r.chain_id ∷ text r.chain_name ∷ []
  copy_row (signing r) =
      int r.block_height
      ∷ time r.timestamp
      ∷ int r.proposer
      ∷ pg_array int (some r.signed_vals)
      ∷ text r.chain_name
      ∷ []
  copy_row (transaction r) =
      int r.tx_id
      ∷ text r.chain_name
      ∷ time r.timestamp
      ∷ int r.block_height
      ∷ pg_array text (some r.msg_types)
      ∷ pg_array event r.tx_events
      ∷ pointer bytes r.tx_events_compressed
      ∷ boolean r.compression_on
      ∷ int r.gas_used
      ∷ int r.gas_wanted
      ∷ int r.fee_amount
      ∷ text r.fee_denom
      ∷ boolean r.success
      ∷ pointer text_codes r.error_log
      ∷ []
  copy_row (address_tx r) = int r.address ∷ int r.tx_id ∷ text r.chain_name ∷ time r.timestamp ∷ []
  copy_row (message (msg_send r)) =
      int r.tx_id
      ∷ time r.timestamp
      ∷ text r.chain_name
      ∷ int r.from_address
      ∷ int r.to_address
      ∷ pg_array amount (some r.amount)
      ∷ pg_array int (some r.signers)
      ∷ int r.message_counter
      ∷ []
  copy_row (message (msg_multi_send r)) =
      int r.tx_id
      ∷ time r.timestamp
      ∷ text r.chain_name
      ∷ boolean r.direction
      ∷ int r.address_id
      ∷ pg_array amount (some r.coins)
      ∷ pg_array int (some r.signers)
      ∷ int r.message_counter
      ∷ []
  copy_row (message (msg_call r)) =
      int r.tx_id
      ∷ time r.timestamp
      ∷ text r.chain_name
      ∷ int r.caller
      ∷ text r.pkg_path
      ∷ text r.func_name
      ∷ text r.args
      ∷ pg_array amount (some r.send)
      ∷ pg_array amount (some r.max_deposit)
      ∷ pg_array int (some r.signers)
      ∷ int r.message_counter
      ∷ []
  copy_row (message (msg_add_package r)) =
      int r.tx_id
      ∷ time r.timestamp
      ∷ text r.chain_name
      ∷ int r.creator
      ∷ text r.pkg_path
      ∷ text r.pkg_name
      ∷ pg_array text (some r.pkg_file_names)
      ∷ pg_array amount (some r.send)
      ∷ pg_array amount (some r.max_deposit)
      ∷ pg_array int (some r.signers)
      ∷ int r.message_counter
      ∷ []
  copy_row (message (msg_run r)) =
      int r.tx_id
      ∷ time r.timestamp
      ∷ text r.chain_name
      ∷ int r.caller
      ∷ text r.pkg_path
      ∷ text r.pkg_name
      ∷ pg_array text (some r.pkg_file_names)
      ∷ pg_array amount (some r.send)
      ∷ pg_array amount (some r.max_deposit)
      ∷ pg_array int (some r.signers)
      ∷ int r.message_counter
      ∷ []
  copy_row (message (msg_auth_cr_session r)) =
      int r.tx_id
      ∷ time r.timestamp
      ∷ text r.chain_name
      ∷ int r.creator
      ∷ int r.session_key
      ∷ time r.expires_at
      ∷ pg_array amount (some r.spend_limit)
      ∷ pg_array text (some r.allow_paths)
      ∷ int r.spend_period
      ∷ pg_array int (some r.signers)
      ∷ int r.message_counter
      ∷ []
  copy_row (message (msg_auth_rv_session r)) =
      int r.tx_id
      ∷ time r.timestamp
      ∷ text r.chain_name
      ∷ int r.creator
      ∷ int r.session_key
      ∷ pg_array int (some r.signers)
      ∷ int r.message_counter
      ∷ []
  copy_row (message (msg_auth_rv_all_sessions r)) =
      int r.tx_id
      ∷ time r.timestamp
      ∷ text r.chain_name
      ∷ int r.creator
      ∷ pg_array int (some r.signers)
      ∷ int r.message_counter
      ∷ []
