-- ===== src/Schema/Aligned.antt =====
-- The values of pkgs/schema/copyrow.go beside the columns of pkgs/schema/hypertables.go.
use spectra_gnoland_indexer.Common.{String, some, List, [], ◌∷◌, length, ◌≡◌, refl}
use spectra_gnoland_indexer.DbInit.{StructField, table_columns}
use spectra_gnoland_indexer.Schema.Rows.{
  msg_send, msg_multi_send, msg_call, msg_add_package, msg_run, msg_auth_cr_session,
  msg_auth_rv_session, msg_auth_rv_all_sessions,
}
use spectra_gnoland_indexer.Schema.Tags.{
  blocks_fields, validator_block_signing_fields, address_tx_fields, transaction_general_fields,
}
use spectra_gnoland_indexer.Schema.MessageTags.{
  msg_send_fields, msg_multi_send_fields, msg_call_fields, msg_add_package_fields, msg_run_fields,
  msg_auth_cr_session_fields, msg_auth_rv_session_fields, msg_auth_rv_all_sessions_fields,
}
use spectra_gnoland_indexer.Schema.Copy.{
  Value, Insertable, int, text, text_codes, time, boolean, bytes, amount, event, block, signing,
  transaction, address_tx, message, pg_array, pointer, copy_row,
}

module _ {Bytes : Type 0} where
  -- the fields of the row's struct in their order, each with its tag `db`
  abbrev pub fields : Insertable Bytes → List (String × Value Bytes)
  fields (block r) =
      ("hash", bytes r.hash)
      ∷ ("height", int r.height)
      ∷ ("timestamp", time r.timestamp)
      ∷ ("chain_id", text r.chain_id)
      ∷ ("chain_name", text r.chain_name)
      ∷ []
  fields (signing r) =
      ("block_height", int r.block_height)
      ∷ ("timestamp", time r.timestamp)
      ∷ ("proposer", int r.proposer)
      ∷ ("signed_vals", pg_array int (some r.signed_vals))
      ∷ ("chain_name", text r.chain_name)
      ∷ []
  fields (transaction r) =
      ("tx_id", int r.tx_id)
      ∷ ("chain_name", text r.chain_name)
      ∷ ("timestamp", time r.timestamp)
      ∷ ("block_height", int r.block_height)
      ∷ ("msg_types", pg_array text (some r.msg_types))
      ∷ ("tx_events", pg_array event r.tx_events)
      ∷ ("tx_events_compressed", pointer bytes r.tx_events_compressed)
      ∷ ("compression_on", boolean r.compression_on)
      ∷ ("gas_used", int r.gas_used)
      ∷ ("gas_wanted", int r.gas_wanted)
      ∷ ("fee_amount", int r.fee_amount)
      ∷ ("fee_denom", text r.fee_denom)
      ∷ ("success", boolean r.success)
      ∷ ("error_log", pointer text_codes r.error_log)
      ∷ []
  fields (address_tx r) =
      ("address", int r.address)
      ∷ ("tx_id", int r.tx_id)
      ∷ ("chain_name", text r.chain_name)
      ∷ ("timestamp", time r.timestamp)
      ∷ []
  fields (message (msg_send r)) =
      ("tx_id", int r.tx_id)
      ∷ ("timestamp", time r.timestamp)
      ∷ ("chain_name", text r.chain_name)
      ∷ ("from_address", int r.from_address)
      ∷ ("to_address", int r.to_address)
      ∷ ("amount", pg_array amount (some r.amount))
      ∷ ("signers", pg_array int (some r.signers))
      ∷ ("message_counter", int r.message_counter)
      ∷ []
  fields (message (msg_multi_send r)) =
      ("tx_id", int r.tx_id)
      ∷ ("timestamp", time r.timestamp)
      ∷ ("chain_name", text r.chain_name)
      ∷ ("direction", boolean r.direction)
      ∷ ("address_id", int r.address_id)
      ∷ ("coins", pg_array amount (some r.coins))
      ∷ ("signers", pg_array int (some r.signers))
      ∷ ("message_counter", int r.message_counter)
      ∷ []
  fields (message (msg_call r)) =
      ("tx_id", int r.tx_id)
      ∷ ("timestamp", time r.timestamp)
      ∷ ("chain_name", text r.chain_name)
      ∷ ("caller", int r.caller)
      ∷ ("pkg_path", text r.pkg_path)
      ∷ ("func_name", text r.func_name)
      ∷ ("args", text r.args)
      ∷ ("send", pg_array amount (some r.send))
      ∷ ("max_deposit", pg_array amount (some r.max_deposit))
      ∷ ("signers", pg_array int (some r.signers))
      ∷ ("message_counter", int r.message_counter)
      ∷ []
  fields (message (msg_add_package r)) =
      ("tx_id", int r.tx_id)
      ∷ ("timestamp", time r.timestamp)
      ∷ ("chain_name", text r.chain_name)
      ∷ ("creator", int r.creator)
      ∷ ("pkg_path", text r.pkg_path)
      ∷ ("pkg_name", text r.pkg_name)
      ∷ ("pkg_file_names", pg_array text (some r.pkg_file_names))
      ∷ ("send", pg_array amount (some r.send))
      ∷ ("max_deposit", pg_array amount (some r.max_deposit))
      ∷ ("signers", pg_array int (some r.signers))
      ∷ ("message_counter", int r.message_counter)
      ∷ []
  fields (message (msg_run r)) =
      ("tx_id", int r.tx_id)
      ∷ ("timestamp", time r.timestamp)
      ∷ ("chain_name", text r.chain_name)
      ∷ ("caller", int r.caller)
      ∷ ("pkg_path", text r.pkg_path)
      ∷ ("pkg_name", text r.pkg_name)
      ∷ ("pkg_file_names", pg_array text (some r.pkg_file_names))
      ∷ ("send", pg_array amount (some r.send))
      ∷ ("max_deposit", pg_array amount (some r.max_deposit))
      ∷ ("signers", pg_array int (some r.signers))
      ∷ ("message_counter", int r.message_counter)
      ∷ []
  fields (message (msg_auth_cr_session r)) =
      ("tx_id", int r.tx_id)
      ∷ ("timestamp", time r.timestamp)
      ∷ ("chain_name", text r.chain_name)
      ∷ ("creator", int r.creator)
      ∷ ("session_key", int r.session_key)
      ∷ ("expires_at", time r.expires_at)
      ∷ ("spend_limit", pg_array amount (some r.spend_limit))
      ∷ ("allow_paths", pg_array text (some r.allow_paths))
      ∷ ("spend_period", int r.spend_period)
      ∷ ("signers", pg_array int (some r.signers))
      ∷ ("message_counter", int r.message_counter)
      ∷ []
  fields (message (msg_auth_rv_session r)) =
      ("tx_id", int r.tx_id)
      ∷ ("timestamp", time r.timestamp)
      ∷ ("chain_name", text r.chain_name)
      ∷ ("creator", int r.creator)
      ∷ ("session_key", int r.session_key)
      ∷ ("signers", pg_array int (some r.signers))
      ∷ ("message_counter", int r.message_counter)
      ∷ []
  fields (message (msg_auth_rv_all_sessions r)) =
      ("tx_id", int r.tx_id)
      ∷ ("timestamp", time r.timestamp)
      ∷ ("chain_name", text r.chain_name)
      ∷ ("creator", int r.creator)
      ∷ ("signers", pg_array int (some r.signers))
      ∷ ("message_counter", int r.message_counter)
      ∷ []

  -- the tags of the row's struct
  abbrev pub struct_fields : Insertable Bytes → List StructField
  struct_fields (block r) = blocks_fields
  struct_fields (signing r) = validator_block_signing_fields
  struct_fields (transaction r) = transaction_general_fields
  struct_fields (address_tx r) = address_tx_fields
  struct_fields (message (msg_send r)) = msg_send_fields
  struct_fields (message (msg_multi_send r)) = msg_multi_send_fields
  struct_fields (message (msg_call r)) = msg_call_fields
  struct_fields (message (msg_add_package r)) = msg_add_package_fields
  struct_fields (message (msg_run r)) = msg_run_fields
  struct_fields (message (msg_auth_cr_session r)) = msg_auth_cr_session_fields
  struct_fields (message (msg_auth_rv_session r)) = msg_auth_rv_session_fields
  struct_fields (message (msg_auth_rv_all_sessions r)) = msg_auth_rv_all_sessions_fields

  -- each column with the value that COPY gives it
  abbrev pub zip : List String → List (Value Bytes) → List (String × Value Bytes)
  zip [] vs = []
  zip (c ∷ columns) [] = []
  zip (c ∷ columns) (v ∷ vs) = (c, v) ∷ zip columns vs

  -- For every row that is inserted by COPY, the values of CopyRow stand beside the columns of
  -- TableColumns as the fields of the struct beside their tags, and there are as
  -- many values as columns.
  pub zip-copy_row :
      (row : Insertable Bytes)
      → (zip (table_columns (struct_fields row)) (copy_row row) ≡ fields row)
        × (length (copy_row row) ≡ length (table_columns (struct_fields row)))
  unfolding copy_row table_columns
  zip-copy_row (block r) = (refl, refl)
  zip-copy_row (signing r) = (refl, refl)
  zip-copy_row (transaction r) = (refl, refl)
  zip-copy_row (address_tx r) = (refl, refl)
  zip-copy_row (message (msg_send r)) = (refl, refl)
  zip-copy_row (message (msg_multi_send r)) = (refl, refl)
  zip-copy_row (message (msg_call r)) = (refl, refl)
  zip-copy_row (message (msg_add_package r)) = (refl, refl)
  zip-copy_row (message (msg_run r)) = (refl, refl)
  zip-copy_row (message (msg_auth_cr_session r)) = (refl, refl)
  zip-copy_row (message (msg_auth_rv_session r)) = (refl, refl)
  zip-copy_row (message (msg_auth_rv_all_sessions r)) = (refl, refl)
