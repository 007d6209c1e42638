-- ===== src/Schema/Tables.antt =====
-- pkgs/schema/table.go: the tables, and the parameters of the hypertables.
use spectra_gnoland_indexer.Common.{String, List, [], ◌∷◌, ◌++◌, map}
use spectra_gnoland_indexer.DbInit.{StructField}
use spectra_gnoland_indexer.DbInit.Statements.{HypertableParams}
use spectra_gnoland_indexer.Schema.Tags.{
  gno_address_fields, gno_validator_address_fields, api_key_fields, schema_migration_fields,
  blocks_fields, validator_block_signing_fields, address_tx_fields, transaction_general_fields,
  tx_hash_id_fields,
}
use spectra_gnoland_indexer.Schema.MessageTags.{
  msg_send_fields, msg_multi_send_fields, msg_call_fields, msg_add_package_fields, msg_run_fields,
  msg_auth_cr_session_fields, msg_auth_rv_session_fields, msg_auth_rv_all_sessions_fields,
}

pub record DbTable : Type 0 where
  pub table_name : String
  pub fields : List StructField

pub record Hypertable : Type 0 where
  pub table : DbTable
  pub params : HypertableParams

abbrev table : String → List StructField → DbTable
table name fields = record { table_name = name; fields = fields }

abbrev timed : DbTable → String → List String → Hypertable
timed t order_by segment_by = record {
  table = t;
  params = record {
    chunk_interval = "1 week";
    partition_column = "timestamp";
    order_by = order_by;
    segment_by = segment_by;
  };
}

abbrev of_messages : DbTable → Hypertable
of_messages t = timed t "timestamp DESC" ("chain_name" ∷ "message_counter" ∷ [])

unfoldable pub regular_tables : List DbTable
regular_tables =
    table "gno_addresses" gno_address_fields
    ∷ table "gno_validators" gno_validator_address_fields
    ∷ table "api_keys" api_key_fields
    ∷ table "schema_migrations" schema_migration_fields
    ∷ []

unfoldable pub hypertables : List Hypertable
hypertables =
    timed (table "blocks" blocks_fields) "height DESC, timestamp DESC" ("chain_name" ∷ [])
    ∷ timed (table "validator_block_signing" validator_block_signing_fields)
        "block_height DESC, timestamp DESC" ("chain_name" ∷ [])
    ∷ timed (table "address_tx" address_tx_fields) "timestamp DESC" ("chain_name" ∷ [])
    ∷ timed (table "transaction_general" transaction_general_fields) "timestamp DESC"
        ("chain_name" ∷ [])
    ∷ of_messages (table "bank_msg_send" msg_send_fields)
    ∷ of_messages (table "bank_msg_multi_send" msg_multi_send_fields)
    ∷ of_messages (table "vm_msg_call" msg_call_fields)
    ∷ of_messages (table "vm_msg_add_package" msg_add_package_fields)
    ∷ of_messages (table "vm_msg_run" msg_run_fields)
    ∷ timed (table "tx_hash_id" tx_hash_id_fields) "timestamp DESC" ("chain_name" ∷ [])
    ∷ of_messages (table "auth_msg_create_session" msg_auth_cr_session_fields)
    ∷ of_messages (table "auth_msg_revoke_session" msg_auth_rv_session_fields)
    ∷ of_messages (table "auth_msg_revoke_all_sessions" msg_auth_rv_all_sessions_fields)
    ∷ []

unfoldable pub all_tables : List DbTable
all_tables = regular_tables ++ map (λ h. h.table) hypertables

unfoldable pub all_table_names : List String
all_table_names = map (λ t. t.table_name) all_tables
