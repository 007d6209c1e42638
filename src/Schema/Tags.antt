-- ===== src/Schema/Tags.antt =====
-- pkgs/schema/table.go and hypertables.go: the tags of the structs that are tables, as reflection
-- gives them.
use spectra_gnoland_indexer.Common.{List, [], ◌∷◌}
use spectra_gnoland_indexer.DbInit.{StructField, field}

abbrev pub gno_address_fields : List StructField
gno_address_fields =
    field "Address" "address" "TEXT" "false" "false" "true"
    ∷ field "ID" "id" "INTEGER GENERATED ALWAYS AS IDENTITY" "false" "true" ""
    ∷ field "ChainName" "chain_name" "chain_name" "false" "false" "true"
    ∷ []

abbrev pub gno_validator_address_fields : List StructField
gno_validator_address_fields =
    field "Address" "address" "TEXT" "false" "false" "true"
    ∷ field "ID" "id" "INTEGER GENERATED ALWAYS AS IDENTITY" "false" "true" ""
    ∷ field "ChainName" "chain_name" "chain_name" "false" "false" "true"
    ∷ []

abbrev pub api_key_fields : List StructField
api_key_fields =
    field "Id" "id" "UUID DEFAULT gen_random_uuid()" "false" "true" ""
    ∷ field "Prefix" "prefix" "VARCHAR(10)" "false" "false" "false"
    ∷ field "Hash" "hash" "BYTEA" "false" "false" "false"
    ∷ field "Name" "name" "TEXT" "false" "false" "true"
    ∷ field "RpmLimit" "rpm_limit" "INT" "false" "false" ""
    ∷ field "IsActive" "is_active" "BOOLEAN DEFAULT TRUE" "false" "false" ""
    ∷ []

abbrev pub schema_migration_fields : List StructField
schema_migration_fields =
    field "Version" "version" "INTEGER" "false" "true" ""
    ∷ field "Description" "description" "TEXT" "false" "false" ""
    ∷ field "AppliedAt" "applied_at" "TIMESTAMPTZ DEFAULT NOW()" "false" "false" ""
    ∷ field "Success" "success" "BOOLEAN" "false" "true" ""
    ∷ []

abbrev pub blocks_fields : List StructField
blocks_fields =
    field "Hash" "hash" "bytea" "false" "false" ""
    ∷ field "Height" "height" "bigint" "false" "true" ""
    ∷ field "Timestamp" "timestamp" "timestamptz" "false" "true" ""
    ∷ field "ChainID" "chain_id" "TEXT" "false" "false" ""
    ∷ field "ChainName" "chain_name" "chain_name" "false" "true" ""
    ∷ []

abbrev pub validator_block_signing_fields : List StructField
validator_block_signing_fields =
    field "BlockHeight" "block_height" "bigint" "false" "true" ""
    ∷ field "Timestamp" "timestamp" "timestamptz" "false" "true" ""
    ∷ field "Proposer" "proposer" "integer" "false" "false" ""
    ∷ field "SignedVals" "signed_vals" "integer[]" "false" "false" ""
    ∷ field "ChainName" "chain_name" "chain_name" "false" "true" ""
    ∷ []

abbrev pub address_tx_fields : List StructField
address_tx_fields =
    field "Address" "address" "INTEGER" "false" "true" ""
    ∷ field "TxId" "tx_id" "bigint" "false" "true" ""
    ∷ field "ChainName" "chain_name" "chain_name" "false" "true" ""
    ∷ field "Timestamp" "timestamp" "timestamptz" "false" "true" ""
    ∷ []

abbrev pub transaction_general_fields : List StructField
transaction_general_fields =
    field "TxId" "tx_id" "bigint" "false" "true" ""
    ∷ field "ChainName" "chain_name" "chain_name" "false" "true" ""
    ∷ field "Timestamp" "timestamp" "timestamptz" "false" "true" ""
    ∷ field "BlockHeight" "block_height" "bigint" "false" "false" ""
    ∷ field "MsgTypes" "msg_types" "TEXT[]" "false" "false" ""
    ∷ field "TxEvents" "tx_events" "event[]" "true" "false" ""
    ∷ field "TxEventsCompressed" "tx_events_compressed" "bytea" "true" "false" ""
    ∷ field "CompressionOn" "compression_on" "boolean" "false" "false" ""
    ∷ field "GasUsed" "gas_used" "bigint" "false" "false" ""
    ∷ field "GasWanted" "gas_wanted" "bigint" "false" "false" ""
    ∷ field "FeeAmount" "fee_amount" "numeric" "false" "false" ""
    ∷ field "FeeDenom" "fee_denom" "text" "false" "false" ""
    ∷ field "Success" "success" "boolean" "false" "false" ""
    ∷ field "ErrorLog" "error_log" "TEXT" "true" "false" ""
    ∷ []

abbrev pub tx_hash_id_fields : List StructField
tx_hash_id_fields =
    field "TxId" "tx_id" "bigint generated always as identity" "false" "true" ""
    ∷ field "TxHash" "tx_hash" "bytea" "false" "false" "true"
    ∷ field "Timestamp" "timestamp" "timestamptz" "false" "true" "true"
    ∷ field "ChainName" "chain_name" "chain_name" "false" "false" "true"
    ∷ []
