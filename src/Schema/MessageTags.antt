-- ===== src/Schema/MessageTags.antt =====
-- pkgs/schema/hypertables.go: the tags of the structs that are tables, as reflection gives them.
use spectra_gnoland_indexer.Common.{List, [], ◌∷◌}
use spectra_gnoland_indexer.DbInit.{StructField, field}

abbrev pub msg_send_fields : List StructField
msg_send_fields =
    field "TxId" "tx_id" "bigint" "false" "true" ""
    ∷ field "Timestamp" "timestamp" "timestamptz" "false" "true" ""
    ∷ field "ChainName" "chain_name" "chain_name" "false" "true" ""
    ∷ field "FromAddress" "from_address" "INTEGER" "false" "false" ""
    ∷ field "ToAddress" "to_address" "INTEGER" "true" "false" ""
    ∷ field "Amount" "amount" "amount[]" "false" "false" ""
    ∷ field "Signers" "signers" "INTEGER[]" "false" "false" ""
    ∷ field "MessageCounter" "message_counter" "smallint" "false" "true" ""
    ∷ []

abbrev pub msg_multi_send_fields : List StructField
msg_multi_send_fields =
    field "TxId" "tx_id" "bigint" "false" "true" ""
    ∷ field "Timestamp" "timestamp" "timestamptz" "false" "true" ""
    ∷ field "ChainName" "chain_name" "chain_name" "false" "true" ""
    ∷ field "Direction" "direction" "boolean" "false" "true" ""
    ∷ field "AddressId" "address_id" "integer" "false" "true" ""
    ∷ field "Coins" "coins" "amount[]" "false" "false" ""
    ∷ field "Signers" "signers" "INTEGER[]" "false" "false" ""
    ∷ field "MessageCounter" "message_counter" "smallint" "false" "true" ""
    ∷ []

abbrev pub msg_call_fields : List StructField
msg_call_fields =
    field "TxId" "tx_id" "bigint" "false" "true" ""
    ∷ field "Timestamp" "timestamp" "timestamptz" "false" "true" ""
    ∷ field "ChainName" "chain_name" "chain_name" "false" "true" ""
    ∷ field "Caller" "caller" "INTEGER" "false" "false" ""
    ∷ field "PkgPath" "pkg_path" "TEXT" "true" "false" ""
    ∷ field "FuncName" "func_name" "TEXT" "true" "false" ""
    ∷ field "Args" "args" "TEXT" "true" "false" ""
    ∷ field "Send" "send" "amount[]" "true" "false" ""
    ∷ field "MaxDeposit" "max_deposit" "amount[]" "true" "false" ""
    ∷ field "Signers" "signers" "INTEGER[]" "false" "false" ""
    ∷ field "MessageCounter" "message_counter" "smallint" "false" "true" ""
    ∷ []

abbrev pub msg_add_package_fields : List StructField
msg_add_package_fields =
    field "TxId" "tx_id" "bigint" "false" "true" ""
    ∷ field "Timestamp" "timestamp" "timestamptz" "false" "true" ""
    ∷ field "ChainName" "chain_name" "chain_name" "false" "true" ""
    ∷ field "Creator" "creator" "INTEGER" "false" "false" ""
    ∷ field "PkgPath" "pkg_path" "TEXT" "true" "false" ""
    ∷ field "PkgName" "pkg_name" "TEXT" "true" "false" ""
    ∷ field "PkgFileNames" "pkg_file_names" "TEXT[]" "true" "false" ""
    ∷ field "Send" "send" "amount[]" "true" "false" ""
    ∷ field "MaxDeposit" "max_deposit" "amount[]" "true" "false" ""
    ∷ field "Signers" "signers" "INTEGER[]" "false" "false" ""
    ∷ field "MessageCounter" "message_counter" "smallint" "false" "true" ""
    ∷ []

abbrev pub msg_run_fields : List StructField
msg_run_fields =
    field "TxId" "tx_id" "bigint" "false" "true" ""
    ∷ field "Timestamp" "timestamp" "timestamptz" "false" "true" ""
    ∷ field "ChainName" "chain_name" "chain_name" "false" "true" ""
    ∷ field "Caller" "caller" "INTEGER" "false" "false" ""
    ∷ field "PkgPath" "pkg_path" "TEXT" "true" "false" ""
    ∷ field "PkgName" "pkg_name" "TEXT" "true" "false" ""
    ∷ field "PkgFileNames" "pkg_file_names" "TEXT[]" "true" "false" ""
    ∷ field "Send" "send" "amount[]" "true" "false" ""
    ∷ field "MaxDeposit" "max_deposit" "amount[]" "true" "false" ""
    ∷ field "Signers" "signers" "INTEGER[]" "false" "false" ""
    ∷ field "MessageCounter" "message_counter" "smallint" "false" "true" ""
    ∷ []

abbrev pub msg_auth_cr_session_fields : List StructField
msg_auth_cr_session_fields =
    field "TxId" "tx_id" "bigint" "false" "true" ""
    ∷ field "Timestamp" "timestamp" "timestamptz" "false" "true" ""
    ∷ field "ChainName" "chain_name" "chain_name" "false" "true" ""
    ∷ field "Creator" "creator" "integer" "false" "false" ""
    ∷ field "SessionKey" "session_key" "integer" "false" "false" ""
    ∷ field "ExpiresAt" "expires_at" "timestamptz" "false" "false" ""
    ∷ field "SpendLimit" "spend_limit" "amount[]" "false" "false" ""
    ∷ field "AllowPaths" "allow_paths" "text[]" "false" "false" ""
    ∷ field "SpendPeriod" "spend_period" "bigint" "false" "false" ""
    ∷ field "Signers" "signers" "INTEGER[]" "false" "false" ""
    ∷ field "MessageCounter" "message_counter" "smallint" "false" "true" ""
    ∷ []

abbrev pub msg_auth_rv_session_fields : List StructField
msg_auth_rv_session_fields =
    field "TxId" "tx_id" "bigint" "false" "true" ""
    ∷ field "Timestamp" "timestamp" "timestamptz" "false" "true" ""
    ∷ field "ChainName" "chain_name" "chain_name" "false" "true" ""
    ∷ field "Creator" "creator" "integer" "false" "false" ""
    ∷ field "SessionKey" "session_key" "integer" "false" "false" ""
    ∷ field "Signers" "signers" "INTEGER[]" "false" "false" ""
    ∷ field "MessageCounter" "message_counter" "smallint" "false" "true" ""
    ∷ []

abbrev pub msg_auth_rv_all_sessions_fields : List StructField
msg_auth_rv_all_sessions_fields =
    field "TxId" "tx_id" "bigint" "false" "true" ""
    ∷ field "Timestamp" "timestamp" "timestamptz" "false" "true" ""
    ∷ field "ChainName" "chain_name" "chain_name" "false" "true" ""
    ∷ field "Creator" "creator" "integer" "false" "false" ""
    ∷ field "Signers" "signers" "INTEGER[]" "false" "false" ""
    ∷ field "MessageCounter" "message_counter" "smallint" "false" "true" ""
    ∷ []
