-- ===== src/Schema/Rows.antt =====
-- The rows of the message tables: their fields, table names and addresses.
use spectra_gnoland_indexer.Common.{ℕ, String, Bool, List, if◌then◌else◌, ◌==◌}
use spectra_gnoland_indexer.Schema.{Amount, TxAddresses, new_tx_addresses, add_address, add_all}

pub record MsgSend : Type 0 where
  pub tx_id : ℕ
  pub timestamp : ℕ
  pub chain_name : String
  pub from_address : ℕ
  pub to_address : ℕ
  pub amount : List Amount
  pub signers : List ℕ
  pub message_counter : ℕ

pub record MsgMultiSend : Type 0 where
  pub tx_id : ℕ
  pub timestamp : ℕ
  pub chain_name : String
  pub direction : Bool
  pub address_id : ℕ
  pub coins : List Amount
  pub signers : List ℕ
  pub message_counter : ℕ

pub record MsgCall : Type 0 where
  pub tx_id : ℕ
  pub timestamp : ℕ
  pub chain_name : String
  pub caller : ℕ
  pub send : List Amount
  pub pkg_path : String
  pub func_name : String
  pub args : String
  pub max_deposit : List Amount
  pub signers : List ℕ
  pub message_counter : ℕ

pub record MsgAddPackage : Type 0 where
  pub tx_id : ℕ
  pub timestamp : ℕ
  pub chain_name : String
  pub creator : ℕ
  pub pkg_path : String
  pub pkg_name : String
  pub pkg_file_names : List String
  pub send : List Amount
  pub max_deposit : List Amount
  pub signers : List ℕ
  pub message_counter : ℕ

pub record MsgRun : Type 0 where
  pub tx_id : ℕ
  pub timestamp : ℕ
  pub chain_name : String
  pub caller : ℕ
  pub pkg_path : String
  pub pkg_name : String
  pub pkg_file_names : List String
  pub send : List Amount
  pub max_deposit : List Amount
  pub signers : List ℕ
  pub message_counter : ℕ

pub record MsgAuthCrSession : Type 0 where
  pub tx_id : ℕ
  pub timestamp : ℕ
  pub chain_name : String
  pub creator : ℕ
  pub session_key : ℕ
  pub expires_at : ℕ
  pub spend_limit : List Amount
  pub allow_paths : List String
  pub spend_period : ℕ
  pub signers : List ℕ
  pub message_counter : ℕ

pub record MsgAuthRvSession : Type 0 where
  pub tx_id : ℕ
  pub timestamp : ℕ
  pub chain_name : String
  pub creator : ℕ
  pub session_key : ℕ
  pub signers : List ℕ
  pub message_counter : ℕ

pub record MsgAuthRvAllSessions : Type 0 where
  pub tx_id : ℕ
  pub timestamp : ℕ
  pub chain_name : String
  pub creator : ℕ
  pub signers : List ℕ
  pub message_counter : ℕ

-- the types that satisfy the interface `schema.Message`
pub data Message : Type 0 where
  msg_send : MsgSend → Message
  msg_multi_send : MsgMultiSend → Message
  msg_call : MsgCall → Message
  msg_add_package : MsgAddPackage → Message
  msg_run : MsgRun → Message
  msg_auth_cr_session : MsgAuthCrSession → Message
  msg_auth_rv_session : MsgAuthRvSession → Message
  msg_auth_rv_all_sessions : MsgAuthRvAllSessions → Message

unfoldable pub table_name : Message → String
table_name (msg_send m) = "bank_msg_send"
table_name (msg_multi_send m) = "bank_msg_multi_send"
table_name (msg_call m) = "vm_msg_call"
table_name (msg_add_package m) = "vm_msg_add_package"
table_name (msg_run m) = "vm_msg_run"
table_name (msg_auth_cr_session m) = "auth_msg_create_session"
table_name (msg_auth_rv_session m) = "auth_msg_revoke_session"
table_name (msg_auth_rv_all_sessions m) = "auth_msg_revoke_all_sessions"

-- each in one map, without repetitions
unfoldable pub get_all_addresses : Message → TxAddresses
unfolding add_all
get_all_addresses (msg_send m) =
    let from = add_address m.from_address (new_tx_addresses m.tx_id) in
    add_all m.signers (if m.to_address == 0 then from else add_address m.to_address from)
get_all_addresses (msg_multi_send m) = add_address m.address_id (new_tx_addresses m.tx_id)
get_all_addresses (msg_call m) = add_all m.signers (add_address m.caller (new_tx_addresses m.tx_id))
get_all_addresses (msg_add_package m) =
    add_all m.signers (add_address m.creator (new_tx_addresses m.tx_id))
get_all_addresses (msg_run m) = add_all m.signers (add_address m.caller (new_tx_addresses m.tx_id))
get_all_addresses (msg_auth_cr_session m) =
    add_all m.signers (add_address m.session_key (add_address m.creator (new_tx_addresses m.tx_id)))
get_all_addresses (msg_auth_rv_session m) =
    add_all m.signers (add_address m.session_key (add_address m.creator (new_tx_addresses m.tx_id)))
get_all_addresses (msg_auth_rv_all_sessions m) =
    add_all m.signers (add_address m.creator (new_tx_addresses m.tx_id))
