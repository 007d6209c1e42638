-- ===== src/Api/Messages.antt =====
-- api/handlers/transactions.go: the responses of the eight message types, as maps from the message
-- counter.
use mathlib.Core.Option
use spectra_gnoland_indexer.Common.{
  ℕ, String, Bool, true, false, Option, none, some, List, [], ◌∷◌, ◌++◌, GoMap, lookup, put, copy,
  nat_comparable,
}
use spectra_gnoland_indexer.Timescale.Types.{
  Amount, MultiSendEntry, BankSend, BankMultiSendRow, MsgCall, MsgAddPackage, MsgRun,
  MsgAuthCrSession, MsgAuthRvSession, MsgAuthRvAllSessions,
}

pub record TransactionMessage : Type 0 where
  pub message_type : String
  pub tx_hash : List ℕ
  pub timestamp : ℕ
  pub signers : List String
  pub from_address : String
  pub to_address : String
  pub amount : List Amount
  pub inputs : List MultiSendEntry
  pub outputs : List MultiSendEntry
  pub caller : String
  pub func_name : String
  pub args : String
  pub creator : String
  pub pkg_name : String
  pub pkg_file_names : List String
  pub pkg_path : String
  pub send : List Amount
  pub max_deposit : List Amount
  pub session_key : String
  pub allow_paths : List String
  pub expires_at : Option ℕ
  pub spend_limit : List Amount
  pub spend_period : Option ℕ

-- the fields that every message has; the others are left at their zero values
abbrev pub message : String → List ℕ → ℕ → List String → TransactionMessage
message message_type tx_hash timestamp signers = record {
  message_type = message_type;
  tx_hash = tx_hash;
  timestamp = timestamp;
  signers = signers;
  from_address = "";
  to_address = "";
  amount = [];
  inputs = [];
  outputs = [];
  caller = "";
  func_name = "";
  args = "";
  creator = "";
  pkg_name = "";
  pkg_file_names = [];
  pkg_path = "";
  send = [];
  max_deposit = [];
  session_key = "";
  allow_paths = [];
  expires_at = none;
  spend_limit = [];
  spend_period = none;
}

abbrev pub Messages : Type 0
Messages = GoMap ℕ TransactionMessage

abbrev pub call_message : String → MsgCall → ℕ × TransactionMessage
call_message msg_type d = (
  d.message_counter,
  record (message msg_type d.tx_hash d.timestamp d.signers) {
    caller = d.caller;
    send = d.send;
    pkg_path = d.pkg_path;
    func_name = d.func_name;
    args = d.args;
    max_deposit = d.max_deposit;
  },
)

abbrev pub add_package_message : String → MsgAddPackage → ℕ × TransactionMessage
add_package_message msg_type d = (
  d.message_counter,
  record (message msg_type d.tx_hash d.timestamp d.signers) {
    creator = d.creator;
    pkg_path = d.pkg_path;
    pkg_name = d.pkg_name;
    pkg_file_names = d.pkg_file_names;
    send = d.send;
    max_deposit = d.max_deposit;
  },
)

abbrev pub run_message : String → MsgRun → ℕ × TransactionMessage
run_message msg_type d = (
  d.message_counter,
  record (message msg_type d.tx_hash d.timestamp d.signers) {
    caller = d.caller;
    pkg_path = d.pkg_path;
    pkg_name = d.pkg_name;
    pkg_file_names = d.pkg_file_names;
    send = d.send;
    max_deposit = d.max_deposit;
  },
)

abbrev pub create_session_message : String → MsgAuthCrSession → ℕ × TransactionMessage
create_session_message msg_type d = (
  d.message_counter,
  record (message msg_type d.tx_hash d.timestamp d.signers) {
    creator = d.creator;
    session_key = d.session_key;
    expires_at = some d.expires_at;
    allow_paths = d.allow_paths;
    spend_limit = d.spend_limit;
    spend_period = some d.spend_period;
  },
)

abbrev pub revoke_session_message : String → MsgAuthRvSession → ℕ × TransactionMessage
revoke_session_message msg_type d = (
  d.message_counter,
  record (message msg_type d.tx_hash d.timestamp d.signers) {
    creator = d.creator;
    session_key = d.session_key;
  },
)

abbrev pub revoke_all_sessions_message : String → MsgAuthRvAllSessions → ℕ × TransactionMessage
revoke_all_sessions_message msg_type d = (
  d.message_counter,
  record (message msg_type d.tx_hash d.timestamp d.signers) { creator = d.creator },
)

abbrev pub bank_send_message : String → BankSend → ℕ × TransactionMessage
bank_send_message msg_type d = (
  d.message_counter,
  record (message msg_type d.tx_hash d.timestamp d.signers) {
    from_address = d.from_address;
    to_address = d.to_address;
    amount = d.amount;
  },
)

-- response[d.MessageCounter] = ... for each row
unfoldable pub store_all : List (ℕ × TransactionMessage) → Messages → Messages
store_all [] response = response
store_all ((index, m) ∷ rows) response = store_all rows (put index m response)

-- what has been gathered of one multi-send
pub record Gathered : Type 0 where
  pub base : TransactionMessage
  pub inputs : List MultiSendEntry
  pub outputs : List MultiSendEntry

abbrev pub new_gathered : String → BankMultiSendRow → Gathered
new_gathered msg_type d = record {
  base = message msg_type d.tx_hash d.timestamp d.signers;
  inputs = [];
  outputs = [];
}

abbrev pub entry_of : BankMultiSendRow → MultiSendEntry
entry_of d = record { address = d.address; coins = d.coins }

abbrev pub add_entry : Bool → MultiSendEntry → Gathered → Gathered
add_entry true entry a = record a { outputs = a.outputs ++ entry ∷ [] }
add_entry false entry a = record a { inputs = a.inputs ++ entry ∷ [] }

unfoldable pub gather : String → List BankMultiSendRow → GoMap ℕ Gathered → GoMap ℕ Gathered
gather msg_type [] by_counter = by_counter
gather msg_type (d ∷ rows) by_counter =
    let a = Option.get_or (lookup d.message_counter by_counter) (new_gathered msg_type d) in
    gather msg_type rows (put d.message_counter (add_entry d.direction (entry_of d) a) by_counter)

abbrev pub finished : Gathered → TransactionMessage
finished a = record a.base { inputs = a.inputs; outputs = a.outputs }

unfoldable pub finish_all : GoMap ℕ Gathered → Messages
finish_all [] = []
finish_all ((index, a) ∷ by_counter) = (index, finished a) ∷ finish_all by_counter

-- the range over the map meets each counter once, so that its order does not matter
unfoldable pub store_multi_sends : String → List BankMultiSendRow → Messages → Messages
store_multi_sends msg_type data_rows response =
    copy response (finish_all (gather msg_type data_rows []))
