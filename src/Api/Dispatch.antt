-- ===== src/Api/Dispatch.antt =====
-- api/handlers/transactions.go: `GetTransactionMessage`, over the queries of
-- pkgs/database/timescaledb/query_msg.go.
use spectra_gnoland_indexer.Common.{
  ℕ, String, Option, none, some, List, [], ◌∷◌, map, Result, ok, err, GoMap, lookup,
  string_comparable, ◌==◌, if◌then◌else◌,
}
use spectra_gnoland_indexer.Timescale.{DbError, Encodings}
use spectra_gnoland_indexer.Timescale.Types.{
  Amount, BankSend, BankMultiSendRow, MsgCall, MsgAddPackage, MsgRun, MsgAuthCrSession,
  MsgAuthRvSession, MsgAuthRvAllSessions,
}
use spectra_gnoland_indexer.Api.{HttpError, bad_request, internal_error, map_db_error}
use spectra_gnoland_indexer.Api.Transactions.{parse_tx_hash}
use spectra_gnoland_indexer.Api.Messages.{
  TransactionMessage, Messages, call_message, add_package_message, run_message,
  create_session_message, revoke_session_message, revoke_all_sessions_message, bank_send_message,
  store_all, store_multi_sends,
}

-- a query for the rows of one table, by hash and chain
abbrev Query : Type 0 → Type 0
Query R = List ℕ → String → Result DbError (List R)

-- the columns that the query of `GetBankSend` selects
pub record BankSendColumns : Type 0 where
  pub tx_hash : List ℕ
  pub timestamp : ℕ
  pub from_address : String
  pub to_address : String
  pub amount : List Amount
  pub signers : List String

-- the message counter is not among the columns, and stays at its zero value
abbrev pub scan_bank_send : BankSendColumns → BankSend
scan_bank_send row = record {
  message_counter = 0;
  tx_hash = row.tx_hash;
  timestamp = row.timestamp;
  from_address = row.from_address;
  to_address = row.to_address;
  amount = row.amount;
  signers = row.signers;
}

unfoldable pub get_bank_send : Query BankSendColumns → Query BankSend
get_bank_send query tx_hash chain_name = elim (query tx_hash chain_name) [
  | err e ↦ err e
  | ok rows ↦ ok (map scan_bank_send rows)
]

pub record MessageDb : Type 0 where
  pub get_msg_types : List ℕ → String → Result DbError (List String)
  pub get_bank_send_rows : Query BankSend
  pub get_bank_multi_send : Query BankMultiSendRow
  pub get_msg_call : Query MsgCall
  pub get_msg_add_package : Query MsgAddPackage
  pub get_msg_run : Query MsgRun
  pub get_msg_auth_cr_session : Query MsgAuthCrSession
  pub get_msg_auth_rv_session : Query MsgAuthRvSession
  pub get_msg_auth_rv_all_sessions : Query MsgAuthRvAllSessions

abbrev pub Handler : Type 0
Handler = Messages → Result HttpError Messages

-- the rows stored under their counters; an error of the query is masked
abbrev pub respond :
    {R : Type 0} → (List R → Messages → Messages) → Result DbError (List R) → Handler
respond store (err e) response = err internal_error
respond store (ok rows) response = ok (store rows response)

abbrev pub one_each : {R : Type 0} → (R → ℕ × TransactionMessage) → List R → Messages → Messages
one_each message_of rows response = store_all (map message_of rows) response

module _ (db : MessageDb) (tx_hash : List ℕ) (chain_name : String) where
  open db use {
    get_msg_types, get_bank_send_rows, get_bank_multi_send, get_msg_call, get_msg_add_package,
    get_msg_run, get_msg_auth_cr_session, get_msg_auth_rv_session, get_msg_auth_rv_all_sessions,
  }

  unfoldable pub get_bank_send_response : Handler
  get_bank_send_response =
      respond (one_each (bank_send_message "bank_msg_send")) (get_bank_send_rows tx_hash chain_name)

  unfoldable pub get_bank_multi_send_response : Handler
  get_bank_multi_send_response =
      respond (store_multi_sends "bank_msg_multi_send") (get_bank_multi_send tx_hash chain_name)

  unfoldable pub get_msg_call_response : Handler
  get_msg_call_response =
      respond (one_each (call_message "vm_msg_call")) (get_msg_call tx_hash chain_name)

  unfoldable pub get_msg_add_package_response : Handler
  get_msg_add_package_response =
      respond (one_each (add_package_message "vm_msg_add_package"))
        (get_msg_add_package tx_hash chain_name)

  unfoldable pub get_msg_run_response : Handler
  get_msg_run_response =
      respond (one_each (run_message "vm_msg_run")) (get_msg_run tx_hash chain_name)

  unfoldable pub get_msg_auth_cr_session_response : Handler
  get_msg_auth_cr_session_response =
      respond (one_each (create_session_message "auth_msg_create_session"))
        (get_msg_auth_cr_session tx_hash chain_name)

  unfoldable pub get_msg_auth_rv_session_response : Handler
  get_msg_auth_rv_session_response =
      respond (one_each (revoke_session_message "auth_msg_revoke_session"))
        (get_msg_auth_rv_session tx_hash chain_name)

  unfoldable pub get_msg_auth_rv_all_sessions_response : Handler
  get_msg_auth_rv_all_sessions_response =
      respond (one_each (revoke_all_sessions_message "auth_msg_revoke_all_sessions"))
        (get_msg_auth_rv_all_sessions tx_hash chain_name)

  -- the map from the message types to the helpers
  unfoldable pub dispatch : GoMap String Handler
  dispatch =
      ("bank_msg_send", get_bank_send_response)
      ∷ ("bank_msg_multi_send", get_bank_multi_send_response)
      ∷ ("vm_msg_call", get_msg_call_response)
      ∷ ("vm_msg_add_package", get_msg_add_package_response)
      ∷ ("vm_msg_run", get_msg_run_response)
      ∷ ("auth_msg_create_session", get_msg_auth_cr_session_response)
      ∷ ("auth_msg_revoke_session", get_msg_auth_rv_session_response)
      ∷ ("auth_msg_revoke_all_sessions", get_msg_auth_rv_all_sessions_response)
      ∷ []

  -- one round of the loop: an unknown type is an internal error
  abbrev pub handle : Option Handler → Result HttpError Messages → Result HttpError Messages
  handle handler (err e) = err e
  handle none (ok response) = err internal_error
  handle (some handler) (ok response) = handler response

  unfoldable pub handle_types : List String → Result HttpError Messages → Result HttpError Messages
  handle_types [] response = response
  handle_types (t ∷ types) response = handle_types types (handle (lookup t dispatch) response)

  abbrev message_body : Result DbError (List String) → Result HttpError Messages
  message_body (err e) = err (map_db_error "transaction not found" e)
  message_body (ok types) = handle_types types (ok [])

unfoldable pub trim_left : List ℕ → List ℕ
trim_left [] = []
trim_left (c ∷ cs) = let rest = trim_left cs in if c == b' ' then rest else c ∷ cs

abbrev trim_end : ℕ → List ℕ → List ℕ
trim_end c [] = if c == b' ' then [] else c ∷ []
trim_end c (d ∷ rest) = c ∷ d ∷ rest

unfoldable pub trim_right : List ℕ → List ℕ
trim_right [] = []
trim_right (c ∷ cs) = trim_end c (trim_right cs)

-- `strings.Trim` of the spaces around a text
unfoldable pub trim_spaces : List ℕ → List ℕ
unfolding trim_left trim_right
trim_spaces s = trim_right (trim_left s)

unfoldable pub get_transaction_message :
    Encodings → MessageDb → String → List ℕ → Result HttpError Messages
get_transaction_message base64 db chain_name tx_hash =
    elim (parse_tx_hash base64 (trim_spaces tx_hash)) [
      | none ↦ err (bad_request "transaction hash is not valid base64 encoded")
      | some hash ↦ message_body db hash chain_name (db.get_msg_types hash chain_name)
    ]
