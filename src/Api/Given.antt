-- ===== src/Api/Given.antt =====
-- What `GetTransactionMessage` (api/handlers/transactions.go) is to give: the queries of
-- pkgs/database/timescaledb/query_msg.go together, and what the table of each message type gives at
-- each message counter.
use spectra_gnoland_indexer.Common.{
  ℕ, String, ◌≡◌, Option, none, some, List, [], ◌∷◌, map, lookup, GoMap, string_comparable, or_else,
  nat_comparable,
}
use spectra_gnoland_indexer.Timescale.Types.{
  BankMultiSendRow, MsgCall, MsgAddPackage, MsgRun, MsgAuthCrSession, MsgAuthRvSession,
  MsgAuthRvAllSessions,
}
use spectra_gnoland_indexer.Timescale.Views.{fold_answer, append_scanned}
use spectra_gnoland_indexer.Timescale.Messages as Queries
use spectra_gnoland_indexer.Timescale.Messages.{Answer, fold_answer-whole}
use spectra_gnoland_indexer.Api.Messages.{
  TransactionMessage, bank_send_message, call_message, add_package_message, run_message,
  create_session_message, revoke_session_message, revoke_all_sessions_message,
}
use spectra_gnoland_indexer.Api.Responses.{last_at, multi_send_message}
use spectra_gnoland_indexer.Api.Dispatch.{MessageDb, get_bank_send, BankSendColumns, scan_bank_send}

-- one entry for each table of messages
pub record Tables (F : Type 0 → Type 0) : Type 0 where
  pub bank_sends : F BankSendColumns
  pub multi_sends : F BankMultiSendRow
  pub calls : F MsgCall
  pub add_packages : F MsgAddPackage
  pub runs : F MsgRun
  pub create_sessions : F MsgAuthCrSession
  pub revoke_sessions : F MsgAuthRvSession
  pub revoke_all_sessions : F MsgAuthRvAllSessions

-- the methods of TimescaleDb over what the database answers
abbrev pub message_db :
    (List ℕ → String → Option (Option (List String))) → Tables Answer → MessageDb
message_db msg_types answers = record {
  get_msg_types = Queries.get_msg_types msg_types;
  get_bank_send_rows =
      get_bank_send (λ tx_hash chain_name.
        fold_answer append_scanned [] (answers.bank_sends tx_hash chain_name));
  get_bank_multi_send = Queries.get_bank_multi_send answers.multi_sends;
  get_msg_call = Queries.get_msg_call answers.calls;
  get_msg_add_package = Queries.get_msg_add_package answers.add_packages;
  get_msg_run = Queries.get_msg_run answers.runs;
  get_msg_auth_cr_session = Queries.get_msg_auth_cr_session answers.create_sessions;
  get_msg_auth_rv_session = Queries.get_msg_auth_rv_session answers.revoke_sessions;
  get_msg_auth_rv_all_sessions = Queries.get_msg_auth_rv_all_sessions answers.revoke_all_sessions;
}

-- what a table gives at each message counter
abbrev pub Given : Type 0
Given = ℕ → Option TransactionMessage

abbrev pub last_of_each : {R : Type 0} → (R → ℕ × TransactionMessage) → List R → Given
last_of_each message_of rows j = last_at j (map message_of rows)

abbrev pub given : Tables List → GoMap String Given
given rows =
    (
      "bank_msg_send",
      last_of_each (bank_send_message "bank_msg_send") (map scan_bank_send rows.bank_sends),
    )
    ∷ ("bank_msg_multi_send", λ j. multi_send_message "bank_msg_multi_send" j rows.multi_sends)
    ∷ ("vm_msg_call", last_of_each (call_message "vm_msg_call") rows.calls)
    ∷ (
      "vm_msg_add_package",
      last_of_each (add_package_message "vm_msg_add_package") rows.add_packages,
    )
    ∷ ("vm_msg_run", last_of_each (run_message "vm_msg_run") rows.runs)
    ∷ (
      "auth_msg_create_session",
      last_of_each (create_session_message "auth_msg_create_session") rows.create_sessions,
    )
    ∷ (
      "auth_msg_revoke_session",
      last_of_each (revoke_session_message "auth_msg_revoke_session") rows.revoke_sessions,
    )
    ∷ (
      "auth_msg_revoke_all_sessions",
      last_of_each (revoke_all_sessions_message "auth_msg_revoke_all_sessions")
          rows.revoke_all_sessions,
    )
    ∷ []

abbrev pub AllKnown : GoMap String Given → List String → Type 0
AllKnown table [] = Unit
AllKnown table (t ∷ types) = ((g : Given) × (lookup t table ≡ some g)) × AllKnown table types

abbrev pub given_by : Option Given → Given
given_by none j = none
given_by (some g) j = g j

-- of the types whose table has a message at a counter, that of the last one
abbrev pub last_given : GoMap String Given → List String → Given
last_given table [] j = none
last_given table (t ∷ types) j = or_else (last_given table types j) (given_by (lookup t table) j)
