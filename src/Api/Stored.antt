-- ===== src/Api/Stored.antt =====
-- `GetTransactionMessage` (api/handlers/transactions.go) over the queries of
-- pkgs/database/timescaledb/query_msg.go, when the rows of all tables can be read.
use spectra_gnoland_indexer.Common.{
  ℕ, String, ◌≡◌, refl, ap, ◌∙◌, Option, some, List, [], ◌∷◌, map, Result, ok, lookup, GoMap,
  string_comparable, str_eq, Bool-cases, or_else, or_else_assoc, or_else-none, subst, arith,
  nat_comparable, inl, inr,
}
use spectra_gnoland_indexer.Timescale.{DbError, Encodings}
use spectra_gnoland_indexer.Timescale.Types.{BankMultiSendRow}
use spectra_gnoland_indexer.Timescale.Views.{Rows, fold_answer, append_scanned}
use spectra_gnoland_indexer.Timescale.Volumes.{whole}
use spectra_gnoland_indexer.Timescale.Messages as Queries
use spectra_gnoland_indexer.Timescale.Messages.{Answer, fold_answer-whole}
use spectra_gnoland_indexer.Api.Transactions.{parse_tx_hash}
use spectra_gnoland_indexer.Api.Messages.{
  TransactionMessage, Messages, bank_send_message, store_all, store_multi_sends, call_message,
  add_package_message, run_message, create_session_message, revoke_session_message,
  revoke_all_sessions_message,
}
use spectra_gnoland_indexer.Api.Responses.{
  lookup-store_all, multi_send_message, lookup-store_multi_sends,
}
use spectra_gnoland_indexer.Api.Dispatch.{
  MessageDb, Handler, respond, one_each, get_bank_send, BankSendColumns, scan_bank_send, dispatch,
  handle_types, trim_spaces, get_transaction_message, get_bank_send_response,
  get_bank_multi_send_response, get_msg_call_response, get_msg_add_package_response,
  get_msg_run_response, get_msg_auth_cr_session_response, get_msg_auth_rv_session_response,
  get_msg_auth_rv_all_sessions_response,
}
use spectra_gnoland_indexer.Api.Given.{
  Tables, message_db, Given, given, AllKnown, last_given, last_of_each,
}

abbrev IsStoring : Handler → Given → Type 0
IsStoring handler g =
    (response : Messages)
    → (after : Messages) × (handler response ≡ ok after)
      × ((j : ℕ) → lookup j after ≡ or_else (g j) (lookup j response))

-- each handler of a table beside what it stores
infixr 5 ◌▹◌
data AllStoring : GoMap String Handler → GoMap String Given → Type 0 where
  no_more : AllStoring [] []
  ◌▹◌ :
      {t : String} {handler : Handler} {g : Given} {table : GoMap String Handler}
      {gs : GoMap String Given}
      → IsStoring handler g
      → AllStoring table gs
      → AllStoring ((t, handler) ∷ table) ((t, g) ∷ gs)

one_each-IsStoring :
    {R : Type 0} (message_of : R → ℕ × TransactionMessage) (rows : List R)
    (scanned : Result DbError (List R))
    → scanned ≡ ok rows
    → IsStoring (respond (one_each message_of) scanned) (last_of_each message_of rows)
one_each-IsStoring message_of rows scanned e response = (
  store_all (map message_of rows) response,
  rw e refl,
  λ j. lookup-store_all j (map message_of rows) response,
)

-- the same over the answer of a query
answered-IsStoring :
    {R : Type 0} (message_of : R → ℕ × TransactionMessage) (rows : List R)
    (answer : Option (Rows R))
    → answer ≡ some (whole rows)
    → IsStoring
        (respond (one_each message_of) (fold_answer append_scanned [] answer))
        (last_of_each message_of rows)
answered-IsStoring message_of rows answer e =
    one_each-IsStoring message_of rows (fold_answer append_scanned [] answer)
      (fold_answer-whole rows answer e)

multi_sends-IsStoring :
    (rows : List BankMultiSendRow) (answer : Option (Rows BankMultiSendRow))
    → answer ≡ some (whole rows)
    → IsStoring
        (respond (store_multi_sends "bank_msg_multi_send") (fold_answer append_scanned [] answer))
        (λ j. multi_send_message "bank_msg_multi_send" j rows)
multi_sends-IsStoring rows answer e response = (
  store_multi_sends "bank_msg_multi_send" rows response,
  rw (fold_answer-whole rows answer e) refl,
  λ j. lookup-store_multi_sends "bank_msg_multi_send" j rows response,
)

get_bank_send-ok :
    (query : List ℕ → String → Result DbError (List BankSendColumns)) (hash : List ℕ)
    (chain_name : String) (rows : List BankSendColumns)
    → query hash chain_name ≡ ok rows
    → get_bank_send query hash chain_name ≡ ok (map scan_bank_send rows)
unfolding get_bank_send
get_bank_send-ok query hash chain_name rows e = rw (get_bank_send, e)

lookup-IsStoring :
    (t : String) (g : Given) (table : GoMap String Handler) (gs : GoMap String Given)
    → AllStoring table gs
    → lookup t gs ≡ some g
    → (handler : Handler) × (lookup t table ≡ some handler) × IsStoring handler g
unfolding lookup
lookup-IsStoring t g [] [] no_more e = cc
lookup-IsStoring t g [] (x ∷ gs) h e = elim h [ ]
lookup-IsStoring t g (x ∷ table) [] h e = elim h [ ]
lookup-IsStoring t g ((s, handler) ∷ table) ((_, g') ∷ gs) (h ▹ hs) e =
    elim (Bool-cases (str_eq s t)) [
      | inl same ↦
          let found : g' ≡ g = ground arith in
          (handler, rw same refl, subst (IsStoring handler) found h)
      | inr other ↦
          let (handler', l, st) = lookup-IsStoring t g table gs hs (ground arith) in
          (handler', rw other l, st)
    ]

module _ (answers : Tables Answer) (rows : Tables List) (hash : List ℕ) (chain_name : String) where
  abbrev pub AllAnswered : Type 0
  AllAnswered =
      (answers.bank_sends hash chain_name ≡ some (whole rows.bank_sends))
      × (answers.multi_sends hash chain_name ≡ some (whole rows.multi_sends))
      × (answers.calls hash chain_name ≡ some (whole rows.calls))
      × (answers.add_packages hash chain_name ≡ some (whole rows.add_packages))
      × (answers.runs hash chain_name ≡ some (whole rows.runs))
      × (answers.create_sessions hash chain_name ≡ some (whole rows.create_sessions))
      × (answers.revoke_sessions hash chain_name ≡ some (whole rows.revoke_sessions))
      × (answers.revoke_all_sessions hash chain_name ≡ some (whole rows.revoke_all_sessions))

  module _ (msg_types : List ℕ → String → Option (Option (List String))) where
    abbrev db : MessageDb
    db = message_db msg_types answers

    dispatch-AllStoring : AllAnswered → AllStoring (dispatch db hash chain_name) (given rows)
    unfolding dispatch get_bank_send_response get_bank_multi_send_response get_msg_call_response
        get_msg_add_package_response get_msg_run_response get_msg_auth_cr_session_response
        get_msg_auth_rv_session_response get_msg_auth_rv_all_sessions_response get_bank_send
        Queries.get_bank_multi_send Queries.get_msg_call Queries.get_msg_add_package
        Queries.get_msg_run Queries.get_msg_auth_cr_session Queries.get_msg_auth_rv_session
        Queries.get_msg_auth_rv_all_sessions
    dispatch-AllStoring (sends, multi, calls, packages, runs, creates, revokes, all) =
        one_each-IsStoring (bank_send_message "bank_msg_send") (map scan_bank_send rows.bank_sends)
          _
          (get_bank_send-ok (λ h c. fold_answer append_scanned [] (answers.bank_sends h c)) hash
            chain_name rows.bank_sends (fold_answer-whole rows.bank_sends _ sends))
        ▹ multi_sends-IsStoring rows.multi_sends _ multi
        ▹ answered-IsStoring (call_message "vm_msg_call") rows.calls _ calls
        ▹ answered-IsStoring (add_package_message "vm_msg_add_package") rows.add_packages _ packages
        ▹ answered-IsStoring (run_message "vm_msg_run") rows.runs _ runs
        ▹ answered-IsStoring (create_session_message "auth_msg_create_session") rows.create_sessions
            _ creates
        ▹ answered-IsStoring (revoke_session_message "auth_msg_revoke_session") rows.revoke_sessions
            _ revokes
        ▹ answered-IsStoring (revoke_all_sessions_message "auth_msg_revoke_all_sessions")
            rows.revoke_all_sessions _ all
        ▹ no_more

    handle_types-last_given :
        (types : List String) (response : Messages)
        → AllAnswered
        → AllKnown (given rows) types
        → (after : Messages) × (handle_types db hash chain_name types (ok response) ≡ ok after)
          × ((j : ℕ)
              → lookup j after ≡ or_else (last_given (given rows) types j) (lookup j response))
    unfolding handle_types
    handle_types-last_given [] response answered known = (response, refl, λ j. refl)
    handle_types-last_given (t ∷ types) response answered ((g, e), known) =
        let (handler, l, storing) =
          lookup-IsStoring t g (dispatch db hash chain_name) (given rows)
            (dispatch-AllStoring answered) e in
        let (between, p, at) = storing response in
        let (after, q, later) = handle_types-last_given types between answered known in
        (
          after,
          rw (l, p) q,
          λ j.
              later j
              ∙ ap (or_else (last_given (given rows) types j)) (at j)
              ∙ rw e (or_else_assoc (last_given (given rows) types j) (g j) (lookup j response)),
        )

-- If the hash of a transaction can be read, each of its types has a helper, and the database
-- answers each query with rows that can all be read, GetTransactionMessage answers with a map
-- that holds, at each message counter, what the table of the last type with a message there
-- gives: the last row of the counter, or the multi-send gathered from its rows; and nothing where
-- no table has one.
pub get_transaction_message-last_given :
    (base64 : Encodings) (msg_types : List ℕ → String → Option (Option (List String)))
    (answers : Tables Answer) (rows : Tables List) (chain_name : String) (tx_hash hash : List ℕ)
    (types : List String)
    → parse_tx_hash base64 (trim_spaces tx_hash) ≡ some hash
    → msg_types hash chain_name ≡ some (some types)
    → AllAnswered answers rows hash chain_name
    → AllKnown (given rows) types
    → (after : Messages) × (get_transaction_message base64
          (message_db msg_types answers)
          chain_name
          tx_hash
        ≡ ok after)
      × ((j : ℕ) → lookup j after ≡ last_given (given rows) types j)
unfolding get_transaction_message Queries.get_msg_types
get_transaction_message-last_given base64 msg_types answers rows chain_name tx_hash hash types p q
      answered known =
    let (after, e, at) =
      handle_types-last_given answers rows hash chain_name msg_types types [] answered known in
    (
      after,
      rw (get_transaction_message, p, q) e,
      λ j. at j ∙ (unfold lookup in or_else-none (last_given (given rows) types j)),
    )
