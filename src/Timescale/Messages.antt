-- ===== src/Timescale/Messages.antt =====
-- pkgs/database/timescaledb/query_msg.go: the queries of the messages of a transaction, by hash and
-- chain. The database answers the query of a table with rows, or fails; a row is `none` if it could
-- not be scanned, as one with an address that the LEFT JOIN does not find, whose text is NULL.
use spectra_gnoland_indexer.Common.{
  ℕ, String, ◌≡◌, ap, ◌∙◌, true, Option, none, some, List, [], ◌∷◌, ◌++◌, Result, ok, err,
}
use mathlib.Core.List.{append_assoc, append-nil}
use spectra_gnoland_indexer.Timescale.{DbError, not_found, failure}
use spectra_gnoland_indexer.Timescale.Types.{
  BankMultiSendRow, MsgCall, MsgAddPackage, MsgRun, MsgAuthCrSession, MsgAuthRvSession,
  MsgAuthRvAllSessions,
}
use spectra_gnoland_indexer.Timescale.Views.{Rows, fold_rows, fold_answer, append_scanned}
use spectra_gnoland_indexer.Timescale.Volumes.{whole, all_read}

abbrev pub Answer : Type 0 → Type 0
Answer R = List ℕ → String → Option (Rows R)

abbrev pub Scans : Type 0 → Type 0
Scans R = List ℕ → String → Result DbError (List R)

unfoldable pub get_msg_call : Answer MsgCall → Scans MsgCall
get_msg_call query tx_hash chain_name = fold_answer append_scanned [] (query tx_hash chain_name)

unfoldable pub get_msg_add_package : Answer MsgAddPackage → Scans MsgAddPackage
get_msg_add_package query tx_hash chain_name =
    fold_answer append_scanned [] (query tx_hash chain_name)

unfoldable pub get_msg_run : Answer MsgRun → Scans MsgRun
get_msg_run query tx_hash chain_name = fold_answer append_scanned [] (query tx_hash chain_name)

unfoldable pub get_bank_multi_send : Answer BankMultiSendRow → Scans BankMultiSendRow
get_bank_multi_send query tx_hash chain_name =
    fold_answer append_scanned [] (query tx_hash chain_name)

unfoldable pub get_msg_auth_cr_session : Answer MsgAuthCrSession → Scans MsgAuthCrSession
get_msg_auth_cr_session query tx_hash chain_name =
    fold_answer append_scanned [] (query tx_hash chain_name)

unfoldable pub get_msg_auth_rv_session : Answer MsgAuthRvSession → Scans MsgAuthRvSession
get_msg_auth_rv_session query tx_hash chain_name =
    fold_answer append_scanned [] (query tx_hash chain_name)

unfoldable pub get_msg_auth_rv_all_sessions :
    Answer MsgAuthRvAllSessions → Scans MsgAuthRvAllSessions
get_msg_auth_rv_all_sessions query tx_hash chain_name =
    fold_answer append_scanned [] (query tx_hash chain_name)

-- the row of the transaction: pgx.ErrNoRows, another error, or the types
abbrev scan_types : Option (Option (List String)) → Result DbError (List String)
scan_types none = err not_found
scan_types (some none) = err failure
scan_types (some (some msg_types)) = ok msg_types

unfoldable pub get_msg_types : (List ℕ → String → Option (Option (List String))) → Scans String
get_msg_types query tx_hash chain_name = scan_types (query tx_hash chain_name)

module _ {R : Type 0} where
  fold_rows-append_scanned :
      (rows read : List R) → fold_rows append_scanned (all_read rows) true read ≡ ok (read ++ rows)
  unfolding fold_rows
  fold_rows-append_scanned [] read = rw (append-nil read)
  fold_rows-append_scanned (r ∷ rows) read =
      fold_rows-append_scanned rows (read ++ r ∷ []) ∙ ap ok (append_assoc read (r ∷ []) rows)

  -- A query that is answered with rows that can all be scanned gives these.
  pub fold_answer-whole :
      (rows : List R) (answer : Option (Rows R))
      → answer ≡ some (whole rows)
      → fold_answer append_scanned [] answer ≡ ok rows
  unfolding fold_answer
  fold_answer-whole rows answer e = rw e (fold_rows-append_scanned rows [])
