-- ===== src/Tests/Responses.antt =====
-- The responses of transactions with a multi-send, with two bank sends, and with a multi-send and a
-- call.
use mathlib.Core.Option
use spectra_gnoland_indexer.Common.{
  ℕ, String, ◌≡◌, refl, true, false, Bool, Option, some, List, [], ◌∷◌, Result, ok, lookup, put,
  copy, or_else, nat_comparable, ◌==◌, if◌then◌else◌,
}
use spectra_gnoland_indexer.Timescale.{DbError, Encodings}
use spectra_gnoland_indexer.Timescale.Types.{BankMultiSendRow, MsgCall}
use spectra_gnoland_indexer.Timescale.Views.{Rows}
use spectra_gnoland_indexer.Timescale.Volumes.{whole}
use spectra_gnoland_indexer.Timescale.Messages.{Answer}
use spectra_gnoland_indexer.Api.Transactions.{parse_tx_hash}
use spectra_gnoland_indexer.Api.Given.{Tables, message_db, given, last_given}
use spectra_gnoland_indexer.Api.Stored.{get_transaction_message-last_given}
use spectra_gnoland_indexer.Api.Messages.{
  Messages, gather, finish_all, store_multi_sends, bank_send_message,
}
use spectra_gnoland_indexer.Api.Responses.{multi_send_message, lookup-store_multi_sends}
use spectra_gnoland_indexer.Api.Dispatch.{
  MessageDb, BankSendColumns, scan_bank_send, get_bank_send, get_bank_send_response,
  get_transaction_message, trim_spaces,
}
use spectra_gnoland_indexer.Api.Masked.{get_bank_send_response_counter}

abbrev entry_row : ℕ → Bool → String → BankMultiSendRow
entry_row counter direction address = record {
  message_counter = counter;
  tx_hash = 1 ∷ [];
  timestamp = 50;
  direction = direction;
  address = address;
  coins = [];
  signers = "g1a" ∷ [];
}

abbrev multi_rows : List BankMultiSendRow
multi_rows =
    entry_row 1 false "g1a"
    ∷ entry_row 0 false "g1b"
    ∷ entry_row 1 true "g1c"
    ∷ entry_row 1 true "g1d"
    ∷ []

lookup-store_multi_sends_example :
    lookup 1 (store_multi_sends "bank_msg_multi_send" multi_rows [])
    ≡ or_else (multi_send_message "bank_msg_multi_send" 1 multi_rows) (lookup {K = ℕ} 1 [])
lookup-store_multi_sends_example = lookup-store_multi_sends "bank_msg_multi_send" 1 multi_rows []

multi_outputs :
    Option.map (λ m. m.outputs) (lookup 1 (store_multi_sends "bank_msg_multi_send" multi_rows []))
    ≡ some (record { address = "g1c"; coins = [] } ∷ record { address = "g1d"; coins = [] } ∷ [])
unfolding store_multi_sends lookup copy finish_all gather put
multi_outputs = refl

abbrev sent : String → BankSendColumns
sent to = record {
  tx_hash = 1 ∷ [];
  timestamp = 50;
  from_address = "g1a";
  to_address = to;
  amount = [];
  signers = "g1a" ∷ [];
}

abbrev two_sends : List ℕ → String → Result DbError (List BankSendColumns)
two_sends tx_hash chain_name = ok (sent "g1b" ∷ sent "g1c" ∷ [])

abbrev nothing : {R : Type 0} → List ℕ → String → Result DbError (List R)
nothing tx_hash chain_name = ok []

abbrev db : MessageDb
db = record {
  get_msg_types = λ tx_hash chain_name. ok ("bank_msg_send" ∷ "vm_msg_new" ∷ []);
  get_bank_send_rows = get_bank_send two_sends;
  get_bank_multi_send = nothing;
  get_msg_call = nothing;
  get_msg_add_package = nothing;
  get_msg_run = nothing;
  get_msg_auth_cr_session = nothing;
  get_msg_auth_rv_session = nothing;
  get_msg_auth_rv_all_sessions = nothing;
}

get_bank_send_response_counter_example :
    (after : Messages) × (get_bank_send_response db (1 ∷ []) "gno" [] ≡ ok after)
    × ((j : ℕ)
        → lookup j after ≡ (
            if j == 0
            then some (bank_send_message "bank_msg_send" (scan_bank_send (sent "g1c"))).1
            else lookup j []))
get_bank_send_response_counter_example =
    get_bank_send_response_counter db two_sends (1 ∷ []) "gno" (sent "g1b") (sent "g1c" ∷ []) []
      refl refl

abbrev plain : Encodings
plain = record {
  std_encode = λ s. s;
  std_decode = λ s. some s;
  url_encode = λ s. s;
  url_decode = λ s. some s;
}

abbrev call_row : MsgCall
call_row = record {
  message_counter = 2;
  tx_hash = 1 ∷ [];
  timestamp = 50;
  caller = "g1a";
  send = [];
  pkg_path = "gno.land/r/demo";
  func_name = "Add";
  args = "1";
  max_deposit = [];
  signers = "g1a" ∷ [];
}

abbrev tables : Tables List
tables = record {
  bank_sends = [];
  multi_sends = multi_rows;
  calls = call_row ∷ [];
  add_packages = [];
  runs = [];
  create_sessions = [];
  revoke_sessions = [];
  revoke_all_sessions = [];
}

abbrev always : {R : Type 0} → List R → List ℕ → String → Option (Rows R)
always rows tx_hash chain_name = some (whole rows)

abbrev database : Tables Answer
database = record {
  bank_sends = always tables.bank_sends;
  multi_sends = always tables.multi_sends;
  calls = always tables.calls;
  add_packages = always tables.add_packages;
  runs = always tables.runs;
  create_sessions = always tables.create_sessions;
  revoke_sessions = always tables.revoke_sessions;
  revoke_all_sessions = always tables.revoke_all_sessions;
}

abbrev types_of : List ℕ → String → Option (Option (List String))
types_of tx_hash chain_name = some (some ("bank_msg_multi_send" ∷ "vm_msg_call" ∷ []))

get_transaction_message-last_given_example :
    (after : Messages) × (get_transaction_message plain
        (message_db types_of database)
        "gno"
        (b' ' ∷ 1 ∷ b' ' ∷ [])
      ≡ ok after)
    × ((j : ℕ)
        → lookup j after ≡ last_given (given tables) ("bank_msg_multi_send" ∷ "vm_msg_call" ∷ []) j)
unfolding parse_tx_hash trim_spaces lookup
get_transaction_message-last_given_example =
    get_transaction_message-last_given plain types_of database tables "gno" (b' ' ∷ 1 ∷ b' ' ∷ [])
      (1 ∷ []) ("bank_msg_multi_send" ∷ "vm_msg_call" ∷ []) refl refl
      (refl, refl, refl, refl, refl, refl, refl, refl) ((_, refl), ((_, refl), tt))
