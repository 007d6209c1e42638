-- ===== src/Tests/Transactions.antt =====
-- DataProcessor/Transactions: two transactions, one of which has no id.
use spectra_gnoland_indexer.Common.{
  parse_uint, false, ◌≡◌, refl, String, true, Option, none, some, List, [], ◌∷◌, length, done,
  string_comparable, nat_comparable, lookup,
}
use spectra_gnoland_indexer.Rpc.Tx
use spectra_gnoland_indexer.Orchestrator.{TransactionsData}
use spectra_gnoland_indexer.Decoder.{DecodedMsg}
use spectra_gnoland_indexer.DataProcessor.Events.{Encoding, event_solver}
use spectra_gnoland_indexer.DataProcessor.Transactions.{
  decode_all, process_transaction, process_transactions,
}
use spectra_gnoland_indexer.DataProcessor.Accepts.{accepted, process_transactions-accepted}
use spectra_gnoland_indexer.Tests.Orchestration.{tx}
use spectra_gnoland_indexer.Tests.Processing.{with_messages, backwards-Covers, transaction}

-- events are never compressed here
abbrev pub encoding : Encoding String String
encoding = record { parse_float = λ s. none; marshal = λ es. none; encode_all = λ b. b }

abbrev nothing_sent : String → Option DecodedMsg
nothing_sent s = some (with_messages [])

-- the second transaction has no id
abbrev two_transactions : List TransactionsData
two_transactions = transaction ∷ record { response = tx "k"; timestamp = 5; block_height = 7 } ∷ []

abbrev decoded : List (TransactionsData × DecodedMsg)
decoded =
    (transaction, with_messages [])
    ∷ (record { response = tx "k"; timestamp = 5; block_height = 7 }, with_messages [])
    ∷ []

-- the world is what was inserted
process_transactions-accepted_example :
    process_transactions encoding nothing_sent "test"
      (λ rows w. (true, rows))
      (1 ∷ 0 ∷ [])
      two_transactions
      (("h", 5) ∷ [])
      false
      []
    ≡ done (accepted encoding nothing_sent "test" (("h", 5) ∷ []) false decoded)
unfolding decode_all
process_transactions-accepted_example =
    process_transactions-accepted encoding nothing_sent "test" (λ rows w. (true, rows)) (1 ∷ 0 ∷ [])
      two_transactions decoded (("h", 5) ∷ []) false [] refl backwards-Covers

one_row : length (accepted encoding nothing_sent "test" (("h", 5) ∷ []) false decoded) ≡ 1
unfolding process_transaction lookup Tx.get_hash parse_uint event_solver
one_row = refl
