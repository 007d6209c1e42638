-- ===== src/Tests/Processing.antt =====
-- The decoder and the data processor over small transactions and blocks.

use spectra_gnoland_indexer.Common.{
  ℕ, zero, suc, ◌≡◌, refl, String, true, Option, none, some, List, [], ◌∷◌, map, length, done, ok,
  arith, contains, string_comparable, nat_comparable, str_eq, if◌then◌else◌,
}
use spectra_gnoland_indexer.Rpc.{BlockResponse, CommitResponse}
use spectra_gnoland_indexer.Swarm.{Covers}
use spectra_gnoland_indexer.Orchestrator.{TransactionsData}
use spectra_gnoland_indexer.Decoder.{StdMsg, DecodedMsg, Strings, send}
use spectra_gnoland_indexer.Decoder.Registry.{type_name}
use spectra_gnoland_indexer.Decoder.Product.{
  DbMessages, add_rows, empty_batch, collect_all_addresses, convert_to_db_messages, insert_batches,
}
use spectra_gnoland_indexer.Decoder.Converts.{all_rows, convert_to_db_messages-rows}
use spectra_gnoland_indexer.Decoder.Resolves.{IsResolved, convert_to_db_messages-IsResolved}
use spectra_gnoland_indexer.Decoder.Batches.{rows_of, tables, insert_batches-tables}
use spectra_gnoland_indexer.DataProcessor.{
  Base64, Services, Blocks, ValidatorBlockSigning, process_validator_addresses, process_blocks,
}
use spectra_gnoland_indexer.DataProcessor.Inserts.{
  takes_part, block_row, process_validator_addresses-takes_part, process_blocks-rows,
}
use spectra_gnoland_indexer.Tests.Orchestration.{block, tx}

abbrev pub strings : Strings
strings = record { sanitize_utf8 = λ s. s; join = λ xs sep. sep }

abbrev pub resolver : String → ℕ
resolver a = if str_eq a "g1a" then 7 else 9

abbrev pub message : StdMsg
message = send (record { from_address = "g1a"; to_address = "g1b"; amount = [] })

abbrev pub with_messages : List StdMsg → DecodedMsg
with_messages ms = record {
  basic_data = record {
    signers = "g1a" ∷ [];
    memo = "";
    fee = record { amount = 1; denom = "ugnot" };
    tx_hash = [];
    total_msg_count = length ms;
  };
  msgs = ms;
}

abbrev sent : DecodedMsg
sent = with_messages (message ∷ message ∷ [])

abbrev pub sent_rows : DbMessages
sent_rows =
    add_rows (all_rows strings resolver 5 "test" 3 (7 ∷ []) 0 (message ∷ message ∷ [])) "test" 3 []

sent_converted : convert_to_db_messages strings resolver 5 "test" 3 sent ("g1a" ∷ []) ≡ ok sent_rows
sent_converted =
    convert_to_db_messages-rows strings resolver 5 "test" 3 sent ("g1a" ∷ [])
      (unfold type_name in ((_, refl), ((_, refl), tt))) (omega arith)

convert_to_db_messages-IsResolved_example :
    IsResolved (collect_all_addresses sent) resolver sent_rows
convert_to_db_messages-IsResolved_example =
    convert_to_db_messages-IsResolved strings resolver 5 "test" 3 sent sent_rows sent_converted

insert_batches-tables_example :
    insert_batches sent_rows
    ≡ done (map (λ t. rows_of t sent_rows empty_batch) (tables sent_rows []))
insert_batches-tables_example = insert_batches-tables sent_rows

abbrev base64 : Base64
base64 = record { Bytes = String; nil_bytes = ""; decode_string = some }

-- the world is what was inserted
abbrev services : Services String
services = record {
  World = List (Blocks String) × List ValidatorBlockSigning × List String;
  insert_blocks = λ rows w. (true, (rows, w.1, w.2));
  insert_signings = λ rows w. (true, (w.0, rows, w.2));
  solve_validators = λ asked w. (w.0, w.1, asked);
  get_validator = λ w a. resolver a;
}

abbrev blocks : List BlockResponse
blocks = block "7" [] ∷ block "x" [] ∷ []

pub backwards-Covers : Covers 2 (1 ∷ 0 ∷ [])
backwards-Covers zero h = refl
backwards-Covers (suc zero) h = refl
backwards-Covers (suc (suc i)) h = absurd (omega arith)

process_validator_addresses-takes_part_example :
    (asked : List String) × (process_validator_addresses base64 services "test"
        (map some blocks)
        ([], [], [])
      ≡ done ([], [], asked))
    × ((a : String) → contains a asked ≡ takes_part a blocks)
process_validator_addresses-takes_part_example =
    process_validator_addresses-takes_part base64 services "test" blocks ([], [], [])

process_blocks-rows_example :
    process_blocks base64 services "test" (1 ∷ 0 ∷ []) (map some blocks) ([], [], [])
    ≡ done (map (block_row base64 services "test") blocks, [], [])
process_blocks-rows_example =
    process_blocks-rows base64 services "test" blocks (1 ∷ 0 ∷ []) ([], [], []) backwards-Covers

abbrev commits : List (Option CommitResponse)
commits =
    none
    ∷ some (record {
      error = none;
      result = record {
        signed_header = record {
          header = record { chain_id = "test"; height = "7"; time = 5; proposer_address = "g1a" };
          commit = record { precommits = some (record { validator_address = "g1b" }) ∷ none ∷ [] };
        };
      };
    })
    ∷ []

abbrev pub transaction : TransactionsData
transaction = record { response = tx "h"; timestamp = 5; block_height = 7 }

pub one-Covers : Covers 1 (0 ∷ [])
one-Covers zero h = refl
one-Covers (suc i) h = absurd (omega arith)
