-- ===== src/Tests/Decoded.antt =====
-- A transaction whose text is that of its type of message, and which amino knows.
use spectra_gnoland_indexer.Common.{
  ℕ, zero, suc, ◌<◌, ◌++◌, length, replicate, length-replicate, done, leb, lookup,
  string_comparable, arith, String, ◌≡◌, refl, true, false, none, some, List, [], ◌∷◌, panicked, ok,
  codes,
}
use spectra_gnoland_indexer.Decoder.{StdMsg, unregistered, DecodedMsg}
use spectra_gnoland_indexer.Decoder.Registry.{type_name}
use spectra_gnoland_indexer.Decoder.Product.{add_rows, convert_to_db_messages}
use spectra_gnoland_indexer.Decoder.Converts.{all_rows}
use spectra_gnoland_indexer.Decoder.Decoding.{
  Amino, StdTx, all_supported, decode_std_tx_from_base64, get_message_from_std_tx, new_decoded_msg,
}
use spectra_gnoland_indexer.Decoder.Supported.{convert_to_db_messages-decoded}
use spectra_gnoland_indexer.DataProcessor.Messages.{
  MessageServices, process_messages, transaction_decoding, failed_to_convert,
}
use spectra_gnoland_indexer.DataProcessor.Aborts.{
  too_long, resolved, process_messages_unconvertible,
}
use spectra_gnoland_indexer.DataProcessor.Transactions.{process_transactions}
use spectra_gnoland_indexer.DataProcessor.Unsupported.{process_unsupported}
use spectra_gnoland_indexer.Tests.Processing.{transaction, strings, resolver, message, one-Covers}
use spectra_gnoland_indexer.Tests.Transactions.{encoding}

abbrev std_tx : List StdMsg → StdTx
std_tx msgs = record {
  msgs = msgs;
  gas_fee = record { amount = 1; denom = "ugnot" };
  signers = "g1a" ∷ [];
  memo = "";
}

abbrev amino : List StdMsg → Amino
amino msgs = record {
  decode_string = λ s. some (codes s);
  unmarshal = λ bz. some (std_tx msgs);
  sum256 = λ bz. bz;
}

abbrev decoded : DecodedMsg
decoded = record {
  basic_data = record {
    tx_hash = codes "AA==";
    signers = "g1a" ∷ [];
    memo = "";
    fee = record { amount = 1; denom = "ugnot" };
    total_msg_count = 1;
  };
  msgs = message ∷ [];
}

convert_to_db_messages-decoded_example :
    convert_to_db_messages strings resolver 5 "test" 3 decoded ("g1a" ∷ [])
    ≡ ok (add_rows (all_rows strings resolver 5 "test" 3 (7 ∷ []) 0 (message ∷ [])) "test" 3 [])
unfolding new_decoded_msg get_message_from_std_tx decode_std_tx_from_base64 all_supported type_name
convert_to_db_messages-decoded_example =
    convert_to_db_messages-decoded strings resolver 5 "test" 3 (amino (message ∷ [])) "AA==" decoded
      ("g1a" ∷ []) refl

abbrev burn : StdMsg
burn = unregistered "bank.MsgBurn"

abbrev services : MessageServices
services = record {
  World = List String;
  insert_address_tx = λ rows w. (true, w);
  insert_batch = λ b w. (true, w);
  insert_tx_hash_ids = λ hashes times w. (none, w);
  solve_addresses = λ asked w. w;
  get_address = λ w a. resolver a;
  decode = new_decoded_msg (amino (message ∷ burn ∷ []));
}

process_unsupported_example :
    (process_messages strings services "test" [] (transaction ∷ []) [] [] ≡ panicked)
    × (process_transactions encoding
          (new_decoded_msg (amino (message ∷ burn ∷ [])))
          "test"
          {W = String}
          (λ rows w. (true, w))
          []
          (transaction ∷ [])
          []
          false
          "inserted"
        ≡ panicked)
unfolding decode_std_tx_from_base64 type_name
process_unsupported_example =
    process_unsupported (amino (message ∷ burn ∷ [])) strings services "test" {World = String}
      encoding (λ rows w. (true, w)) [] (transaction ∷ []) [] false [] "inserted" 0 1 transaction
      (std_tx (message ∷ burn ∷ [])) burn (λ s. refl) refl refl refl refl

-- one message more than an int16 numbers
abbrev many : ℕ → List StdMsg
many n = replicate n message

abbrev long : ℕ → DecodedMsg
long n = record {
  basic_data = record {
    tx_hash = codes "";
    signers = "g1a" ∷ [];
    memo = "";
    fee = record { amount = 1; denom = "ugnot" };
    total_msg_count = length (many n);
  };
  msgs = many n;
}

abbrev long_services : ℕ → MessageServices
long_services n = record {
  World = List String;
  insert_address_tx = λ rows w. (true, w ++ "address_tx" ∷ []);
  insert_batch = λ b w. (true, w ++ "batch" ∷ []);
  insert_tx_hash_ids = λ hashes times w. (none, w);
  solve_addresses = λ asked w. w ++ asked;
  get_address = λ w a. resolver a;
  decode = new_decoded_msg (amino (many n));
}

many-all_supported : (n : ℕ) → all_supported (many n) ≡ true
unfolding all_supported type_name
many-all_supported zero = refl
many-all_supported (suc n) = rw (many-all_supported n)

new_decoded_msg-long : (n : ℕ) → new_decoded_msg (amino (many n)) "" ≡ some (long n)
unfolding new_decoded_msg get_message_from_std_tx decode_std_tx_from_base64
new_decoded_msg-long n = rw (many-all_supported n)

long_decoded :
    (n : ℕ)
    → transaction_decoding strings (long_services n) "test" (transaction ∷ []) ≡ done (long n ∷ [])
unfolding transaction_decoding
long_decoded n = rw (new_decoded_msg-long n, transaction_decoding)

long_fails :
    (n : ℕ)
    → 32768 < n
    → 0
      < length
          (too_long strings (long_services n) "test" (("h", 5) ∷ []) ((transaction, long n) ∷ []))
unfolding lookup
long_fails n h =
    let size = length-replicate n message in
    let test : leb n 32768 ≡ false = ground arith in rw (size, test) (omega arith)

process_messages_unconvertible_example :
    process_messages strings
      (long_services 32769)
      "test"
      (0 ∷ [])
      (transaction ∷ [])
      (("h", 5) ∷ [])
      []
    ≡ done (
      some (
          failed_to_convert (
            too_long strings
              (long_services 32769)
              "test"
              (("h", 5) ∷ [])
              ((transaction, long 32769) ∷ []))),
      resolved strings (long_services 32769) "test" (long 32769 ∷ []) [],
    )
process_messages_unconvertible_example =
    process_messages_unconvertible strings (long_services 32769) "test" (amino (many 32769))
      (0 ∷ []) (transaction ∷ []) (long 32769 ∷ []) (("h", 5) ∷ []) [] (λ s. refl)
      (long_decoded 32769) one-Covers (long_fails 32769 (omega arith))
