-- ===== src/Timescale/Inserts.antt =====
-- pkgs/database/timescaledb/insert.go: the inserts of the indexer. A command of COPY, and the
-- query that inserts hashes, are sent to the database by a parameter; base64 is a parameter.

use spectra_gnoland_indexer.Common.{
  ℕ, String, Bool, true, not, ◌||◌, Option, none, some, List, [], ◌∷◌, map, length, GoMap, put,
  string_comparable, if◌then◌else◌, ◌==◌,
}
use spectra_gnoland_indexer.Schema.Rows.{table_name}
use spectra_gnoland_indexer.Schema.Copy.{
  Value, Insertable, block, signing, transaction, address_tx, message, copy_row, text,
}
use spectra_gnoland_indexer.DbInit.{table_columns}
use spectra_gnoland_indexer.Schema.Aligned.{struct_fields}

pub record CopyCommand (Bytes : Type 0) : Type 0 where
  pub table : String
  pub columns : List String
  pub rows : List (List (Value Bytes))

module _ {Bytes : Type 0} where
  -- `TableName` of the row's type
  abbrev row_table : Insertable Bytes → String
  row_table (block r) = "blocks"
  row_table (signing r) = "validator_block_signing"
  row_table (transaction r) = "transaction_general"
  row_table (address_tx r) = "address_tx"
  row_table (message r) = table_name r

-- `copy_from` says whether the command succeeded
module _ {Bytes World : Type 0} (copy_from : CopyCommand Bytes → World → Bool × World) where
  unfoldable pub insert_addresses : List String → String → Bool → World → Bool × World
  insert_addresses addresses chain_name insert_validators w =
      copy_from
        (record {
          table = if insert_validators then "gno_validators" else "gno_addresses";
          columns = "address" ∷ "chain_name" ∷ [];
          rows = map (λ a. text a ∷ text chain_name ∷ []) addresses;
        })
        w

  -- the table and the columns are those of the first row
  unfoldable pub insert_rows : List (Insertable Bytes) → World → Bool × World
  insert_rows [] w = (true, w)
  insert_rows (row ∷ rows) w =
      copy_from
        (record {
          table = row_table row;
          columns = table_columns (struct_fields row);
          rows = map copy_row (row ∷ rows);
        })
        w

-- the rows (tx_hash, tx_id) that are read, each `none` if it could not be scanned, and whether the
-- reading came to its end
pub record TxIdRows : Type 0 where
  pub rows : List (Option (List ℕ × ℕ))
  pub complete : Bool

pub record HashTexts : Type 0 where
  pub decode_string : String → Option (List ℕ)
  pub encode_to_string : List ℕ → String

module _ (base64 : HashTexts) where
  open base64 use {decode_string, encode_to_string}

  abbrev decoded_before : Option (List ℕ) → Option (List (List ℕ)) → Option (List (List ℕ))
  decoded_before none rest = none
  decoded_before (some bytes) none = none
  decoded_before (some bytes) (some rest) = some (bytes ∷ rest)

  -- the first hash that is no base64 is an error
  unfoldable pub decode_hashes : List String → Option (List (List ℕ))
  decode_hashes [] = some []
  decode_hashes (hash ∷ hashes) = decoded_before (decode_string hash) (decode_hashes hashes)

  unfoldable pub scan_ids : List (Option (List ℕ × ℕ)) → GoMap String ℕ → Option (GoMap String ℕ)
  scan_ids [] ids = some ids
  scan_ids (none ∷ rows) ids = none
  scan_ids (some (tx_hash, tx_id) ∷ rows) ids =
      scan_ids rows (put (encode_to_string tx_hash) tx_id ids)

  abbrev ids_of : Option TxIdRows → Option (GoMap String ℕ)
  ids_of none = none
  ids_of (some r) = if r.complete then scan_ids r.rows [] else none

  module _ {World : Type 0}
      (query : List (List ℕ) → List ℕ → String → World → Option TxIdRows × World) where
    abbrev inserted_hashes :
        Option (List (List ℕ)) → List ℕ → String → World → Option (GoMap String ℕ) × World
    inserted_hashes none timestamps chain_name w = (none, w)
    inserted_hashes (some bytes) timestamps chain_name w =
        let (answer, after) = query bytes timestamps chain_name w in (ids_of answer, after)

    -- `none` for an error
    unfoldable pub insert_tx_hash_ids :
        List String → List ℕ → String → World → Option (GoMap String ℕ) × World
    insert_tx_hash_ids tx_hashes timestamps chain_name w =
        let inserted = inserted_hashes (decode_hashes tx_hashes) timestamps chain_name w in
        if length tx_hashes == 0 || length timestamps == 0
        then (none, w)
        else if not (length tx_hashes == length timestamps)
        then (none, w)
        else inserted
