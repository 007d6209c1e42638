-- ===== src/Decoder/Product.antt =====
-- indexer/decoder/product.go: the message types and addresses of a decoded transaction, its rows,
-- and the batches that are inserted.
use spectra_gnoland_indexer.Common.{
  ℕ, suc, String, Option, none, some, List, [], ◌∷◌, ◌++◌, map, Outcome, done, panicked, ◌>>=◌,
  Result, ok, err, insert_keys, contains, string_comparable, if◌then◌else◌, ltb, GoMap, lookup, put,
}
use spectra_gnoland_indexer.Schema.{TxAddresses}
use spectra_gnoland_indexer.Schema.Rows.{Message, table_name, get_all_addresses}
use spectra_gnoland_indexer.Decoder.{StdMsg, DecodedMsg, Strings}
use spectra_gnoland_indexer.Decoder.Registry.{ConvCtx, type_name, addresses, convert}

abbrev add_type : Option String → List String × List String → List String × List String
add_type none acc = acc
add_type (some t) (msg_types, msg_set) =
    if contains t msg_set then (msg_types, msg_set) else (msg_types ++ t ∷ [], t ∷ msg_set)

unfoldable add_types : List StdMsg → List String × List String → List String × List String
add_types [] acc = acc
add_types (m ∷ ms) acc = add_types ms (add_type (type_name m) acc)

unfoldable pub get_msg_types : DecodedMsg → List String
unfolding add_types
get_msg_types dm = (add_types dm.msgs ([], [])).0

-- a message without a codec adds no addresses
unfoldable pub add_message_addresses : List StdMsg → List String → List String
add_message_addresses [] address_set = address_set
add_message_addresses (m ∷ ms) address_set =
    add_message_addresses ms (insert_keys (addresses m) address_set)

unfoldable pub collect_all_addresses : DecodedMsg → List String
unfolding add_message_addresses
collect_all_addresses dm = add_message_addresses dm.msgs (insert_keys dm.basic_data.signers [])

pub record MessageRow : Type 0 where
  pub row : Message
  pub addresses : TxAddresses
  pub chain_name : String
  pub timestamp : ℕ

abbrev pub DbMessages : Type 0
DbMessages = List MessageRow

-- `add`, for each row of one message
abbrev pub add_rows : List Message → String → ℕ → DbMessages → DbMessages
add_rows rows chain_name timestamp m =
    m
    ++ map
        (λ row. record {
          row = row;
          addresses = get_all_addresses row;
          chain_name = chain_name;
          timestamp = timestamp;
        })
        rows

abbrev pub merge : DbMessages → DbMessages → DbMessages
merge m other = m ++ other

pub record AddressEntry : Type 0 where
  pub addresses : TxAddresses
  pub chain_name : String
  pub timestamp : ℕ
  pub msg_type : String

unfoldable pub address_entries : DbMessages → List AddressEntry
address_entries m =
    map
      (λ r. record {
        addresses = r.addresses;
        chain_name = r.chain_name;
        timestamp = r.timestamp;
        msg_type = table_name r.row;
      })
      m

pub record InsertBatch : Type 0 where
  pub rows : List Message
  pub tx_ids : List ℕ

abbrev pub append_row : InsertBatch → MessageRow → InsertBatch
append_row b r = record { rows = b.rows ++ r.row ∷ []; tx_ids = b.tx_ids ++ r.addresses.tx_id ∷ [] }

abbrev pub empty_batch : InsertBatch
empty_batch = record { rows = []; tx_ids = [] }

pub record Grouped : Type 0 where
  pub by_table : GoMap String InsertBatch
  pub order : List String

-- a table that is new goes to the end of the order
abbrev pub group_row : Option InsertBatch → MessageRow → Grouped → Grouped
group_row none r g = record {
  by_table = put (table_name r.row) (append_row empty_batch r) g.by_table;
  order = g.order ++ table_name r.row ∷ [];
}
group_row (some b) r g = record g { by_table = put (table_name r.row) (append_row b r) g.by_table }

unfoldable pub group : DbMessages → Grouped → Grouped
group [] g = g
group (r ∷ rs) g = group rs (group_row (lookup (table_name r.row) g.by_table) r g)

-- `*byTable[table]` would panic on a table that is not in the map
abbrev take_batch : Option InsertBatch → Outcome InsertBatch
take_batch none = panicked
take_batch (some b) = done b

unfoldable pub take_batches : List String → GoMap String InsertBatch → Outcome (List InsertBatch)
take_batches [] by_table = done []
take_batches (t ∷ ts) by_table = do
  b ← take_batch (lookup t by_table)
  bs ← take_batches ts by_table
  done (b ∷ bs)

unfoldable pub insert_batches : DbMessages → Outcome (List InsertBatch)
unfolding group take_batches
insert_batches m =
    let g = group m (record { by_table = []; order = [] }) in take_batches g.order g.by_table

pub data ConvertError : Type 0 where
  too_many_messages : ℕ → ConvertError
  unknown_message_type : StdMsg → ConvertError

module _ (strings : Strings) (address_resolver : String → ℕ) (tx_id : ℕ) (chain_name : String)
    (timestamp : ℕ) where
  -- message `i` and the later ones
  unfoldable pub convert_from :
      List ℕ → ℕ → List StdMsg → DbMessages → Result ConvertError DbMessages
  convert_from signer_ids i [] out = ok out
  convert_from signer_ids i (m ∷ ms) out =
      let ctx : ConvCtx = record {
        tx_id = tx_id;
        chain_name = chain_name;
        timestamp = timestamp;
        resolver = address_resolver;
        signer_ids = signer_ids;
        message_counter = i;
      } in
      let rest =
        convert_from signer_ids (suc i) ms
          (add_rows (convert strings m ctx) chain_name timestamp out) in
      if ltb 32767 i
      then err (too_many_messages i)
      else elim (type_name m) [ none ↦ err (unknown_message_type m) | some t ↦ rest ]

  unfoldable pub convert_to_db_messages : DecodedMsg → List String → Result ConvertError DbMessages
  unfolding convert_from
  convert_to_db_messages dm signers = convert_from (map address_resolver signers) 0 dm.msgs []
