-- ===== src/DataProcessor/Messages.antt =====
-- `ProcessTxHashIds` and `ProcessMessages` of indexer/data_processor/operator.go. The decoding of a
-- transaction is a parameter: without a result the program ends, as a panic does.
use spectra_gnoland_indexer.Common.{
  ℕ, String, Bool, true, false, ◌&&◌, Option, none, some, List, [], ◌∷◌, ◌++◌, map, length, ltb,
  ◌==◌, Outcome, done, panicked, ◌>>=◌, Result, ok, err, GoMap, lookup, copy, contains, insert_keys,
  string_comparable, nat_comparable, str_eq, if◌then◌else◌,
}
use spectra_gnoland_indexer.Rpc.Tx
use spectra_gnoland_indexer.Schema.{get_address_list}
use spectra_gnoland_indexer.Swarm.{fan_out}
use spectra_gnoland_indexer.Orchestrator.{TransactionsData}
use spectra_gnoland_indexer.Decoder.{DecodedMsg, Strings}
use spectra_gnoland_indexer.Decoder.Product.{
  DbMessages, AddressEntry, InsertBatch, merge, address_entries, insert_batches,
  collect_all_addresses, convert_to_db_messages, ConvertError,
}

pub record AddressTx : Type 0 where
  pub address : ℕ
  pub tx_id : ℕ
  pub chain_name : String
  pub timestamp : ℕ

-- the database and the address cache; `false` and `none` are errors
pub record MessageServices : Type 1 where
  pub World : Type 0
  pub insert_address_tx : List AddressTx → World → Bool × World
  pub insert_batch : InsertBatch → World → Bool × World
  pub insert_tx_hash_ids : List String → List ℕ → World → Option (GoMap String ℕ) × World
  pub solve_addresses : List String → World → World
  pub get_address : World → String → ℕ
  pub decode : String → Option DecodedMsg

pub data MessagesError : Type 0 where
  failed_to_convert : List ConvertError → MessagesError
  failed_to_insert_address_tx : MessagesError
  -- the hashes of the transactions of each batch that failed
  insertion_errors : List (List String) → MessagesError

-- what a goroutine leaves: nothing, an error, or the rows
pub data GroupResult : Type 0 where
  nothing : GroupResult
  failed : ConvertError → GroupResult
  converted : DbMessages → GroupResult

unfoldable pub conversion_errors : List GroupResult → List ConvertError
conversion_errors [] = []
conversion_errors (failed e ∷ rs) = e ∷ conversion_errors rs
conversion_errors (nothing ∷ rs) = conversion_errors rs
conversion_errors (converted m ∷ rs) = conversion_errors rs

unfoldable pub aggregated : List GroupResult → DbMessages → DbMessages
aggregated [] m = m
aggregated (converted other ∷ rs) m = aggregated rs (merge m other)
aggregated (nothing ∷ rs) m = aggregated rs m
aggregated (failed e ∷ rs) m = aggregated rs m

-- the items of two slices with the same index
abbrev pub paired {ℓ κ} : {A : Type ℓ} {B : Type κ} → List A → List B → List (A × B)
paired [] bs = []
paired (a ∷ rest) [] = []
paired (a ∷ rest) (b ∷ bs) = (a, b) ∷ paired rest bs

-- a key `(address, txId, chainName)` that is there keeps its row
abbrev pub same_key : AddressTx → AddressTx → Bool
same_key a b = (a.address == b.address) && (a.tx_id == b.tx_id) && str_eq a.chain_name b.chain_name

unfoldable pub add_unseen : AddressTx → List AddressTx → List AddressTx
add_unseen a [] = a ∷ []
add_unseen a (b ∷ seen) =
    let rest = add_unseen a seen in if same_key b a then b ∷ seen else b ∷ rest

unfoldable pub add_to_address_tx : List ℕ → ℕ → String → ℕ → List AddressTx → List AddressTx
unfolding add_unseen
add_to_address_tx [] tx_id chain_name ts seen = seen
add_to_address_tx (addr ∷ addrs) tx_id chain_name ts seen =
    add_to_address_tx addrs tx_id chain_name ts (
      add_unseen (record { address = addr; tx_id = tx_id; chain_name = chain_name; timestamp = ts })
        seen)

unfoldable pub add_entries : List AddressEntry → List AddressTx → List AddressTx
unfolding add_to_address_tx
add_entries [] seen = seen
add_entries (e ∷ es) seen = add_entries es (
    add_to_address_tx (get_address_list e.addresses) e.addresses.tx_id e.chain_name e.timestamp
      seen)

unfoldable pub create_address_tx : DbMessages → List AddressTx
unfolding add_entries
create_address_tx msgs = add_entries (address_entries msgs) []

-- the hashes of a map of ids whose id is in the list
unfoldable find_hashes : List ℕ → GoMap String ℕ → List String
find_hashes tx_ids [] = []
find_hashes tx_ids ((hash, id) ∷ m) =
    let rest = find_hashes tx_ids m in if contains id tx_ids then hash ∷ rest else rest

module _ (strings : Strings) (services : MessageServices) (chain_name : String) where
  open services use {
    World, insert_address_tx, insert_batch, insert_tx_hash_ids, solve_addresses, get_address,
    decode,
  }

  -- an error keeps the cache as it was
  abbrev pub cached : GoMap String ℕ → Option (GoMap String ℕ) × World → GoMap String ℕ × World
  cached tx_hash_cache (none, w) = (tx_hash_cache, w)
  cached tx_hash_cache (some tx_hash_ids, w) = (copy [] tx_hash_ids, w)

  unfoldable pub process_tx_hash_ids :
      List TransactionsData → GoMap String ℕ → World → GoMap String ℕ × World
  process_tx_hash_ids tx_data tx_hash_cache w = cached tx_hash_cache (
      insert_tx_hash_ids (map (λ t. Tx.get_hash (some t.response)) tx_data)
        (map (λ t. t.timestamp) tx_data) w)

  unfoldable pub transaction_decoding : List TransactionsData → Outcome (List DecodedMsg)
  transaction_decoding [] = done []
  transaction_decoding (t ∷ ts) = elim (decode t.response.result.tx) [
    | none ↦ panicked
    | some dm ↦ do dms ← transaction_decoding ts; done (dm ∷ dms)
  ]

  unfoldable pub all_addresses : List DecodedMsg → List String → List String
  all_addresses [] addresses_map = addresses_map
  all_addresses (dm ∷ dms) addresses_map =
      all_addresses dms (insert_keys (collect_all_addresses dm) addresses_map)

  abbrev group_result : Result ConvertError DbMessages → GroupResult
  group_result (err e) = failed e
  group_result (ok m) = converted m

  -- a transaction without an id is skipped
  abbrev convert_group : World → TransactionsData → DecodedMsg → Option ℕ → GroupResult
  convert_group w t dm none = nothing
  convert_group w t dm (some tx_id) = group_result (
      convert_to_db_messages strings (get_address w) tx_id chain_name t.timestamp dm
        dm.basic_data.signers)

  unfoldable pub process_message_group :
      GoMap String ℕ → World → TransactionsData × DecodedMsg → GroupResult
  process_message_group tx_hash_cache w (t, dm) =
      convert_group w t dm (lookup (Tx.get_hash (some t.response)) tx_hash_cache)

  abbrev with_error : Bool → InsertBatch → GoMap String ℕ → List (List String) → List (List String)
  with_error true batch tx_hash_cache errors = errors
  with_error false batch tx_hash_cache errors =
      errors ++ find_hashes batch.tx_ids tx_hash_cache ∷ []

  -- a batch that fails does not stop the later ones
  unfoldable pub insert_message_batches :
      GoMap String ℕ → List InsertBatch → List (List String) → World → List (List String) × World
  unfolding find_hashes
  insert_message_batches tx_hash_cache [] errors w = (errors, w)
  insert_message_batches tx_hash_cache (batch ∷ batches) errors w =
      let (inserted, w') = insert_batch batch w in
      let rest =
        insert_message_batches tx_hash_cache batches
          (with_error inserted batch tx_hash_cache errors) w' in
      let skipped = insert_message_batches tx_hash_cache batches errors w in
      if ltb 0 (length batch.rows) then rest else skipped

  abbrev insertion_result : List (List String) × World → Option MessagesError × World
  insertion_result ([], w) = (none, w)
  insertion_result (e ∷ es, w) = (some (insertion_errors (e ∷ es)), w)

  -- the address rows, then the batches
  abbrev insert_aggregated :
      GoMap String ℕ → DbMessages → Bool × World → Outcome (Option MessagesError × World)
  insert_aggregated tx_hash_cache m (false, w) = done (some failed_to_insert_address_tx, w)
  insert_aggregated tx_hash_cache m (true, w) = do
    batches ← insert_batches m
    done (insertion_result (insert_message_batches tx_hash_cache batches [] w))

  -- no insert if a conversion failed
  abbrev pub insert_results :
      GoMap String ℕ
      → List GroupResult
      → List ConvertError
      → World
      → Outcome (Option MessagesError × World)
  insert_results tx_hash_cache rs (e ∷ es) w = done (some (failed_to_convert (e ∷ es)), w)
  insert_results tx_hash_cache rs [] w =
      let m = aggregated rs [] in
      insert_aggregated tx_hash_cache m (insert_address_tx (create_address_tx m) w)

  unfoldable pub process_messages :
      List ℕ
      → List TransactionsData
      → GoMap String ℕ
      → World
      → Outcome (Option MessagesError × World)
  unfolding transaction_decoding all_addresses process_message_group conversion_errors aggregated
      insert_message_batches create_address_tx fan_out
  process_messages sched txs tx_hash_cache w = do
    dms ← transaction_decoding txs
    let addresses = all_addresses dms []
    let solved = if ltb 0 (length addresses) then solve_addresses addresses w else w
    let rs =
        fan_out (λ p. some (process_message_group tx_hash_cache solved p)) (paired txs dms) nothing
          sched
    insert_results tx_hash_cache rs (conversion_errors rs) solved
