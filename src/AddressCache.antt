-- ===== src/AddressCache.antt =====
-- indexer/address_cache: the cache of the ids that the database gave to addresses.
-- The database is a parameter: its state is passed on explicitly, each call may fail, and the laws
-- say what PostgreSQL documents of a SELECT and of a COPY that fails as a whole. A cache serves one
-- chain and one table, as each `AddressCache` of the program does. Ids are int32 and not negative.
pub mod Database
pub mod Keeps
pub mod Solves
use spectra_gnoland_indexer.Common.{
  ℕ, zero, suc, ◌+◌, String, Bool, true, false, Option, none, some, List, [], ◌∷◌, GoMap, lookup,
  copy, string_comparable, if◌then◌else◌,
}
use Database.{AddressDb}

pub record AddressCache : Type 0 where
  pub address : GoMap String ℕ
  pub highest_index : ℕ

unfoldable pub add_addresses : AddressCache → GoMap String ℕ → AddressCache
add_addresses a new_addresses = record a { address = copy a.address new_addresses }

-- the subset of addresses not present in the cache
unfoldable pub find_uncached : AddressCache → List String → List String
find_uncached a [] = []
find_uncached a (addr ∷ addresses) = elim (lookup addr a.address) [
  | none ↦ addr ∷ find_uncached a addresses
  | some _ ↦ find_uncached a addresses
]

-- 0 if the address is not in the cache
unfoldable pub get_address : AddressCache → String → ℕ
get_address a addr = elim (lookup addr a.address) [ none ↦ 0 | some id ↦ id ]

module _ (db : AddressDb) (chain_name : String) (validators : Bool) where
  open db use {State, find_existing_accounts, insert_addresses, get_all_addresses}

  abbrev pub loaded : Option (GoMap String ℕ × ℕ) × State → Option AddressCache × State
  loaded (none, s) = (none, s)
  loaded (some (addresses, max_index), s) =
      (some (record { address = addresses; highest_index = max_index }), s)

  -- `none` is the fatal error that closes the program
  unfoldable pub new_address_cache : State → Option AddressCache × State
  new_address_cache s = loaded (get_all_addresses s chain_name validators)

  -- the addresses that still need to be inserted; an error of the query leaves none
  abbrev pub synced :
      AddressCache
      → List String
      → Option (GoMap String ℕ) × State
      → List String × AddressCache × State
  synced a addresses (none, s) = ([], a, s)
  synced a addresses (some existing, s) =
      (find_uncached (add_addresses a existing) addresses, add_addresses a existing, s)

  unfoldable pub sync_existing_from_db :
      AddressCache → List String → State → List String × AddressCache × State
  unfolding find_uncached add_addresses
  sync_existing_from_db a addresses s =
      synced a addresses (find_existing_accounts s addresses chain_name validators)

  -- failures are logged, and the loop goes on
  unfoldable pub insert_one_by_one : List String → State → State
  insert_one_by_one [] s = s
  insert_one_by_one (addr ∷ addresses) s =
      insert_one_by_one addresses (insert_addresses s (addr ∷ []) chain_name validators).1

  -- `i == retryAttempts-1` when no attempt is left
  abbrev pub fall_back : ℕ → List String → Option Bool → State → State
  fall_back zero addresses (some true) s = insert_one_by_one addresses s
  fall_back _ addresses _ s = s

  -- the attempts that are left; the last one may fall back to single inserts
  unfoldable pub insert_attempts : ℕ → List String → Option Bool → State → State
  insert_attempts zero addresses one_by_one s = s
  insert_attempts (suc left) addresses one_by_one s =
      let (inserted, s') = insert_addresses s addresses chain_name validators in
      elim inserted [
        | true ↦ s'
        | false ↦ insert_attempts left addresses one_by_one (fall_back left addresses one_by_one s')
      ]

  unfoldable pub insert_with_retry : List String → ℕ → Option Bool → State → State
  insert_with_retry [] retry_attempts one_by_one s = s
  insert_with_retry (addr ∷ addresses) retry_attempts one_by_one s =
      insert_attempts retry_attempts (addr ∷ addresses) one_by_one s

  abbrev pub fetched : AddressCache → Option (GoMap String ℕ) × State → AddressCache × State
  fetched a (none, s) = (a, s)
  fetched a (some new_addr_map, s) = (add_addresses a new_addr_map, s)

  unfoldable pub fetch_and_cache_inserted :
      List String → AddressCache → State → AddressCache × State
  unfolding add_addresses
  fetch_and_cache_inserted [] a s = (a, s)
  fetch_and_cache_inserted (addr ∷ addresses) a s =
      fetched a (find_existing_accounts s (addr ∷ addresses) chain_name validators)

  -- the rest of `AddressSolver`, for the addresses that the cache lacks
  unfoldable pub solve_uncached :
      ℕ → Option Bool → AddressCache → List String → State → AddressCache × State
  solve_uncached retry_attempts one_by_one a [] s = (a, s)
  solve_uncached retry_attempts one_by_one a (addr ∷ rest) s =
      let (address_to_add, a', s') = sync_existing_from_db a (addr ∷ rest) s in
      fetch_and_cache_inserted address_to_add a'
        (insert_with_retry address_to_add retry_attempts one_by_one s')

  unfoldable pub address_solver :
      List String → ℕ → Option Bool → AddressCache → State → AddressCache × State
  address_solver address retry_attempts one_by_one a s =
      solve_uncached retry_attempts one_by_one a (find_uncached a address) s
