-- ===== src/AddressCache/Database.antt =====
-- What the address cache needs from the database (indexer/address_cache/types.go), as an interface.
-- The table of the chain is seen through `id_of`; a call returns the database's new state, so that
-- a later call may answer otherwise.
use spectra_gnoland_indexer.Common.{
  ℕ, String, ◌≡◌, Bool, true, Option, some, List, contains, GoMap, lookup, string_comparable,
}

pub record AddressDb : Type 1 where
  pub State : Type 0
  -- the id of an address in the table of a chain: of validators, or of other accounts
  pub id_of : State → String → Bool → String → Option ℕ
  pub find_existing_accounts : State → List String → String → Bool → Option (GoMap String ℕ) × State
  pub insert_addresses : State → List String → String → Bool → Bool × State
  pub get_all_addresses : State → String → Bool → Option (GoMap String ℕ × ℕ) × State
  -- a SELECT changes no row, whether it succeeds or not
  pub find_keeps :
      (s : State) (xs : List String) (c : String) (v : Bool) (a : String)
      → id_of (find_existing_accounts s xs c v).1 c v a ≡ id_of s c v a
  -- and gives only ids of rows; rows that it was asked for may be missing from the answer
  pub find_answers :
      (s : State) (xs : List String) (c : String) (v : Bool) (m : GoMap String ℕ) (a : String)
      (i : ℕ)
      → (find_existing_accounts s xs c v).0 ≡ some m
      → lookup a m ≡ some i
      → id_of s c v a ≡ some i
  -- a COPY changes no row that is there
  pub insert_keeps :
      (s : State) (xs : List String) (c : String) (v : Bool) (a : String) (i : ℕ)
      → id_of s c v a ≡ some i
      → id_of (insert_addresses s xs c v).1 c v a ≡ some i
  -- and if it succeeds there is a row for each of its addresses
  pub insert_adds :
      (s : State) (xs : List String) (c : String) (v : Bool) (a : String)
      → (insert_addresses s xs c v).0 ≡ true
      → contains a xs ≡ true
      → (i : ℕ) × (id_of (insert_addresses s xs c v).1 c v a ≡ some i)
  pub get_all_keeps :
      (s : State) (c : String) (v : Bool) (a : String)
      → id_of (get_all_addresses s c v).1 c v a ≡ id_of s c v a
  pub get_all_answers :
      (s : State) (c : String) (v : Bool) (m : GoMap String ℕ) (n : ℕ) (a : String) (i : ℕ)
      → (get_all_addresses s c v).0 ≡ some (m, n)
      → lookup a m ≡ some i
      → id_of s c v a ≡ some i
