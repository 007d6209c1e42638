-- ===== src/Schema.antt =====
-- pkgs/schema: the rows of the message tables (hypertables.go), and the set of the addresses of a
-- transaction (table.go). A field is a column; a time is a number, and amounts are not negative.
-- A Go set is a list without repetitions: no theorem reads its order.
pub mod Rows
pub mod Tags
pub mod MessageTags
pub mod SpecialTypes
pub mod Tables
pub mod Partitions
pub mod Aggregates
pub mod Copy
pub mod Aligned
use spectra_gnoland_indexer.Common.{
  ℕ, String, Bool, true, false, List, [], ◌∷◌, insert_key, nat_comparable, if◌then◌else◌, ◌==◌,
}

pub record Amount : Type 0 where
  pub amount : ℕ
  pub denom : String

pub record TxAddresses : Type 0 where
  pub tx_id : ℕ
  pub addresses : List ℕ

abbrev pub new_tx_addresses : ℕ → TxAddresses
new_tx_addresses tx_id = record { tx_id = tx_id; addresses = [] }

abbrev pub add_address : ℕ → TxAddresses → TxAddresses
add_address address_id ta = record ta { addresses = insert_key address_id ta.addresses }

-- the loop over the signers
unfoldable pub add_all : List ℕ → TxAddresses → TxAddresses
add_all [] ta = ta
add_all (a ∷ rest) ta = add_all rest (add_address a ta)

abbrev pub get_address_list : TxAddresses → List ℕ
get_address_list ta = ta.addresses
