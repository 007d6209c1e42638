-- ===== src/ApiKeys/Table.antt =====
-- pkgs/database/timescaledb/key_mgmt.go: the statements of the table api_keys. An UPDATE is applied
-- to the rows of the table; `executed` says whether the database could carry a statement out. A
-- result is whether the method returned no error, with the table after it.
use spectra_gnoland_indexer.Common.{
  ℕ, String, Bool, true, false, ◌||◌, Option, none, some, List, [], ◌∷◌, ◌++◌, Result, str_eq,
  same_text, if◌then◌else◌,
}
use mathlib.Core.Option
use spectra_gnoland_indexer.Timescale.{DbError}
use spectra_gnoland_indexer.Timescale.Views.{Rows, fold_answer, append_scanned}
use spectra_gnoland_indexer.Timescale.Volumes.{all_read}
use spectra_gnoland_indexer.ApiKeys.{KeyRows, fixed_bytes}

pub record ApiKey : Type 0 where
  pub prefix : String
  pub hash : List ℕ
  pub name : String
  pub rpm_limit : ℕ
  pub is_active : Bool

record KeyParams : Type 0 where
  pub rpm_limit : ℕ
  pub name : String
  pub prefix : String
  pub hash : List ℕ

record ApiKeyListItem : Type 0 where
  pub prefix : String
  pub name : String
  pub rpm_limit : ℕ
  pub is_active : Bool

-- a new key is active
unfoldable insert_api_key : Bool → KeyParams → List ApiKey → Bool × List ApiKey
insert_api_key false params table = (false, table)
insert_api_key true params table = (
  true,
  table
      ++ record {
        prefix = params.prefix;
        hash = params.hash;
        name = params.name;
        rpm_limit = params.rpm_limit;
        is_active = true;
      }
        ∷ [],
)

abbrev any_row : (ApiKey → Bool) → List ApiKey → Bool
any_row where_ [] = false
any_row where_ (k ∷ table) = where_ k || any_row where_ table

abbrev pub update : (ApiKey → Bool) → (ApiKey → ApiKey) → List ApiKey → List ApiKey
update where_ change [] = []
update where_ change (k ∷ table) = (if where_ k then change k else k) ∷ update where_ change table

-- no affected row is an error
abbrev pub exec_update :
    Bool → (ApiKey → Bool) → (ApiKey → ApiKey) → List ApiKey → Bool × List ApiKey
exec_update false where_ change table = (false, table)
exec_update true where_ change table = (any_row where_ table, update where_ change table)

abbrev pub has_name : String → ApiKey → Bool
has_name name k = str_eq k.name name

abbrev has_hash : List ℕ → ApiKey → Bool
has_hash hash k = same_text k.hash hash

abbrev pub with_active : Bool → ApiKey → ApiKey
with_active active k = record k { is_active = active }

unfoldable pub disable_key_by_name : Bool → String → List ApiKey → Bool × List ApiKey
disable_key_by_name executed name table =
    exec_update executed (has_name name) (with_active false) table

unfoldable enable_key_by_name : Bool → String → List ApiKey → Bool × List ApiKey
enable_key_by_name executed name table =
    exec_update executed (has_name name) (with_active true) table

unfoldable disable_key : Bool → List ℕ → List ApiKey → Bool × List ApiKey
disable_key executed hash table = exec_update executed (has_hash hash) (with_active false) table

unfoldable enable_key : Bool → List ℕ → List ApiKey → Bool × List ApiKey
enable_key executed hash table = exec_update executed (has_hash hash) (with_active true) table

unfoldable adjust_rpm_limit : Bool → List ℕ → ℕ → List ApiKey → Bool × List ApiKey
adjust_rpm_limit executed hash rpm_limit table =
    exec_update executed (has_hash hash) (λ k. record k { rpm_limit = rpm_limit }) table

-- the hashes, unless one cannot be scanned; whether the reading came to its
-- end is not asked
unfoldable scan_hashes : List (Option (List ℕ)) → Option (List (List ℕ))
scan_hashes [] = some []
scan_hashes (none ∷ rows) = none
scan_hashes (some hash ∷ rows) = Option.map (λ l. fixed_bytes 32 hash ∷ l) (scan_hashes rows)

unfoldable get_all_api_keys : Option (Rows (List ℕ)) → Option (List (List ℕ))
get_all_api_keys none = none
get_all_api_keys (some r) = scan_hashes r.rows

unfoldable list_api_keys : Option (Rows ApiKeyListItem) → Result DbError (List ApiKeyListItem)
list_api_keys answer = fold_answer append_scanned [] answer

-- SELECT hash, rpm_limit FROM api_keys WHERE is_active = true
abbrev pub active_keys : List ApiKey → List (List ℕ × ℕ)
active_keys [] = []
active_keys (k ∷ table) =
    let rest = active_keys table in if k.is_active then (k.hash, k.rpm_limit) ∷ rest else rest

abbrev pub key_rows : List ApiKey → KeyRows
key_rows table = record { rows = all_read (active_keys table); complete = true }
