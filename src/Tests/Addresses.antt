-- ===== src/Tests/Addresses.antt =====
-- The address cache over the database in memory.
use spectra_gnoland_indexer.Common.{
  ℕ, String, ◌≡◌, refl, inl, inr, arith, true, false, none, some, List, [], ◌∷◌, lookup, put, copy,
  string_comparable,
}
use spectra_gnoland_indexer.AddressCache.{
  AddressCache, add_addresses, find_uncached, sync_existing_from_db, insert_attempts,
  insert_with_retry, fetch_and_cache_inserted, solve_uncached, address_solver, get_address,
}
use spectra_gnoland_indexer.AddressCache.Keeps.{IsConsistent, IsSound, address_solver-IsSound}
use spectra_gnoland_indexer.AddressCache.Solves.{
  ReadsSucceed, InsertsMissing, address_solver-resolves,
}
use spectra_gnoland_indexer.Tests.Memory.{
  Table, memory, select, lookup-select, fresh, find, add_row, add_rows, insert, find_rows,
  insert_rows, reliable,
}

abbrev empty : AddressCache
empty = record { address = []; highest_index = 0 }

-- the row of "g1a" is there; the first query succeeds, and two batch inserts fail
abbrev shaky : Table
shaky = record { rows = ("g1a", 7) ∷ []; outcomes = true ∷ false ∷ false ∷ [] }

abbrev asked : List String
asked = "g1a" ∷ "g1b" ∷ []

empty-IsConsistent : (t : Table) → IsConsistent memory "test" false empty t
unfolding lookup
empty-IsConsistent t addr i h = cc

address_solver-IsSound_example :
    IsSound memory "test" false empty shaky
      (address_solver memory "test" false asked 3 none empty shaky)
address_solver-IsSound_example =
    address_solver-IsSound memory "test" false asked 3 none empty shaky (empty-IsConsistent shaky)

-- the third attempt inserts
solved : get_address (address_solver memory "test" false asked 3 none empty shaky).0 "g1b" ≡ 2
unfolding get_address address_solver solve_uncached find_uncached sync_existing_from_db
    insert_with_retry insert_attempts fetch_and_cache_inserted find select insert fresh add_row
    add_rows lookup put copy add_addresses
solved = refl

abbrev rows : List (String × ℕ)
rows = ("g1a", 7) ∷ []

reliable_reads : ReadsSucceed reliable "test" false
unfolding find_rows
reliable_reads s xs = (select s xs, refl, λ addr k. ground (arith, lookup-select s xs addr))

-- "g1b" is missing, and can be inserted
missing_inserts :
    InsertsMissing reliable "test" false 3
      (sync_existing_from_db reliable "test" false empty (find_uncached empty asked) rows)
unfolding sync_existing_from_db find_uncached find_rows insert_rows select fresh lookup copy
    add_addresses put
missing_inserts = inr (inl refl)

address_solver-resolves_example :
    let (a', s') = address_solver reliable "test" false asked 3 none empty rows in
    (i : ℕ) × (lookup "g1b" a'.address ≡ some i)
    × (get_address a' "g1b" ≡ i)
    × (lookup "g1b" s' ≡ some i)
address_solver-resolves_example =
    address_solver-resolves reliable "test" false reliable_reads 3 asked empty rows missing_inserts
      (unfold lookup in λ addr i h. cc) "g1b" refl

-- the first query fails
abbrev failing : Table
failing = record { rows = []; outcomes = false ∷ [] }
