-- ===== src/Schema/Partitions.antt =====
-- What TimescaleDB asks of the hypertables of pkgs/schema/table.go.
use spectra_gnoland_indexer.Common.{
  ℕ, String, ◌≡◌, refl, Bool, true, false, ◌&&◌, some, List, [], ◌∷◌, get_elem?, all_pass,
  get_elem?-all_pass, contains, string_comparable, Outcome, done, panicked, Result, ok, err,
}
use spectra_gnoland_indexer.DbInit.{
  ColumnInfo, TableInfo, struct, get_table_info, columns_from, TableError,
}
use spectra_gnoland_indexer.DbInit.Statements.{marked}
use spectra_gnoland_indexer.Schema.Tables.{Hypertable, hypertables}

abbrev names : List ColumnInfo → List String
names [] = []
names (c ∷ columns) = c.name ∷ names columns

-- a key that is not empty holds the column
abbrev key_holds : String → List String → Bool
key_holds column [] = true
key_holds column (k ∷ keys) = contains column (k ∷ keys)

abbrev all_in : List String → List String → Bool
all_in [] columns = true
all_in (s ∷ rest) columns = contains s columns && all_in rest columns

-- the partition column stands in the primary key and in a unique key, and the table has the columns
-- that it is segmented by
abbrev fits : Hypertable → List ColumnInfo → Bool
fits h columns =
    contains h.params.partition_column (marked (λ c. c.primary) columns)
    && key_holds h.params.partition_column (marked (λ c. c.unique) columns)
    && all_in h.params.segment_by (names columns)

abbrev is_partitioned_by : Hypertable → Outcome (Result TableError TableInfo) → Bool
is_partitioned_by h panicked = false
is_partitioned_by h (done (err e)) = false
is_partitioned_by h (done (ok info)) = fits h info.columns

abbrev is_partitioned : Hypertable → Bool
is_partitioned h = is_partitioned_by h (get_table_info (struct h.table.fields) h.table.table_name)

whole : all_pass is_partitioned hypertables ≡ true
unfolding hypertables get_table_info columns_from marked
whole = refl

-- GetTableInfo describes every hypertable without an error, and as TimescaleDB asks: the partition
-- column stands in its primary key and in its unique key, if it has one, and the columns that it is
-- segmented by are columns of the table.
hypertables-is_partitioned :
    (i : ℕ) (h : Hypertable) → get_elem? hypertables i ≡ some h → is_partitioned h ≡ true
hypertables-is_partitioned i h p = get_elem?-all_pass is_partitioned hypertables i h whole p
