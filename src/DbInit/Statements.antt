-- ===== src/DbInit/Statements.antt =====
-- indexer/db_init/tables.go: the SQL statements, and running them.
use Prim.Native.String.{◌++◌ as append}
use spectra_gnoland_indexer.Common.{
  String, Bool, true, false, Option, none, some, List, [], ◌∷◌, map, Outcome, done, panicked,
  Result, ok, err, str_eq, if◌then◌else◌,
}
use spectra_gnoland_indexer.DbInit.{
  ColumnInfo, TableInfo, SpecialType, TableError, Kind, get_table_info, get_special_type_info,
}

-- strings.Join
unfoldable pub join : String → List String → String
join sep [] = ""
join sep (s ∷ []) = s
join sep (s ∷ t ∷ rest) = append s (append sep (join sep (t ∷ rest)))

-- the pieces of a text one after the other
abbrev pub concat : List String → String
concat [] = ""
concat (s ∷ rest) = append s (concat rest)

abbrev null_constraint : Option Bool → String
null_constraint none = ""
null_constraint (some false) = " NOT NULL"
null_constraint (some true) = " NULL"

abbrev default_clause : Option String → String
default_clause none = ""
default_clause (some value) = append " DEFAULT " value

abbrev is_true : Option Bool → Bool
is_true none = false
is_true (some b) = b

-- the names of the columns that a flag marks, in order
unfoldable pub marked : (ColumnInfo → Option Bool) → List ColumnInfo → List String
marked flag [] = []
marked flag (c ∷ columns) =
    let rest = marked flag columns in if is_true (flag c) then c.name ∷ rest else rest

abbrev column_def : ColumnInfo → String
column_def c = concat (c.name ∷ " " ∷ c.db_type ∷ null_constraint c.nullable ∷ [])

-- a list of keys, if there are any
abbrev key_clause : String → List String → String
key_clause keyword [] = ""
key_clause keyword (k ∷ keys) =
    concat (",\n    " ∷ keyword ∷ " (" ∷ join ", " (k ∷ keys) ∷ ")" ∷ [])

abbrev create_table : String → List String → List ColumnInfo → String
create_table table_name defs columns = concat (
    "CREATE TABLE IF NOT EXISTS "
    ∷ table_name
    ∷ " (\n    "
    ∷ join ",\n    " defs
    ∷ key_clause "PRIMARY KEY" (marked (λ c. c.primary) columns)
    ∷ key_clause "UNIQUE" (marked (λ c. c.unique) columns)
    ∷ [])

unfoldable pub generate_create_table_sql : TableInfo → String
generate_create_table_sql info =
    append
      (create_table info.table_name
        (map (λ c. append (column_def c) (default_clause c.default)) info.columns) info.columns)
      "\n);"

pub record HypertableParams : Type 0 where
  pub chunk_interval : String
  pub partition_column : String
  pub order_by : String
  pub segment_by : List String

-- a hypertable has no defaults
unfoldable pub generate_create_hypertable_sql : TableInfo → HypertableParams → String
generate_create_hypertable_sql info params = concat (
    create_table info.table_name (map column_def info.columns) info.columns
    ∷ "\n) WITH (\n    tsdb.hypertable,\n    tsdb.partition_column='"
    ∷ params.partition_column
    ∷ "',\n    tsdb.chunk_interval='"
    ∷ params.chunk_interval
    ∷ "',\n    tsdb.orderby='"
    ∷ params.order_by
    ∷ "',\n    tsdb.segmentby='"
    ∷ join ", " params.segment_by
    ∷ "'\n);"
    ∷ [])

unfoldable pub generate_special_type_sql : SpecialType → String
generate_special_type_sql special = concat (
    "CREATE TYPE "
    ∷ special.type_name
    ∷ " AS (\n    "
    ∷ join ",\n    " (map (λ c. concat (c.name ∷ " " ∷ c.db_type ∷ [])) special.columns)
    ∷ "\n);"
    ∷ [])

-- one GRANT for each table
abbrev pub grants : String → String → List String → String
grants rights user_name [] = ""
grants rights user_name (t ∷ tables) =
    append (concat ("GRANT " ∷ rights ∷ " ON TABLE " ∷ t ∷ " TO " ∷ user_name ∷ ";\n" ∷ []))
      (grants rights user_name tables)

-- `none` for a privilege that is not known
unfoldable pub privileges_sql : String → String → List String → Option String
privileges_sql user_name privilege tables =
    if str_eq privilege "reader"
    then some (grants "SELECT" user_name tables)
    else if str_eq privilege "writer"
    then some (grants "SELECT, INSERT, UPDATE" user_name tables)
    else if str_eq privilege "keymgr"
    then some (grants "SELECT, INSERT, UPDATE" user_name ("api_keys" ∷ []))
    else none

-- `exec` runs a statement on the database: whether it succeeded, and the database after it
module _ {World : Type 0} (exec : String → World → Bool × World) where
  abbrev exec_table : Outcome (Result TableError TableInfo) → World → Outcome (Bool × World)
  exec_table panicked w = panicked
  exec_table (done (err e)) w = done (false, w)
  exec_table (done (ok info)) w = done (exec (generate_create_table_sql info) w)

  -- `false` is an error
  unfoldable pub create_table_from_struct : Kind → String → World → Outcome (Bool × World)
  create_table_from_struct kind table_name w = exec_table (get_table_info kind table_name) w

  abbrev exec_special : Result TableError SpecialType → World → Bool × World
  exec_special (err e) w = (false, w)
  exec_special (ok special) w = exec (generate_special_type_sql special) w

  unfoldable pub create_special_type_from_struct : Kind → String → World → Bool × World
  create_special_type_from_struct kind type_name w =
      exec_special (get_special_type_info kind type_name) w

  -- the loop over the chain names, which ends at the first error
  unfoldable pub add_values : List String → Bool × World → Bool × World
  add_values values (false, w) = (false, w)
  add_values [] (true, w) = (true, w)
  add_values (v ∷ values) (true, w) =
      add_values values (exec (concat ("ALTER TYPE chain_name ADD VALUE '" ∷ v ∷ "'" ∷ [])) w)

  unfoldable pub create_chain_type_enum : List String → World → Bool × World
  create_chain_type_enum values w = add_values values (exec "CREATE TYPE chain_name AS ENUM ()\n" w)

  unfoldable pub appoint_privileges : String → String → List String → World → Bool × World
  appoint_privileges user_name privilege tables w =
      elim (privileges_sql user_name privilege tables) [ none ↦ (false, w) | some sql ↦ exec sql w ]
