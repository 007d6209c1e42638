-- ===== src/DbInit.antt =====
-- indexer/db_init/tables.go: the description of a table from the tags of a struct.
pub mod Statements
pub mod Versions
pub mod Described
pub mod Aggregates
pub mod Grouping
use Prim.Native.String.{◌++◌ as append}
use spectra_gnoland_indexer.Common.{
  String, Bool, true, false, not, ◌||◌, Option, none, some, List, [], ◌∷◌, ◌++◌, map, Outcome, done,
  panicked, Result, ok, err, str_eq, if◌then◌else◌,
}

-- a field of a struct: its name, and the values of its tags ("" for a tag that is not there)
pub record StructField : Type 0 where
  pub name : String
  pub exported : Bool
  pub db : String
  pub dbtype : String
  pub nullable : String
  pub primary : String
  pub unique : String

-- an exported field
abbrev pub field : String → String → String → String → String → String → StructField
field name db dbtype nullable primary unique = record {
  name = name;
  exported = true;
  db = db;
  dbtype = dbtype;
  nullable = nullable;
  primary = primary;
  unique = unique;
}

-- `none` is a nil pointer
pub record ColumnInfo : Type 0 where
  pub name : String
  pub db_type : String
  pub nullable : Option Bool
  pub primary : Option Bool
  pub unique : Option Bool
  pub default : Option String

pub record TableInfo : Type 0 where
  pub table_name : String
  pub columns : List ColumnInfo

pub record SpecialType : Type 0 where
  pub type_name : String
  pub columns : List ColumnInfo

-- the error of a field without the tag `dbtype`, and the one of a type without the tag `db`
pub data TableError : Type 0 where
  expected_struct : TableError
  missing_dbtype : String → TableError
  missing_db : String → TableError

-- what reflection says of a value: a struct with its fields, or another kind
pub data Kind : Type 0 where
  struct : List StructField → Kind
  other : Kind

abbrev pub is_untagged : StructField → Bool
is_untagged f = str_eq f.db "" || str_eq f.db "-"

abbrev pub column_info : StructField → ColumnInfo
column_info f = record {
  name = f.db;
  db_type = f.dbtype;
  nullable = some (not (str_eq f.nullable "false"));
  primary = some (str_eq f.primary "true");
  unique = some (str_eq f.unique "true");
  default = none;
}

-- `columns` is what has been appended so far
unfoldable pub columns_from :
    List StructField → List ColumnInfo → Outcome (Result TableError (List ColumnInfo))
columns_from [] columns = done (ok columns)
columns_from (f ∷ fields) columns =
    let next = columns_from fields (columns ++ column_info f ∷ []) in
    let skipped = columns_from fields columns in
    if not f.exported
    then skipped
    else if is_untagged f
    then panicked
    else if str_eq f.dbtype ""
    then done (err (missing_dbtype f.name))
    else next

abbrev table_of : String → Result TableError (List ColumnInfo) → Result TableError TableInfo
table_of table_name (ok columns) = ok (record { table_name = table_name; columns = columns })
table_of table_name (err e) = err e

abbrev described :
    String → Outcome (Result TableError (List ColumnInfo)) → Outcome (Result TableError TableInfo)
described table_name panicked = panicked
described table_name (done r) = done (table_of table_name r)

-- GetTableInfo stops the program where an exported field has no column name.
unfoldable pub get_table_info : Kind → String → Outcome (Result TableError TableInfo)
get_table_info other table_name = done (err expected_struct)
get_table_info (struct fields) table_name = described table_name (columns_from fields [])

abbrev pub special_column : StructField → ColumnInfo
special_column f = record {
  name = f.db;
  db_type = f.dbtype;
  nullable = none;
  primary = none;
  unique = none;
  default = none;
}

unfoldable pub special_columns_from :
    List StructField → List ColumnInfo → Result TableError (List ColumnInfo)
special_columns_from [] columns = ok columns
special_columns_from (f ∷ fields) columns =
    let next = special_columns_from fields (columns ++ special_column f ∷ []) in
    let skipped = special_columns_from fields columns in
    if not f.exported
    then skipped
    else if is_untagged f
    then err (missing_db f.name)
    else if str_eq f.dbtype ""
    then err (missing_dbtype f.name)
    else next

abbrev special_of : String → Result TableError (List ColumnInfo) → Result TableError SpecialType
special_of type_name (ok columns) = ok (record { type_name = type_name; columns = columns })
special_of type_name (err e) = err e

-- GetSpecialTypeInfo gives an error where GetTableInfo panics.
unfoldable pub get_special_type_info : Kind → String → Result TableError SpecialType
get_special_type_info other type_name = err expected_struct
get_special_type_info (struct fields) type_name =
    special_of type_name (special_columns_from fields [])

-- TableColumns of a row type: the tags of all its fields
unfoldable pub table_columns : List StructField → List String
table_columns fields = map (λ f. f.db) fields
