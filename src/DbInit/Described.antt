-- ===== src/DbInit/Described.antt =====
-- What `GetTableInfo` and `GetSpecialTypeInfo` of indexer/db_init/tables.go give.
use mathlib.Core.List.{append_assoc, append-nil}
use spectra_gnoland_indexer.Common.{
  String, ◌≡◌, refl, ap, ◌∙◌, sym, true, false, List, [], ◌∷◌, ◌++◌, map, done, panicked, ok, err,
  str_eq,
}
use spectra_gnoland_indexer.DbInit.{
  StructField, ColumnInfo, TableInfo, struct, is_untagged, column_info, special_column,
  columns_from, special_columns_from, get_table_info, get_special_type_info, table_columns,
  missing_db,
}

-- the field is exported and has a column name and a column type
abbrev IsTagged : StructField → Type 0
IsTagged f = (f.exported ≡ true) × (is_untagged f ≡ false) × (str_eq f.dbtype "" ≡ false)

abbrev pub AllTagged : List StructField → Type 0
AllTagged [] = Unit
AllTagged (f ∷ fields) = IsTagged f × AllTagged fields

columns_from-append :
    (pre post : List StructField) (columns : List ColumnInfo)
    → AllTagged pre
    → columns_from (pre ++ post) columns ≡ columns_from post (columns ++ map column_info pre)
unfolding columns_from
columns_from-append [] post columns h = rw (append-nil columns)
columns_from-append (f ∷ pre) post columns ((x, u, t), hs) =
    rw (x, u, t)
      (columns_from-append pre post (columns ++ column_info f ∷ []) hs
        ∙ ap (columns_from post) (append_assoc columns (column_info f ∷ []) (map column_info pre)))

special_columns_from-append :
    (pre post : List StructField) (columns : List ColumnInfo)
    → AllTagged pre
    → special_columns_from (pre ++ post) columns
      ≡ special_columns_from post (columns ++ map special_column pre)
unfolding special_columns_from
special_columns_from-append [] post columns h = rw (append-nil columns)
special_columns_from-append (f ∷ pre) post columns ((x, u, t), hs) =
    rw (x, u, t)
      (special_columns_from-append pre post (columns ++ special_column f ∷ []) hs
        ∙ ap (special_columns_from post)
            (append_assoc columns (special_column f ∷ []) (map special_column pre)))

pub columns_from-all :
    (fields : List StructField)
    → AllTagged fields
    → columns_from fields [] ≡ done (ok (map column_info fields))
columns_from-all fields h =
    ap (λ fs. columns_from fs []) (sym (append-nil fields))
    ∙ columns_from-append fields [] [] h
    ∙ (unfold columns_from in refl)

pub special_columns_from-all :
    (fields : List StructField)
    → AllTagged fields
    → special_columns_from fields [] ≡ ok (map special_column fields)
special_columns_from-all fields h =
    ap (λ fs. special_columns_from fs []) (sym (append-nil fields))
    ∙ special_columns_from-append fields [] [] h
    ∙ (unfold special_columns_from in refl)

column_info-names :
    (fields : List StructField) → map (λ c. c.name) (map column_info fields) ≡ table_columns fields
unfolding table_columns
column_info-names [] = refl
column_info-names (f ∷ fields) = ap (◌∷◌ f.db) (unfold table_columns in column_info-names fields)

-- If every field of a struct is exported and has a column name and a column type, GetTableInfo
-- gives a table of the given name, whose columns are those of TableColumns, in the same order.
get_table_info-table_columns :
    (fields : List StructField) (table_name : String)
    → AllTagged fields
    → (info : TableInfo) × (get_table_info (struct fields) table_name ≡ done (ok info))
      × (info.table_name ≡ table_name)
      × (map (λ c. c.name) info.columns ≡ table_columns fields)
unfolding get_table_info
get_table_info-table_columns fields table_name h = (
  record { table_name = table_name; columns = map column_info fields },
  rw (columns_from-all fields h),
  refl,
  column_info-names fields,
)

-- An exported field without a column name, after fields that have all tags, ends the program in
-- GetTableInfo, and is an error of GetSpecialTypeInfo, whatever fields follow.
get_table_info_untagged :
    (pre post : List StructField) (f : StructField) (name : String)
    → AllTagged pre
    → f.exported ≡ true
    → is_untagged f ≡ true
    → (get_table_info (struct (pre ++ f ∷ post)) name ≡ panicked)
      × (get_special_type_info (struct (pre ++ f ∷ post)) name ≡ err (missing_db f.name))
unfolding get_table_info get_special_type_info columns_from special_columns_from
get_table_info_untagged pre post f name h x u = (
  rw (columns_from-append pre (f ∷ post) [] h, columns_from, x, u),
  rw (special_columns_from-append pre (f ∷ post) [] h, special_columns_from, x, u),
)
