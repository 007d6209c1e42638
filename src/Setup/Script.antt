-- ===== src/Setup/Script.antt =====
-- indexer/cli/setup.go: a new database runs the statements of one list, in order, to the first
-- error.

use spectra_gnoland_indexer.Common.{
  String, ◌≡◌, refl, ap, sym, ◌∙◌, Bool, true, false, not, ◌&&◌, none, List, [], ◌∷◌, ◌++◌, map,
  Outcome, done, panicked, all_pass, and_left, and_right, str_eq,
}
use spectra_gnoland_indexer.DbInit.{
  StructField, TableInfo, struct, is_untagged, column_info, special_column, get_table_info,
  get_special_type_info,
}
use spectra_gnoland_indexer.DbInit.Described.{AllTagged, columns_from-all, special_columns_from-all}
use spectra_gnoland_indexer.DbInit.Statements.{
  concat, generate_create_table_sql, generate_create_hypertable_sql, generate_special_type_sql,
  create_table_from_struct, create_special_type_from_struct, create_chain_type_enum, add_values,
}
use spectra_gnoland_indexer.DbInit.Versions.{Created, finished}
use spectra_gnoland_indexer.DbInit.Aggregates.{
  generate_continuous_aggregate_sql, alter_columnstore_sql, aggregate_policy, add_policy_sql,
  add_columnstore_interval_sql, real_time_sql,
}
use spectra_gnoland_indexer.Schema.SpecialTypes.{DbSpecialType, special_types}
use spectra_gnoland_indexer.Schema.Tables.{DbTable, Hypertable, regular_tables, hypertables}
use spectra_gnoland_indexer.Schema.Aggregates.{View, views}
use spectra_gnoland_indexer.Setup.{and_then, of_outcome, each}

abbrev pub flat : {A : Type 0} → (A → List String) → List A → List String
flat f [] = []
flat f (x ∷ xs) = f x ++ flat f xs

-- the statements of a type and of a table, with one column for each field
abbrev pub type_statement : DbSpecialType → List String
type_statement t =
    generate_special_type_sql
      (record { type_name = t.type_name; columns = map special_column t.fields })
    ∷ []

abbrev table_info : DbTable → TableInfo
table_info t = record { table_name = t.table_name; columns = map column_info t.fields }

abbrev pub table_statement : DbTable → List String
table_statement t = generate_create_table_sql (table_info t) ∷ []

abbrev pub hypertable_statement : Hypertable → List String
hypertable_statement h = generate_create_hypertable_sql (table_info h.table) h.params ∷ []

abbrev pub chain_statements : String → List String
chain_statements chain_name =
    "CREATE TYPE chain_name AS ENUM ()\n"
    ∷ concat ("ALTER TYPE chain_name ADD VALUE '" ∷ chain_name ∷ "'" ∷ [])
    ∷ []

abbrev pub sql_of : Outcome String → String
sql_of panicked = ""
sql_of (done sql) = sql

-- a view has no start offset, and the offsets of its aggregate
abbrev pub policy_statement : String × String × String × String → String → String
policy_statement (name, start_offset, end_offset, interval) view_name =
    add_policy_sql view_name start_offset end_offset interval

abbrev pub view_statements : View → List String
view_statements v =
    sql_of (generate_continuous_aggregate_sql v.agg)
    ∷ alter_columnstore_sql v.agg.table_name v.segment_by_cols
    ∷ policy_statement (aggregate_policy v.agg none none none) v.agg.table_name
    ∷ add_columnstore_interval_sql v.agg.table_name v.chunk_interval
    ∷ real_time_sql v.agg.table_name
    ∷ []

-- all statements for a new database
abbrev pub script : String → List String
script chain_name =
    (flat type_statement special_types ++ chain_statements chain_name)
    ++ (flat table_statement regular_tables
        ++ (flat hypertable_statement hypertables ++ flat view_statements views))

abbrev is_tagged : StructField → Bool
is_tagged f = f.exported && not (is_untagged f) && not (str_eq f.dbtype "")

abbrev pub are_tagged : List StructField → Bool
are_tagged fields = all_pass is_tagged fields

not-true : (b : Bool) → not b ≡ true → b ≡ false
not-true true h = sym h
not-true false h = refl

pub are_tagged-AllTagged : (fields : List StructField) → are_tagged fields ≡ true → AllTagged fields
are_tagged-AllTagged [] h = tt
are_tagged-AllTagged (f ∷ fields) h =
    let here = and_left (is_tagged f) (are_tagged fields) h in
    let named = and_left (f.exported && not (is_untagged f)) (not (str_eq f.dbtype "")) here in
    (
      (
        and_left f.exported (not (is_untagged f)) named,
        not-true _ (and_right f.exported (not (is_untagged f)) named),
        not-true _ (and_right (f.exported && not (is_untagged f)) (not (str_eq f.dbtype "")) here),
      ),
      are_tagged-AllTagged fields (and_right (is_tagged f) (are_tagged fields) h),
    )

abbrev pub is_done : Outcome String → Bool
is_done panicked = false
is_done (done sql) = true

module _ {World : Type 0} (exec : String → World → Bool × World) where
  abbrev next : String → Bool × World → Bool × World
  next sql (true, w) = exec sql w
  next sql (false, w) = (false, w)

  -- the statements in order, to the first error
  abbrev pub run_all : List String → Bool × World → Bool × World
  run_all [] r = r
  run_all (sql ∷ rest) r = run_all rest (next sql r)

  run_all-append :
      (first later : List String) (r : Bool × World)
      → run_all (first ++ later) r ≡ run_all later (run_all first r)
  run_all-append [] later r = refl
  run_all-append (sql ∷ first) later r = run_all-append first later (next sql r)

  pub run_all-failed : (later : List String) (w : World) → run_all later (false, w) ≡ (false, w)
  run_all-failed [] w = refl
  run_all-failed (sql ∷ later) w = run_all-failed later w

  abbrev pub Runs : (World → Created World) → List String → Type 0
  Runs step statements = (w : World) → step w ≡ finished (run_all statements (true, w))

  pub and_then-Runs :
      (r : Bool × World) (step : World → Created World) (statements : List String)
      → Runs step statements
      → and_then (finished r) step ≡ finished (run_all statements r)
  and_then-Runs (true, w) step statements h = h w
  and_then-Runs (false, w) step statements h = ap finished (sym (run_all-failed statements w))

  pub two-Runs :
      (a b : World → Created World) (first later : List String)
      → Runs a first
      → Runs b later
      → Runs (λ w. and_then (a w) b) (first ++ later)
  two-Runs a b first later h k = λ w.
      ap (λ c. and_then c b) (h w)
      ∙ and_then-Runs (run_all first (true, w)) b later k
      ∙ ap finished (sym (run_all-append first later (true, w)))

  module _ {A : Type 0} (step : A → World → Created World) (statements : A → List String)
      (test : A → Bool) (steps : (x : A) → test x ≡ true → Runs (step x) (statements x)) where
    pub each-Runs :
        (xs : List A) → all_pass test xs ≡ true → Runs (each step xs) (flat statements xs)
    unfolding each
    each-Runs [] h = λ w. refl
    each-Runs (x ∷ xs) h =
        two-Runs (step x) (each step xs) (statements x) (flat statements xs)
          (steps x (and_left (test x) (all_pass test xs) h))
          (each-Runs xs (and_right (test x) (all_pass test xs) h))

  pub type-Runs :
      (t : DbSpecialType)
      → are_tagged t.fields ≡ true
      → Runs
          (λ w. finished (create_special_type_from_struct exec (struct t.fields) t.type_name w))
          (type_statement t)
  unfolding create_special_type_from_struct get_special_type_info
  type-Runs t h = λ w. rw (special_columns_from-all t.fields (are_tagged-AllTagged t.fields h))

  pub table-Runs :
      (t : DbTable)
      → are_tagged t.fields ≡ true
      → Runs
          (λ w. of_outcome (create_table_from_struct exec (struct t.fields) t.table_name w))
          (table_statement t)
  unfolding create_table_from_struct get_table_info
  table-Runs t h = λ w. rw (columns_from-all t.fields (are_tagged-AllTagged t.fields h))

  add_none : (r : Bool × World) → add_values exec [] r ≡ r
  unfolding add_values
  add_none (true, w) = refl
  add_none (false, w) = refl

  add_one :
      (value : String) (r : Bool × World)
      → add_values exec (value ∷ []) r
        ≡ next (concat ("ALTER TYPE chain_name ADD VALUE '" ∷ value ∷ "'" ∷ [])) r
  unfolding add_values
  add_one value (true, w) =
      unfold add_values in
      add_none (exec (concat ("ALTER TYPE chain_name ADD VALUE '" ∷ value ∷ "'" ∷ [])) w)
  add_one value (false, w) = refl

  pub chain-Runs :
      (chain_name : String)
      → Runs
          (λ w. finished (create_chain_type_enum exec (chain_name ∷ []) w))
          (chain_statements chain_name)
  unfolding create_chain_type_enum
  chain-Runs chain_name =
      λ w. ap finished (add_one chain_name (exec "CREATE TYPE chain_name AS ENUM ()\n" w))
