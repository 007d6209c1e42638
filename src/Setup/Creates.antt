-- ===== src/Setup/Creates.antt =====
-- indexer/cli/setup.go: initializeNewDatabase runs the statements of the script.

use spectra_gnoland_indexer.Common.{
  String, ◌≡◌, refl, ap, sym, Bool, true, false, none, some, List, [], ◌∷◌, ◌++◌, Outcome, done,
  panicked, all_pass, parse_int, parse_digits,
}
use spectra_gnoland_indexer.DbInit.{struct, get_table_info}
use spectra_gnoland_indexer.DbInit.Described.{columns_from-all}
use spectra_gnoland_indexer.DbInit.Versions.{
  TimescaleDbVersion, Created, finished, get_timescale_db_version, is_modern_version,
  create_hypertable_from_struct,
}
use spectra_gnoland_indexer.DbInit.Aggregates.{
  agg_group_by, entries, index_of, fill, generate_continuous_aggregate_sql, alter_columnstore_sql,
  aggregate_policy, add_columnstore_interval_sql, real_time_sql,
}
use spectra_gnoland_indexer.Schema.SpecialTypes.{special_types}
use spectra_gnoland_indexer.Schema.Tables.{Hypertable, regular_tables, hypertables}
use spectra_gnoland_indexer.Schema.Aggregates.{View, views}
use spectra_gnoland_indexer.Timescale.Pool.{DatabasePoolConfig, create_database, switch_database}
use spectra_gnoland_indexer.Setup.{
  SetupDb, and_then, create_database_types, create_regular_tables, create_hypertables,
  exec_aggregate, create_view, create_continuous_aggregates, initialize_new_database,
  create_continuous_aggregate,
}
use spectra_gnoland_indexer.Setup.Script.{
  flat, type_statement, table_statement, hypertable_statement, chain_statements, view_statements,
  script, are_tagged, are_tagged-AllTagged, is_done, sql_of, policy_statement, run_all,
  run_all-failed, Runs, two-Runs, and_then-Runs, each-Runs, type-Runs, table-Runs, chain-Runs,
}

tagged_types : all_pass (λ t. are_tagged t.fields) special_types ≡ true
unfolding special_types
tagged_types = refl

tagged_tables : all_pass (λ t. are_tagged t.fields) regular_tables ≡ true
unfolding regular_tables
tagged_tables = refl

tagged_hypertables : all_pass (λ h. are_tagged h.table.fields) hypertables ≡ true
unfolding hypertables
tagged_hypertables = refl

done_views : all_pass (λ v. is_done (generate_continuous_aggregate_sql v.agg)) views ≡ true
unfolding views generate_continuous_aggregate_sql agg_group_by entries index_of parse_int
    parse_digits fill
done_views = refl

module _ (db : SetupDb) where
  open db use {World, exec, exec_text, version, close, connect, format_duration}

  -- the database answers with a version of TimescaleDB that is supported
  abbrev pub HasModernVersion : Type 0
  HasModernVersion =
      (w : World)
      → (v : TimescaleDbVersion) × (get_timescale_db_version (version w) ≡ some v)
        × (is_modern_version v ≡ true)

  hypertable-Runs :
      HasModernVersion
      → (h : Hypertable) → are_tagged h.table.fields ≡ true
      → Runs exec
          (λ w.
            create_hypertable_from_struct exec
              (struct h.table.fields)
              h.table.table_name
              h.params
              (version w)
              w)
          (hypertable_statement h)
  unfolding create_hypertable_from_struct get_table_info
  hypertable-Runs m h t = λ w.
      let (v, answered, modern) = m w in
      rw (columns_from-all h.table.fields (are_tagged-AllTagged h.table.fields t), answered, modern)

  aggregate-Runs :
      (sql : Outcome String)
      → is_done sql ≡ true
      → Runs exec (exec_aggregate db sql) (sql_of sql ∷ [])
  aggregate-Runs panicked h = λ w. cc
  aggregate-Runs (done sql) h = λ w. refl

  view-Runs :
      (v : View)
      → is_done (generate_continuous_aggregate_sql v.agg) ≡ true
      → Runs exec (create_view db v) (view_statements v)
  unfolding create_view create_continuous_aggregate
  view-Runs v h =
      let alter = alter_columnstore_sql v.agg.table_name v.segment_by_cols in
      let policy = policy_statement (aggregate_policy v.agg none none none) v.agg.table_name in
      let interval = add_columnstore_interval_sql v.agg.table_name v.chunk_interval in
      let real_time = real_time_sql v.agg.table_name in
      two-Runs exec _ _ (sql_of (generate_continuous_aggregate_sql v.agg) ∷ [])
        (alter ∷ policy ∷ interval ∷ real_time ∷ [])
        (aggregate-Runs (generate_continuous_aggregate_sql v.agg) h)
        (λ w. and_then-Runs exec (exec alter w) _ (policy ∷ interval ∷ real_time ∷ []) (λ w.
          and_then-Runs exec (exec policy w) _ (interval ∷ real_time ∷ [])
            (λ w. and_then-Runs exec (exec interval w) _ (real_time ∷ []) (λ w. refl))))

  types-Runs :
      (chain_name : String)
      → Runs exec
          (create_database_types db chain_name)
          (flat type_statement special_types ++ chain_statements chain_name)
  unfolding create_database_types
  types-Runs chain_name =
      two-Runs exec _ _ (flat type_statement special_types) (chain_statements chain_name)
        (each-Runs exec _ type_statement (λ t. are_tagged t.fields) (type-Runs exec) special_types
          tagged_types)
        (chain-Runs exec chain_name)

  tables-Runs : Runs exec (create_regular_tables db) (flat table_statement regular_tables)
  unfolding create_regular_tables
  tables-Runs =
      each-Runs exec _ table_statement (λ t. are_tagged t.fields) (table-Runs exec) regular_tables
        tagged_tables

  hypertables-Runs :
      HasModernVersion → Runs exec (create_hypertables db) (flat hypertable_statement hypertables)
  unfolding create_hypertables
  hypertables-Runs m =
      each-Runs exec _ hypertable_statement (λ h. are_tagged h.table.fields) (hypertable-Runs m)
        hypertables tagged_hypertables

  views-Runs : Runs exec (create_continuous_aggregates db) (flat view_statements views)
  unfolding create_continuous_aggregates
  views-Runs =
      each-Runs exec _ view_statements (λ v. is_done (generate_continuous_aggregate_sql v.agg))
        view-Runs views done_views

  abbrev connected : DatabasePoolConfig → String → Bool × World → Bool × World
  connected config new_db_name (false, w) = (false, w)
  connected config new_db_name (true, w) =
      switch_database format_duration close connect config new_db_name w

  -- the database after it has been created and connected to
  abbrev pub opened : DatabasePoolConfig → String → World → Bool × World
  opened config new_db_name w =
      connected config new_db_name (create_database exec_text new_db_name w)

  connected-Runs :
      (config : DatabasePoolConfig) (new_db_name : String) (r : Bool × World)
      (step : World → Created World) (statements : List String)
      → Runs exec step statements
      → and_then (finished r) (λ w.
        and_then
          (finished (switch_database format_duration close connect config new_db_name w))
          step)
        ≡ finished (run_all exec statements (connected config new_db_name r))
  connected-Runs config new_db_name (true, w) step statements h =
      and_then-Runs exec (switch_database format_duration close connect config new_db_name w) step
        statements h
  connected-Runs config new_db_name (false, w) step statements h =
      ap finished (sym (run_all-failed exec statements w))

  -- If the version of TimescaleDB is supported, initializeNewDatabase, once it has created the
  -- database and connected to it, runs the statements of all types, of the chain, of all tables
  -- and hypertables with a column for each field, and of all views, in this order, and stops at
  -- the first that fails, whose error it returns; it neither panics nor ends the program.
  pub initialize_new_database-script :
      HasModernVersion
      → (config : DatabasePoolConfig) (new_db_name chain_name : String) (w : World)
      → initialize_new_database db config new_db_name chain_name w
        ≡ finished (run_all exec (script chain_name) (opened config new_db_name w))
  unfolding initialize_new_database
  initialize_new_database-script m config new_db_name chain_name w =
      connected-Runs config new_db_name (create_database exec_text new_db_name w) _
        (script chain_name)
        (two-Runs exec _ _ (flat type_statement special_types ++ chain_statements chain_name)
          (flat table_statement regular_tables
            ++ (flat hypertable_statement hypertables ++ flat view_statements views))
          (types-Runs chain_name)
          (two-Runs exec _ _ (flat table_statement regular_tables)
            (flat hypertable_statement hypertables ++ flat view_statements views) tables-Runs
            (two-Runs exec _ _ (flat hypertable_statement hypertables) (flat view_statements views)
              (hypertables-Runs m) views-Runs)))
