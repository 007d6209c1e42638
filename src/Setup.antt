-- ===== src/Setup.antt =====
-- indexer/cli/setup.go: the creation of the database with its types, tables and views, statement by
-- statement. The database, its connections, and the text of a duration are parameters.
pub mod Flags
pub mod Script
pub mod Creates
use mathlib.Core.Option
use spectra_gnoland_indexer.Common.{
  ℕ, String, Bool, true, false, Option, none, some, List, [], ◌∷◌, ◌++◌, Outcome, done, panicked, ℤ,
  str_eq, if◌then◌else◌,
}
use spectra_gnoland_indexer.DbInit.{struct}
use spectra_gnoland_indexer.DbInit.Statements.{
  create_special_type_from_struct, create_chain_type_enum, create_table_from_struct,
  appoint_privileges,
}
use spectra_gnoland_indexer.DbInit.Versions.{
  Created, finished, fatal, panic, create_hypertable_from_struct,
}
use spectra_gnoland_indexer.DbInit.Aggregates.{
  Aggregate, generate_continuous_aggregate_sql, alter_columnstore_sql, aggregate_policy,
  add_policy_sql, add_columnstore_interval_sql, real_time_sql, refresh_sql,
}
use spectra_gnoland_indexer.Schema.SpecialTypes.{special_types}
use spectra_gnoland_indexer.Schema.Tables.{regular_tables, hypertables, all_table_names}
use spectra_gnoland_indexer.Schema.Aggregates.{View, views, all_aggregates, all_aggr_table_names}
use spectra_gnoland_indexer.Timescale.Pool.{DatabasePoolConfig, create_database, switch_database}

-- `exec` runs a statement of the new database, `exec_text` one of the first database, with the
-- text of its error; `version` is the version of TimescaleDB, `none` for an error
pub record SetupDb : Type 1 where
  pub World : Type 0
  pub exec : String → World → Bool × World
  pub exec_text : String → World → Option (List ℕ) × World
  pub version : World → Option (List ℕ)
  pub current_database : World → Option String
  pub close : World → World
  pub connect : List ℕ → World → Bool × World
  pub format_duration : ℤ → List ℕ

module _ {World : Type 0} where
  -- the next step, unless there was an error
  abbrev pub and_then : Created World → (World → Created World) → Created World
  and_then (finished (true, w)) next = next w
  and_then (finished (false, w)) next = finished (false, w)
  and_then fatal next = fatal
  and_then panic next = panic

  abbrev pub of_outcome : Outcome (Bool × World) → Created World
  of_outcome panicked = panic
  of_outcome (done r) = finished r

  -- a loop that ends at the first error
  unfoldable pub each : {A : Type 0} → (A → World → Created World) → List A → World → Created World
  each step [] w = finished (true, w)
  each step (x ∷ xs) w = and_then (step x w) (each step xs)

module _ (db : SetupDb) where
  open db use {World, exec, exec_text, version, current_database, close, connect, format_duration}

  unfoldable pub create_database_types : String → World → Created World
  create_database_types chain_name w =
      and_then
        (each
          (λ t w. finished (create_special_type_from_struct exec (struct t.fields) t.type_name w))
          special_types w)
        (λ w. finished (create_chain_type_enum exec (chain_name ∷ []) w))

  unfoldable pub create_regular_tables : World → Created World
  create_regular_tables w =
      each (λ t w. of_outcome (create_table_from_struct exec (struct t.fields) t.table_name w))
        regular_tables w

  unfoldable pub create_hypertables : World → Created World
  create_hypertables w =
      each
        (λ h w.
          create_hypertable_from_struct exec (struct h.table.fields) h.table.table_name h.params
            (version w) w)
        hypertables w

  abbrev pub exec_aggregate : Outcome String → World → Created World
  exec_aggregate panicked w = panic
  exec_aggregate (done sql) w = finished (exec sql w)

  unfoldable pub create_continuous_aggregate : Aggregate → World → Created World
  create_continuous_aggregate agg w = exec_aggregate (generate_continuous_aggregate_sql agg) w

  abbrev add_policy : String × String × String × String → String → World → Bool × World
  add_policy (name, start_offset, end_offset, schedule_interval) view_name w =
      exec (add_policy_sql view_name start_offset end_offset schedule_interval) w

  unfoldable pub create_view : View → World → Created World
  create_view v w = and_then (create_continuous_aggregate v.agg w) (λ w.
      and_then (finished (exec (alter_columnstore_sql v.agg.table_name v.segment_by_cols) w)) (λ w.
        and_then (finished (add_policy (aggregate_policy v.agg none none none) v.agg.table_name w))
          (λ w.
            and_then
              (finished (exec (add_columnstore_interval_sql v.agg.table_name v.chunk_interval) w))
              (λ w. finished (exec (real_time_sql v.agg.table_name) w)))))

  unfoldable pub create_continuous_aggregates : World → Created World
  create_continuous_aggregates w = each create_view views w

  unfoldable pub initialize_new_database :
      DatabasePoolConfig → String → String → World → Created World
  initialize_new_database config new_db_name chain_name w =
      and_then (finished (create_database exec_text new_db_name w)) (λ w.
        and_then (finished (switch_database format_duration close connect config new_db_name w))
          (λ w. and_then (create_database_types chain_name w) (λ w.
            and_then (create_regular_tables w)
              (λ w. and_then (create_hypertables w) (λ w. create_continuous_aggregates w)))))

  abbrev set_up : Option String → DatabasePoolConfig → String → String → World → Created World
  set_up none config new_db_name chain_name w = finished (false, w)
  set_up (some current_db) config new_db_name chain_name w =
      if str_eq current_db new_db_name
      then finished (true, w)
      else initialize_new_database config new_db_name chain_name w

  -- after the flags and the password
  unfoldable create_database_setup : DatabasePoolConfig → String → String → World → Created World
  create_database_setup config new_db_name chain_name w =
      set_up (current_database w) config new_db_name chain_name w

  -- the command refresh-aggregates, after the flags and the password
  unfoldable refresh_aggregates : World → Created World
  refresh_aggregates w = each (λ a w. finished (exec (refresh_sql a.table_name) w)) all_aggregates w
