-- ===== src/Tests/Tables.antt =====
-- Tables, their statements and their rows, at concrete values.
use spectra_gnoland_indexer.Common.{ℕ, ◌≡◌, refl, true, false, none, some, List, [], ◌∷◌, length}
use spectra_gnoland_indexer.DbInit.{table_columns}
use spectra_gnoland_indexer.DbInit.Statements.{
  generate_create_table_sql, marked, join, privileges_sql,
}
use spectra_gnoland_indexer.Schema.Rows.{msg_auth_rv_all_sessions}
use spectra_gnoland_indexer.Schema.Copy.{Insertable, message, copy_row}
use spectra_gnoland_indexer.Schema.Aligned.{fields, struct_fields, zip, zip-copy_row}

create_sql :
    generate_create_table_sql (record {
      table_name = "t";
      columns =
          record {
            name = "id";
            db_type = "INT";
            nullable = some false;
            primary = some true;
            unique = some false;
            default = none;
          }
          ∷ [];
    })
    ≡ "CREATE TABLE IF NOT EXISTS t (\n    id INT NOT NULL,\n    PRIMARY KEY (id)\n);"
unfolding generate_create_table_sql marked join
create_sql = refl

grant_sql :
    privileges_sql "bob" "reader" ("blocks" ∷ []) ≡ some "GRANT SELECT ON TABLE blocks TO bob;\n"
unfolding privileges_sql
grant_sql = refl

abbrev revoke : Insertable (List ℕ)
revoke = message (
    msg_auth_rv_all_sessions (record {
      tx_id = 4;
      timestamp = 50;
      chain_name = "gno";
      creator = 2;
      signers = 2 ∷ 3 ∷ [];
      message_counter = 0;
    }))

zip-copy_row_example :
    (zip (table_columns (struct_fields revoke)) (copy_row revoke) ≡ fields revoke)
    × (length (copy_row revoke) ≡ length (table_columns (struct_fields revoke)))
zip-copy_row_example = zip-copy_row revoke
