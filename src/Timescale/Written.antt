-- ===== src/Timescale/Written.antt =====
-- pkgs/database/timescaledb/insert.go with indexer/decoder/product.go: what the inserts write.

use mathlib.Core.Option.{some-injective}
use spectra_gnoland_indexer.Common.{
  ℕ, zero, suc, ◌<◌, String, ◌≡◌, refl, ap, sym, ◌∙◌, subst, inl, inr, Bool, some, List, [], ◌∷◌,
  ◌++◌, map, length, Outcome, done, panicked, get_elem?, str_eq, eq_iff, text_comparable,
  string_comparable, if◌then◌else◌, arith, Bool-cases,
}
use spectra_gnoland_indexer.DbInit.{StructField, table_columns}
use spectra_gnoland_indexer.Schema.Rows.{
  Message, table_name, msg_send, msg_multi_send, msg_call, msg_add_package, msg_run,
  msg_auth_cr_session, msg_auth_rv_session, msg_auth_rv_all_sessions,
}
use spectra_gnoland_indexer.Schema.MessageTags.{
  msg_send_fields, msg_multi_send_fields, msg_call_fields, msg_add_package_fields, msg_run_fields,
  msg_auth_cr_session_fields, msg_auth_rv_session_fields, msg_auth_rv_all_sessions_fields,
}
use spectra_gnoland_indexer.Schema.Copy.{message, copy_row}
use spectra_gnoland_indexer.Schema.Aligned.{struct_fields, zip-copy_row}
use spectra_gnoland_indexer.Decoder.Product.{
  DbMessages, InsertBatch, append_row, empty_batch, insert_batches,
}
use spectra_gnoland_indexer.Decoder.Batches.{tables, rows_of, insert_batches-tables}
use spectra_gnoland_indexer.Timescale.Inserts.{CopyCommand, insert_rows}

-- the struct of the rows of a message table
abbrev fields_of : String → List StructField
fields_of t =
    if str_eq t "bank_msg_send"
    then msg_send_fields
    else if str_eq t "bank_msg_multi_send"
    then msg_multi_send_fields
    else if str_eq t "vm_msg_call"
    then msg_call_fields
    else if str_eq t "vm_msg_add_package"
    then msg_add_package_fields
    else if str_eq t "vm_msg_run"
    then msg_run_fields
    else if str_eq t "auth_msg_create_session"
    then msg_auth_cr_session_fields
    else if str_eq t "auth_msg_revoke_session"
    then msg_auth_rv_session_fields
    else msg_auth_rv_all_sessions_fields

struct_fields-table_name :
    (Bytes : Type 0) (m : Message)
    → struct_fields {Bytes = Bytes} (message m) ≡ fields_of (table_name m)
unfolding table_name
struct_fields-table_name Bytes (msg_send r) = refl
struct_fields-table_name Bytes (msg_multi_send r) = refl
struct_fields-table_name Bytes (msg_call r) = refl
struct_fields-table_name Bytes (msg_add_package r) = refl
struct_fields-table_name Bytes (msg_run r) = refl
struct_fields-table_name Bytes (msg_auth_cr_session r) = refl
struct_fields-table_name Bytes (msg_auth_rv_session r) = refl
struct_fields-table_name Bytes (msg_auth_rv_all_sessions r) = refl

-- every row is one of the table
abbrev AllOfTable : String → List Message → Type 0
AllOfTable t [] = Unit
AllOfTable t (m ∷ ms) = (table_name m ≡ t) × AllOfTable t ms

AllOfTable-append :
    (t : String) (ms : List Message) (m : Message)
    → AllOfTable t ms
    → table_name m ≡ t
    → AllOfTable t (ms ++ m ∷ [])
AllOfTable-append t [] m a e = (e, tt)
AllOfTable-append t (n ∷ ms) m (first, a) e = (first, AllOfTable-append t ms m a e)

rows_of-AllOfTable :
    (t : String) (m : DbMessages) (b : InsertBatch)
    → AllOfTable t b.rows
    → AllOfTable t (rows_of t m b).rows
rows_of-AllOfTable t [] b a = a
rows_of-AllOfTable t (r ∷ rs) b a = elim (Bool-cases (str_eq (table_name r.row) t)) [
  | inl e ↦
      let step : rows_of t (r ∷ rs) b ≡ rows_of t rs (append_row b r) = rw e in
      subst (λ x. AllOfTable t x.rows) (sym step)
        (rows_of-AllOfTable t rs (append_row b r)
          (AllOfTable-append t b.rows r.row a ((eq_iff (table_name r.row) t).0 e)))
  | inr e ↦
      let step : rows_of t (r ∷ rs) b ≡ rows_of t rs b = rw e in
      subst (λ x. AllOfTable t x.rows) (sym step) (rows_of-AllOfTable t rs b a)
]

batch_of_table :
    (ts : List String) (m : DbMessages) (i : ℕ) (b : InsertBatch)
    → get_elem? (map (λ t. rows_of t m empty_batch) ts) i ≡ some b
    → (t : String) × AllOfTable t b.rows
batch_of_table [] m i b e = cc
batch_of_table (t ∷ ts) m zero b e = (
  t,
  subst (λ x. AllOfTable t x.rows) (some-injective _ _ e) (rows_of-AllOfTable t m empty_batch tt),
)
batch_of_table (t ∷ ts) m (suc i) b e = batch_of_table ts m i b e

abbrev batches_in : Outcome (List InsertBatch) → List InsertBatch
batches_in panicked = []
batches_in (done batches) = batches

module _ (Bytes : Type 0) where
  abbrev columns_of : Message → List String
  columns_of m = table_columns (struct_fields {Bytes = Bytes} (message m))

  -- each row fits the command: it is one of the table, its own columns are the command's, and it
  -- has as many values
  abbrev pub AllFit : CopyCommand Bytes → List Message → Type 0
  AllFit c [] = Unit
  AllFit c (m ∷ ms) =
      (table_name m ≡ c.table)
      × (table_columns (struct_fields {Bytes = Bytes} (message m)) ≡ c.columns)
      × (length (copy_row {Bytes = Bytes} (message m)) ≡ length c.columns)
      × AllFit c ms

  -- the command that a batch gives whose first row is `m`
  abbrev pub command : Message → List Message → CopyCommand Bytes
  command m ms = record {
    table = table_name m;
    columns = table_columns (struct_fields {Bytes = Bytes} (message m));
    rows = map copy_row (map message (m ∷ ms));
  }

  same_columns : (m n : Message) → table_name m ≡ table_name n → columns_of m ≡ columns_of n
  same_columns m n e =
      ap table_columns
        (struct_fields-table_name Bytes m ∙ ap fields_of e ∙ sym (struct_fields-table_name Bytes n))

  fit :
      (t : String) (m : Message) (ms rows : List Message)
      → table_name m ≡ t
      → AllOfTable t rows
      → AllFit (command m ms) rows
  fit t m ms [] e a = tt
  fit t m ms (n ∷ rows) e (first, a) =
      let same : table_name n ≡ table_name m = first ∙ sym e in
      let columns = same_columns n m same in
      (
        same,
        columns,
        (zip-copy_row {Bytes = Bytes} (message n)).1 ∙ ap length columns,
        fit t m ms rows e a,
      )

  module _ {World : Type 0} (copy_from : CopyCommand Bytes → World → Bool × World) where
    insert_rows-fit :
        (t : String) (rows : List Message) (w : World)
        → AllOfTable t rows
        → 0 < length rows
        → (m : Message) × (ms : List Message) × (rows ≡ m ∷ ms)
          × (insert_rows copy_from (map message rows) w ≡ copy_from (command m ms) w)
          × AllFit (command m ms) rows
    unfolding insert_rows
    insert_rows-fit t [] w a h = absurd (omega arith)
    insert_rows-fit t (m ∷ ms) w (e, a) h = (m, ms, refl, refl, fit t m ms (m ∷ ms) e (e, a))

    -- Each batch of InsertBatches that has a row is one COPY command of InsertRows: into the
    -- table of its rows, and with columns that are those of every row, which has one value for
    -- each of them.
    pub insert_rows-insert_batches :
        (m : DbMessages) (batches : List InsertBatch) (i : ℕ) (b : InsertBatch) (w : World)
        → insert_batches m ≡ done batches
        → get_elem? batches i ≡ some b
        → 0 < length b.rows
        → (row : Message) × (rows : List Message) × (b.rows ≡ row ∷ rows)
          × (insert_rows copy_from (map message b.rows) w ≡ copy_from (command row rows) w)
          × AllFit (command row rows) b.rows
    insert_rows-insert_batches m batches i b w e at h =
        let same : map (λ t. rows_of t m empty_batch) (tables m []) ≡ batches =
          ap batches_in (sym (insert_batches-tables m) ∙ e) in
        let (t, a) = batch_of_table (tables m []) m i b (ap (λ bs. get_elem? bs i) same ∙ at) in
        insert_rows-fit t b.rows w a h
