-- ===== src/DbInit/Aggregates.antt =====
-- indexer/db_init/materialize.go and pkgs/schema/materialize.go: the continuous aggregates, their
-- statements from the tags of structs.
use Prim.Native.String.{◌++◌ as append}
use mathlib.Core.Option
use spectra_gnoland_indexer.Common.{
  ℕ, zero, suc, String, Bool, true, false, ◌&&◌, ◌||◌, Option, none, some, List, [], ◌∷◌, map,
  Outcome, done, panicked, ◌>>=◌, str_eq, if◌then◌else◌, GoMap, lookup, put, string_comparable, ℤ,
  pos, negsuc, parse_int, codes, format_int, leb, ltb, length, max_int64, set, replicate, ◌==◌,
}
use spectra_gnoland_indexer.DbInit.Statements.{join, concat}

-- a field of a struct with its tags ("" for a tag that is not there)
pub record AggField : Type 0 where
  pub mt : String
  pub fn : String
  pub gb : String

pub record LateralJoinDef : Type 0 where
  pub kind : String
  pub expression : String
  pub alias : String
  pub columns : List String

-- a struct with its methods; `lateral` is there if it is a LateralJoiner. A duration is in seconds.
pub record Aggregate : Type 0 where
  pub table_name : String
  pub from_table : String
  pub fields : List AggField
  pub lateral : Option (String × List LateralJoinDef)
  pub end_offset : ℕ
  pub interval : ℕ

unfoldable agg_columns : List AggField → List String
agg_columns fields = map (λ f. f.mt) fields

abbrev function_of : AggField → String
function_of f = if str_eq f.fn "" then "noop" else f.fn

unfoldable agg_functions : List AggField → List String
agg_functions fields = map function_of fields

abbrev are_digits : List ℕ → Bool
are_digits [] = true
are_digits (c ∷ s) = leb b'0' c && leb c b'9' && are_digits s

abbrev some_digits : List ℕ → Bool
some_digits [] = false
some_digits (c ∷ s) = are_digits (c ∷ s)

-- what Atoi gives beside its error: the bound on the side where a number is out of range, or else 0
abbrev out_of_range : List ℕ → ℤ
out_of_range [] = pos 0
out_of_range (c ∷ s) =
    if c == b'-'
    then (if some_digits s then negsuc max_int64 else pos 0)
    else if c == b'+'
    then (if some_digits s then pos max_int64 else pos 0)
    else if are_digits (c ∷ s)
    then pos max_int64
    else pos 0

unfoldable pub index_of : String → ℤ
index_of gb = Option.get_or (parse_int (codes gb)) (out_of_range (codes gb))

-- the positions and names of the fields with the tag `gb`
unfoldable pub entries : List AggField → List (ℤ × String)
entries [] = []
entries (f ∷ fields) =
    let rest = entries fields in if str_eq f.gb "" then rest else (index_of f.gb, f.mt) ∷ rest

-- one more than the largest position, which starts as -1
abbrev pub raised : ℕ → ℤ → ℕ
raised len (pos n) = if leb len n then suc n else len
raised len (negsuc n) = len

unfoldable pub positions : List (ℤ × String) → ℕ → ℕ
positions [] len = len
positions ((i, name) ∷ es) len = positions es (raised len i)

-- gb[e.idx] = e.name
abbrev pub stored : ℤ → String → List String → Outcome (List String)
stored (pos n) name gb = if ltb n (length gb) then done (set gb n name) else panicked
stored (negsuc n) name gb = panicked

unfoldable pub fill : List (ℤ × String) → List String → Outcome (List String)
fill [] gb = done gb
fill ((i, name) ∷ es) gb = do gb' ← stored i name gb; fill es gb'

-- the allocation of more than max_int64 strings panics
abbrev pub filled : List (ℤ × String) → ℕ → Outcome (List String)
filled es zero = done []
filled es (suc n) = if ltb n max_int64 then fill es (replicate (suc n) "") else panicked

unfoldable pub agg_group_by : List AggField → Outcome (List String)
unfolding positions
agg_group_by fields = let es = entries fields in filled es (positions es 0)

abbrev select_part : String → String → String
select_part fn col =
    if str_eq fn "" || str_eq fn "noop" then col else concat (fn ∷ " AS " ∷ col ∷ [])

-- a column beyond the functions has none
unfoldable select_parts : List String → List String → List String
select_parts [] fns = []
select_parts (col ∷ cols) [] = select_part "" col ∷ select_parts cols []
select_parts (col ∷ cols) (fn ∷ fns) = select_part fn col ∷ select_parts cols fns

-- the map from a column to its ordinal, counted from 1
unfoldable col_ordinals : List String → ℕ → GoMap String ℕ → GoMap String ℕ
col_ordinals [] i ordinals = ordinals
col_ordinals (c ∷ cols) i ordinals = col_ordinals cols (suc i) (put c (suc i) ordinals)

abbrev with_ordinal : Option ℕ → List ℕ → List ℕ
with_ordinal none rest = rest
with_ordinal (some ord) rest = ord ∷ rest

unfoldable gb_ordinals : GoMap String ℕ → List String → List ℕ
gb_ordinals ordinals [] = []
gb_ordinals ordinals (gb ∷ gbs) =
    let rest = gb_ordinals ordinals gbs in
    if str_eq gb "" then rest else with_ordinal (lookup gb ordinals) rest

-- the ordinals of the GROUP BY clause
unfoldable group_ordinals : List String → List String → List ℕ
unfolding col_ordinals gb_ordinals
group_ordinals cols gbs = gb_ordinals (col_ordinals cols 0 []) gbs

abbrev lateral_part : LateralJoinDef → String
lateral_part j =
    concat (j.kind ∷ " " ∷ j.expression ∷ " AS " ∷ j.alias ∷ "(" ∷ join ", " j.columns ∷ ")\n" ∷ [])

abbrev from_clause : Aggregate → String
from_clause a = elim a.lateral [
  | none ↦ concat ("FROM " ∷ a.from_table ∷ "\n" ∷ [])
  | some (alias, joins) ↦
      append (concat ("FROM " ∷ a.from_table ∷ " " ∷ alias ∷ "\n" ∷ []))
        (concat (map lateral_part joins))
]

abbrev group_clause : List ℕ → String
group_clause [] = ""
group_clause (o ∷ os) =
    concat ("GROUP BY " ∷ join ", " (map (λ n. format_int (pos n)) (o ∷ os)) ∷ "\n" ∷ [])

unfoldable pub generate_continuous_aggregate_sql : Aggregate → Outcome String
unfolding agg_columns agg_functions agg_group_by select_parts group_ordinals
generate_continuous_aggregate_sql a = do
  gbs ← agg_group_by a.fields
  done (
      concat (
        "CREATE MATERIALIZED VIEW "
        ∷ a.table_name
        ∷ "\nWITH (timescaledb.continuous) AS\nSELECT\n    "
        ∷ join ",\n    " (select_parts (agg_columns a.fields) (agg_functions a.fields))
        ∷ "\n"
        ∷ from_clause a
        ∷ group_clause (group_ordinals (agg_columns a.fields) gbs)
        ∷ ";"
        ∷ []))

abbrev pub seconds : ℕ → String
seconds n = append (format_int (pos n)) " seconds"

-- the name of the view, the start offset ("" if there is none), the end offset and the interval
unfoldable pub aggregate_policy :
    Aggregate → Option ℕ → Option ℕ → Option ℕ → String × String × String × String
aggregate_policy a start_offset end_offset interval = (
  a.table_name,
  elim start_offset [ none ↦ "" | some n ↦ seconds n ],
  seconds (Option.get_or end_offset a.end_offset),
  seconds (Option.get_or interval a.interval),
)

unfoldable pub alter_columnstore_sql : String → List String → String
alter_columnstore_sql view_name segment_by_cols = concat (
    "ALTER MATERIALIZED VIEW "
    ∷ view_name
    ∷ " SET (\n\ttimescaledb.enable_columnstore = TRUE,\n\ttimescaledb.segmentby = '"
    ∷ join ", " segment_by_cols
    ∷ "',\n\ttimescaledb.orderby = 'time_bucket DESC'\n)"
    ∷ [])

unfoldable pub add_columnstore_interval_sql : String → String → String
add_columnstore_interval_sql view_name chunk_interval =
    concat
      ("CALL add_columnstore_policy('" ∷ view_name ∷ "', INTERVAL '" ∷ chunk_interval ∷ "')" ∷ [])

unfoldable pub refresh_sql : String → String
refresh_sql view_name =
    concat ("CALL refresh_continuous_aggregate('" ∷ view_name ∷ "', NULL, NOW())" ∷ [])

abbrev start_expr : String → String
start_expr start_offset =
    if str_eq start_offset "" then "NULL" else concat ("INTERVAL '" ∷ start_offset ∷ "'" ∷ [])

unfoldable pub add_policy_sql : String → String → String → String → String
add_policy_sql view_name start_offset end_offset schedule_interval = concat (
    "SELECT add_continuous_aggregate_policy('"
    ∷ view_name
    ∷ "',\n\tstart_offset => "
    ∷ start_expr start_offset
    ∷ ",\n\tend_offset   => INTERVAL '"
    ∷ end_offset
    ∷ "',\n\tschedule_interval => INTERVAL '"
    ∷ schedule_interval
    ∷ "'\n)"
    ∷ [])

unfoldable pub real_time_sql : String → String
real_time_sql view_name =
    concat
      ("ALTER MATERIALIZED VIEW " ∷ view_name ∷ " SET (timescaledb.materialized_only = FALSE)" ∷ [])
