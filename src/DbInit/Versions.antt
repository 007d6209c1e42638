-- ===== src/DbInit/Versions.antt =====
-- indexer/db_init/tables.go: the version of TimescaleDB, and hypertables.
use mathlib.Core.Option
use spectra_gnoland_indexer.Common.{
  ℕ, String, Bool, true, false, ◌&&◌, ◌||◌, Option, none, some, List, [], ◌∷◌, done, panicked,
  Outcome, Result, ok, err, ltb, ◌==◌, if◌then◌else◌, split, ℤ, pos, negsuc, parse_int,
}
use spectra_gnoland_indexer.DbInit.{TableInfo, TableError, Kind, get_table_info}
use spectra_gnoland_indexer.DbInit.Statements.{HypertableParams, generate_create_hypertable_sql}

pub record TimescaleDbVersion : Type 0 where
  pub major : ℤ
  pub minor : ℤ
  pub patch : ℤ

abbrev pub above : ℤ → ℕ → Bool
above (pos n) k = ltb k n
above (negsuc n) k = false

abbrev equals : ℤ → ℕ → Bool
equals (pos n) k = n == k
equals (negsuc n) k = false

unfoldable pub is_modern_version : TimescaleDbVersion → Bool
is_modern_version v =
    if above v.major 2
    then true
    else if equals v.major 2
    then (if above v.minor 19
        then true
        else equals v.minor 19 && (above v.patch 3 || equals v.patch 3))
    else false

-- a patch that is no number counts as 0
abbrev patch_of : List (List ℕ) → ℤ
patch_of [] = pos 0
patch_of (p ∷ parts) = Option.get_or (parse_int p) (pos 0)

abbrev version_of : List (List ℕ) → Option TimescaleDbVersion
version_of [] = none
version_of (a ∷ []) = none
version_of (a ∷ b ∷ parts) = elim (parse_int a) [
  | none ↦ none
  | some major ↦ elim (parse_int b) [
    | none ↦ none
    | some minor ↦ some (record { major = major; minor = minor; patch = patch_of parts })
  ]
]

-- the version text that the database gives, or `none` for an error of the query
unfoldable pub get_timescale_db_version : Option (List ℕ) → Option TimescaleDbVersion
get_timescale_db_version none = none
get_timescale_db_version (some text) = version_of (split b'.' text)

-- what creating a hypertable comes to: a log of level fatal ends the program
pub data Created (World : Type 0) : Type 0 where
  finished : Bool × World → Created World
  fatal : Created World
  panic : Created World

module _ {World : Type 0} (exec : String → World → Bool × World) where
  abbrev create_modern :
      HypertableParams → Option TimescaleDbVersion → TableInfo → World → Created World
  create_modern params none info w = fatal
  create_modern params (some v) info w =
      if is_modern_version v
      then finished (exec (generate_create_hypertable_sql info params) w)
      else fatal

  abbrev create_described :
      Outcome (Result TableError TableInfo)
      → HypertableParams
      → Option TimescaleDbVersion
      → World
      → Created World
  create_described panicked params version w = panic
  create_described (done (err e)) params version w = finished (false, w)
  create_described (done (ok info)) params version w = create_modern params version info w

  unfoldable pub create_hypertable_from_struct :
      Kind → String → HypertableParams → Option (List ℕ) → World → Created World
  create_hypertable_from_struct kind table_name params version w =
      create_described (get_table_info kind table_name) params (get_timescale_db_version version) w
