-- ===== src/Timescale/Views.antt =====
-- pkgs/database/timescaledb/query_view.go: the queries of the continuous aggregates. A query is a
-- value with its view, range and order; the database answers it with rows, each `none` if it
-- could not be scanned, and with whether the reading came to its end. A time is a number of
-- nanoseconds, a date the time at which it begins.
use mathlib.Core.Option
use spectra_gnoland_indexer.Common.{
  ℕ, ◌+◌, ◌*◌, String, Bool, true, false, Option, none, some, List, [], ◌∷◌, ◌++◌, Result, ok, err,
  GoMap, lookup, put, string_comparable,
}
use spectra_gnoland_indexer.Timescale.{DbError, not_found, failure}
use spectra_gnoland_indexer.Timescale.Events.{Sorted, sort_order_sql}

pub record Rows {ℓ} (A : Type ℓ) : Type ℓ where
  pub rows : List (Option A)
  pub complete : Bool

pub record ViewQuery : Type 0 where
  pub view : String
  pub bucket : String
  pub chain_name : String
  pub from : ℕ
  pub to : ℕ
  pub order : Sorted

pub record Counted : Type 0 where
  pub time : ℕ
  pub count : ℕ

pub record DenomVolume (Decimal : Type 0) : Type 0 where
  pub time : ℕ
  pub volume : Decimal

-- `time` is nil for the last 24 hours
pub record ValidatorSigning (Float : Type 0) : Type 0 where
  pub time : Option ℕ
  pub blocks_signed : ℕ
  pub blocks_missed : ℕ
  pub total_blocks : ℕ
  pub signing_rate : Float

-- 23:59:59 of a day
abbrev end_of_day : ℕ
end_of_day = (23 * 3600 + 59 * 60 + 59) * 1000000000

abbrev pub dates_of : String → String → ℕ → ℕ → String → ViewQuery
dates_of view chain_name date_from date_to sort_order = record {
  view = view;
  bucket = "1 day";
  chain_name = chain_name;
  from = date_from;
  to = date_to + end_of_day;
  order = sort_order_sql sort_order;
}

abbrev hours_of : String → String → ℕ → ℕ → String → ViewQuery
hours_of view chain_name from to sort_order = record {
  view = view;
  bucket = "1 hour";
  chain_name = chain_name;
  from = from;
  to = to;
  order = sort_order_sql sort_order;
}

-- the loop over the rows, which adds each to what there is, with the error after it
unfoldable pub fold_rows {ℓ ℓ'} :
    {A : Type ℓ} {B : Type ℓ'} → (B → A → B) → List (Option A) → Bool → B → Result DbError B
fold_rows add [] true b = ok b
fold_rows add [] false b = err failure
fold_rows add (none ∷ rows) complete b = err failure
fold_rows add (some a ∷ rows) complete b = fold_rows add rows complete (add b a)

unfoldable pub fold_answer {ℓ ℓ'} :
    {A : Type ℓ} {B : Type ℓ'} → (B → A → B) → B → Option (Rows A) → Result DbError B
fold_answer add b none = err failure
fold_answer add b (some r) = fold_rows add r.rows r.complete b

abbrev pub append_scanned {ℓ} : {A : Type ℓ} → List A → A → List A
append_scanned rows row = rows ++ row ∷ []

-- a row of one query, whose missing is an error like any other
abbrev pub single : Option (Option ℕ) → Result DbError ℕ
single none = err failure
single (some none) = err failure
single (some (some n)) = ok n

module _ (query : ViewQuery → Option (Rows Counted)) (chain_name : String) where
  unfoldable pub get_block_count_by_date : ℕ → ℕ → String → Result DbError (List Counted)
  get_block_count_by_date date_from date_to sort_order =
      fold_answer append_scanned []
        (query (dates_of "block_counter" chain_name date_from date_to sort_order))

  unfoldable pub get_daily_active_account : ℕ → ℕ → String → Result DbError (List Counted)
  get_daily_active_account date_from date_to sort_order =
      fold_answer append_scanned []
        (query (dates_of "daily_active_accounts" chain_name date_from date_to sort_order))

  unfoldable pub get_total_tx_count_by_date : ℕ → ℕ → String → Result DbError (List Counted)
  get_total_tx_count_by_date date_from date_to sort_order =
      fold_answer append_scanned []
        (query (dates_of "tx_counter" chain_name date_from date_to sort_order))

  unfoldable pub get_total_tx_count_by_hour : ℕ → ℕ → String → Result DbError (List Counted)
  get_total_tx_count_by_hour from to sort_order =
      fold_answer append_scanned [] (query (hours_of "tx_counter" chain_name from to sort_order))

-- the sum of a view: of the last 24 hours, or of all time
module _ (query : String → String → Bool → Option (Option ℕ)) (chain_name : String) where
  unfoldable get_block_count_24h : Result DbError ℕ
  get_block_count_24h = single (query "block_counter" chain_name true)

  unfoldable get_total_tx_count : Result DbError ℕ
  get_total_tx_count = single (query "tx_counter" chain_name false)

  unfoldable get_total_tx_count_24h : Result DbError ℕ
  get_total_tx_count_24h = single (query "tx_counter" chain_name true)

-- m[denom] = append(m[denom], volume)
abbrev pub add_volume {ℓ} :
    {V : Type ℓ} → GoMap String (List V) → V × String → GoMap String (List V)
add_volume m (volume, denom) = put denom (Option.get_or (lookup denom m) [] ++ volume ∷ []) m

module _ {Decimal : Type 0} (query : ViewQuery → Option (Rows (DenomVolume Decimal × String)))
    (chain_name : String) where
  unfoldable pub get_volume_by_date :
      ℕ → ℕ → String → Result DbError (GoMap String (List (DenomVolume Decimal)))
  get_volume_by_date date_from date_to sort_order =
      fold_answer add_volume []
        (query (dates_of "fee_volume" chain_name date_from date_to sort_order))

  unfoldable pub get_volume_by_hour :
      ℕ → ℕ → String → Result DbError (GoMap String (List (DenomVolume Decimal)))
  get_volume_by_hour from to sort_order =
      fold_answer add_volume [] (query (hours_of "fee_volume" chain_name from to sort_order))

abbrev entry_or_failure {ℓ} : {A : Type ℓ} → Option (Option A) → Result DbError A
entry_or_failure none = err failure
entry_or_failure (some none) = err failure
entry_or_failure (some (some a)) = ok a

-- the id of a validator, and what is asked for it
abbrev of_id {ℓ} : {A : Type ℓ} → Option (Option ℕ) → (ℕ → Result DbError A) → Result DbError A
of_id none answer = err not_found
of_id (some none) answer = err failure
of_id (some (some id)) answer = answer id

module _ {Float : Type 0} (find_id : String → String → Option (Option ℕ))
    (chain_name : String) where
  unfoldable pub get_validator_signing_24h :
      (String → ℕ → Option (Option (ValidatorSigning Float)))
      → String
      → Result DbError (ValidatorSigning Float)
  get_validator_signing_24h query validator_address =
      of_id (find_id validator_address chain_name) (λ id. entry_or_failure (query chain_name id))

  unfoldable pub get_validator_signing_by_hour :
      (ℕ → ViewQuery → Option (Rows (ValidatorSigning Float)))
      → String
      → ℕ
      → ℕ
      → String
      → Result DbError (List (ValidatorSigning Float))
  get_validator_signing_by_hour query validator_address from to sort_order =
      of_id (find_id validator_address chain_name) (λ id.
        fold_answer append_scanned []
          (query id (hours_of "block_counter" chain_name from to sort_order)))

-- result[address] = entry
abbrev put_entry {ℓ} : {A : Type ℓ} → GoMap String A → String × A → GoMap String A
put_entry m (address, entry) = put address entry m

unfoldable get_all_validator_signing_24h :
    {Float : Type 0}
    → (String → Option (Rows (String × ValidatorSigning Float)))
    → String
    → Result DbError (GoMap String (ValidatorSigning Float))
get_all_validator_signing_24h query chain_name = fold_answer put_entry [] (query chain_name)
