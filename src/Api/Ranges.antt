-- ===== src/Api/Ranges.antt =====
-- api/handlers: the handlers that check a range and pass a query on (blocks.go, address.go,
-- transactions.go, validators.go). A time is a number of nanoseconds; a query gives its
-- rows.
use spectra_gnoland_indexer.Common.{
  ℕ, ◌+◌, ◌-◌, ◌*◌, ◌≤◌, ◌≡◌, arith, map, String, false, not, Option, some, List, [], ◌∷◌, Result,
  ok, err, ltb, str_eq, if◌then◌else◌,
}
use spectra_gnoland_indexer.Timescale.{DbError}
use spectra_gnoland_indexer.Timescale.Types.{BlockData}
use spectra_gnoland_indexer.Timescale.Blocks.{
  TxRow, get_blocks_between, with_hashes, hashes_at, get_blocks_between-hashes_at,
}
use spectra_gnoland_indexer.Api.{HttpError, bad_request, not_found, map_db_error}

-- a result of the database, whose errors are mapped
unfoldable pub passed_on {ℓ} : {A : Type ℓ} → String → Result DbError A → Result HttpError A
passed_on message (ok a) = ok a
passed_on message (err e) = err (map_db_error message e)

-- no rows are not found either
unfoldable pub rows_passed_on {ℓ} :
    {R : Type ℓ} → String → Result DbError (List R) → Result HttpError (List R)
rows_passed_on message (ok []) = err (not_found message)
rows_passed_on message (ok (r ∷ rows)) = ok (r ∷ rows)
rows_passed_on message (err e) = err (map_db_error message e)

abbrev pub day : ℕ
day = 24 * 3600 * 1000000000

-- the checks of a range of dates and of a range of timestamps
unfoldable pub checked_range {ℓ} :
    {A : Type ℓ} → String → String → ℕ → ℕ → ℕ → Result HttpError A → Result HttpError A
checked_range order_message span_message span start end answer =
    if not (ltb start end)
    then err (bad_request order_message)
    else if ltb span (end - start)
    then err (bad_request span_message)
    else answer

unfoldable pub checked_dates {ℓ} : {A : Type ℓ} → ℕ → ℕ → Result HttpError A → Result HttpError A
checked_dates start end answer =
    checked_range "start_date must be before end_date"
      "end_date must be within 30 days of start_date" (day * 30) start end answer

unfoldable pub checked_times {ℓ} : {A : Type ℓ} → ℕ → ℕ → Result HttpError A → Result HttpError A
checked_times start end answer =
    checked_range "start_timestamp must be before end_timestamp"
      "end_timestamp must be within 7 days of start_timestamp" (day * 7) start end answer

module _ {R : Type 0} (query : ℕ → ℕ → String → Result DbError (List R)) where
  unfoldable pub get_daily_active_account : ℕ → ℕ → String → Result HttpError (List R)
  get_daily_active_account start end sort_order =
      checked_dates start end
        (rows_passed_on "daily active account data not found" (query start end sort_order))

  unfoldable pub get_total_tx_count_by_date : ℕ → ℕ → String → Result HttpError (List R)
  get_total_tx_count_by_date start end sort_order = checked_dates start end (
      rows_passed_on "transaction count for the given date range not found"
        (query start end sort_order))

  unfoldable pub get_total_tx_count_by_hour : ℕ → ℕ → String → Result HttpError (List R)
  get_total_tx_count_by_hour start end sort_order = checked_times start end (
      rows_passed_on "transaction count for the given time range not found"
        (query start end sort_order))

  unfoldable pub get_volume_by_date : ℕ → ℕ → String → Result HttpError (List R)
  get_volume_by_date start end sort_order =
      checked_dates start end
        (rows_passed_on "volume for the given date range not found" (query start end sort_order))

  -- no volume is no error here
  unfoldable pub get_volume_by_hour : ℕ → ℕ → String → Result HttpError (List R)
  get_volume_by_hour start end sort_order =
      checked_times start end
        (passed_on "volume for the given time range not found" (query start end sort_order))

  unfoldable pub get_block_count_by_date : ℕ → ℕ → String → Result HttpError (List R)
  get_block_count_by_date start end sort_order =
      checked_dates start end (
        rows_passed_on "block count for the given date range not found"
          (query start end sort_order))

-- the handlers of one validator, whose query takes the address; `message` has the address in it
abbrev of_validator {ℓ} : {A : Type ℓ} → String → Result HttpError A → Result HttpError A
of_validator address answer =
    if str_eq address "" then err (bad_request "validator_address is required") else answer

unfoldable pub get_validator_signing_24h {ℓ} :
    {A : Type ℓ} → (String → Result DbError A) → (String → String) → String → Result HttpError A
get_validator_signing_24h query message address =
    of_validator address (passed_on (message address) (query address))

unfoldable pub get_validator_signing_by_hour {ℓ} :
    {R : Type ℓ}
    → (String → ℕ → ℕ → String → Result DbError (List R))
    → (String → String)
    → String
    → ℕ
    → ℕ
    → String
    → Result HttpError (List R)
get_validator_signing_by_hour query message address start end sort_order = of_validator address (
    checked_times start end (rows_passed_on (message address) (query address start end sort_order)))

-- the heights of a range of blocks, at most 101 of them; `message` has the heights in it
module _ (query : ℕ → ℕ → String → Result DbError (List BlockData)) (chain_name : String)
    (message : ℕ → ℕ → String) where
  unfoldable pub get_from_to_blocks_response : ℕ → ℕ → Result HttpError (List BlockData)
  get_from_to_blocks_response from_height to_height =
      let answer =
        rows_passed_on (message from_height to_height) (query from_height to_height chain_name) in
      if ltb to_height from_height
      then err (bad_request "from_height must be less than or equal to to_height")
      else if ltb 100 (to_height - from_height)
      then err (bad_request "from_height and to_height difference must be less than 100")
      else answer

-- If both queries succeed and give a block, GetFromToBlocks of the API answers, over
-- GetFromToBlocks of the database and for a range of at most 101 heights, the blocks in order,
-- each with the hashes of the rows of its own height added in their order, and with the number of
-- its hashes.
pub get_from_to_blocks_response-hashes_at :
    (query_blocks : ℕ → ℕ → String → Option (List BlockData))
    (query_txs : ℕ → ℕ → String → Option (List TxRow)) (message : ℕ → ℕ → String)
    (chain_name : String) (from_height to_height : ℕ) (b : BlockData) (blocks : List BlockData)
    (rows : List TxRow)
    → from_height ≤ to_height
    → to_height ≤ from_height + 100
    → query_blocks from_height to_height chain_name ≡ some (b ∷ blocks)
    → query_txs from_height to_height chain_name ≡ some rows
    → get_from_to_blocks_response
        (get_blocks_between query_blocks query_txs)
        chain_name
        message
        from_height
        to_height
      ≡ ok (map (λ c. with_hashes (hashes_at c.height rows) c) (b ∷ blocks))
unfolding get_from_to_blocks_response rows_passed_on
get_from_to_blocks_response-hashes_at query_blocks query_txs message chain_name from_height
      to_height b blocks rows le near p q =
    let ordered : ltb to_height from_height ≡ false = ground arith in
    let small : ltb 100 (to_height - from_height) ≡ false = ground arith in
    rw (
      ordered,
      small,
      get_blocks_between-hashes_at query_blocks query_txs from_height to_height chain_name b blocks
          rows p q,
    )
