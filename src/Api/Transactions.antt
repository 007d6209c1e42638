-- ===== src/Api/Transactions.antt =====
-- api/handlers/transactions.go and address.go: the paged handlers, and `parseTxHash`.
use mathlib.Core.Option
use spectra_gnoland_indexer.Common.{
  ℕ, String, Bool, not, ◌&&◌, ◌||◌, Option, none, some, List, [], ◌∷◌, map, Result, ok, err, str_eq,
  ltb, ◌==◌, if◌then◌else◌,
}
use spectra_gnoland_indexer.Timescale.{DbError, Encodings}
use spectra_gnoland_indexer.Timescale.Types.{Transaction, AddressTx}
use spectra_gnoland_indexer.Api.{HttpError, bad_request, map_db_error}
use spectra_gnoland_indexer.Api.Bodies.{
  PageBody, is_set, is_some, build_transactions_range_body, build_address_txs_body,
}

abbrev is_direction : String → Bool
is_direction direction = str_eq direction "next" || str_eq direction "prev"

-- the default of a parameter that is left out
abbrev pub limit_or_default : ℕ → ℕ
limit_or_default limit = if limit == 0 then 25 else limit

abbrev direction_or_next : String → String
direction_or_next direction = if str_eq direction "" then "next" else direction

-- "-" and "_" of base64url become "+" and "/"
abbrev normalized : ℕ → ℕ
normalized c = if c == b'-' then b'+' else if c == b'_' then b'/' else c

module _ (base64 : Encodings) where
  open base64 use {std_encode, std_decode}

  unfoldable pub parse_tx_hash : List ℕ → Option (List ℕ)
  parse_tx_hash s = Option.map std_encode (std_decode (map normalized s))

  -- `by_range` is `GetTransactionsByRange` of the database
  module _ (by_range : String → List ℕ → ℕ → String → Result DbError (List Transaction × Bool))
      (chain_name : String) where
    abbrev transactions_page :
        List ℕ
        → String
        → Result DbError (List Transaction × Bool)
        → Result HttpError (PageBody Transaction)
    transactions_page cursor direction (err e) = err (map_db_error "transactions not found" e)
    transactions_page cursor direction (ok (transactions, has_more)) =
        build_transactions_range_body base64 transactions has_more direction cursor

    unfoldable pub get_transactions_by_cursor :
        List ℕ → ℕ → String → Result HttpError (PageBody Transaction)
    get_transactions_by_cursor cursor limit direction =
        let n = limit_or_default limit in
        let d = direction_or_next direction in
        if ltb 100 n
        then err (bad_request "invalid limit (1..100)")
        else if not (is_direction d)
        then err (bad_request "invalid direction (must be 'next' or 'prev')")
        else if str_eq d "prev" && not (is_set cursor)
        then err (bad_request "direction=prev requires a cursor")
        else transactions_page cursor d (by_range chain_name cursor n d)

-- parseTimestampPair: the zero time counts as not set
unfoldable parse_timestamp_pair : Option ℕ → Option ℕ → Result HttpError (Option ℕ × Option ℕ)
parse_timestamp_pair none none = ok (none, none)
parse_timestamp_pair (some from) (some to) = ok (some from, some to)
parse_timestamp_pair _ _ =
    err (bad_request "from_timestamp and to_timestamp must both be set or both be unset")

abbrev when_set : List ℕ → Option (List ℕ)
when_set [] = none
when_set (c ∷ s) = some (c ∷ s)

-- the checks of the cursor mode, which a timestamp range skips
unfoldable direction_error : Option ℕ → Option (List ℕ) → String → Option HttpError
direction_error (some from) cursor direction = none
direction_error none cursor direction =
    if not (is_direction direction)
    then some (bad_request "invalid direction (must be 'next' or 'prev')")
    else if str_eq direction "prev" && not (is_some cursor)
    then some (bad_request "direction=prev requires a cursor")
    else none

module _ (base64 : Encodings)
    (address_txs : String
      → String
      → Option ℕ
      → Option ℕ
      → Option ℕ
      → Option (List ℕ)
      → String
      → Result DbError (List AddressTx × Bool))
    (chain_name : String) where
  abbrev address_body :
      Option (List ℕ)
      → String
      → Result DbError (List AddressTx × Bool)
      → Result HttpError (PageBody AddressTx)
  address_body cursor direction (err e) = err (map_db_error "address not found" e)
  address_body cursor direction (ok (rows, has_more)) =
      build_address_txs_body base64 rows has_more direction cursor

  abbrev address_response :
      String
      → ℕ
      → List ℕ
      → String
      → Result HttpError (Option ℕ × Option ℕ)
      → Result HttpError (PageBody AddressTx)
  address_response address limit cursor direction (err e) = err e
  address_response address limit cursor direction (ok (from, to)) =
      elim (direction_error from (when_set cursor) direction) [
        | some e ↦ err e
        | none ↦ address_body (when_set cursor) direction (
            address_txs address chain_name from to (if limit == 0 then none else some limit)
              (when_set cursor) direction)
      ]

  -- GetAddressTxs of the address handler
  unfoldable get_address_txs_response :
      String → Option ℕ → Option ℕ → ℕ → List ℕ → String → Result HttpError (PageBody AddressTx)
  get_address_txs_response address from to limit cursor direction =
      address_response address limit cursor (direction_or_next direction)
        (parse_timestamp_pair from to)
