-- ===== src/Timescale/Pages.antt =====
-- pkgs/database/timescaledb: `GetTransactionsByRange` (queries_tx.go) and `queryAddressTxs`
-- (queries_address.go): one page of rows by the key (block_height, tx_hash). `run` sends a query to
-- the database and scans its rows.
use mathlib.Core.Option
use spectra_gnoland_indexer.Common.{
  ℕ, zero, suc, ◌+◌, ◌-◌, set, get_elem?, String, Bool, true, false, ◌||◌, Option, none, some, List,
  [], ◌∷◌, length, Result, ok, err, add64, ltb, ◌==◌, str_eq, if◌then◌else◌,
}
use spectra_gnoland_indexer.Timescale.{
  DbError, failure, Encodings, SeekKey, Seek, anywhere, before, after, Select, decode_cursor,
}

-- s[:n]
unfoldable pub take {ℓ} : {A : Type ℓ} → ℕ → List A → List A
take zero xs = []
take (suc n) [] = []
take (suc n) (x ∷ xs) = x ∷ take n xs

-- s[i], s[j] = s[j], s[i]
abbrev pub swap {ℓ} : {A : Type ℓ} → List A → ℕ → ℕ → Option A → Option A → List A
swap s i j (some a) (some b) = set (set s i b) j a
swap s i j _ _ = s

-- the loop of `reverseSlice`: at most `rounds` rounds are left
unfoldable pub reverse_loop {ℓ} : {A : Type ℓ} → ℕ → ℕ → ℕ → List A → List A
reverse_loop zero i j s = s
reverse_loop (suc rounds) i j s =
    let rest = reverse_loop rounds (i + 1) (j - 1) (swap s i j (get_elem? s i) (get_elem? s j)) in
    if ltb i j then rest else s

-- a slice of n elements takes less than n rounds
unfoldable pub reverse_slice {ℓ} : {A : Type ℓ} → List A → List A
reverse_slice s = reverse_loop (length s) 0 (length s - 1) s

-- the query of a page, and whether its rows come back in reverse
unfoldable pub next_seek : Option SeekKey → Seek
next_seek none = anywhere
next_seek (some key) = before key

abbrev pub page_select : String → Option ℕ → Option (ℕ × ℕ) → ℕ → Seek → Bool → Select
page_select chain_name address between fetch_limit seek ascending = record {
  chain_name = chain_name;
  address = address;
  seek = seek;
  between = between;
  ascending = ascending;
  limit = fetch_limit;
}

unfoldable pub prev_query : (Seek → Bool → Select) → Option SeekKey → Result DbError (Select × Bool)
prev_query select none = err failure
prev_query select (some key) = ok (select (after key) true, true)

unfoldable pub page_query :
    String
    → Option ℕ
    → Option (ℕ × ℕ)
    → Option SeekKey
    → ℕ
    → String
    → Result DbError (Select × Bool)
unfolding next_seek prev_query
page_query chain_name address between cursor fetch_limit direction =
    let select = page_select chain_name address between fetch_limit in
    if str_eq direction "next"
    then ok (select (next_seek cursor) false, false)
    else if str_eq direction "prev"
    then prev_query select cursor
    else err failure

module _ {ℓ} {R : Type ℓ} where
  -- trims the probe row, and restores newest-first
  unfoldable pub finalize : ℕ → Bool → List R → List R × Bool
  finalize limit reverse rows =
      let has_more = ltb limit (length rows) in
      let page = if has_more then take limit rows else rows in
      (if reverse then reverse_slice page else page, has_more)

  -- `run` sends the query and scans the rows
  module _ (run : Select → Result DbError (List R)) where
    unfoldable pub run_page : ℕ → Result DbError (Select × Bool) → Result DbError (List R × Bool)
    run_page limit (err e) = err e
    run_page limit (ok (query, reverse)) = elim (run query) [
      | err e ↦ err e
      | ok rows ↦ ok (finalize limit reverse rows)
    ]

    abbrev range_page :
        String → ℕ → String → Result DbError (Option SeekKey) → Result DbError (List R × Bool)
    range_page chain_name limit direction (err e) = err e
    range_page chain_name limit direction (ok cursor) =
        run_page limit (page_query chain_name none none cursor (limit + 1) direction)

    unfoldable pub get_transactions_by_range :
        Encodings → String → List ℕ → ℕ → String → Result DbError (List R × Bool)
    get_transactions_by_range base64 chain_name cursor limit direction =
        let page = range_page chain_name limit direction (decode_cursor base64 (some cursor)) in
        if limit == 0 || ltb 100 limit then err failure else page

    abbrev address_page :
        String
        → ℕ
        → Option (ℕ × ℕ)
        → ℕ
        → String
        → Result DbError (Option SeekKey)
        → Result DbError (List R × Bool)
    address_page chain_name account between limit direction (err e) = err e
    address_page chain_name account between limit direction (ok cursor) =
        run_page limit
          (page_query chain_name (some account) between cursor (add64 limit 1) direction)

    -- a limit that is left out is 10
    unfoldable query_address_txs :
        Encodings
        → ℕ
        → String
        → Option (ℕ × ℕ)
        → Option (List ℕ)
        → Option ℕ
        → String
        → Result DbError (List R × Bool)
    query_address_txs base64 account chain_name between cursor limit direction =
        address_page chain_name account between (Option.get_or limit 10) direction
          (decode_cursor base64 cursor)

    -- both timestamps, or neither
    unfoldable timestamp_range : Option ℕ → Option ℕ → Result DbError (Option (ℕ × ℕ))
    timestamp_range (some from) (some to) = ok (some (from, to))
    timestamp_range none none = ok none
    timestamp_range _ _ = err failure

    -- `get_account_id` is the query for the row of the address
    unfoldable get_address_txs :
        (String → String → Result DbError ℕ)
        → Encodings
        → String
        → String
        → Option ℕ
        → Option ℕ
        → Option ℕ
        → Option (List ℕ)
        → String
        → Result DbError (List R × Bool)
    get_address_txs get_account_id base64 address chain_name from to limit cursor direction =
        elim (timestamp_range from to) [
          | err e ↦ err e
          | ok between ↦ elim (get_account_id address chain_name) [
            | err e ↦ err e
            | ok account ↦
                query_address_txs base64 account chain_name between cursor limit direction
          ]
        ]
