-- ===== src/Tests/Pages.antt =====
-- A table of four transactions, walked page by page.
use spectra_gnoland_indexer.Common.{
  ℕ, ◌+◌, ◌-◌, ◌≡◌, refl, ap, true, none, some, List, [], ◌∷◌, map, Result, ok, inr, arith, Without,
}
use spectra_gnoland_indexer.Timescale.{DbError, Encodings, Select, decode_cursor}
use spectra_gnoland_indexer.Timescale.Types.{Transaction}
use spectra_gnoland_indexer.Timescale.Pages.{get_transactions_by_range}
use spectra_gnoland_indexer.Timescale.Answers.{answers, IsNewestFirst}
use spectra_gnoland_indexer.Api.Bodies.{PageBody, tx_cursor}
use spectra_gnoland_indexer.Api.Cursors.{make_tx_cursor, IsBase64, decode_cursor-make_tx_cursor}
use spectra_gnoland_indexer.Api.Transactions.{get_transactions_by_cursor}
use spectra_gnoland_indexer.Api.Walks.{tx_key, AllStored, walk, walk-newest_first}
use spectra_gnoland_indexer.Api.Back.{Shows, get_transactions_by_cursor-prev}

-- a byte is written as one code above all separators
abbrev pub shift : List ℕ → List ℕ
shift raw = map (λ b. b + 125) raw

abbrev shift_back : List ℕ → List ℕ
shift_back s = map (λ c. c - 125) s

abbrev encodings : Encodings
encodings = record {
  std_encode = shift;
  std_decode = λ s. some (shift_back s);
  url_encode = shift;
  url_decode = λ s. some (shift_back s);
}

shift_back-shift : (raw : List ℕ) → shift_back (shift raw) ≡ raw
shift_back-shift [] = refl
shift_back-shift (b ∷ raw) =
    let here : b + 125 - 125 ≡ b = omega arith in rw (here, shift_back-shift raw)

shift-Without : (raw : List ℕ) → Without b'|' (shift raw)
shift-Without [] = tt
shift-Without (b ∷ raw) = (ground arith, shift-Without raw)

pub encodings-IsBase64 : IsBase64 encodings
encodings-IsBase64 = record {
  url_round = λ raw. ap some (shift_back-shift raw);
  no_bar = shift-Without;
}

abbrev tx_at : ℕ → ℕ → Transaction
tx_at height byte = record {
  tx_hash = shift (byte ∷ []);
  timestamp = 1000 + height;
  block_height = height;
  tx_events = [];
  gas_used = 7;
  gas_wanted = 9;
  fee = record { amount = "1"; denom = "ugnot" };
  msg_types = [];
  success = true;
  error_log = none;
}

abbrev pub table : List Transaction
table = tx_at 9 2 ∷ tx_at 9 1 ∷ tx_at 8 5 ∷ tx_at 7 3 ∷ []

abbrev run_query : Select → Result DbError (List Transaction)
run_query query = ok (answers (tx_key encodings) table query)

table-IsNewestFirst : IsNewestFirst (tx_key encodings) table
table-IsNewestFirst = ((refl, (refl, (refl, tt))), ((refl, (refl, tt)), ((refl, tt), (tt, tt))))

table-AllStored : AllStored encodings table
table-AllStored = (
  (2 ∷ [], refl, omega arith),
  ((1 ∷ [], refl, omega arith), ((5 ∷ [], refl, omega arith), ((3 ∷ [], refl, omega arith), tt))),
)

decode_cursor-make_tx_cursor_example :
    (cursor : List ℕ) × (make_tx_cursor encodings 120 (shift (1 ∷ 2 ∷ [])) ≡ some cursor)
    × (decode_cursor encodings (some cursor) ≡ ok (some (120, 1 ∷ 2 ∷ [])))
decode_cursor-make_tx_cursor_example =
    decode_cursor-make_tx_cursor encodings encodings-IsBase64 120 (shift (1 ∷ 2 ∷ [])) (1 ∷ 2 ∷ [])
      (omega arith) refl

walk-newest_first_example :
    walk
      (λ cursor.
        get_transactions_by_cursor encodings
          (get_transactions_by_range run_query encodings)
          "gno"
          cursor
          2
          "next")
      9
      []
    ≡ ok table
walk-newest_first_example =
    walk-newest_first encodings encodings-IsBase64 run_query "gno" table table-IsNewestFirst
      table-AllStored (λ query p q r. refl) 2 (omega arith) 9 (omega arith)

get_transactions_by_cursor-prev_example :
    (cursor : List ℕ) × (body : PageBody Transaction) × (tx_cursor encodings (tx_at 7 3)
      ≡ some cursor)
    × (get_transactions_by_cursor encodings
          (get_transactions_by_range run_query encodings)
          "gno"
          cursor
          2
          "prev"
        ≡ ok body)
    × Shows (tx_at 9 1 ∷ tx_at 8 5 ∷ []) true body
get_transactions_by_cursor-prev_example =
    get_transactions_by_cursor-prev encodings encodings-IsBase64 run_query "gno" table
      table-IsNewestFirst table-AllStored (λ query p q r. refl) 2 (omega arith) (tx_at 9 2 ∷ [])
      (tx_at 9 1 ∷ tx_at 8 5 ∷ []) (tx_at 7 3) [] refl (omega arith, inr refl)
