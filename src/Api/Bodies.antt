-- ===== src/Api/Bodies.antt =====
-- The bodies of the paged responses: `buildTransactionsRangeBody` of api/handlers/transactions.go
-- and `buildAddressTxsBody` of api/handlers/address.go.
use spectra_gnoland_indexer.Common.{
  ℕ, String, Bool, true, false, Option, none, some, List, [], ◌∷◌, Result, ok, err, str_eq,
  if◌then◌else◌,
}
use spectra_gnoland_indexer.Timescale.{Encodings}
use spectra_gnoland_indexer.Timescale.Types.{Transaction, AddressTx}
use spectra_gnoland_indexer.Api.{HttpError, internal_error}
use spectra_gnoland_indexer.Api.Cursors.{make_tx_cursor}

pub record PageBody {ℓ} (R : Type ℓ) : Type ℓ where
  pub rows : List R
  pub has_next : Bool
  pub has_prev : Bool
  pub next_cursor : Option (List ℕ)
  pub prev_cursor : Option (List ℕ)

-- the pointer to a cursor that is set under a condition
abbrev pub when : Bool → List ℕ → Option (List ℕ)
when true cursor = some cursor
when false cursor = none

module _ {ℓ} {R : Type ℓ} where
  abbrev pub no_links : List R → PageBody R
  no_links rows = record {
    rows = rows;
    has_next = false;
    has_prev = false;
    next_cursor = none;
    prev_cursor = none;
  }

  -- the switch on the direction
  unfoldable pub links : List R → Bool → String → Bool → List ℕ → List ℕ → PageBody R
  links rows has_more direction has_cursor newest oldest =
      if str_eq direction "next"
      then record {
        rows = rows;
        has_next = has_more;
        has_prev = has_cursor;
        next_cursor = when has_more oldest;
        prev_cursor = when has_cursor newest;
      }
      else if str_eq direction "prev"
      then record {
        rows = rows;
        has_next = true;
        has_prev = has_more;
        next_cursor = some oldest;
        prev_cursor = when has_more newest;
      }
      else no_links rows

  -- rows[len(rows)-1] of the rows `r ∷ rows`
  abbrev pub last_of : R → List R → R
  last_of r [] = r
  last_of r (x ∷ rows) = last_of x rows

  abbrev linked :
      List R
      → Bool
      → String
      → Bool
      → Option (List ℕ)
      → Option (List ℕ)
      → Result HttpError (PageBody R)
  linked rows has_more direction has_cursor none oldest = err internal_error
  linked rows has_more direction has_cursor (some newest) none = err internal_error
  linked rows has_more direction has_cursor (some newest) (some oldest) =
      ok (links rows has_more direction has_cursor newest oldest)

  unfoldable pub build_body :
      (R → Option (List ℕ)) → List R → Bool → String → Bool → Result HttpError (PageBody R)
  build_body cursor_of [] has_more direction has_cursor = ok (no_links [])
  build_body cursor_of (r ∷ rows) has_more direction has_cursor =
      linked (r ∷ rows) has_more direction has_cursor (cursor_of r) (cursor_of (last_of r rows))

-- the test of a text for being empty
abbrev pub is_set : List ℕ → Bool
is_set [] = false
is_set (c ∷ s) = true

abbrev pub is_some : Option (List ℕ) → Bool
is_some none = false
is_some (some s) = true

module _ (base64 : Encodings) where
  abbrev pub tx_cursor : Transaction → Option (List ℕ)
  tx_cursor tx = make_tx_cursor base64 tx.block_height tx.tx_hash

  abbrev address_tx_cursor : AddressTx → Option (List ℕ)
  address_tx_cursor tx = make_tx_cursor base64 tx.block_height tx.hash

  unfoldable pub build_transactions_range_body :
      List Transaction → Bool → String → List ℕ → Result HttpError (PageBody Transaction)
  build_transactions_range_body rows has_more direction cursor =
      build_body tx_cursor rows has_more direction (is_set cursor)

  unfoldable pub build_address_txs_body :
      List AddressTx → Bool → String → Option (List ℕ) → Result HttpError (PageBody AddressTx)
  build_address_txs_body rows has_more direction cursor =
      build_body address_tx_cursor rows has_more direction (is_some cursor)
