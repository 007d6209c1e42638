-- ===== src/Timescale/Blocks.antt =====
-- pkgs/database/timescaledb/query_block.go: blocks with the hashes of their transactions. The two
-- queries of each function run at the same time; a query gives its rows, or nothing for an error.
use mathlib.Core.List.{append_assoc, append-nil}
use mathlib.Core.Option
use spectra_gnoland_indexer.Common.{
  ℕ, ◌≡◌, refl, ap, ◌∙◌, sym, String, Option, none, some, List, [], ◌∷◌, ◌++◌, map, length, Result,
  ok, err, GoMap, lookup, put, lookup-put, ◌==◌, if◌then◌else◌, Bool-cases, nat_comparable, inl,
  inr, arith,
}
use spectra_gnoland_indexer.Timescale.{DbError, not_found, failure}
use spectra_gnoland_indexer.Timescale.Types.{BlockData}

-- the scanned columns (tx_hash, block_height)
abbrev pub TxRow : Type 0
TxRow = String × ℕ

-- a missing key gives the nil slice
abbrev at_height : ℕ → GoMap ℕ (List String) → List String
at_height h txs = Option.get_or (lookup h txs) []

-- the loop over the rows: txs[height] = append(txs[height], hash)
unfoldable pub collect_hashes : List TxRow → GoMap ℕ (List String) → GoMap ℕ (List String)
collect_hashes [] txs = txs
collect_hashes ((hash, h) ∷ rows) txs =
    collect_hashes rows (put h (at_height h txs ++ hash ∷ []) txs)

unfoldable pub fetch_transaction_data : Option (List TxRow) → Option (GoMap ℕ (List String))
fetch_transaction_data none = none
fetch_transaction_data (some rows) = some (collect_hashes rows [])

abbrev pub with_hashes : List String → BlockData → BlockData
with_hashes hashes block =
    let txs = block.txs ++ hashes in record block { txs = txs; tx_counter = length txs }

-- the hashes of the block's height, and their number
abbrev attach : GoMap ℕ (List String) → BlockData → BlockData
attach txs block = with_hashes (at_height block.height txs) block

-- errgroup.Wait: both results, or an error
abbrev pub both :
    Option (List BlockData)
    → Option (GoMap ℕ (List String))
    → Option (List BlockData × GoMap ℕ (List String))
both none txs = none
both (some blocks) none = none
both (some blocks) (some txs) = some (blocks, txs)

abbrev all_attached :
    Option (List BlockData × GoMap ℕ (List String)) → Result DbError (List BlockData)
all_attached none = err failure
all_attached (some ([], txs)) = err not_found
all_attached (some (b ∷ blocks, txs)) = ok (map (attach txs) (b ∷ blocks))

abbrev first_attached : Option (List BlockData × GoMap ℕ (List String)) → Result DbError BlockData
first_attached none = err failure
first_attached (some ([], txs)) = err not_found
first_attached (some (b ∷ blocks, txs)) = ok (attach txs b)

-- the queries of the blocks and of the transactions, by their two bounds
module _ (query_blocks : ℕ → ℕ → String → Option (List BlockData))
    (query_txs : ℕ → ℕ → String → Option (List TxRow)) where
  unfoldable pub get_blocks_between : ℕ → ℕ → String → Result DbError (List BlockData)
  get_blocks_between from_height to_height chain_name = all_attached (
      both (query_blocks from_height to_height chain_name)
        (fetch_transaction_data (query_txs from_height to_height chain_name)))

-- the queries of one height, and of the latest one
unfoldable pub get_block :
    (ℕ → String → Option (List BlockData))
    → (ℕ → String → Option (List TxRow))
    → ℕ
    → String
    → Result DbError BlockData
get_block query_blocks query_txs height chain_name =
    first_attached
      (both (query_blocks height chain_name) (fetch_transaction_data (query_txs height chain_name)))

unfoldable get_latest_block :
    (String → Option (List BlockData))
    → (String → Option (List TxRow))
    → String
    → Result DbError BlockData
get_latest_block query_blocks query_txs chain_name =
    first_attached (both (query_blocks chain_name) (fetch_transaction_data (query_txs chain_name)))

unfoldable get_last_x_blocks :
    (ℕ → String → Option (List BlockData))
    → (ℕ → String → Option (List TxRow))
    → String
    → ℕ
    → Result DbError (List BlockData)
get_last_x_blocks query_blocks query_txs chain_name x =
    all_attached
      (both (query_blocks x chain_name) (fetch_transaction_data (query_txs x chain_name)))

-- the hashes of the rows of one height, in order
abbrev pub hashes_at : ℕ → List TxRow → List String
hashes_at h [] = []
hashes_at h ((hash, k) ∷ rows) = let rest = hashes_at h rows in if k == h then hash ∷ rest else rest

at_height-put :
    (h k : ℕ) (hash : String) (txs : GoMap ℕ (List String))
    → at_height h (put k (at_height k txs ++ hash ∷ []) txs)
      ≡ (if k == h then at_height h txs ++ hash ∷ [] else at_height h txs)
at_height-put h k hash txs = elim (Bool-cases (k == h)) [
  | inl e ↦
      let same : k ≡ h = ground arith in
      ap (λ o. Option.get_or o []) (lookup-put k h (at_height k txs ++ hash ∷ []) txs)
      ∙ rw e (ap (λ i. at_height i txs ++ hash ∷ []) same)
  | inr e ↦ ap (λ o. Option.get_or o []) (lookup-put k h (at_height k txs ++ hash ∷ []) txs) ∙ rw e
]

pub at_height-collect_hashes :
    (h : ℕ) (rows : List TxRow) (txs : GoMap ℕ (List String))
    → at_height h (collect_hashes rows txs) ≡ at_height h txs ++ hashes_at h rows
unfolding collect_hashes
at_height-collect_hashes h [] txs = sym (append-nil (at_height h txs))
at_height-collect_hashes h ((hash, k) ∷ rows) txs =
    at_height-collect_hashes h rows (put k (at_height k txs ++ hash ∷ []) txs)
    ∙ ap (λ front. front ++ hashes_at h rows) (at_height-put h k hash txs)
    ∙ (elim (Bool-cases (k == h)) [
      | inl e ↦ rw e (append_assoc (at_height h txs) (hash ∷ []) (hashes_at h rows))
      | inr e ↦ rw e
    ])

attach-hashes_at :
    (rows : List TxRow) (blocks : List BlockData)
    → map (attach (collect_hashes rows [])) blocks
      ≡ map (λ b. with_hashes (hashes_at b.height rows) b) blocks
attach-hashes_at rows [] = refl
attach-hashes_at rows (b ∷ blocks) =
    rw (at_height-collect_hashes b.height rows [], attach-hashes_at rows blocks)
      (unfold lookup in refl)

module _ (query_blocks : ℕ → ℕ → String → Option (List BlockData))
    (query_txs : ℕ → ℕ → String → Option (List TxRow)) where
  pub get_blocks_between-hashes_at :
      (from_height to_height : ℕ) (chain_name : String) (b : BlockData) (blocks : List BlockData)
      (rows : List TxRow)
      → query_blocks from_height to_height chain_name ≡ some (b ∷ blocks)
      → query_txs from_height to_height chain_name ≡ some rows
      → get_blocks_between query_blocks query_txs from_height to_height chain_name
        ≡ ok (map (λ c. with_hashes (hashes_at c.height rows) c) (b ∷ blocks))
  unfolding get_blocks_between fetch_transaction_data
  get_blocks_between-hashes_at from_height to_height chain_name b blocks rows p q =
      rw (p, q) (ap ok (attach-hashes_at rows (b ∷ blocks)))
