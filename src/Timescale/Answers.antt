-- ===== src/Timescale/Answers.antt =====
-- What a database answers to the query of a page: PostgreSQL's WHERE, ORDER BY and LIMIT over the
-- rows of one chain (and one address), which are kept newest first.
use spectra_gnoland_indexer.Common.{
  ℕ, ◌≡◌, refl, Bool, true, false, ◌&&◌, ◌||◌, none, List, [], ◌∷◌, ◌++◌, String, Option, Result,
  ok, ltb, ◌==◌, if◌then◌else◌, arith, ap,
}
use spectra_gnoland_indexer.Timescale.{SeekKey, Seek, anywhere, before, after, Select, DbError}
use spectra_gnoland_indexer.Timescale.Pages.{take}
use spectra_gnoland_indexer.Timescale.Reverse.{reverse}

-- the order of `bytea`
abbrev bytes_lt : List ℕ → List ℕ → Bool
bytes_lt _ [] = false
bytes_lt [] (y ∷ ys) = true
bytes_lt (x ∷ xs) (y ∷ ys) = ltb x y || (x == y && bytes_lt xs ys)

-- the order of a row value (block_height, tx_hash)
abbrev key_lt : SeekKey → SeekKey → Bool
key_lt (h, b) (k, c) = ltb h k || (h == k && bytes_lt b c)

abbrev satisfies : Seek → SeekKey → Bool
satisfies anywhere x = true
satisfies (before key) x = key_lt x key
satisfies (after key) x = key_lt key x

bytes_lt_irrefl : (b : List ℕ) → bytes_lt b b ≡ false
bytes_lt_irrefl [] = refl
bytes_lt_irrefl (x ∷ b) = ground (arith, bytes_lt_irrefl b)

bytes_lt_asym : (b c : List ℕ) → bytes_lt b c ≡ true → bytes_lt c b ≡ false
bytes_lt_asym [] [] h = refl
bytes_lt_asym [] (y ∷ c) h = refl
bytes_lt_asym (x ∷ b) [] h = cc
bytes_lt_asym (x ∷ b) (y ∷ c) h = ground (arith, bytes_lt_asym b c)

key_lt_irrefl : (x : SeekKey) → key_lt x x ≡ false
key_lt_irrefl (h, b) = ground (arith, bytes_lt_irrefl b)

key_lt_asym : (x y : SeekKey) → key_lt x y ≡ true → key_lt y x ≡ false
key_lt_asym (h, b) (k, c) p = ground (arith, bytes_lt_asym b c)

module _ {ℓ} {R : Type ℓ} (key : R → SeekKey) where
  unfoldable pub matching : Seek → List R → List R
  matching seek [] = []
  matching seek (r ∷ rows) =
      let rest = matching seek rows in if satisfies seek (key r) then r ∷ rest else rest

  unfoldable pub answers : List R → Select → List R
  answers rows query =
      let found = matching query.seek rows in
      take query.limit (if query.ascending then reverse found else found)

  -- every row of the list is older than the key
  abbrev AllOlder : SeekKey → List R → Type 0
  AllOlder k [] = Unit
  AllOlder k (r ∷ rows) = (key_lt (key r) k ≡ true) × AllOlder k rows

  -- no two rows have one key, and each is newer than the next ones
  abbrev pub IsNewestFirst : List R → Type 0
  IsNewestFirst [] = Unit
  IsNewestFirst (r ∷ rows) = AllOlder (key r) rows × IsNewestFirst rows

  pub matching_anywhere : (rows : List R) → matching anywhere rows ≡ rows
  unfolding matching
  matching_anywhere [] = refl
  matching_anywhere (r ∷ rows) = ap (◌∷◌ r) (matching_anywhere rows)

  matching-AllOlder :
      (k : SeekKey) (rows : List R) → AllOlder k rows → matching (before k) rows ≡ rows
  unfolding matching
  matching-AllOlder k [] h = refl
  matching-AllOlder k (r ∷ rows) (h, hs) = rw (h, matching-AllOlder k rows hs)

  AllOlder-append :
      (k : SeekKey) (pre : List R) (r : R) (post : List R)
      → AllOlder k (pre ++ r ∷ post)
      → key_lt (key r) k ≡ true
  AllOlder-append k [] r post (h, hs) = h
  AllOlder-append k (x ∷ pre) r post (h, hs) = AllOlder-append k pre r post hs

  -- what stands before a row's key is what follows the row
  pub matching-before :
      (pre : List R) (r : R) (post : List R)
      → IsNewestFirst (pre ++ r ∷ post)
      → matching (before (key r)) (pre ++ r ∷ post) ≡ post
  unfolding matching
  matching-before [] r post (h, hs) = rw (key_lt_irrefl (key r), matching-AllOlder (key r) post h)
  matching-before (x ∷ pre) r post (h, hs) = rw (
    key_lt_asym (key r) (key x) (AllOlder-append (key x) pre r post h),
    matching-before pre r post hs,
  )

  no_newer : (k : SeekKey) (rows : List R) → AllOlder k rows → matching (after k) rows ≡ []
  unfolding matching
  no_newer k [] h = refl
  no_newer k (r ∷ rows) (h, hs) = rw (key_lt_asym (key r) k h, no_newer k rows hs)

  -- what stands after a row's key is what precedes the row
  pub matching-after :
      (pre : List R) (r : R) (post : List R)
      → IsNewestFirst (pre ++ r ∷ post)
      → matching (after (key r)) (pre ++ r ∷ post) ≡ pre
  unfolding matching
  matching-after [] r post (h, hs) = rw (key_lt_irrefl (key r), no_newer (key r) post h)
  matching-after (x ∷ pre) r post (h, hs) =
      rw (AllOlder-append (key x) pre r post h, matching-after pre r post hs)

  -- `run` answers the queries for a chain and an address from `rows`
  abbrev pub Answers : (Select → Result DbError (List R)) → String → Option ℕ → List R → Type ℓ
  Answers run chain_name address rows =
      (query : Select)
      → query.chain_name ≡ chain_name
      → query.address ≡ address
      → query.between ≡ none
      → run query ≡ ok (answers rows query)
