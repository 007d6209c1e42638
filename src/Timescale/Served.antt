-- ===== src/Timescale/Served.antt =====
-- The pages that `GetTransactionsByRange` serves from the rows of a table.
use spectra_gnoland_indexer.Common.{
  ℕ, zero, suc, ◌+◌, ◌≤◌, ◌<◌, ◌≡◌, refl, ap, ◌∙◌, sym, String, Bool, true, false, ◌||◌, Option,
  none, some, List, [], ◌∷◌, length, Result, ok, ltb, ◌==◌, Bool-cases, if◌then◌else◌, arith, inl,
  inr,
}
use spectra_gnoland_indexer.Timescale.{DbError, Encodings, SeekKey, after, Select, decode_cursor}
use spectra_gnoland_indexer.Timescale.Pages.{
  take, finalize, next_seek, prev_query, page_query, page_select, run_page,
  get_transactions_by_range,
}
use spectra_gnoland_indexer.Timescale.Reverse.{reverse, length-reverse, reverse_slice-reverse}
use spectra_gnoland_indexer.Timescale.Answers.{Answers, answers, matching}

module _ {R : Type 0} where
  pub take_all : (n : ℕ) (xs : List R) → length xs ≤ n → take n xs ≡ xs
  unfolding take
  take_all zero [] h = refl
  take_all zero (x ∷ xs) h = absurd (omega arith)
  take_all (suc n) [] h = refl
  take_all (suc n) (x ∷ xs) h = ap (◌∷◌ x) (take_all n xs (omega arith))

  length-take_more : (n : ℕ) (xs : List R) → ltb n (length (take (suc n) xs)) ≡ ltb n (length xs)
  unfolding take
  length-take_more n [] = refl
  length-take_more zero (x ∷ xs) = ground arith
  length-take_more (suc n) (x ∷ xs) = ground (arith, length-take_more n xs)

  take-take_more : (n : ℕ) (xs : List R) → take n (take (suc n) xs) ≡ take n xs
  unfolding take
  take-take_more zero xs = refl
  take-take_more (suc n) [] = refl
  take-take_more (suc n) (x ∷ xs) = ap (◌∷◌ x) (take-take_more n xs)

  -- the page of a query that asks for one row more
  page_of_probe :
      (n : ℕ) (xs : List R)
      → (if ltb n (length (take (suc n) xs)) then take n (take (suc n) xs) else take (suc n) xs)
        ≡ take n xs
  page_of_probe n xs = elim (Bool-cases (ltb n (length xs))) [
    | inl e ↦ rw (length-take_more n xs, e) (take-take_more n xs)
    | inr e ↦
        rw (length-take_more n xs, e)
          (take_all (suc n) xs (ground arith) ∙ sym (take_all n xs (ground arith)))
  ]

  pub finalize-take :
      (n : ℕ) (reverse? : Bool) (xs : List R)
      → finalize n reverse? (take (suc n) xs)
        ≡ ((if reverse? then reverse (take n xs) else take n xs), ltb n (length xs))
  unfolding finalize
  finalize-take n false xs = rw (page_of_probe n xs, length-take_more n xs)
  finalize-take n true xs =
      rw (page_of_probe n xs, length-take_more n xs, reverse_slice-reverse (take n xs))

module _ {R : Type 0} (base64 : Encodings) (run : Select → Result DbError (List R))
    (chain_name : String) (key : R → SeekKey) (rows : List R)
    (ans : Answers key run chain_name none rows) where
  allowed : (n : ℕ) → 0 < n → n ≤ 100 → (n == 0 || ltb 100 n) ≡ false
  allowed n pos le = ground arith

  -- the rows that the cursor's key is followed by
  pub get_transactions_by_range-next :
      (cursor : List ℕ) (k : Option SeekKey) (rest : List R) (n : ℕ)
      → 0 < n
      → n ≤ 100
      → decode_cursor base64 (some cursor) ≡ ok k
      → matching key (next_seek k) rows ≡ rest
      → get_transactions_by_range run base64 chain_name cursor n "next"
        ≡ ok (take n rest, ltb n (length rest))
  unfolding get_transactions_by_range run_page page_query answers
  get_transactions_by_range-next cursor k rest n pos le d m =
      let more : n + 1 ≡ suc n = omega arith in
      rw
        (
          allowed n pos le,
          d,
          more,
          ans (page_select chain_name none none (suc n) (next_seek k) false) refl refl refl,
          m,
        )
        (ap ok (finalize-take n false rest))

  -- the rows that precede the cursor's key
  pub get_transactions_by_range-prev :
      (cursor : List ℕ) (k : SeekKey) (newer : List R) (n : ℕ)
      → 0 < n
      → n ≤ 100
      → decode_cursor base64 (some cursor) ≡ ok (some k)
      → matching key (after k) rows ≡ newer
      → get_transactions_by_range run base64 chain_name cursor n "prev"
        ≡ ok (reverse (take n (reverse newer)), ltb n (length newer))
  unfolding get_transactions_by_range run_page page_query answers prev_query
  get_transactions_by_range-prev cursor k newer n pos le d m =
      let more : n + 1 ≡ suc n = omega arith in
      rw
        (
          allowed n pos le,
          d,
          more,
          ans (page_select chain_name none none (suc n) (after k) true) refl refl refl,
          m,
        )
        (ap ok (finalize-take n true (reverse newer)) ∙ rw (length-reverse newer))
