-- ===== src/Api/Back.antt =====
-- Walking back: the page that `direction=prev` gives, in api/handlers/transactions.go.
use mathlib.Core.List.{append_assoc, append-nil}
use spectra_gnoland_indexer.Common.{
  ℕ, zero, suc, ◌≤◌, ◌<◌, ◌≡◌, refl, ap, ◌∙◌, sym, String, Bool, true, false, ◌&&◌, none, some,
  List, [], ◌∷◌, ◌++◌, length, length-append, Result, ok, ltb, arith, inl, inr, ◌⊎◌, subst,
}
use spectra_gnoland_indexer.Timescale.{DbError, Encodings, SeekKey, after, Select, decode_cursor}
use spectra_gnoland_indexer.Timescale.Types.{Transaction}
use spectra_gnoland_indexer.Timescale.Pages.{take, get_transactions_by_range}
use spectra_gnoland_indexer.Timescale.Reverse.{reverse, length-reverse}
use spectra_gnoland_indexer.Timescale.Answers.{Answers, matching, matching-after, IsNewestFirst}
use spectra_gnoland_indexer.Timescale.Served.{get_transactions_by_range-prev, take_all}
use spectra_gnoland_indexer.Api.Cursors.{IsBase64}
use spectra_gnoland_indexer.Api.Bodies.{
  PageBody, build_body, links, tx_cursor, is_set, no_links, build_transactions_range_body,
}
use spectra_gnoland_indexer.Api.Transactions.{limit_or_default, get_transactions_by_cursor}
use spectra_gnoland_indexer.Api.Walks.{
  build_body-links, tx_key, AllStored, AllStored-append, AllStored-append_right, stored_cursor,
  last_cursor,
}

module _ {R : Type 0} where
  reverse-append : (xs ys : List R) → reverse (xs ++ ys) ≡ reverse ys ++ reverse xs
  reverse-append [] ys = sym (append-nil (reverse ys))
  reverse-append (x ∷ xs) ys =
      ap (λ zs. zs ++ x ∷ []) (reverse-append xs ys)
      ∙ append_assoc (reverse ys) (reverse xs) (x ∷ [])

  reverse-reverse : (xs : List R) → reverse (reverse xs) ≡ xs
  reverse-reverse [] = refl
  reverse-reverse (x ∷ xs) = reverse-append (reverse xs) (x ∷ []) ∙ ap (◌∷◌ x) (reverse-reverse xs)

  take-append : (n : ℕ) (xs ys : List R) → length xs ≡ n → take n (xs ++ ys) ≡ xs
  unfolding take
  take-append zero [] ys h = refl
  take-append (suc n) [] ys h = absurd (omega arith)
  take-append zero (x ∷ xs) ys h = absurd (omega arith)
  take-append (suc n) (x ∷ xs) ys h = ap (◌∷◌ x) (take-append n xs ys (omega arith))

  -- `page` stands right before a row: it is full, or nothing is newer
  abbrev IsPage : ℕ → List R → List R → Type 0
  IsPage n newer page = (length page ≤ n) × ((newer ≡ []) ⊎ (length page ≡ n))

  last_rows :
      (n : ℕ) (newer page : List R)
      → IsPage n newer page
      → reverse (take n (reverse (newer ++ page))) ≡ page
  last_rows n newer page (le, inl e) =
      rw (e, take_all n (reverse page) (omega (arith, length-reverse page)), reverse-reverse page)
  last_rows n newer page (le, inr e) = rw (
    reverse-append newer page,
    take-append n (reverse page) (reverse newer) (length-reverse page ∙ e),
    reverse-reverse page,
  )

newer_left :
    {R : Type 0} (n : ℕ) (newer page : List R)
    → IsPage n newer page
    → 0 < n
    → (ltb 0 (length page) && ltb n (length (newer ++ page))) ≡ ltb 0 (length newer)
newer_left n newer page (le, inl e) pos = rw e (ground arith)
newer_left n newer page (le, inr e) pos = ground (arith, length-append newer page)

is_set-decode_cursor :
    (base64 : Encodings) (cursor : List ℕ) (k : SeekKey)
    → decode_cursor base64 (some cursor) ≡ ok (some k)
    → is_set cursor ≡ true
unfolding decode_cursor
is_set-decode_cursor base64 [] k h = cc
is_set-decode_cursor base64 (c ∷ cursor) k h = refl

-- what the theorem says of a body
abbrev pub Shows : List Transaction → Bool → PageBody Transaction → Type 0
Shows page more body = (body.rows ≡ page) × (body.has_prev ≡ more)

prev_body :
    (base64 : Encodings) (laws : IsBase64 base64) (page : List Transaction) (more : Bool)
    → AllStored base64 page
    → (body : PageBody Transaction) × (build_body (tx_cursor base64) page more "prev" true
        ≡ ok body)
      × Shows page (ltb 0 (length page) && more) body
unfolding links
prev_body base64 laws [] more st = (no_links [], unfold build_body in refl, (refl, refl))
prev_body base64 laws (r ∷ rs) more st =
    let (newest, c, _) = stored_cursor base64 laws r (AllStored-append base64 [] r rs st) in
    let (oldest, c') = last_cursor base64 laws r rs st in
    (
      links (r ∷ rs) more "prev" true newest oldest,
      build_body-links (tx_cursor base64) r rs more true "prev" newest oldest c c',
      (refl, ground arith),
    )

AllStored-append_left :
    (base64 : Encodings) (pre post : List Transaction)
    → AllStored base64 (pre ++ post)
    → AllStored base64 pre
AllStored-append_left base64 [] post h = tt
AllStored-append_left base64 (x ∷ pre) post (h, hs) = (h, AllStored-append_left base64 pre post hs)

module _ (base64 : Encodings) (laws : IsBase64 base64)
    (run : Select → Result DbError (List Transaction)) (chain_name : String)
    (rows : List Transaction) (newest_first : IsNewestFirst (tx_key base64) rows)
    (stored : AllStored base64 rows) (ans : Answers (tx_key base64) run chain_name none rows)
    (limit : ℕ) (allowed : limit ≤ 100) where
  -- Of such a table, the cursor of a row leads back: direction=prev gives the page that stands
  -- right before the row, newest first, and a newer page is announced exactly if rows are left.
  pub get_transactions_by_cursor-prev :
      (newer page : List Transaction) (tx : Transaction) (post : List Transaction)
      → rows ≡ (newer ++ page) ++ tx ∷ post
      → IsPage (limit_or_default limit) newer page
      → (cursor : List ℕ) × (body : PageBody Transaction) × (tx_cursor base64 tx ≡ some cursor)
        × (get_transactions_by_cursor base64
              (get_transactions_by_range run base64)
              chain_name
              cursor
              limit
              "prev"
            ≡ ok body)
        × Shows page (ltb 0 (length newer)) body
  unfolding get_transactions_by_cursor build_transactions_range_body
  get_transactions_by_cursor-prev newer page tx post e h =
      let n = limit_or_default limit in
      let small : ltb 100 n ≡ false = ground arith in
      let (cursor, c, d) =
        stored_cursor base64 laws tx
          (AllStored-append base64 (newer ++ page) tx post (subst (AllStored base64) e stored)) in
      let set = is_set-decode_cursor base64 cursor (tx_key base64 tx) d in
      let before_tx =
        ap (matching (tx_key base64) (after (tx_key base64 tx))) e
        ∙ matching-after (tx_key base64) (newer ++ page) tx post
            (subst (IsNewestFirst (tx_key base64)) e newest_first) in
      let served =
        get_transactions_by_range-prev base64 run chain_name (tx_key base64) rows ans cursor
          (tx_key base64 tx) (newer ++ page) n (ground arith) (ground arith) d before_tx in
      let page_stored = AllStored-append_right base64 newer page (
        AllStored-append_left base64 (newer ++ page) (tx ∷ post)
          (subst (AllStored base64) e stored)) in
      let (body, b, (rows_eq, prev_eq)) =
        prev_body base64 laws page (ltb n (length (newer ++ page))) page_stored in
      (
        cursor,
        body,
        c,
        rw (small, set, served, last_rows n newer page h, set) b,
        (rows_eq, prev_eq ∙ newer_left n newer page h (ground arith)),
      )
