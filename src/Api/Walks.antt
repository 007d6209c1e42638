-- ===== src/Api/Walks.antt =====
-- Walking the pages of api/handlers/transactions.go with the cursors that they give.
use mathlib.Core.List.{append_assoc, append-nil}
use spectra_gnoland_indexer.Common.{
  ℕ, zero, suc, ◌-◌, ◌≤◌, ◌<◌, ◌≡◌, refl, ap, ◌∙◌, sym, String, Bool, true, false, Option, none,
  some, List, [], ◌∷◌, ◌++◌, length, length-append, Result, ok, err, ltb, arith, u64_mod, dec_lt,
  subst,
}
use mathlib.Core.Option
use spectra_gnoland_indexer.Timescale.{DbError, Encodings, SeekKey, before, Select, decode_cursor}
use spectra_gnoland_indexer.Timescale.Types.{Transaction}
use spectra_gnoland_indexer.Timescale.Pages.{take, get_transactions_by_range, next_seek}
use spectra_gnoland_indexer.Timescale.Answers.{
  Answers, matching, matching-before, matching_anywhere, IsNewestFirst,
}
use spectra_gnoland_indexer.Timescale.Served.{get_transactions_by_range-next, take_all}
use spectra_gnoland_indexer.Api.{HttpError}
use spectra_gnoland_indexer.Api.Cursors.{IsBase64, decode_cursor-make_tx_cursor}
use spectra_gnoland_indexer.Api.Bodies.{
  PageBody, build_body, links, last_of, tx_cursor, is_set, when, build_transactions_range_body,
}
use spectra_gnoland_indexer.Api.Transactions.{limit_or_default, get_transactions_by_cursor}

-- the page's rows before those of the pages after it
abbrev prepend {ℓ} : {R : Type ℓ} → List R → Result HttpError (List R) → Result HttpError (List R)
prepend rows (ok older) = ok (rows ++ older)
prepend rows (err e) = err e

-- what a page leads to: the pages of the cursor that it gives, if it gives one
abbrev pub older {ℓ} :
    {R : Type ℓ}
    → (List ℕ → Result HttpError (List R))
    → Option (List ℕ)
    → Result HttpError (List R)
older continue none = ok []
older continue (some cursor) = continue cursor

abbrev pub follow {ℓ} :
    {R : Type ℓ}
    → (List ℕ → Result HttpError (List R))
    → Result HttpError (PageBody R)
    → Result HttpError (List R)
follow continue (err e) = err e
follow continue (ok body) = prepend body.rows (older continue body.next_cursor)

-- a client that follows `next_cursor` from page to page, at most `pages` of them
unfoldable pub walk {ℓ} :
    {R : Type ℓ} → (List ℕ → Result HttpError (PageBody R)) → ℕ → List ℕ → Result HttpError (List R)
walk get_page zero cursor = ok []
walk get_page (suc pages) cursor = follow (walk get_page pages) (get_page cursor)

module _ {R : Type 0} where
  -- a page that ends before the rows do, its last row, and the rows after it
  abbrev Cut : ℕ → R → List R → Type 0
  Cut m r rs =
      (init : List R) × (x : R) × (post : List R) × (r ∷ rs ≡ init ++ x ∷ post)
      × (take (suc m) (r ∷ rs) ≡ init ++ x ∷ [])
      × (last_of r (take m rs) ≡ x)

  cut : (m : ℕ) (r : R) (rs : List R) → m < length rs → Cut m r rs
  unfolding take
  cut zero r rs h = ([], r, rs, refl, refl, refl)
  cut (suc m) r [] h = absurd (omega arith)
  cut (suc m) r (s ∷ rs) h =
      let (init, x, post, e, p, l) = cut m s rs (omega arith) in
      (r ∷ init, x, post, ap (◌∷◌ r) e, ap (◌∷◌ r) p, l)

  -- a body whose rows have cursors
  pub build_body-links :
      (cursor_of : R → Option (List ℕ)) (r : R) (rs : List R) (has_more has_cursor : Bool)
      (direction : String) (newest oldest : List ℕ)
      → cursor_of r ≡ some newest
      → cursor_of (last_of r rs) ≡ some oldest
      → build_body cursor_of (r ∷ rs) has_more direction has_cursor
        ≡ ok (links (r ∷ rs) has_more direction has_cursor newest oldest)
  unfolding build_body
  build_body-links cursor_of r rs has_more has_cursor direction newest oldest p q = rw (p, q)

-- the row's hash is base64, and its height fits
abbrev IsStored : Encodings → Transaction → Type 0
IsStored base64 tx =
    (raw : List ℕ) × (base64.std_decode tx.tx_hash ≡ some raw) × (tx.block_height < u64_mod)

abbrev pub AllStored : Encodings → List Transaction → Type 0
AllStored base64 [] = Unit
AllStored base64 (tx ∷ rows) = IsStored base64 tx × AllStored base64 rows

-- (block_height, tx_hash) of the row
abbrev pub tx_key : Encodings → Transaction → SeekKey
tx_key base64 tx = (tx.block_height, Option.get_or (base64.std_decode tx.tx_hash) [])

pub AllStored-append :
    (base64 : Encodings) (pre : List Transaction) (tx : Transaction) (post : List Transaction)
    → AllStored base64 (pre ++ tx ∷ post)
    → IsStored base64 tx
AllStored-append base64 [] tx post (h, hs) = h
AllStored-append base64 (x ∷ pre) tx post (h, hs) = AllStored-append base64 pre tx post hs

pub AllStored-append_right :
    (base64 : Encodings) (pre post : List Transaction)
    → AllStored base64 (pre ++ post)
    → AllStored base64 post
AllStored-append_right base64 [] post h = h
AllStored-append_right base64 (x ∷ pre) post (h, hs) = AllStored-append_right base64 pre post hs

module _ (base64 : Encodings) (laws : IsBase64 base64) where
  pub stored_cursor :
      (tx : Transaction)
      → IsStored base64 tx
      → (cursor : List ℕ) × (tx_cursor base64 tx ≡ some cursor)
        × (decode_cursor base64 (some cursor) ≡ ok (some (tx_key base64 tx)))
  stored_cursor tx (raw, d, lt) =
      rw d (decode_cursor-make_tx_cursor base64 laws tx.block_height tx.tx_hash raw lt d)

  pub last_cursor :
      (r : Transaction) (rs : List Transaction)
      → AllStored base64 (r ∷ rs)
      → (cursor : List ℕ) × (tx_cursor base64 (last_of r rs) ≡ some cursor)
  last_cursor r [] st =
      let (cursor, c, _) = stored_cursor r (AllStored-append base64 [] r [] st) in (cursor, c)
  last_cursor r (s ∷ rs) (_, st) = last_cursor s rs st

  follow-build_body :
      (continue : List ℕ → Result HttpError (List Transaction)) (r : Transaction)
      (rs : List Transaction) (has_more has_cursor : Bool) (tail : List Transaction)
      (newest oldest : List ℕ)
      → tx_cursor base64 r ≡ some newest
      → tx_cursor base64 (last_of r rs) ≡ some oldest
      → older continue (when has_more oldest) ≡ ok tail
      → follow continue (build_body (tx_cursor base64) (r ∷ rs) has_more "next" has_cursor)
        ≡ ok ((r ∷ rs) ++ tail)
  unfolding links
  follow-build_body continue r rs has_more has_cursor tail newest oldest p q e =
      rw (build_body-links (tx_cursor base64) r rs has_more has_cursor "next" newest oldest p q, e)

  -- one page of the rows that are left, and what the cursor of its last row leads to
  follow_page :
      (continue : List ℕ → Result HttpError (List Transaction)) (m : ℕ) (r : Transaction)
      (rs : List Transaction) (has_cursor : Bool)
      → AllStored base64 (r ∷ rs)
      → ((init : List Transaction) (x : Transaction) (post : List Transaction) (cursor : List ℕ)
          → r ∷ rs ≡ init ++ x ∷ post
          → decode_cursor base64 (some cursor) ≡ ok (some (tx_key base64 x))
          → continue cursor ≡ ok post)
      → follow continue (
          build_body
            (tx_cursor base64)
            (take (suc m) (r ∷ rs))
            (ltb (suc m) (length (r ∷ rs)))
            "next"
            has_cursor)
        ≡ ok (r ∷ rs)
  unfolding take
  follow_page continue m r rs has_cursor st go = elim (dec_lt m (length rs)) [
    | yes h ↦
        let (init, x, post, e, p, l) = cut m r rs h in
        let (newest, c, _) = stored_cursor r (AllStored-append base64 [] r rs st) in
        let (oldest, c', d) =
          stored_cursor x (AllStored-append base64 init x post (subst (AllStored base64) e st)) in
        let more : ltb (suc m) (suc (length rs)) ≡ true = ground arith in
        rw more (
          follow-build_body continue r (take m rs) true has_cursor post newest oldest c
            (ap (tx_cursor base64) l ∙ c') (go init x post oldest e d)
          ∙ ap ok (ap (λ page. page ++ post) p ∙ append_assoc init (x ∷ []) post ∙ sym e))
    | no h ↦
        let (newest, c, _) = stored_cursor r (AllStored-append base64 [] r rs st) in
        let (oldest, c') = last_cursor r rs st in
        let less : ltb (suc m) (suc (length rs)) ≡ false = ground arith in
        rw (less, take_all m rs (omega arith))
          (follow-build_body continue r rs false has_cursor [] newest oldest c c' refl
            ∙ ap ok (append-nil (r ∷ rs)))
  ]

  module _ (run : Select → Result DbError (List Transaction)) (chain_name : String)
      (rows : List Transaction) (newest_first : IsNewestFirst (tx_key base64) rows)
      (stored : AllStored base64 rows) (ans : Answers (tx_key base64) run chain_name none rows)
      (limit : ℕ) (allowed : limit ≤ 100) where
    abbrev page_at : List ℕ → Result HttpError (PageBody Transaction)
    page_at cursor =
        get_transactions_by_cursor base64 (get_transactions_by_range run base64) chain_name cursor
          limit "next"

    get_page-build_body :
        (cursor : List ℕ) (k : Option SeekKey) (rest : List Transaction)
        → decode_cursor base64 (some cursor) ≡ ok k
        → matching (tx_key base64) (next_seek k) rows ≡ rest
        → page_at cursor
          ≡ build_body
              (tx_cursor base64)
              (take (limit_or_default limit) rest)
              (ltb (limit_or_default limit) (length rest))
              "next"
              (is_set cursor)
    unfolding get_transactions_by_cursor build_transactions_range_body
    get_page-build_body cursor k rest d m =
        let n = limit_or_default limit in
        let small : ltb 100 n ≡ false = ground arith in
        rw (
          small,
          get_transactions_by_range-next base64 run chain_name (tx_key base64) rows ans cursor k
              rest n (ground arith) (ground arith) d m,
        )

    walk_rest :
        (pages : ℕ) (cursor : List ℕ) (k : Option SeekKey) (pre rest : List Transaction)
        → length rest < pages
        → rows ≡ pre ++ rest
        → decode_cursor base64 (some cursor) ≡ ok k
        → matching (tx_key base64) (next_seek k) rows ≡ rest
        → walk page_at pages cursor ≡ ok rest
    unfolding walk next_seek
    walk_rest zero cursor k pre rest h e d m = absurd (omega arith)
    walk_rest (suc pages) cursor k pre [] h e d m =
        ap (follow (walk page_at pages)) (get_page-build_body cursor k [] d m)
        ∙ rw (take_all {R = Transaction} (limit_or_default limit) [] (omega arith))
            (unfold build_body in refl)
    walk_rest (suc pages) cursor k pre (r ∷ rs) h e d m =
        let n = limit_or_default limit in
        let positive : n ≡ suc (n - 1) = ground arith in
        ap (follow (walk page_at pages)) (get_page-build_body cursor k (r ∷ rs) d m)
        ∙ rw positive (
            follow_page (walk page_at pages) (n - 1) r rs (is_set cursor)
              (AllStored-append_right base64 pre (r ∷ rs) (subst (AllStored base64) e stored))
              (λ init x post c split dec.
                let whole : rows ≡ (pre ++ init) ++ x ∷ post =
                  e ∙ ap (λ older. pre ++ older) split ∙ sym (append_assoc pre init (x ∷ post)) in
                let size = ap length split ∙ length-append init (x ∷ post) in
                walk_rest pages c (some (tx_key base64 x)) ((pre ++ init) ++ x ∷ []) post
                  (omega (arith, size)) (whole ∙ sym (append_assoc (pre ++ init) (x ∷ []) post)) dec
                  (ap (matching (tx_key base64) (before (tx_key base64 x))) whole
                    ∙ matching-before (tx_key base64) (pre ++ init) x post
                        (subst (IsNewestFirst (tx_key base64)) whole newest_first))))

    -- Of a table whose rows have distinct keys, base64 hashes and heights below 2^64, following the
    -- next cursors of GetTransactionsByCursor from the first page on, with any limit of at most 100
    -- and more pages allowed than there are rows, gives every transaction once, newest first.
    pub walk-newest_first : (pages : ℕ) → length rows < pages → walk page_at pages [] ≡ ok rows
    walk-newest_first pages h =
        walk_rest pages [] none [] rows h refl (unfold decode_cursor in refl)
          (unfold next_seek in matching_anywhere (tx_key base64) rows)
