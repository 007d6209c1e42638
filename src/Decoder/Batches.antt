-- ===== src/Decoder/Batches.antt =====
-- How the rows are grouped by table, and which message types are listed.
use spectra_gnoland_indexer.Common.{
  String, ◌≡◌, refl, sym, ap, ◌∙◌, true, false, ◌||◌, inl, inr, none, some, List, [], ◌∷◌, ◌++◌,
  map, done, insert_key, contains, contains-insert_key, string_comparable, str_eq, eq_iff,
  if◌then◌else◌, GoMap, lookup, put, lookup-put, arith, Bool-cases,
}
use spectra_gnoland_indexer.Schema.Rows.{table_name}
use spectra_gnoland_indexer.Decoder.Product.{
  MessageRow, DbMessages, InsertBatch, append_row, empty_batch, Grouped, group_row, group,
  take_batches, insert_batches,
}

-- the tables in the order in which they are first seen
abbrev pub tables : DbMessages → List String → List String
tables [] seen = seen
tables (r ∷ rs) seen = tables rs (insert_key (table_name r.row) seen)

-- the rows of one table, in order, after those of a batch
abbrev pub rows_of : String → DbMessages → InsertBatch → InsertBatch
rows_of t [] b = b
rows_of t (r ∷ rs) b = rows_of t rs (if str_eq (table_name r.row) t then append_row b r else b)

-- the map holds the batch `f t` of each table of the order, and those of the others are empty
Holds : (String → InsertBatch) → Grouped → Type 0
Holds f g =
    (t : String)
    → (lookup t g.by_table ≡ (if contains t g.order then some (f t) else none))
      × (contains t g.order ≡ false → f t ≡ empty_batch)

abbrev add_to : (String → InsertBatch) → MessageRow → String → InsertBatch
add_to f r t = if str_eq (table_name r.row) t then append_row (f t) r else f t

insert_key_absent :
    (a : String) (s : List String) → contains a s ≡ false → insert_key a s ≡ s ++ a ∷ []
insert_key_absent a [] h = refl
insert_key_absent a (x ∷ s) h = ground (arith, eq_iff x a, insert_key_absent a s)

insert_key_present : (a : String) (s : List String) → contains a s ≡ true → insert_key a s ≡ s
insert_key_present a [] h = cc
insert_key_present a (x ∷ s) h = ground (arith, eq_iff x a, insert_key_present a s)

add_to_empty :
    (f : String → InsertBatch) (r : MessageRow) (t : String) (order : List String)
    → (str_eq (table_name r.row) t || contains t order) ≡ false
    → (contains t order ≡ false → f t ≡ empty_batch)
    → add_to f r t ≡ empty_batch
add_to_empty f r t order e h = elim (Bool-cases (str_eq (table_name r.row) t)) [
  | inl b ↦ let no = rw b at e in cc
  | inr b ↦ rw b (h (rw b at e))
]

-- a table that is written
Holds-put :
    (f : String → InsertBatch) (r : MessageRow) (T : String) (by_table : GoMap String InsertBatch)
    (order : List String)
    → Holds f (record { by_table = by_table; order = order })
    → (t : String)
    → (lookup t (put T (append_row (f T) r) by_table) ≡ (
        if (str_eq T t || contains t order)
        then some (if str_eq T t then append_row (f t) r else f t)
        else none))
unfolding Holds
Holds-put f r T by_table order h t = elim (Bool-cases (str_eq T t)) [
  | inl e ↦
      let same = (eq_iff T t).0 e in
      lookup-put T t (append_row (f T) r) by_table ∙ rw e (ap (λ x. some (append_row (f x) r)) same)
  | inr e ↦ lookup-put T t (append_row (f T) r) by_table ∙ rw e (h t).0
]

group_row-Holds :
    (f : String → InsertBatch) (r : MessageRow) (g : Grouped)
    → Holds f g
    → let g' = group_row (lookup (table_name r.row) g.by_table) r g in
      Holds (add_to f r) g' × (g'.order ≡ insert_key (table_name r.row) g.order)
unfolding Holds
group_row-Holds f r g h =
    let T = table_name r.row in
    let (at, empty) = h T in
    let write = Holds-put f r T g.by_table g.order h in
    elim (Bool-cases (contains T g.order)) [
      | inl c ↦
          let found : lookup T g.by_table ≡ some (f T) = rw c at at in
          let same = insert_key_present T g.order c in
          rw found (
            λ t.
                let cont : contains t g.order ≡ (str_eq T t || contains t g.order) =
                  ap (contains t) (sym same) ∙ contains-insert_key T t g.order in
                (
                  write t ∙ ap (λ b. if b then some (add_to f r t) else none) (sym cont),
                  λ e. add_to_empty f r t g.order (sym cont ∙ e) (h t).1,
                ),
            sym same,
          )
      | inr n ↦
          let missing : lookup T g.by_table ≡ none = rw n at at in
          let new = insert_key_absent T g.order n in
          rw missing (
            λ t.
                let cont : contains t (g.order ++ T ∷ []) ≡ (str_eq T t || contains t g.order) =
                  ap (contains t) (sym new) ∙ contains-insert_key T t g.order in
                (
                  ap (λ b. lookup t (put T (append_row b r) g.by_table)) (sym (empty n))
                      ∙ write t
                      ∙ ap (λ b. if b then some (add_to f r t) else none) (sym cont),
                  λ e. add_to_empty f r t g.order (sym cont ∙ e) (h t).1,
                ),
            sym new,
          )
    ]

group-tables :
    (rs : DbMessages) (f : String → InsertBatch) (g : Grouped)
    → Holds f g
    → let g' = group rs g in
      (g'.order ≡ tables rs g.order)
      × ((t : String)
          → lookup t g'.by_table
            ≡ (if contains t g'.order then some (rows_of t rs (f t)) else none))
unfolding Holds group
group-tables [] f g h = (refl, λ t. (h t).0)
group-tables (r ∷ rs) f g h =
    let g' = group_row (lookup (table_name r.row) g.by_table) r g in
    let (h', order) = group_row-Holds f r g h in
    let (all, at) = group-tables rs (add_to f r) g' h' in (all ∙ ap (tables rs) order, at)

take_batches-map :
    (ts order : List String) (by_table : GoMap String InsertBatch) (f : String → InsertBatch)
    → ((t : String) → lookup t by_table ≡ (if contains t order then some (f t) else none))
    → ((t : String) → contains t ts ≡ true → contains t order ≡ true)
    → take_batches ts by_table ≡ done (map f ts)
unfolding take_batches
take_batches-map [] order by_table f h k = refl
take_batches-map (t ∷ ts) order by_table f h k =
    let here : contains t order ≡ true = k t (ground (arith, eq_iff t t)) in
    let found : lookup t by_table ≡ some (f t) = rw here at (h t) in
    let rest = take_batches-map ts order by_table f h (λ u c. k u (ground (arith, c))) in
    rw (found, rest)

-- InsertBatches never dereferences nil, and gives one batch for each table that has a row, in the
-- order in which the tables are first seen: all rows of that table, in order, with their
-- transactions' ids beside them.
pub insert_batches-tables :
    (m : DbMessages) → insert_batches m ≡ done (map (λ t. rows_of t m empty_batch) (tables m []))
unfolding insert_batches Holds lookup
insert_batches-tables m =
    let start : Grouped = record { by_table = []; order = [] } in
    let (order, at) = group-tables m (λ t. empty_batch) start (λ t. (refl, λ e. refl)) in
    take_batches-map (group m start).order (group m start).order (group m start).by_table
      (λ t. rows_of t m empty_batch) at (λ t c. c)
    ∙ ap (λ ts. done (map (λ t. rows_of t m empty_batch) ts)) order
