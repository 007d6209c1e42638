-- ===== src/Tests/Memory.antt =====
-- A database in memory that meets the laws of `AddressDb`: one table, and the outcomes of the
-- calls to come (`false` for a call that fails; a call beyond the list succeeds).
use spectra_gnoland_indexer.Common.{
  ℕ, ◌+◌, String, ◌≡◌, refl, subst, inl, inr, Bool, true, false, not, ◌&&◌, Option, none, some,
  List, [], ◌∷◌, GoMap, lookup, put, lookup-cons, lookup-put, contains, length, string_comparable,
  if◌then◌else◌, arith, Option-cases, Bool-cases, eq_iff, str_eq,
}
use spectra_gnoland_indexer.AddressCache.Database.{AddressDb}

pub record Table : Type 0 where
  pub rows : GoMap String ℕ
  pub outcomes : List Bool

abbrev pub next : List Bool → Bool × List Bool
next [] = (true, [])
next (b ∷ bs) = (b, bs)

unfoldable pub id_of : Table → String → Bool → String → Option ℕ
id_of t c v a = lookup a t.rows

-- the rows of the addresses that are asked for
unfoldable pub select : GoMap String ℕ → List String → GoMap String ℕ
select rows [] = []
select rows (x ∷ xs) = elim (lookup x rows) [
  | none ↦ select rows xs
  | some i ↦ (x, i) ∷ select rows xs
]

unfoldable pub find : Table → List String → String → Bool → Option (GoMap String ℕ) × Table
find t xs c v =
    let (done, rest) = next t.outcomes in
    (if done then some (select t.rows xs) else none, record t { outcomes = rest })

-- new rows take the next ids; an address that has a row keeps it
unfoldable pub add_row : String → GoMap String ℕ → GoMap String ℕ
add_row x rows = elim (lookup x rows) [ none ↦ put x (length rows + 1) rows | some _ ↦ rows ]

unfoldable pub add_rows : List String → GoMap String ℕ → GoMap String ℕ
add_rows [] rows = rows
add_rows (x ∷ xs) rows = add_rows xs (add_row x rows)

-- the addresses are distinct and have no row
unfoldable pub fresh : List String → GoMap String ℕ → Bool
fresh [] rows = true
fresh (x ∷ xs) rows = elim (lookup x rows) [
  | none ↦ not (contains x xs) && fresh xs rows
  | some _ ↦ false
]

-- a COPY fails as a whole if an address has a row or occurs twice
unfoldable pub insert : Table → List String → String → Bool → Bool × Table
insert t xs c v =
    let (done, rest) = next t.outcomes in
    let inserted = done && fresh xs t.rows in
    (inserted, record { rows = if inserted then add_rows xs t.rows else t.rows; outcomes = rest })

unfoldable pub get_all : Table → String → Bool → Option (GoMap String ℕ × ℕ) × Table
get_all t c v = (some (t.rows, length t.rows), t)

pub lookup-select :
    (rows : GoMap String ℕ) (xs : List String) (a : String)
    → lookup a (select rows xs) ≡ (if contains a xs then lookup a rows else none)
unfolding select
lookup-select rows [] a = unfold lookup in refl
lookup-select rows (x ∷ xs) a = elim (Option-cases (lookup x rows)) [
  | inl h ↦ rw (h, select) (ground (arith, lookup-select rows xs a, eq_iff x a))
  | inr (i, h) ↦
      rw (h, select)
        (ground (arith, lookup-select rows xs a, eq_iff x a, lookup-cons x a i (select rows xs)))
]

add_row_keeps :
    (x a : String) (rows : GoMap String ℕ) (i : ℕ)
    → lookup a rows ≡ some i
    → lookup a (add_row x rows) ≡ some i
unfolding add_row
add_row_keeps x a rows i h = ground (arith, lookup-put x a (length rows + 1) rows, eq_iff x a)

add_rows_keeps :
    (xs : List String) (a : String) (rows : GoMap String ℕ) (i : ℕ)
    → lookup a rows ≡ some i
    → lookup a (add_rows xs rows) ≡ some i
unfolding add_rows
add_rows_keeps [] a rows i h = h
add_rows_keeps (x ∷ xs) a rows i h =
    add_rows_keeps xs a (add_row x rows) i (add_row_keeps x a rows i h)

add_row_adds : (x : String) (rows : GoMap String ℕ) → (i : ℕ) × (lookup x (add_row x rows) ≡ some i)
unfolding add_row
add_row_adds x rows = elim (Option-cases (lookup x rows)) [
  | inl h ↦ (
    length rows + 1,
    rw (h, add_row) (ground (arith, lookup-put x x (length rows + 1) rows, eq_iff x x)),
  )
  | inr (i, h) ↦ (i, rw (h, add_row) h)
]

add_rows_adds :
    (xs : List String) (a : String) (rows : GoMap String ℕ)
    → contains a xs ≡ true
    → (i : ℕ) × (lookup a (add_rows xs rows) ≡ some i)
unfolding add_rows
add_rows_adds [] a rows h = cc
add_rows_adds (x ∷ xs) a rows h = elim (Bool-cases (str_eq x a)) [
  | inl e ↦
      let (i, row) = add_row_adds x rows in
      let same : x ≡ a = (eq_iff x a).0 e in
      subst (λ z. (j : ℕ) × (lookup z (add_rows xs (add_row x rows)) ≡ some j)) same
        (i, add_rows_keeps xs x (add_row x rows) i row)
  | inr e ↦ add_rows_adds xs a (add_row x rows) (rw e at h)
]

pub memory_find_answers :
    (t : Table) (xs : List String) (c : String) (v : Bool) (m : GoMap String ℕ) (a : String) (i : ℕ)
    → (find t xs c v).0 ≡ some m
    → lookup a m ≡ some i
    → id_of t c v a ≡ some i
unfolding find id_of
memory_find_answers t xs c v m a i h e = ground (arith, lookup-select t.rows xs a)

pub memory_insert_keeps :
    (t : Table) (xs : List String) (c : String) (v : Bool) (a : String) (i : ℕ)
    → id_of t c v a ≡ some i
    → id_of (insert t xs c v).1 c v a ≡ some i
unfolding insert id_of
memory_insert_keeps t xs c v a i h = ground (arith, add_rows_keeps xs a t.rows i h)

pub memory_insert_adds :
    (t : Table) (xs : List String) (c : String) (v : Bool) (a : String)
    → (insert t xs c v).0 ≡ true
    → contains a xs ≡ true
    → (i : ℕ) × (id_of (insert t xs c v).1 c v a ≡ some i)
unfolding insert id_of
memory_insert_adds t xs c v a h k = rw h (add_rows_adds xs a t.rows k)

pub memory_get_all_answers :
    (t : Table) (c : String) (v : Bool) (m : GoMap String ℕ) (n : ℕ) (a : String) (i : ℕ)
    → (get_all t c v).0 ≡ some (m, n)
    → lookup a m ≡ some i
    → id_of t c v a ≡ some i
unfolding get_all id_of
memory_get_all_answers t c v m n a i h e = ground arith

pub memory_find_keeps :
    (t : Table) (xs : List String) (c : String) (v : Bool) (a : String)
    → id_of (find t xs c v).1 c v a ≡ id_of t c v a
unfolding find id_of
memory_find_keeps t xs c v a = refl

pub memory_get_all_keeps :
    (t : Table) (c : String) (v : Bool) (a : String) → id_of (get_all t c v).1 c v a ≡ id_of t c v a
unfolding get_all
memory_get_all_keeps t c v a = refl

abbrev pub memory : AddressDb
memory = record {
  State = Table;
  id_of = id_of;
  find_existing_accounts = find;
  insert_addresses = insert;
  get_all_addresses = get_all;
  find_keeps = memory_find_keeps;
  find_answers = memory_find_answers;
  insert_keeps = memory_insert_keeps;
  insert_adds = memory_insert_adds;
  get_all_keeps = memory_get_all_keeps;
  get_all_answers = memory_get_all_answers;
}

-- the same table behind calls that never fail
unfoldable pub find_rows :
    GoMap String ℕ → List String → String → Bool → Option (GoMap String ℕ) × GoMap String ℕ
find_rows rows xs c v = (some (select rows xs), rows)

unfoldable pub insert_rows : GoMap String ℕ → List String → String → Bool → Bool × GoMap String ℕ
insert_rows rows xs c v =
    let inserted = fresh xs rows in (inserted, if inserted then add_rows xs rows else rows)

pub rows_answer :
    (rows : GoMap String ℕ) (xs : List String) (c : String) (v : Bool) (m : GoMap String ℕ)
    (a : String) (i : ℕ)
    → (find_rows rows xs c v).0 ≡ some m
    → lookup a m ≡ some i
    → lookup a rows ≡ some i
unfolding find_rows
rows_answer rows xs c v m a i h e = ground (arith, lookup-select rows xs a)

pub rows_find_keeps :
    (rows : GoMap String ℕ) (xs : List String) (c : String) (v : Bool) (a : String)
    → lookup a (find_rows rows xs c v).1 ≡ lookup a rows
unfolding find_rows
rows_find_keeps rows xs c v a = refl

pub rows_insert_keep :
    (rows : GoMap String ℕ) (xs : List String) (c : String) (v : Bool) (a : String) (i : ℕ)
    → lookup a rows ≡ some i
    → lookup a (insert_rows rows xs c v).1 ≡ some i
unfolding insert_rows
rows_insert_keep rows xs c v a i h = elim (Bool-cases (fresh xs rows)) [
  | inl t ↦ rw t (add_rows_keeps xs a rows i h)
  | inr f ↦ rw f h
]

pub rows_insert_add :
    (rows : GoMap String ℕ) (xs : List String) (c : String) (v : Bool) (a : String)
    → (insert_rows rows xs c v).0 ≡ true
    → contains a xs ≡ true
    → (i : ℕ) × (lookup a (insert_rows rows xs c v).1 ≡ some i)
unfolding insert_rows
rows_insert_add rows xs c v a h k = rw h (add_rows_adds xs a rows k)

pub rows_get_all :
    (rows : GoMap String ℕ) (c : String) (v : Bool) (m : GoMap String ℕ) (n : ℕ) (a : String)
    (i : ℕ)
    → ◌≡◌ {A = Option (GoMap String ℕ × ℕ)} (some (rows, length rows)) (some (m, n))
    → lookup a m ≡ some i
    → lookup a rows ≡ some i
rows_get_all rows c v m n a i h e = ground arith

abbrev pub reliable : AddressDb
reliable = record {
  State = GoMap String ℕ;
  id_of = λ rows c v a. lookup a rows;
  find_existing_accounts = find_rows;
  insert_addresses = insert_rows;
  get_all_addresses = λ rows c v. (some (rows, length rows), rows);
  find_keeps = rows_find_keeps;
  find_answers = rows_answer;
  insert_keeps = rows_insert_keep;
  insert_adds = rows_insert_add;
  get_all_keeps = λ rows c v a. refl;
  get_all_answers = rows_get_all;
}
