-- ===== src/AddressCache/Keeps.antt =====
-- What holds of the address cache whatever calls of the database fail.
use spectra_gnoland_indexer.Common.{
  ℕ, zero, suc, String, ◌≡◌, inl, inr, Bool, true, false, Option, none, some, List, [], ◌∷◌, GoMap,
  lookup, or_else, lookup-copy, string_comparable, arith, Option-cases, Bool-cases,
}
use spectra_gnoland_indexer.AddressCache.Database.{AddressDb}
use spectra_gnoland_indexer.AddressCache.{
  AddressCache, add_addresses, find_uncached, synced, sync_existing_from_db, insert_one_by_one,
  fall_back, insert_attempts, insert_with_retry, fetched, fetch_and_cache_inserted, solve_uncached,
  address_solver,
}

module _ (db : AddressDb) (c : String) (v : Bool) where
  open db use {State, id_of, find_existing_accounts, insert_addresses}

  -- every cached id is the one in the table
  abbrev pub IsConsistent : AddressCache → State → Type 0
  IsConsistent a s =
      (addr : String) (i : ℕ) → lookup addr a.address ≡ some i → id_of s c v addr ≡ some i

  -- no row is lost or changed
  abbrev Grows : State → State → Type 0
  Grows s s' = (addr : String) (i : ℕ) → id_of s c v addr ≡ some i → id_of s' c v addr ≡ some i

  -- no cached id is lost or changed
  abbrev Extends : AddressCache → AddressCache → Type 0
  Extends a a' =
      (addr : String) (i : ℕ) → lookup addr a.address ≡ some i → lookup addr a'.address ≡ some i

  abbrev pub IsSound : AddressCache → State → AddressCache × State → Type 0
  IsSound a s r = IsConsistent r.0 r.1 × Extends a r.0 × Grows s r.1

  pub insert_one_by_one-Grows :
      (xs : List String) (s : State) → Grows s (insert_one_by_one db c v xs s)
  unfolding insert_one_by_one
  insert_one_by_one-Grows [] s addr i h = h
  insert_one_by_one-Grows (x ∷ xs) s addr i h =
      insert_one_by_one-Grows xs (insert_addresses s (x ∷ []) c v).1 addr i
        (db.insert_keeps s (x ∷ []) c v addr i h)

  fall_back-Grows :
      (left : ℕ) (xs : List String) (one : Option Bool) (s : State)
      → Grows s (fall_back db c v left xs one s)
  fall_back-Grows zero xs (some true) s addr i h = insert_one_by_one-Grows xs s addr i h
  fall_back-Grows zero xs (some false) s addr i h = h
  fall_back-Grows zero xs none s addr i h = h
  fall_back-Grows (suc left) xs one s addr i h = h

  -- one attempt, and what follows it
  pub insert_attempts-true :
      (left : ℕ) (xs : List String) (one : Option Bool) (s : State)
      → (insert_addresses s xs c v).0 ≡ true
      → insert_attempts db c v (suc left) xs one s ≡ (insert_addresses s xs c v).1
  unfolding insert_attempts
  insert_attempts-true left xs one s h = rw (h, insert_attempts)

  pub insert_attempts-false :
      (left : ℕ) (xs : List String) (one : Option Bool) (s : State)
      → (insert_addresses s xs c v).0 ≡ false
      → insert_attempts db c v (suc left) xs one s
        ≡ insert_attempts db c v left xs one
            (fall_back db c v left xs one (insert_addresses s xs c v).1)
  unfolding insert_attempts
  insert_attempts-false left xs one s h = rw (h, insert_attempts)

  insert_attempts-Grows :
      (n : ℕ) (xs : List String) (one : Option Bool) (s : State)
      → Grows s (insert_attempts db c v n xs one s)
  unfolding insert_attempts
  insert_attempts-Grows zero xs one s addr i h = h
  insert_attempts-Grows (suc n) xs one s addr i h =
      let kept = db.insert_keeps s xs c v addr i h in
      elim (Bool-cases (insert_addresses s xs c v).0) [
        | inl t ↦ rw (insert_attempts-true n xs one s t) kept
        | inr f ↦
            rw (insert_attempts-false n xs one s f)
              (insert_attempts-Grows n xs one _ addr i (fall_back-Grows n xs one _ addr i kept))
      ]

  pub insert_with_retry-Grows :
      (xs : List String) (n : ℕ) (one : Option Bool) (s : State)
      → Grows s (insert_with_retry db c v xs n one s)
  unfolding insert_with_retry
  insert_with_retry-Grows [] n one s addr i h = h
  insert_with_retry-Grows (x ∷ xs) n one s addr i h =
      insert_attempts-Grows n (x ∷ xs) one s addr i h

  -- what a query for `xs` adds to the cache
  module _ (a : AddressCache) (s : State) (xs : List String) where
    abbrev answer : Option (GoMap String ℕ)
    answer = (find_existing_accounts s xs c v).0

    abbrev after : State
    after = (find_existing_accounts s xs c v).1

    pub add_addresses-lookup :
        (m : GoMap String ℕ) (addr : String)
        → lookup addr (add_addresses a m).address ≡ or_else (lookup addr m) (lookup addr a.address)
    unfolding add_addresses
    add_addresses-lookup m addr = lookup-copy addr a.address m

    -- an id of the answer replaces only itself
    answered :
        IsConsistent a s
        → (m : GoMap String ℕ) → answer ≡ some m
        → (addr : String) (i : ℕ) → lookup addr a.address ≡ some i
        → lookup addr (add_addresses a m).address ≡ some i
    answered con m h addr i e = elim (Option-cases (lookup addr m)) [
      | inl absent ↦ ground (arith, add_addresses-lookup m addr)
      | inr (j, present) ↦ ground (
        arith,
        add_addresses-lookup m addr,
        con addr i e,
        db.find_answers s xs c v m addr j h present,
      )
    ]

    answered-IsConsistent :
        IsConsistent a s
        → (m : GoMap String ℕ) → answer ≡ some m
        → (addr : String) (i : ℕ) → lookup addr (add_addresses a m).address ≡ some i
        → id_of s c v addr ≡ some i
    answered-IsConsistent con m h addr i e = elim (Option-cases (lookup addr m)) [
      | inl absent ↦ ground (arith, add_addresses-lookup m addr, con addr i)
      | inr (j, present) ↦
          ground (arith, add_addresses-lookup m addr, db.find_answers s xs c v m addr j h present)
    ]

    pub add_addresses-IsSound :
        IsConsistent a s
        → (m : GoMap String ℕ) → answer ≡ some m
        → IsSound a s (add_addresses a m, after)
    add_addresses-IsSound con m h = (
      (λ addr i e. rw (db.find_keeps s xs c v addr) (answered-IsConsistent con m h addr i e)),
      answered con m h,
      (λ addr i e. rw (db.find_keeps s xs c v addr) e),
    )

  unanswered-IsSound :
      (a : AddressCache) (s : State)
      → IsConsistent a s
      → (xs : List String) → IsSound a s (a, (find_existing_accounts s xs c v).1)
  unanswered-IsSound a s con xs = (
    (λ addr i e. rw (db.find_keeps s xs c v addr) (con addr i e)),
    (λ addr i e. e),
    (λ addr i e. rw (db.find_keeps s xs c v addr) e),
  )

  pub sync_none :
      (a : AddressCache) (xs : List String) (s : State)
      → (find_existing_accounts s xs c v).0 ≡ none
      → sync_existing_from_db db c v a xs s ≡ ([], a, (find_existing_accounts s xs c v).1)
  unfolding sync_existing_from_db
  sync_none a xs s h = rw (h, synced)

  pub sync_some :
      (a : AddressCache) (xs : List String) (s : State) (m : GoMap String ℕ)
      → (find_existing_accounts s xs c v).0 ≡ some m
      → sync_existing_from_db db c v a xs s ≡ (
        find_uncached (add_addresses a m) xs,
        add_addresses a m,
        (find_existing_accounts s xs c v).1,
      )
  sync_some a xs s m h = unfold sync_existing_from_db in rw (h, synced)

  sync-IsSound :
      (a : AddressCache) (s : State)
      → IsConsistent a s
      → (xs : List String) → let r = sync_existing_from_db db c v a xs s in IsSound a s (r.1, r.2)
  sync-IsSound a s con xs = elim (Option-cases (find_existing_accounts s xs c v).0) [
    | inl h ↦ rw (sync_none a xs s h) (unanswered-IsSound a s con xs)
    | inr (m, h) ↦ rw (sync_some a xs s m h) (add_addresses-IsSound a s xs con m h)
  ]

  pub fetch_none :
      (x : String) (xs : List String) (a : AddressCache) (s : State)
      → (find_existing_accounts s (x ∷ xs) c v).0 ≡ none
      → fetch_and_cache_inserted db c v (x ∷ xs) a s
        ≡ (a, (find_existing_accounts s (x ∷ xs) c v).1)
  unfolding fetch_and_cache_inserted
  fetch_none x xs a s h = rw (h, fetched)

  pub fetch_some :
      (x : String) (xs : List String) (a : AddressCache) (s : State) (m : GoMap String ℕ)
      → (find_existing_accounts s (x ∷ xs) c v).0 ≡ some m
      → fetch_and_cache_inserted db c v (x ∷ xs) a s
        ≡ (add_addresses a m, (find_existing_accounts s (x ∷ xs) c v).1)
  fetch_some x xs a s m h = unfold fetch_and_cache_inserted in rw (h, fetched)

  fetch-IsSound :
      (xs : List String) (a : AddressCache) (s : State)
      → IsConsistent a s
      → IsSound a s (fetch_and_cache_inserted db c v xs a s)
  fetch-IsSound [] a s con =
      unfold fetch_and_cache_inserted in (con, (λ addr i e. e), (λ addr i e. e))
  fetch-IsSound (x ∷ xs) a s con = elim (Option-cases (find_existing_accounts s (x ∷ xs) c v).0) [
    | inl h ↦ rw (fetch_none x xs a s h) (unanswered-IsSound a s con (x ∷ xs))
    | inr (m, h) ↦ rw (fetch_some x xs a s m h) (add_addresses-IsSound a s (x ∷ xs) con m h)
  ]

  IsSound-trans :
      (a a' : AddressCache) (s s' : State) (r : AddressCache × State)
      → IsSound a s (a', s')
      → IsSound a' s' r
      → IsSound a s r
  IsSound-trans a a' s s' r (con, ext, gro) (con', ext', gro') =
      (con', (λ addr i e. ext' addr i (ext addr i e)), (λ addr i e. gro' addr i (gro addr i e)))

  solve_uncached-IsSound :
      (n : ℕ) (one : Option Bool) (a : AddressCache) (xs : List String) (s : State)
      → IsConsistent a s
      → IsSound a s (solve_uncached db c v n one a xs s)
  unfolding solve_uncached
  solve_uncached-IsSound n one a [] s con = (con, (λ addr i e. e), (λ addr i e. e))
  solve_uncached-IsSound n one a (x ∷ xs) s con =
      let (missing, a', s') = sync_existing_from_db db c v a (x ∷ xs) s in
      let (con', ext, gro) = sync-IsSound a s con (x ∷ xs) in
      let grown = insert_with_retry-Grows missing n one s' in
      let con'' = λ (addr : String) (i : ℕ) (e : lookup addr a'.address ≡ some i).
        grown addr i (con' addr i e) in
      IsSound-trans a a' s (insert_with_retry db c v missing n one s')
        (fetch_and_cache_inserted db c v missing a' (insert_with_retry db c v missing n one s'))
        (con'', ext, (λ addr i e. grown addr i (gro addr i e)))
        (fetch-IsSound missing a' (insert_with_retry db c v missing n one s') con'')

  -- If a SELECT changes no row and gives only ids of rows, perhaps not all that it was asked for,
  -- and a COPY changes no row that is there, then whatever calls fail: if every cached id is the
  -- one in the table before `AddressSolver`, so it is afterwards, and no cached id and no row is
  -- lost or changed.
  pub address_solver-IsSound :
      (address : List String) (n : ℕ) (one : Option Bool) (a : AddressCache) (s : State)
      → IsConsistent a s
      → IsSound a s (address_solver db c v address n one a s)
  unfolding address_solver
  address_solver-IsSound address n one a s con =
      solve_uncached-IsSound n one a (find_uncached a address) s con
