-- ===== src/AddressCache/Solves.antt =====
-- When `AddressSolver` resolves its addresses, and what is left of an error.
use spectra_gnoland_indexer.Common.{
  ℕ, zero, suc, String, ◌≡◌, refl, subst, ap, ◌∙◌, ◌⊎◌, inl, inr, Bool, true, false, Option, none,
  some, List, [], ◌∷◌, GoMap, lookup, or_else, contains, string_comparable, arith, Option-cases,
  eq_iff,
}
use spectra_gnoland_indexer.AddressCache.Database.{AddressDb}
use spectra_gnoland_indexer.AddressCache.{
  AddressCache, add_addresses, find_uncached, fall_back, insert_attempts, insert_with_retry,
  fetch_and_cache_inserted, solve_uncached, address_solver, get_address, sync_existing_from_db,
}
use spectra_gnoland_indexer.AddressCache.Keeps.{
  IsConsistent, add_addresses-lookup, insert_attempts-true, insert_attempts-false, sync_none,
  sync_some, fetch_some, address_solver-IsSound,
}

contains-find_uncached :
    (a : AddressCache) (addr : String) (xs : List String)
    → lookup addr a.address ≡ none
    → contains addr xs ≡ true
    → contains addr (find_uncached a xs) ≡ true
unfolding find_uncached
contains-find_uncached a addr [] h k = k
contains-find_uncached a addr (x ∷ xs) h k =
    ground (arith, eq_iff x addr, contains-find_uncached a addr xs h)

get_address-some :
    (a : AddressCache) (addr : String) (i : ℕ)
    → lookup addr a.address ≡ some i
    → get_address a addr ≡ i
unfolding get_address
get_address-some a addr i h = rw (h, get_address)

get_address-none :
    (a : AddressCache) (addr : String) → lookup addr a.address ≡ none → get_address a addr ≡ 0
unfolding get_address
get_address-none a addr h = rw (h, get_address)

module _ (db : AddressDb) (c : String) (v : Bool) where
  open db use {State, id_of, find_existing_accounts, insert_addresses}

  -- the queries succeed, and answer with the ids of all addresses that have a row
  abbrev pub ReadsSucceed : Type 0
  ReadsSucceed =
      (s : State) (xs : List String)
      → (m : GoMap String ℕ) × ((find_existing_accounts s xs c v).0 ≡ some m)
        × ((addr : String) → contains addr xs ≡ true → lookup addr m ≡ id_of s c v addr)

  -- one of the next `n` batch inserts succeeds
  abbrev pub InsertsWithin : ℕ → List String → State → Type 0
  InsertsWithin zero xs s = ⊥
  InsertsWithin (suc n) xs s =
      ((insert_addresses s xs c v).0 ≡ true)
      ⊎ (((insert_addresses s xs c v).0 ≡ false) × InsertsWithin n xs (insert_addresses s xs c v).1)

  -- what the first query leaves to be inserted, if anything, is inserted
  abbrev pub InsertsMissing : ℕ → List String × AddressCache × State → Type 0
  InsertsMissing n r = (r.0 ≡ []) ⊎ InsertsWithin n r.0 r.2

  abbrev HasRow : State → String → Type 0
  HasRow s addr = (i : ℕ) × (id_of s c v addr ≡ some i)

  no_fall_back : (n : ℕ) (xs : List String) (s : State) → fall_back db c v n xs none s ≡ s
  no_fall_back zero xs s = refl
  no_fall_back (suc n) xs s = refl

  insert_attempts-HasRow :
      (n : ℕ) (xs : List String) (s : State) (addr : String)
      → InsertsWithin n xs s
      → contains addr xs ≡ true
      → HasRow (insert_attempts db c v n xs none s) addr
  insert_attempts-HasRow (suc n) xs s addr (inl ok) k =
      rw (insert_attempts-true db c v n xs none s ok) (db.insert_adds s xs c v addr ok k)
  insert_attempts-HasRow zero xs s addr x k = elim x [ ]
  insert_attempts-HasRow (suc n) xs s addr (inr (failed, later)) k =
      rw
        (insert_attempts-false db c v n xs none s failed
          ∙ ap (insert_attempts db c v n xs none) (no_fall_back n xs _))
        (insert_attempts-HasRow n xs _ addr later k)

  fetch_resolves :
      ReadsSucceed
      → (xs : List String) (a : AddressCache) (s : State) (addr : String) (i : ℕ)
      → contains addr xs ≡ true
      → id_of s c v addr ≡ some i
      → lookup addr (fetch_and_cache_inserted db c v xs a s).0.address ≡ some i
  fetch_resolves reads [] a s addr i k e = cc
  fetch_resolves reads (x ∷ xs) a s addr i k e =
      let (m, h, full) = reads s (x ∷ xs) in
      rw (fetch_some db c v x xs a s m h)
        (rw (add_addresses-lookup db c v a s (x ∷ xs) m addr, full addr k, e))

  fetch_known :
      ReadsSucceed
      → (xs : List String) (a : AddressCache) (s : State) (addr : String) (i : ℕ)
      → lookup addr a.address ≡ some i
      → (j : ℕ) × (lookup addr (fetch_and_cache_inserted db c v xs a s).0.address ≡ some j)
  fetch_known reads [] a s addr i e = (i, unfold fetch_and_cache_inserted in e)
  fetch_known reads (x ∷ xs) a s addr i e =
      let (m, h, full) = reads s (x ∷ xs) in
      rw (fetch_some db c v x xs a s m h) (
        known (lookup addr m) (lookup addr a.address) i e
          (add_addresses-lookup db c v a s (x ∷ xs) m addr))
    where
      known :
          (o p : Option ℕ) (i : ℕ) {q : Option ℕ}
          → p ≡ some i
          → q ≡ or_else o p
          → (j : ℕ) × (q ≡ some j)
      known none p i h k = (i, k ∙ h)
      known (some j) p i h k = (j, k)

  insert_with_retry-HasRow :
      (n : ℕ) (xs : List String) (s : State) (addr : String)
      → InsertsWithin n xs s
      → contains addr xs ≡ true
      → HasRow (insert_with_retry db c v xs n none s) addr
  unfolding insert_with_retry
  insert_with_retry-HasRow n [] s addr w k = cc
  insert_with_retry-HasRow n (x ∷ xs) s addr w k = insert_attempts-HasRow n (x ∷ xs) s addr w k

  missing-HasRow :
      (n : ℕ) (missing : List String) (a : AddressCache) (s : State) (addr : String)
      → InsertsMissing n (missing, a, s)
      → contains addr missing ≡ true
      → HasRow (insert_with_retry db c v missing n none s) addr
  missing-HasRow n missing a s addr (inl e) k =
      let none_there : contains addr [] ≡ true = rw e at k in cc
  missing-HasRow n missing a s addr (inr within) k =
      insert_with_retry-HasRow n missing s addr within k

  solve_uncached-resolves :
      ReadsSucceed
      → (n : ℕ) (a : AddressCache) (xs : List String) (s : State)
      → InsertsMissing n (sync_existing_from_db db c v a xs s)
      → (addr : String) → contains addr xs ≡ true
      → (i : ℕ) × (lookup addr (solve_uncached db c v n none a xs s).0.address ≡ some i)
  solve_uncached-resolves reads n a [] s writes addr k = cc
  solve_uncached-resolves reads n a (x ∷ xs) s writes addr k =
      let (m, h, full) = reads s (x ∷ xs) in
      let a1 = add_addresses a m in
      let missing = find_uncached a1 (x ∷ xs) in
      let s1 = (find_existing_accounts s (x ∷ xs) c v).1 in
      let s2 = insert_with_retry db c v missing n none s1 in
      unfold solve_uncached in
      rw (sync_some db c v a (x ∷ xs) s m h) (elim (Option-cases (lookup addr a1.address)) [
        | inl e ↦
            let k' = contains-find_uncached a1 addr (x ∷ xs) e k in
            let (i, row) =
              missing-HasRow n missing a1 s1 addr
                (subst (InsertsMissing n) (sync_some db c v a (x ∷ xs) s m h) writes) k' in
            (i, fetch_resolves reads missing a1 s2 addr i k' row)
        | inr (i, e) ↦ fetch_known reads missing a1 s2 addr i e
      ])

  -- If every cached id is the one in the table, each query succeeds and gives the ids of all
  -- addresses it was asked for that have a row, and of the attempts to insert the addresses that
  -- are missing after the first query, if any are, one succeeds, then after `AddressSolver` without
  -- the single inserts (`oneByOne` is nil) every address of the list is cached, and `GetAddress`
  -- gives the id of its row in the table.
  pub address_solver-resolves :
      ReadsSucceed
      → (n : ℕ) (address : List String) (a : AddressCache) (s : State)
      → InsertsMissing n (sync_existing_from_db db c v a (find_uncached a address) s)
      → IsConsistent db c v a s
      → (addr : String) → contains addr address ≡ true
      → let (a', s') = address_solver db c v address n none a s in
        (i : ℕ) × (lookup addr a'.address ≡ some i)
        × (get_address a' addr ≡ i)
        × (id_of s' c v addr ≡ some i)
  address_solver-resolves reads n address a s writes con addr k =
      let a' = (address_solver db c v address n none a s).0 in
      let (sound, extends, _) = address_solver-IsSound db c v address n none a s con in
      let (i, e) : (i : ℕ) × (lookup addr a'.address ≡ some i) =
        elim (Option-cases (lookup addr a.address)) [
          | inl h ↦
              unfold address_solver in
              solve_uncached-resolves reads n a (find_uncached a address) s writes addr
                (contains-find_uncached a addr address h k)
          | inr (i, h) ↦ (i, extends addr i h)
        ] in
      (i, e, get_address-some a' addr i e, sound addr i e)

  solve_uncached_unsynced :
      (n : ℕ) (one : Option Bool) (a : AddressCache) (xs : List String) (s : State)
      → (find_existing_accounts s xs c v).0 ≡ none
      → (solve_uncached db c v n one a xs s).0 ≡ a
  unfolding solve_uncached
  solve_uncached_unsynced n one a [] s h = refl
  solve_uncached_unsynced n one a (x ∷ xs) s h =
      rw (sync_none db c v a (x ∷ xs) s h) (unfold fetch_and_cache_inserted in refl)

  -- If the query for the addresses that the cache lacks fails, `AddressSolver` leaves the cache as
  -- it was, so that `GetAddress` gives 0 for each of them, whatever the retry settings.
  address_solver_unsynced :
      (address : List String) (n : ℕ) (one : Option Bool) (a : AddressCache) (s : State)
      → (find_existing_accounts s (find_uncached a address) c v).0 ≡ none
      → let a' = (address_solver db c v address n one a s).0 in
        (a' ≡ a) × ((addr : String) → lookup addr a.address ≡ none → get_address a' addr ≡ 0)
  address_solver_unsynced address n one a s h =
      let same : (address_solver db c v address n one a s).0 ≡ a =
        unfold address_solver in solve_uncached_unsynced n one a (find_uncached a address) s h in
      (same, λ addr e. ap (λ b. get_address b addr) same ∙ get_address-none a addr e)
