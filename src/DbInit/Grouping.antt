-- ===== src/DbInit/Grouping.antt =====
-- pkgs/schema/materialize.go: which names `aggGroupBy` puts where.

use spectra_gnoland_indexer.Common.{
  ℕ, zero, suc, ◌≤◌, ◌<◌, String, ◌≡◌, refl, subst, ◌≢◌, ◌∙◌, inl, inr, true, some, List, [], ◌∷◌,
  done, if◌then◌else◌, ℤ, pos, negsuc, ltb, ◌==◌, ==_iff, length, max_int64, set, replicate,
  get_elem?, get_elem?-set_self, get_elem?-set_ne, get_elem?-replicate, length-set,
  length-replicate, arith, Bool-cases,
}
use spectra_gnoland_indexer.DbInit.Aggregates.{
  AggField, entries, raised, positions, fill, filled, agg_group_by,
}

-- every position is a number that is no more than a slice can hold
abbrev ArePositions : List (ℤ × String) → Type 0
ArePositions [] = Unit
ArePositions ((pos n, name) ∷ es) = (n < max_int64) × ArePositions es
ArePositions ((negsuc n, name) ∷ es) = ⊥

-- the name of the last entry with the position
abbrev last_name : ℕ → List (ℤ × String) → String → String
last_name k [] name = name
last_name k ((pos n, other) ∷ es) name = last_name k es (if n == k then other else name)
last_name k ((negsuc n, other) ∷ es) name = last_name k es name

-- the positions are below the length
abbrev Below : ℕ → List (ℤ × String) → Type 0
Below len [] = Unit
Below len ((pos n, name) ∷ es) = (n < len) × Below len es
Below len ((negsuc n, name) ∷ es) = ⊥

positions_grow : (es : List (ℤ × String)) (len : ℕ) → len ≤ positions es len
unfolding positions
positions_grow [] len = omega arith
positions_grow ((pos n, name) ∷ es) len =
    let rest = positions_grow es (raised len (pos n)) in ground arith
positions_grow ((negsuc n, name) ∷ es) len = positions_grow es len

positions-Below : (es : List (ℤ × String)) (len : ℕ) → ArePositions es → Below (positions es len) es
unfolding positions
positions-Below [] len h = tt
positions-Below ((pos n, name) ∷ es) len (small, h) =
    let rest = positions_grow es (raised len (pos n)) in
    (ground arith, positions-Below es (raised len (pos n)) h)
positions-Below ((negsuc n, name) ∷ es) len h = elim h [ ]

positions_small :
    (es : List (ℤ × String)) (len : ℕ)
    → ArePositions es
    → len ≤ max_int64
    → positions es len ≤ max_int64
unfolding positions
positions_small [] len h small = small
positions_small ((pos n, name) ∷ es) len (n_small, h) small =
    positions_small es (raised len (pos n)) h (ground arith)
positions_small ((negsuc n, name) ∷ es) len h small = elim h [ ]

after_set :
    (gb : List String) (n k : ℕ) (other name : String)
    → n < length gb
    → get_elem? gb k ≡ some name
    → get_elem? (set gb n other) k ≡ some (if n == k then other else name)
after_set gb n k other name lt at = elim (Bool-cases (n == k)) [
  | inl e ↦
      let same : n ≡ k = (==_iff n k).0 e in
      rw e (
        subst (λ j. get_elem? (set gb n other) j ≡ some other) same
          (get_elem?-set_self gb n other lt))
  | inr e ↦
      let apart : n ≢ k = λ same. let one = (==_iff n k).1 same in cc in
      rw (e, get_elem?-set_ne gb n k other apart) at
]

fill-last_name :
    (es : List (ℤ × String)) (gb : List String)
    → Below (length gb) es
    → (out : List String) × (fill es gb ≡ done out)
      × ((k : ℕ) (name : String)
          → get_elem? gb k ≡ some name
          → get_elem? out k ≡ some (last_name k es name))
      × (length out ≡ length gb)
unfolding fill
fill-last_name [] gb b = (gb, refl, λ k name e. e, refl)
fill-last_name ((pos n, other) ∷ es) gb (lt, b) =
    let fits : ltb n (length gb) ≡ true = ground arith in
    let same_length = length-set gb n other in
    let later : Below (length (set gb n other)) es = rw same_length b in
    let (out, e, names, l) = fill-last_name es (set gb n other) later in
    (out, rw fits e, λ k name at. names k _ (after_set gb n k other name lt at), l ∙ same_length)
fill-last_name ((negsuc n, other) ∷ es) gb b = elim b [ ]

filled-last_name :
    (es : List (ℤ × String)) (len : ℕ)
    → Below len es
    → len ≤ max_int64
    → (out : List String) × (filled es len ≡ done out)
      × ((k : ℕ) → k < len → get_elem? out k ≡ some (last_name k es ""))
      × (length out ≡ len)
filled-last_name es zero b small = ([], refl, λ k h. absurd (omega arith), refl)
filled-last_name es (suc n) b small =
    let fits : ltb n max_int64 ≡ true = ground arith in
    let same_length = length-replicate (suc n) "" in
    let below : Below (length (replicate (suc n) "")) es = rw same_length b in
    let (out, e, names, l) = fill-last_name es (replicate (suc n) "") below in
    (out, rw fits e, λ k h. names k "" (get_elem?-replicate (suc n) k "" h), l ∙ same_length)

-- If every tag `gb` is a number that is no more than a slice can hold, aggGroupBy does not panic,
-- and gives as many names as the largest position asks for: at each position the name of the last
-- field with that position, or the empty name if there is none.
agg_group_by-last_name :
    (fields : List AggField)
    → ArePositions (entries fields)
    → (gb : List String) × (agg_group_by fields ≡ done gb)
      × ((k : ℕ) → k < length gb → get_elem? gb k ≡ some (last_name k (entries fields) ""))
      × (length gb ≡ positions (entries fields) 0)
unfolding agg_group_by
agg_group_by-last_name fields h =
    let es = entries fields in
    let (out, e, names, l) =
      filled-last_name es (positions es 0) (positions-Below es 0 h)
        (positions_small es 0 h (omega arith)) in
    (out, e, (λ k lt. names k (omega (arith, l))), l)
