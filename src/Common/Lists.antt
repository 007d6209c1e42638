-- ===== src/Common/Lists.antt =====
-- Lists measured and indexed by native numbers, under the library's names, and sets as lists.
use Prim.Native.Nat.{ℕ, zero, suc, ◌+◌, ◌<◌}
use mathlib.Core.Bool.{Bool, true, false, ◌&&◌, ◌||◌}
use mathlib.Core.Option.{some-injective}
use mathlib.Core.Path.{◌≡◌, refl, ap, sym, ◌∙◌}
use mathlib.Core.Logic.{◌≢◌}
use mathlib.Core.List.{List, [], ◌∷◌, ◌++◌, map}
use mathlib.Core.Option.{Option, none, some}
use native.Mathlib.Omega.{arith}
use spectra_gnoland_indexer.Common.Tests.{Comparable, if◌then◌else◌}

module _ {ℓ} {A : Type ℓ} where
  abbrev pub length : List A → ℕ
  length [] = 0
  length (x ∷ xs) = suc (length xs)

  abbrev pub get_elem? : List A → ℕ → Option A
  get_elem? [] i = none
  get_elem? (x ∷ xs) zero = some x
  get_elem? (x ∷ xs) (suc i) = get_elem? xs i

  -- a write out of bounds changes nothing
  abbrev pub set : List A → ℕ → A → List A
  set [] i v = []
  set (x ∷ xs) zero v = v ∷ xs
  set (x ∷ xs) (suc i) v = x ∷ set xs i v

  abbrev pub replicate : ℕ → A → List A
  replicate zero a = []
  replicate (suc n) a = a ∷ replicate n a

  pub length-append : (xs ys : List A) → length (xs ++ ys) ≡ length xs + length ys
  length-append [] ys = omega arith
  length-append (x ∷ xs) ys = omega (arith, length-append xs ys)

  pub length-set : (xs : List A) (i : ℕ) (v : A) → length (set xs i v) ≡ length xs
  length-set [] i v = refl
  length-set (x ∷ xs) zero v = refl
  length-set (x ∷ xs) (suc i) v = ap suc (length-set xs i v)

  pub length-replicate : (n : ℕ) (a : A) → length (replicate n a) ≡ n
  length-replicate zero a = refl
  length-replicate (suc n) a = ap suc (length-replicate n a)

  pub get_elem?-set_self :
      (xs : List A) (i : ℕ) (v : A) → i < length xs → get_elem? (set xs i v) i ≡ some v
  get_elem?-set_self [] i v h = elim h [ ]
  get_elem?-set_self (x ∷ xs) zero v h = refl
  get_elem?-set_self (x ∷ xs) (suc i) v h = get_elem?-set_self xs i v (omega arith)

  pub get_elem?-set_ne :
      (xs : List A) (i j : ℕ) (v : A) → i ≢ j → get_elem? (set xs i v) j ≡ get_elem? xs j
  get_elem?-set_ne [] i j v h = refl
  get_elem?-set_ne (x ∷ xs) zero zero v h = absurd (h refl)
  get_elem?-set_ne (x ∷ xs) zero (suc j) v h = refl
  get_elem?-set_ne (x ∷ xs) (suc i) zero v h = refl
  get_elem?-set_ne (x ∷ xs) (suc i) (suc j) v h = get_elem?-set_ne xs i j v (λ e. h (ap suc e))

  pub get_elem?-replicate : (n i : ℕ) (a : A) → i < n → get_elem? (replicate n a) i ≡ some a
  get_elem?-replicate zero i a h = elim h [ ]
  get_elem?-replicate (suc n) zero a h = refl
  get_elem?-replicate (suc n) (suc i) a h = get_elem?-replicate n i a (omega arith)

  pub get_elem?_lt : (xs : List A) (i : ℕ) → i < length xs → (a : A) × (get_elem? xs i ≡ some a)
  get_elem?_lt [] i h = elim h [ ]
  get_elem?_lt (x ∷ xs) zero h = (x, refl)
  get_elem?_lt (x ∷ xs) (suc i) h = get_elem?_lt xs i (omega arith)

  -- two lists of one length with the same elements are one list
  pub list_ext :
      (xs ys : List A)
      → length xs ≡ length ys
      → ((i : ℕ) → i < length xs → get_elem? xs i ≡ get_elem? ys i)
      → xs ≡ ys
  list_ext [] [] p h = refl
  list_ext [] (y ∷ ys) p h = absurd (omega arith)
  list_ext (x ∷ xs) [] p h = absurd (omega arith)
  list_ext (x ∷ xs) (y ∷ ys) p h =
      cc (h 0 (omega arith), list_ext xs ys (omega arith) (λ i q. h (suc i) (omega arith)))

module _ {ℓ κ} {A : Type ℓ} {B : Type κ} where
  pub length-map : (f : A → B) (xs : List A) → length (map f xs) ≡ length xs
  length-map f [] = refl
  length-map f (x ∷ xs) = ap suc (length-map f xs)

  pub get_elem?-map :
      (f : A → B) (xs : List A) (i : ℕ) (a : A)
      → get_elem? xs i ≡ some a
      → get_elem? (map f xs) i ≡ some (f a)
  get_elem?-map f [] i a h = cc
  get_elem?-map f (x ∷ xs) zero a h = cc
  get_elem?-map f (x ∷ xs) (suc i) a h = get_elem?-map f xs i a h

-- from, from + 1, ..., `n` numbers in all
abbrev pub range_from : ℕ → ℕ → List ℕ
range_from from zero = []
range_from from (suc n) = from ∷ range_from (from + 1) n

-- the heights from `from` on, `n` of them
abbrev pub heights : ℕ → ℕ → List ℕ
heights from zero = []
heights from (suc n) = from ∷ heights (suc from) n

pub heights-append : (from n k : ℕ) → heights from (n + k) ≡ heights from n ++ heights (from + n) k
heights-append from zero k =
    let here : from + 0 ≡ from = omega arith in let all : 0 + k ≡ k = omega arith in rw (here, all)
heights-append from (suc n) k =
    let one : suc n + k ≡ suc (n + k) = omega arith in
    let shift : suc from + n ≡ from + suc n = omega arith in
    rw (one, heights-append (suc from) n k, shift)

-- a set of comparable values, as a list
module _ {ℓ} {A : Type ℓ} ⦃e : Comparable A⦄ where
  abbrev pub contains : A → List A → Bool
  contains a [] = false
  contains a (x ∷ xs) = e.same x a || contains a xs

  -- `set[a] = struct{}{}`
  abbrev pub insert_key : A → List A → List A
  insert_key a [] = a ∷ []
  insert_key a (x ∷ xs) = if e.same x a then x ∷ xs else x ∷ insert_key a xs

  -- `set[a] = struct{}{}` for each of a list
  unfoldable pub insert_keys : List A → List A → List A
  insert_keys [] s = s
  insert_keys (a ∷ rest) s = insert_keys rest (insert_key a s)

  pub contains-insert_key :
      (a b : A) (s : List A) → contains b (insert_key a s) ≡ (e.same a b || contains b s)
  contains-insert_key a b [] = refl
  contains-insert_key a b (x ∷ s) =
      ground (arith, e.same_iff x a, e.same_iff a b, e.same_iff x b, contains-insert_key a b s)

  pub contains-insert_keys :
      (xs : List A) (b : A) (s : List A)
      → contains b (insert_keys xs s) ≡ (contains b xs || contains b s)
  unfolding insert_keys
  contains-insert_keys [] b s = refl
  contains-insert_keys (x ∷ xs) b s =
      ground (arith, contains-insert_key x b s, contains-insert_keys xs b (insert_key x s))

pub and_left : (a b : Bool) → (a && b) ≡ true → a ≡ true
and_left true b h = refl
and_left false b h = h

pub and_right : (a b : Bool) → (a && b) ≡ true → b ≡ true
and_right true b h = h
and_right false b h = cc

module _ {ℓ} {A : Type ℓ} (test : A → Bool) where
  abbrev pub all_pass : List A → Bool
  all_pass [] = true
  all_pass (x ∷ xs) = test x && all_pass xs

  pub get_elem?-all_pass :
      (xs : List A) (i : ℕ) (x : A) → all_pass xs ≡ true → get_elem? xs i ≡ some x → test x ≡ true
  get_elem?-all_pass [] i x h e = cc
  get_elem?-all_pass (y ∷ ys) zero x h e =
      let same : test y ≡ test x = ap test (some-injective _ _ e) in
      sym same ∙ and_left (test y) (all_pass ys) h
  get_elem?-all_pass (y ∷ ys) (suc i) x h e =
      get_elem?-all_pass ys i x (and_right (test y) (all_pass ys) h) e
