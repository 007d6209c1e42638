-- ===== src/Timescale/Reverse.antt =====
-- The loop of `reverseSlice` against the reversed list.
use spectra_gnoland_indexer.Common.{
  ℕ, zero, suc, ◌+◌, ◌-◌, ◌≤◌, ◌<◌, ◌≡◌, refl, ap, ◌∙◌, sym, true, false, ◌&&◌, Option, none, some,
  List, [], ◌∷◌, ◌++◌, length, length-append, get_elem?, set, get_elem?-set_self, get_elem?-set_ne,
  length-set, list_ext, ltb, leb, ◌==◌, dec_lt, if◌then◌else◌, arith, get_elem?_lt,
}
use spectra_gnoland_indexer.Timescale.Pages.{reverse_loop, reverse_slice, swap}

-- the reference definition of a reversed list
abbrev pub reverse {ℓ} : {A : Type ℓ} → List A → List A
reverse [] = []
reverse (x ∷ xs) = reverse xs ++ x ∷ []

module _ {A : Type 0} where
  pub length-reverse : (xs : List A) → length (reverse xs) ≡ length xs
  length-reverse [] = refl
  length-reverse (x ∷ xs) = omega (arith, length-append (reverse xs) (x ∷ []), length-reverse xs)

  get_elem?-append_left :
      (xs ys : List A) (k : ℕ) → k < length xs → get_elem? (xs ++ ys) k ≡ get_elem? xs k
  get_elem?-append_left [] ys k h = absurd (omega arith)
  get_elem?-append_left (x ∷ xs) ys zero h = refl
  get_elem?-append_left (x ∷ xs) ys (suc k) h = get_elem?-append_left xs ys k (omega arith)

  get_elem?-append_last :
      (xs : List A) (y : A) (k : ℕ) → k ≡ length xs → get_elem? (xs ++ y ∷ []) k ≡ some y
  get_elem?-append_last [] y zero h = refl
  get_elem?-append_last [] y (suc k) h = absurd (omega arith)
  get_elem?-append_last (x ∷ xs) y zero h = absurd (omega arith)
  get_elem?-append_last (x ∷ xs) y (suc k) h = get_elem?-append_last xs y k (omega arith)

  get_elem?-reverse :
      (xs : List A) (k : ℕ)
      → k < length xs
      → get_elem? (reverse xs) k ≡ get_elem? xs (length xs - 1 - k)
  get_elem?-reverse [] k h = absurd (omega arith)
  get_elem?-reverse (x ∷ xs) k h = elim (dec_lt k (length xs)) [
    | yes l ↦
        let index : suc (length xs) - 1 - k ≡ suc (length xs - 1 - k) = omega arith in
        get_elem?-append_left (reverse xs) (x ∷ []) k (omega (arith, length-reverse xs))
        ∙ get_elem?-reverse xs k l
        ∙ ap (get_elem? (x ∷ xs)) (sym index)
    | no l ↦
        let index : suc (length xs) - 1 - k ≡ 0 = omega arith in
        get_elem?-append_last (reverse xs) x k (omega (arith, length-reverse xs))
        ∙ ap (get_elem? (x ∷ xs)) (sym index)
  ]

  -- a round swaps the ends
  get_elem?-swap :
      (s : List A) (i j k : ℕ)
      → i < j
      → j < length s
      → get_elem? (swap s i j (get_elem? s i) (get_elem? s j)) k
        ≡ (if k == i then get_elem? s j else if k == j then get_elem? s i else get_elem? s k)
  get_elem?-swap s i j k h l = swapped (get_elem?_lt s i (omega arith)) (get_elem?_lt s j l)
    where
      swapped :
          (p : (a : A) × (get_elem? s i ≡ some a)) (q : (b : A) × (get_elem? s j ≡ some b))
          → get_elem? (swap s i j (get_elem? s i) (get_elem? s j)) k
            ≡ (if k == i then get_elem? s j else if k == j then get_elem? s i else get_elem? s k)
      swapped (a, p) (b, q) =
          rw (p, q)
            (ground (
              arith,
              length-set s i b,
              get_elem?-set_self (set s i b) j a,
              get_elem?-set_ne (set s i b) j k a,
              get_elem?-set_self s i b,
              get_elem?-set_ne s i k b,
            ))

  length-swap : (s : List A) (i j : ℕ) (a b : Option A) → length (swap s i j a b) ≡ length s
  length-swap s i j none b = refl
  length-swap s i j (some a) none = refl
  length-swap s i j (some a) (some b) = length-set (set s i b) j a ∙ length-set s i b

  swapped_part :
      (i j k : ℕ) (s : List A)
      → i < j
      → j < length s
      → (let t = swap s i j (get_elem? s i) (get_elem? s j) in
          if leb (i + 1) k && leb k (j - 1) then get_elem? t (i + j - k) else get_elem? t k)
        ≡ (if leb i k && leb k j then get_elem? s (i + j - k) else get_elem? s k)
  swapped_part i j k s h l =
      ground (arith, get_elem?-swap s i j k h l, get_elem?-swap s i j (i + j - k) h l)

  one_part :
      (i j k : ℕ) (s : List A)
      → j ≤ i
      → get_elem? s k ≡ (if leb i k && leb k j then get_elem? s (i + j - k) else get_elem? s k)
  one_part i j k s h = ground arith

  length-reverse_loop :
      (rounds i j : ℕ) (s : List A) → length (reverse_loop rounds i j s) ≡ length s
  unfolding reverse_loop
  length-reverse_loop zero i j s = refl
  length-reverse_loop (suc rounds) i j s =
      let a = get_elem? s i in
      let b = get_elem? s j in
      ground
        (arith, length-reverse_loop rounds (i + 1) (j - 1) (swap s i j a b), length-swap s i j a b)

  -- the part from i to j is reversed, and the rest stays
  get_elem?-reverse_loop :
      (rounds i j k : ℕ) (s : List A)
      → j < length s
      → j < i + rounds + rounds + 1
      → get_elem? (reverse_loop rounds i j s) k
        ≡ (if leb i k && leb k j then get_elem? s (i + j - k) else get_elem? s k)
  unfolding reverse_loop
  get_elem?-reverse_loop zero i j k s l r = ground arith
  get_elem?-reverse_loop (suc rounds) i j k s l r = elim (dec_lt i j) [
    | yes h ↦
        let a = get_elem? s i in
        let b = get_elem? s j in
        let t = swap s i j a b in
        let sums : i + 1 + (j - 1) ≡ i + j = omega arith in
        let test : ltb i j ≡ true = ground arith in
        let inner =
          get_elem?-reverse_loop rounds (i + 1) (j - 1) k t (omega (arith, length-swap s i j a b))
            (omega arith) in
        rw test (inner ∙ rw sums (swapped_part i j k s h l))
    | no h ↦ let test : ltb i j ≡ false = ground arith in rw test (one_part i j k s (omega arith))
  ]

  -- The loop of reverseSlice, which swaps the ends of the slice and moves inwards, reverses it.
  pub reverse_slice-reverse : (s : List A) → reverse_slice s ≡ reverse s
  unfolding reverse_slice
  reverse_slice-reverse [] = unfold reverse_loop in refl
  reverse_slice-reverse (x ∷ s) =
      let n = length s in
      let last : suc n - 1 ≡ n = omega arith in
      let same_length = length-reverse_loop (suc n) 0 n (x ∷ s) in
      rw last (
        list_ext (reverse_loop (suc n) 0 n (x ∷ s)) (reverse (x ∷ s))
          (same_length ∙ sym (length-reverse (x ∷ s)))
          (λ k h.
            get_elem?-reverse_loop (suc n) 0 n k (x ∷ s) (omega arith) (omega arith)
            ∙ whole k (omega (arith, same_length))
            ∙ sym (get_elem?-reverse (x ∷ s) k (omega (arith, same_length)))))
    where
      whole :
          (k : ℕ)
          → k < suc (length s)
          → (if leb 0 k && leb k (length s)
              then get_elem? (x ∷ s) (0 + length s - k)
              else get_elem? (x ∷ s) k)
            ≡ get_elem? (x ∷ s) (suc (length s) - 1 - k)
      whole k h = ground arith
