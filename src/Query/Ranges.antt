-- ===== src/Query/Ranges.antt =====
-- What `GetFromToBlocks`, `GetFromToCommits` and `GetTransactions` return.

use spectra_gnoland_indexer.Common.{
  ℕ, zero, suc, ◌+◌, ◌-◌, ◌≤◌, ◌<◌, ◌≡◌, refl, ap, ◌∙◌, fun_ext, false, Option, none, some, List,
  [], ◌∷◌, map, length, heights, length-map, range_from, done, panicked, Result, arith, ltb, add64,
  sub64, u64_mod, max_int64,
}
use spectra_gnoland_indexer.Swarm.{fan_out, Covers}
use spectra_gnoland_indexer.Swarm.Schedules.{fan_out-map}
use spectra_gnoland_indexer.Query.{
  QueryOperator, fetch, none_panics, written, fetch_all, get_from_to_blocks,
}
use spectra_gnoland_indexer.Query.Fetch.{first_success, fetch-first_success}

module _ {ℓ κ μ} {E : Type κ} {T : Type ℓ} {K : Type μ} (q : QueryOperator)
    (pos : 0 < q.pause) where
  no_panic :
      (rpc : K → ℕ → Result E T) (keys : List K)
      → none_panics (map (λ k. fetch q (rpc k)) keys) ≡ done tt
  no_panic rpc [] = refl
  no_panic rpc (k ∷ keys) = rw (fetch-first_success q (rpc k) pos) (no_panic rpc keys)

  fetch_all-map :
      (rpc : K → ℕ → Result E T) (keys : List K) (sched : List ℕ)
      → Covers (length keys) sched
      → fetch_all q rpc keys sched
        ≡ done (map (λ k. first_success (suc q.retry_amount) (rpc k)) keys)
  unfolding fetch_all
  fetch_all-map rpc keys sched c = rw (no_panic rpc keys) (
      ap (λ w. done (fan_out w keys none sched)) slot_values
      ∙ ap done
          (fan_out-map (λ k. some (first_success (suc q.retry_amount) (rpc k))) none keys sched c))
    where
      slot_values :
          ◌≡◌ {A = K → Option (Option T)}
            (λ k. written (fetch q (rpc k)))
            (λ k. some (first_success (suc q.retry_amount) (rpc k)))
      slot_values = fun_ext λ k. ap written (fetch-first_success q (rpc k) pos)

heights_range :
    (from i n : ℕ)
    → from + i + n ≤ u64_mod
    → map (add64 from) (range_from i n) ≡ heights (from + i) n
heights_range from i zero h = refl
heights_range from i (suc n) h =
    let here : add64 from i ≡ from + i = omega arith in
    let ih = heights_range from (i + 1) n (omega arith) in
    let next : from + (i + 1) ≡ suc (from + i) = omega arith in rw (here, ih, next)

length-range_from : (i n : ℕ) → length (range_from i n) ≡ n
length-range_from i zero = refl
length-range_from i (suc n) = ap suc (length-range_from (i + 1) n)

module _ {ℓ κ} {E : Type κ} {T : Type ℓ} (q : QueryOperator) (rpc : ℕ → ℕ → Result E T) where
  -- For a range of heights that is not empty the result has a slot for each height in order,
  -- whatever the order in which the goroutines run: the first answer that is no error among the
  -- first call and the retries for that height, or nil if there is none.
  pub get_from_to_blocks-heights :
      (from to : ℕ) (sched : List ℕ)
      → 0 < q.pause
      → from ≤ to
      → to < u64_mod
      → to - from < max_int64
      → Covers (to - from + 1) sched
      → get_from_to_blocks q rpc from to sched
        ≡ done
            (map (λ h. first_success (suc q.retry_amount) (rpc h)) (heights from (to - from + 1)))
  unfolding get_from_to_blocks
  get_from_to_blocks-heights from to sched pos le lt small c =
      let d : add64 (sub64 to from) 1 ≡ to - from + 1 = omega arith in
      let keys = map (add64 from) (range_from 0 (to - from + 1)) in
      let n : length keys ≡ to - from + 1 =
        length-map (add64 from) (range_from 0 (to - from + 1))
        ∙ length-range_from 0 (to - from + 1) in
      let all = fetch_all-map q pos rpc keys sched (rw n c) in
      let hs : keys ≡ heights (from + 0) (to - from + 1) = heights_range from 0 _ (omega arith) in
      let t1 : ltb (to - from + 1) 1 ≡ false = ground arith in
      let t2 : ltb max_int64 (to - from + 1) ≡ false = ground arith in
      let start : from + 0 ≡ from = omega arith in
      let slots = map (λ h. first_success (suc q.retry_amount) (rpc h)) in
      rw (d, t1, t2) (all ∙ ap (λ hs'. done (slots hs')) (hs ∙ rw start))

  -- A range that ends two or more heights before its start makes the length wrap around, and the
  -- allocation panics.
  pub get_from_to_blocks_reversed :
      (from to : ℕ) (sched : List ℕ)
      → to + 1 < from
      → from ≤ to + max_int64
      → from < u64_mod
      → get_from_to_blocks q rpc from to sched ≡ panicked
  unfolding get_from_to_blocks
  get_from_to_blocks_reversed from to sched h k lt = ground arith
