-- ===== src/Orchestrator/Live/Follows.antt =====
-- How `LiveProcess` follows the node.
use spectra_gnoland_indexer.Common.{
  ℕ, ◌+◌, ◌-◌, ◌≤◌, ◌<◌, ◌≡◌, refl, inl, inr, Bool, true, false, Option, none, some, List, [], ◌∷◌,
  ◌++◌, Outcome, done, ap, ◌∙◌, ◌⊎◌, panicked, min, add64, sub64, u64_mod, max_int64, ◌==◌,
  if◌then◌else◌, arith, Bool-cases,
}
use spectra_gnoland_indexer.Orchestrator.{Hashing, DataProcessorOps, process_chunk}
use spectra_gnoland_indexer.Orchestrator.State.{Orchestrator, Round}
use spectra_gnoland_indexer.Orchestrator.Live.{
  LiveRound, LiveRun, begin, finish, live_chunk_end, live_step, live_loop, live_from, live_process,
  live_start,
}
use spectra_gnoland_indexer.Orchestrator.Live.Steps.{Contiguous, StepsSafely, live_step-advances}

-- the heights that the node gives start at `h` or above and never go down
abbrev Climbs : ℕ → List LiveRound → Type 0
Climbs h [] = Unit
Climbs h ((none, r) ∷ rs) = Climbs h rs
Climbs h ((some h', r) ∷ rs) = (h ≤ h') × (h' + 1 < u64_mod) × Climbs h' rs

-- the last height after rounds without errors: each answer leads at most one chunk further
abbrev pub catch_up : ℕ → ℕ → List LiveRound → ℕ
catch_up size last [] = last
catch_up size last ((none, r) ∷ rs) =
    let rest = catch_up size last rs in if r.cancelled then last else rest
catch_up size last ((some latest, r) ∷ rs) =
    let rest = catch_up size (min latest (last + size)) rs in if r.cancelled then last else rest

Climbs-below : (h k : ℕ) (rs : List LiveRound) → k ≤ h → Climbs h rs → Climbs k rs
Climbs-below h k [] le up = tt
Climbs-below h k ((none, r) ∷ rs) le up = Climbs-below h k rs le up
Climbs-below h k ((some l, r) ∷ rs) le (a, b, up) = (omega arith, b, up)

live_chunk_end_behind :
    (last latest size : ℕ)
    → latest < last
    → last + size < u64_mod
    → live_chunk_end last latest size ≡ latest
unfolding live_chunk_end
live_chunk_end_behind last latest size h small = omega arith

module _ {W : Type 0} (hashing : Hashing) (dp : DataProcessorOps W) (compress : Bool) where
  -- no chunk between `first` and the height of its round panics
  abbrev AreSafe : ℕ → List LiveRound → Type 0
  AreSafe first [] = Unit
  AreSafe first ((none, r) ∷ rs) = AreSafe first rs
  AreSafe first ((some l, r) ∷ rs) = StepsSafely hashing dp compress first l r × AreSafe first rs

  live_loop_next :
      (l : ℕ) (r : Round) (rs : List LiveRound) (s s1 s' : LiveRun W)
      → r.cancelled ≡ false
      → live_step hashing dp compress (some l) r s ≡ done s1
      → live_loop hashing dp compress rs s1 ≡ done s'
      → live_loop hashing dp compress ((some l, r) ∷ rs) s ≡ done s'
  unfolding live_loop
  live_loop_next l r rs s s1 s' f step run = rw (f, step) run

  catch_up_next :
      (l : ℕ) (r : Round) (rs : List LiveRound) (s s1 s' : LiveRun W)
      → r.cancelled ≡ false
      → s1.last_processed_height
        ≡ min l (s.last_processed_height + s.orchestrator.max_block_chunk_size)
      → s1.orchestrator.max_block_chunk_size ≡ s.orchestrator.max_block_chunk_size
      → s'.last_processed_height
        ≡ catch_up s1.orchestrator.max_block_chunk_size s1.last_processed_height rs
      → s'.last_processed_height
        ≡ catch_up s.orchestrator.max_block_chunk_size s.last_processed_height ((some l, r) ∷ rs)
  catch_up_next l r rs s s1 s' f at size e = rw (f, e, at, size)

  live_loop-Contiguous :
      (rs : List LiveRound) (first : ℕ) (s : LiveRun W)
      → AreSafe first rs
      → Contiguous first s
      → Climbs s.last_processed_height rs
      → 0 < s.orchestrator.max_block_chunk_size
      → (s' : LiveRun W) × (live_loop hashing dp compress rs s ≡ done s')
        × Contiguous first s'
        × (s'.last_processed_height
            ≡ catch_up s.orchestrator.max_block_chunk_size s.last_processed_height rs)
  unfolding live_loop
  live_loop-Contiguous [] first s safe c up pos = (s, refl, c, refl)
  live_loop-Contiguous ((none, r) ∷ rs) first s safe c up pos = elim (Bool-cases r.cancelled) [
    | inl t ↦ (finish s, rw t, record { above = c.above; in_order = c.in_order }, rw t)
    | inr f ↦
        let (s', run, c', e) = live_loop-Contiguous rs first s safe c up pos in
        (s', rw f run, c', rw f e)
  ]
  live_loop-Contiguous ((some l, r) ∷ rs) first s (safe_r, safe) c (h, small, up) pos =
      elim (Bool-cases r.cancelled) [
        | inl t ↦ (finish s, rw t, record { above = c.above; in_order = c.in_order }, rw t)
        | inr f ↦
            let size = s.orchestrator.max_block_chunk_size in
            let (s1, step, c1, at, size1) =
              live_step-advances hashing dp compress first l r s safe_r c h small pos in
            let (s', run, c', e) =
              live_loop-Contiguous rs first s1 safe c1
                (Climbs-below l s1.last_processed_height rs (omega (arith, at)) up)
                (omega (arith, size1, pos)) in
            (
              s',
              live_loop_next l r rs s s1 s' f step run,
              c',
              catch_up_next l r rs s s1 s' f at size1 e,
            )
      ]

  live_from-some :
      (skip : Bool) (last : ℕ) (rs : List LiveRound) (o : Orchestrator) (w : W)
      → live_from hashing dp compress skip (some last) rs o w
        ≡ live_loop hashing dp compress rs (begin o w last)
  unfolding live_from
  live_from-some true last rs o w = refl
  live_from-some false last rs o w = refl

  -- If a first height is given, the heights that the node gives never go down from it on and stay
  -- below 2^64 - 1, the chunk size is positive and no chunk above the first height and up to the
  -- height of its round panics, then LiveProcess never panics, the chunks that it processed hold
  -- the heights after the first one in order, once each, and the last one is where steps of at most
  -- the chunk size towards each height of the node lead.
  pub live_process-Contiguous :
      (skip : Bool) (db latest : Option ℕ) (first : ℕ) (rs : List LiveRound) (o : Orchestrator)
      (w : W)
      → AreSafe first rs
      → live_start skip db latest ≡ some first
      → Climbs first rs
      → 0 < o.max_block_chunk_size
      → (s : LiveRun W) × (live_process hashing dp compress skip db latest rs o w ≡ done s)
        × Contiguous first s
        × (s.last_processed_height ≡ catch_up o.max_block_chunk_size first rs)
  unfolding live_process
  live_process-Contiguous skip db latest first rs o w safe e up pos =
      let here : Contiguous first (begin o w first) = record {
        above = omega arith;
        in_order = let z : first - first ≡ 0 = omega arith in rw z;
      } in
      let (s, run, c, at) = live_loop-Contiguous rs first (begin o w first) safe here up pos in
      (s, rw (e, live_from-some skip first rs o w) run, c, at)

  -- the query panics on a range that ends two or more heights before its start
  abbrev Reversed : Round → Type 0
  Reversed r =
      (from to : ℕ)
      → to + 1 < from
      → from ≤ to + max_int64
      → from < u64_mod
      → r.query.get_from_to_blocks from to ≡ panicked

  live_step_behind :
      (r : Round) (latest : ℕ) (s : LiveRun W)
      → Reversed r
      → latest < s.last_processed_height
      → s.last_processed_height < latest + max_int64
      → s.last_processed_height + 1 < u64_mod
      → s.last_processed_height + s.orchestrator.max_block_chunk_size < u64_mod
      → live_step hashing dp compress (some latest) r s ≡ panicked
  unfolding live_step process_chunk
  live_step_behind r latest s reversed h near top small =
      let last = s.last_processed_height in
      let size = s.orchestrator.max_block_chunk_size in
      let start : add64 last 1 ≡ last + 1 = omega arith in
      let end = live_chunk_end_behind last latest size h small in
      let behind : (sub64 latest last == 0) ≡ false = ground arith in
      let panic = reversed (last + 1) latest (omega arith) (omega arith) (omega arith) in
      rw (behind, start, end, panic)

  done_inj : (s s' : LiveRun W) → done s ≡ done s' → s ≡ s'
  done_inj s s' e = cc

  Outcome-cases : (m : Outcome (LiveRun W)) → ((s : LiveRun W) × (m ≡ done s)) ⊎ (m ≡ panicked)
  Outcome-cases (done s) = inl (s, refl)
  Outcome-cases panicked = inr refl

  -- the context ends none of the rounds
  abbrev AreLive : List LiveRound → Type 0
  AreLive [] = Unit
  AreLive ((l, r) ∷ rs) = (r.cancelled ≡ false) × AreLive rs

  live_loop-append :
      (pre rs : List LiveRound) (s s' : LiveRun W)
      → AreLive pre
      → live_loop hashing dp compress pre s ≡ done s'
      → live_loop hashing dp compress (pre ++ rs) s ≡ live_loop hashing dp compress rs s'
  unfolding live_loop
  live_loop-append [] rs s s' live e = ap (live_loop hashing dp compress rs) (done_inj s s' e)
  live_loop-append ((l, r) ∷ pre) rs s s' (f, live) e =
      elim (Outcome-cases (live_step hashing dp compress l r s)) [
        | inl (s1, step) ↦ rw (step, f) (live_loop-append pre rs s1 s' live (rw (step, f) at e))
        | inr p ↦ let none_there : panicked ≡ done s' = rw (p, f) at e in cc
      ]

  -- If LiveProcess has gone through some rounds without being ended and the node then answers a
  -- height below the last one that was processed, LiveProcess panics, whatever the chunk size, for
  -- a query that panics on a reversed range: the difference of the heights wraps around. The gap is
  -- below 2^63 - 1, and the last height plus 1 and plus the chunk size below 2^64.
  pub live_process_behind :
      (skip : Bool) (db start : Option ℕ) (first : ℕ) (pre rs : List LiveRound) (o : Orchestrator)
      (w : W) (s : LiveRun W) (latest : ℕ) (r : Round)
      → live_start skip db start ≡ some first
      → live_process hashing dp compress skip db start pre o w ≡ done s
      → AreLive pre
      → r.cancelled ≡ false
      → Reversed r
      → latest < s.last_processed_height
      → s.last_processed_height < latest + max_int64
      → s.last_processed_height + 1 < u64_mod
      → s.last_processed_height + s.orchestrator.max_block_chunk_size < u64_mod
      → live_process hashing dp compress skip db start (pre ++ (some latest, r) ∷ rs) o w ≡ panicked
  unfolding live_process live_loop
  live_process_behind skip db start first pre rs o w s latest r e run live f reversed h near top
        small =
      let before : live_loop hashing dp compress pre (begin o w first) ≡ done s =
        rw (e, live_from-some skip first pre o w) at run in
      let behind = live_step_behind r latest s reversed h near top small in
      rw (e, live_from-some skip first (pre ++ (some latest, r) ∷ rs) o w)
        (live_loop-append pre ((some latest, r) ∷ rs) (begin o w first) s live before
          ∙ rw (f, behind))
