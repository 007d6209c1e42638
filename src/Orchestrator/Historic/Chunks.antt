-- ===== src/Orchestrator/Historic/Chunks.antt =====
-- Which heights `HistoricProcess` processes.
use mathlib.Core.Option
use spectra_gnoland_indexer.Common.{
  ℕ, zero, suc, ◌+◌, ◌-◌, ◌≤◌, ◌<◌, ◌≡◌, refl, ap, ◌∙◌, String, inl, inr, Bool, true, false, Option,
  none, some, List, [], ◌∷◌, heights, heights-append, Outcome, done, add64, u64_mod, leb, arith,
  Bool-cases, leb→le, ℕ_discrete,
}
use spectra_gnoland_indexer.Orchestrator.{Hashing, DataProcessorOps, process_chunk}
use spectra_gnoland_indexer.Orchestrator.State.{Orchestrator, Round, chunk_heights}
use spectra_gnoland_indexer.Orchestrator.Historic.{
  HistoricRun, add_chunk, chunk_end_of, historic_loop, historic_process,
}

-- every chunk has at most `size` heights
abbrev FitsIn : ℕ → List (ℕ × ℕ) → Type 0
FitsIn size [] = Unit
FitsIn size ((s, e) ∷ cs) = (e - s + 1 ≤ size) × FitsIn size cs

-- The chunks hold the heights from `start` on, `n` of them, in order, once each: all heights up to
-- `to` unless the run was interrupted. The processing height is the last of them, or still
-- `current` if there are none.
pub record Covered {W : Type 0} (size start to current : ℕ) (r : HistoricRun W) : Type 0 where
  pub n : ℕ
  pub in_order : chunk_heights r.chunks ≡ heights start n
  pub in_range : start + n ≤ to + 1
  pub complete : r.interrupted ≡ false → start + n ≡ to + 1
  pub fits : FitsIn size r.chunks
  pub height : 0 < n → r.orchestrator.current_processing_height + 1 ≡ start + n
  pub idle : n ≡ 0 → r.orchestrator.current_processing_height ≡ current
  pub stopped : r.orchestrator.is_processing ≡ false

chunk_end_lem :
    (start size to : ℕ)
    → start ≤ to
    → 0 < size
    → to + size < u64_mod
    → let e = chunk_end_of start size to in
      (start ≤ e) × (e ≤ to) × (e - start + 1 ≤ size) × (add64 e 1 ≡ e + 1)
chunk_end_lem start size to h pos small = omega arith

Covered-stop :
    {W : Type 0} (size start to : ℕ) (o : Orchestrator) (w : W) (b : Bool)
    → start ≤ to + 1
    → (b ≡ false → start ≡ to + 1)
    → Covered size start to o.current_processing_height (record {
      orchestrator = record o { is_processing = false };
      world = w;
      chunks = [];
      interrupted = b;
    })
Covered-stop size start to o w b h end = record {
  n = 0;
  in_order = refl;
  in_range = omega arith;
  complete = λ e. omega (arith, end e);
  fits = tt;
  height = λ z. elim z [ ];
  idle = λ e. refl;
  stopped = refl;
}

Covered-add_chunk :
    {W : Type 0} (size start end to : ℕ) (r : HistoricRun W)
    → start ≤ end
    → end - start + 1 ≤ size
    → Covered size (end + 1) to end r
    → (current : ℕ) → Covered size start to current (add_chunk (start, end) r)
Covered-add_chunk size start end to r h k c current = record {
  n = end - start + 1 + c.n;
  in_order =
      let next : start + (end - start + 1) ≡ end + 1 = omega arith in
      rw (c.in_order, heights-append start (end - start + 1) c.n, next);
  in_range = omega arith;
  complete = λ e. omega (arith, c.complete e);
  fits = (k, c.fits);
  height = λ z. elim (ℕ_discrete c.n 0) [
    | yes e ↦ omega (arith, c.idle e)
    | no e ↦ omega (arith, c.height (omega arith))
  ];
  idle = λ e. absurd (omega arith);
  stopped = c.stopped;
}

module _ {W : Type 0} (hashing : Hashing) (dp : DataProcessorOps W) (rounds : ℕ → Round) (to : ℕ)
    (compress : Bool) where
  -- no chunk of the heights from `from` to `to` makes a goroutine panic
  abbrev pub NeverPanics : ℕ → Type 0
  NeverPanics from =
      (k start end : ℕ) (w : W)
      → from ≤ start
      → start ≤ end
      → end ≤ to
      → (r : Option String × W) × (process_chunk dp hashing (rounds k).query (rounds k).orders start
            end compress w
          ≡ done r)

  abbrev run : ℕ → ℕ → ℕ → Orchestrator → W → Outcome (Option (HistoricRun W))
  run = historic_loop hashing dp rounds to compress

  historic_loop_next :
      (fuel k start end next : ℕ) (o : Orchestrator) (w w' : W) (err : Option String)
      (r : Option (HistoricRun W))
      → chunk_end_of start o.max_block_chunk_size to ≡ end
      → leb start to ≡ true
      → (rounds k).cancelled ≡ false
      → process_chunk dp hashing (rounds k).query (rounds k).orders start end compress w
        ≡ done (err, w')
      → add64 end 1 ≡ next
      → run fuel (k + 1) next (record o { current_processing_height = end }) w' ≡ done r
      → run (suc fuel) k start o w ≡ done (Option.map (add_chunk (start, end)) r)
  unfolding historic_loop
  historic_loop_next fuel k start end next o w w' err r e t c chunk f rest =
      rw (e, t, c, chunk, f, rest)

  historic_loop-Covered :
      (from size : ℕ)
      → 0 < size
      → to + size < u64_mod
      → NeverPanics from
      → (fuel k start : ℕ) (o : Orchestrator) (w : W) → o.max_block_chunk_size ≡ size
      → from ≤ start
      → start ≤ to + 1
      → to + 1 - start < fuel
      → (r : HistoricRun W) × (run fuel k start o w ≡ done (some r))
        × Covered size start to o.current_processing_height r
  unfolding historic_loop
  historic_loop-Covered from size pos small safe zero k start o w e ge h lt = absurd (omega arith)
  historic_loop-Covered from size pos small safe (suc fuel) k start o w e ge h lt =
      elim (Bool-cases (leb start to)) [
        | inl t ↦ elim (Bool-cases (rounds k).cancelled) [
          | inl c ↦ (_, rw (t, c), Covered-stop size start to o w true h (λ x. cc))
          | inr c ↦
              let (a, b, d, f) = chunk_end_lem start size to (leb→le start to t) pos small in
              let end = chunk_end_of start size to in
              let ((x, w'), chunk) = safe k start end w ge a b in
              let (r, rest, cov) =
                historic_loop-Covered from size pos small safe fuel (k + 1) (end + 1)
                  (record o { current_processing_height = end }) w' e (omega arith) (omega arith)
                  (omega arith) in
              (
                add_chunk (start, end) r,
                historic_loop_next fuel k start end (end + 1) o w w' x (some r)
                    (ap (λ s. chunk_end_of start s to) e) t c chunk f rest,
                Covered-add_chunk size start end to r a d cov o.current_processing_height,
              )
        ]
        | inr t ↦ (_, rw t, Covered-stop size start to o w false h (λ x. ground arith))
      ]

  -- If the chunk size is positive, the sums fit in 64 bits and no chunk within the range panics,
  -- then HistoricProcess ends, and the chunks that it processed are contiguous, in order, once
  -- for each height, none longer than the chunk size: all heights of the range unless it was
  -- interrupted.
  pub historic_process-Covered :
      (from : ℕ) (o : Orchestrator) (w : W) (fuel : ℕ)
      → 0 < o.max_block_chunk_size
      → to + o.max_block_chunk_size < u64_mod
      → NeverPanics from
      → from ≤ to + 1
      → to + 1 - from < fuel
      → (r : HistoricRun W) × (historic_process hashing dp rounds to compress fuel from o w
          ≡ done (some r))
        × Covered o.max_block_chunk_size from to from r
  unfolding historic_process
  historic_process-Covered from o w fuel pos small safe h lt =
      historic_loop-Covered from o.max_block_chunk_size pos small safe fuel 0 from
        (record o { is_processing = true; current_processing_height = from }) w refl (omega arith) h
        lt

  -- the empty range before `start` makes no goroutine panic
  abbrev pub EmptyNeverPanics : ℕ → Type 0
  EmptyNeverPanics start =
      (k : ℕ) (w : W)
      → (r : Option String × W) × (process_chunk dp hashing (rounds k).query (rounds k).orders start
            (start - 1) compress w
          ≡ done r)

  historic_loop_stuck :
      (fuel k start : ℕ) (o : Orchestrator) (w : W)
      → o.max_block_chunk_size ≡ 0
      → 0 < start
      → start ≤ to
      → to < u64_mod
      → EmptyNeverPanics start
      → ((j : ℕ) → (rounds j).cancelled ≡ false)
      → run fuel k start o w ≡ done none
  unfolding historic_loop
  historic_loop_stuck zero k start o w e a b c safe live = refl
  historic_loop_stuck (suc fuel) k start o w e a b c safe live =
      let end : chunk_end_of start 0 to ≡ start - 1 = omega arith in
      let end' : chunk_end_of start o.max_block_chunk_size to ≡ start - 1 =
        ap (λ s. chunk_end_of start s to) e ∙ end in
      let next : add64 (start - 1) 1 ≡ start = omega arith in
      let ((x, w'), chunk) = safe k w in
      let rest =
        historic_loop_stuck fuel (k + 1) start (record o { current_processing_height = start - 1 })
          w' e a b c safe live in
      let t : leb start to ≡ true = ground arith in
      historic_loop_next fuel k start (start - 1) start o w w' x none end' t (live k) chunk next
        rest

  -- If the chunk size is 0, which no check of the configuration rules out, the range is not empty
  -- and starts above 0, its end is below 2^64, the empty chunk before its start does not panic and
  -- nothing interrupts it, then HistoricProcess never ends: it runs out of whatever fuel it is
  -- given.
  pub historic_process_stuck :
      (from : ℕ) (o : Orchestrator) (w : W) (fuel : ℕ)
      → o.max_block_chunk_size ≡ 0
      → 0 < from
      → from ≤ to
      → to < u64_mod
      → EmptyNeverPanics from
      → ((j : ℕ) → (rounds j).cancelled ≡ false)
      → historic_process hashing dp rounds to compress fuel from o w ≡ done none
  unfolding historic_process
  historic_process_stuck from o w fuel e a b c safe live =
      historic_loop_stuck fuel 0 from
        (record o { is_processing = true; current_processing_height = from }) w e a b c safe live
