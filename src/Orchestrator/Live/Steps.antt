-- ===== src/Orchestrator/Live/Steps.antt =====
-- One round of `LiveProcess`.
use mathlib.Core.List.{append_assoc, append-nil}
use spectra_gnoland_indexer.Common.{
  ℕ, ◌+◌, ◌-◌, ◌≤◌, ◌<◌, ◌≡◌, refl, ap, ◌∙◌, subst, String, inl, inr, Bool, false, Option, none,
  some, List, [], ◌∷◌, ◌++◌, length, heights, heights-append, Outcome, done, panicked, ◌&&◌, ◌>>=◌,
  min, add64, sub64, u64_mod, ltb, ◌==◌, arith, Bool-cases,
}
use spectra_gnoland_indexer.Orchestrator.{
  Task, ProcessingContext, phase1_tasks, phase2_tasks, Hashing, QueryOps, DataProcessorOps,
  run_tasks, process_all, process_chunk, collect_transactions_from_blocks,
}
use spectra_gnoland_indexer.Orchestrator.State.{Round, chunk_heights}
use spectra_gnoland_indexer.Orchestrator.Live.{LiveRun, chunk_done, live_chunk_end, live_step}

-- the chunks hold the heights from `first + 1` to the last one, in order, once each
pub record Contiguous {W : Type 0} (first : ℕ) (s : LiveRun W) : Type 0 where
  pub above : first ≤ s.last_processed_height
  pub in_order : chunk_heights s.chunks ≡ heights (first + 1) (s.last_processed_height - first)

chunk_heights-append :
    (cs : List (ℕ × ℕ)) (s e : ℕ)
    → chunk_heights (cs ++ (s, e) ∷ []) ≡ chunk_heights cs ++ heights s (e - s + 1)
chunk_heights-append [] s e = append-nil (heights s (e - s + 1))
chunk_heights-append ((a, b) ∷ cs) s e = rw (chunk_heights-append cs s e, append_assoc)

live_chunk_end_lem :
    (last latest size : ℕ)
    → last < latest
    → latest + 1 < u64_mod
    → 0 < size
    → (live_chunk_end last latest size ≡ min latest (last + size)) × (add64 last 1 ≡ last + 1)
unfolding live_chunk_end
live_chunk_end_lem last latest size h small pos = omega arith

abbrev Errorless : {W : Type 0} → Outcome (Option String × W) → Type 0
Errorless (done (x, w)) = x ≡ none
Errorless panicked = Unit

bind-Errorless :
    {W A : Type 0} (m : Outcome A) (f : A → Outcome (Option String × W))
    → ((a : A) → Errorless (f a))
    → Errorless (m >>= f)
bind-Errorless (done a) f h = h a
bind-Errorless panicked f h = tt

le_min_lem : (a b c d : ℕ) → a ≤ b → b ≤ c → a ≤ min c (b + d)
le_min_lem a b c d h k = omega arith

module _ {W : Type 0} (hashing : Hashing) (dp : DataProcessorOps W) (compress : Bool) where
  phases-Errorless :
      (ctx : ProcessingContext) (ts us : List Task) (w : W)
      → Errorless (run_tasks dp ctx ts w >>= λ w1. run_tasks dp ctx us w1 >>= λ w2. done (none, w2))
  phases-Errorless ctx ts us w =
      bind-Errorless {W = W} (run_tasks dp ctx ts w)
        (λ w1. run_tasks dp ctx us w1 >>= λ w2. done (none, w2))
        (λ w1. bind-Errorless {W = W} (run_tasks dp ctx us w1) (λ w2. done (none, w2)) (λ w2. refl))

  process_chunk-Errorless :
      (q : QueryOps) (orders : List Task → List Task) (start end : ℕ) (w : W)
      → Errorless (process_chunk dp hashing q orders start end compress w)
  unfolding process_chunk process_all
  process_chunk-Errorless q orders start end w =
      bind-Errorless (q.get_from_to_blocks start end) _ (λ bs.
        bind-Errorless (q.get_from_to_commits start end) _ (λ cs.
          elim (Bool-cases (length bs == 0 && length cs == 0)) [
            | inl t ↦ rw t
            | inr f ↦ rw f (
                bind-Errorless (collect_transactions_from_blocks hashing q bs) _ (λ txs.
                  let has_txs = ltb 0 (length txs) in
                  phases-Errorless
                    (record {
                      blocks = bs;
                      commits = cs;
                      transactions = txs;
                      compress_events = compress;
                      from_height = start;
                      to_height = end;
                      has_txs = has_txs;
                    })
                    (orders (phase1_tasks has_txs)) (orders (phase2_tasks has_txs)) w))
          ]))

  -- no chunk of the heights above `first`, up to `latest`, panics
  abbrev pub StepsSafely : ℕ → ℕ → Round → Type 0
  StepsSafely first latest r =
      (start end : ℕ) (w : W)
      → first < start
      → start ≤ end
      → end ≤ latest
      → (x : Option String × W) × (process_chunk dp hashing r.query r.orders start end compress w
          ≡ done x)

  process_chunk-none :
      (q : QueryOps) (orders : List Task → List Task) (start end : ℕ) (w w' : W) (x : Option String)
      → process_chunk dp hashing q orders start end compress w ≡ done (x, w')
      → x ≡ none
  process_chunk-none q orders start end w w' x e =
      subst Errorless e (process_chunk-Errorless q orders start end w)

  live_step_chunk :
      (latest start end : ℕ) (r : Round) (s : LiveRun W) (x : Option String) (w : W)
      → (sub64 latest s.last_processed_height == 0) ≡ false
      → add64 s.last_processed_height 1 ≡ start
      → live_chunk_end s.last_processed_height latest s.orchestrator.max_block_chunk_size ≡ end
      → process_chunk dp hashing r.query r.orders start end compress s.world ≡ done (x, w)
      → live_step hashing dp compress (some latest) r s ≡ done (chunk_done start end x w s)
  unfolding live_step
  live_step_chunk latest start end r s x w b f e chunk = rw (b, f, e, chunk)

  pub live_step-advances :
      (first latest : ℕ) (r : Round) (s : LiveRun W)
      → StepsSafely first latest r
      → Contiguous first s
      → s.last_processed_height ≤ latest
      → latest + 1 < u64_mod
      → 0 < s.orchestrator.max_block_chunk_size
      → (s' : LiveRun W) × (live_step hashing dp compress (some latest) r s ≡ done s')
        × Contiguous first s'
        × (s'.last_processed_height
            ≡ min latest (s.last_processed_height + s.orchestrator.max_block_chunk_size))
        × (s'.orchestrator.max_block_chunk_size ≡ s.orchestrator.max_block_chunk_size)
  unfolding live_step
  live_step-advances first latest r s safe c h small pos =
      let last = s.last_processed_height in
      let size = s.orchestrator.max_block_chunk_size in
      elim (Bool-cases (sub64 latest last == 0)) [
        | inl t ↦ (s, rw t, c, ground arith, refl)
        | inr f ↦
            let lt : last < latest = ground arith in
            let (e, n) = live_chunk_end_lem last latest size lt small pos in
            let end = min latest (last + size) in
            let ((x, w), chunk) =
              safe (last + 1) end s.world (omega (arith, c.above)) (omega arith) (omega arith) in
            let none_x = process_chunk-none r.query r.orders (last + 1) end s.world w x chunk in
            (
              chunk_done (last + 1) end none w s,
              live_step_chunk latest (last + 1) end r s x w f n e chunk
                  ∙ ap (λ y. done (chunk_done (last + 1) end y w s)) none_x,
              record {
                above = le_min_lem first last latest size c.above h;
                in_order =
                    let next : first + 1 + (last - first) ≡ last + 1 = omega (arith, c.above) in
                    let n : end - (last + 1) + 1 ≡ end - last = omega arith in
                    let total : end - first ≡ last - first + (end - last) =
                      omega (arith, c.above) in
                    rw (
                      chunk_heights-append s.chunks (last + 1) end,
                      c.in_order,
                      n,
                      total,
                      heights-append (first + 1) (last - first) (end - last),
                      next,
                    );
              },
              refl,
              refl,
            )
      ]
