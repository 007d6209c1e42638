-- ===== src/Tests/Orchestration.antt =====
-- The loops of the orchestrator over the query operator and a node that answers with empty
-- blocks, and a data processor that records the ranges of blocks that it is given.
use spectra_gnoland_indexer.Common.{
  ℕ, zero, suc, ◌+◌, ◌-◌, ◌≤◌, ◌<◌, ◌≡◌, refl, true, heights, range_from, contains, nat_comparable,
  length, ◌==◌, ◌&&◌, text_of, format_uint, err, String, false, Option, none, some, List, [], ◌∷◌,
  ◌++◌, parse_uint, map, inl, inr, Bool-cases, done, panicked, Result, ok, arith, str_eq,
  if◌then◌else◌,
}
use spectra_gnoland_indexer.Rpc.{BlockResponse, CommitResponse, TxResponse}
use spectra_gnoland_indexer.Rpc.Block
use spectra_gnoland_indexer.Retry.{sleeps_after}
use spectra_gnoland_indexer.Swarm.{Covers}
use spectra_gnoland_indexer.Query.{fetch_all, get_from_to_blocks, get_from_to_commits}
use spectra_gnoland_indexer.Query.Ranges.{get_from_to_blocks-heights, get_from_to_blocks_reversed}
use spectra_gnoland_indexer.Orchestrator.{
  Hashing, QueryOps, DataProcessorOps, process_chunk, process_all, collect_transactions_from_blocks,
  query_block_txs, block_tx_data, block_txs, phase1_tasks, phase2_tasks, run_tasks, run_task,
}
use spectra_gnoland_indexer.Orchestrator.State.{Orchestrator, Round}
use spectra_gnoland_indexer.Orchestrator.Historic.{HistoricRun, historic_process}
use spectra_gnoland_indexer.Orchestrator.Historic.Chunks.{
  NeverPanics, EmptyNeverPanics, Covered, historic_process-Covered, historic_process_stuck,
}
use spectra_gnoland_indexer.Orchestrator.Live.{
  LiveRound, LiveRun, live_process, live_from, live_loop, live_step, live_chunk_end,
}
use spectra_gnoland_indexer.Orchestrator.Live.Steps.{StepsSafely, Contiguous}
use spectra_gnoland_indexer.Orchestrator.Live.Follows.{
  catch_up, live_process-Contiguous, live_process_behind,
}
use spectra_gnoland_indexer.Orchestrator.Collect.{
  IsFaithful, known, collect_transactions_from_blocks-found,
}
use spectra_gnoland_indexer.Tests.Queries.{operator}

abbrev pub hashing : Hashing
hashing = record {
  Bytes = String;
  decode_string = some;
  encode_to_string = λ s. s;
  sum256 = λ s. s;
}

abbrev pub block : String → List String → BlockResponse
block height txs = record {
  error = none;
  result = record {
    block_meta = record { block_id = record { hash = "aGFzaA==" } };
    block = record {
      header = record { chain_id = "test"; height = height; time = 5; proposer_address = "g1p" };
      block_data = record { txs = some txs };
      last_commit = record { precommits = [] };
    };
  };
}

-- every height has a block without transactions, and no commit can be had
abbrev empty_block : ℕ → BlockResponse
empty_block h = block (text_of (format_uint h)) []

abbrev answers : ℕ → ℕ → Result String BlockResponse
answers h k = ok (empty_block h)

abbrev commits : ℕ → ℕ → Result String CommitResponse
commits h k = err "no answer"

abbrev schedule : ℕ → ℕ → List ℕ
schedule from to = range_from 0 (to - from + 1)

-- the query operator over this node
abbrev query : QueryOps
query = record {
  get_from_to_blocks = λ from to. get_from_to_blocks operator answers from to (schedule from to);
  get_from_to_commits = λ from to. get_from_to_commits operator commits from to (schedule from to);
  get_transactions = λ hs. done [];
}

abbrev pub dp : DataProcessorOps (List (ℕ × ℕ))
dp = record {
  process_validator_addresses = λ bs from to w. done w;
  process_tx_hash_ids = λ txs w. done w;
  process_blocks = λ bs from to w. done (w ++ (from, to) ∷ []);
  process_validator_signings = λ cs from to w. done w;
  process_messages = λ txs from to w. done (none, w);
  process_transactions = λ txs compress from to w. done w;
}

abbrev pub quiet : Round
quiet = record { cancelled = false; query = query; orders = λ ts. ts }

abbrev orchestrator : ℕ → Orchestrator
orchestrator size = record {
  running_mode = "historic";
  chain_name = "test";
  max_block_chunk_size = size;
  is_processing = false;
  current_processing_height = 0;
}

contains-range_from : (i j n : ℕ) → j ≤ i → i < j + n → contains i (range_from j n) ≡ true
contains-range_from i j zero h lt = absurd (omega arith)
contains-range_from i j (suc n) h lt = elim (Bool-cases (j == i)) [
  | inl e ↦ rw e
  | inr d ↦ rw d (contains-range_from i (j + 1) n (ground arith) (omega arith))
]

range_from-Covers : (n : ℕ) → Covers n (range_from 0 n)
range_from-Covers n i h = contains-range_from i 0 n (omega arith) (omega arith)

no_txs : (hs : List ℕ) → block_tx_data hashing (map (λ h. some (empty_block h)) hs) ≡ []
unfolding block_tx_data block_txs Block.get_tx_hashes
no_txs [] = refl
no_txs (h ∷ hs) = no_txs hs

process_chunk-empty :
    (bs : List (Option BlockResponse)) (cs : List (Option CommitResponse)) (start end : ℕ)
    (w : List (ℕ × ℕ))
    → query.get_from_to_blocks start end ≡ done bs
    → query.get_from_to_commits start end ≡ done cs
    → block_tx_data hashing bs ≡ []
    → (x : Option String × List (ℕ × ℕ)) × (process_chunk dp hashing query
          (λ ts. ts)
          start
          end
          false
          w
        ≡ done x)
unfolding process_chunk process_all collect_transactions_from_blocks query_block_txs phase1_tasks
    phase2_tasks run_tasks run_task
process_chunk-empty bs cs start end w b c none_there =
    elim (Bool-cases (length bs == 0 && length cs == 0)) [
      | inl t ↦ ((none, w), rw (b, c, t))
      | inr f ↦ ((none, w ++ (start, end) ∷ []), rw (b, c, f, none_there))
    ]

quiet_chunk :
    (start end : ℕ) (w : List (ℕ × ℕ))
    → start ≤ end
    → end ≤ 1000
    → (x : Option String × List (ℕ × ℕ)) × (process_chunk dp hashing query
          (λ ts. ts)
          start
          end
          false
          w
        ≡ done x)
unfolding get_from_to_blocks get_from_to_commits
quiet_chunk start end w le small =
    let n = end - start + 1 in
    let covers = range_from-Covers n in
    process_chunk-empty (map (λ h. some (empty_block h)) (heights start n))
      (map (λ h. none) (heights start n)) start end w
      (get_from_to_blocks-heights operator answers start end (range_from 0 n) (omega arith) le
        (omega arith) (omega arith) covers)
      (get_from_to_blocks-heights operator commits start end (range_from 0 n) (omega arith) le
        (omega arith) (omega arith) covers)
      (no_txs (heights start n))

quiet_steps : (first latest : ℕ) → latest ≤ 1000 → StepsSafely hashing dp false first latest quiet
quiet_steps first latest small start end w h le lt = quiet_chunk start end w le (omega arith)

pub quiet_chunks : (from to : ℕ) → to ≤ 1000 → NeverPanics hashing dp (λ k. quiet) to false from
quiet_chunks from to small k start end w h le lt = quiet_chunk start end w le (omega arith)

-- the range that ends just before its start is empty
quiet_empty : (to : ℕ) → EmptyNeverPanics hashing dp (λ k. quiet) to false 3
unfolding get_from_to_blocks get_from_to_commits
quiet_empty to k w =
    let none_there : block_tx_data hashing [] ≡ [] = unfold block_tx_data in refl in
    process_chunk-empty [] [] 3 2 w refl refl none_there

historic_process-Covered_example :
    (r : HistoricRun (List (ℕ × ℕ))) × (historic_process hashing dp
        (λ k. quiet)
        12
        false
        11
        3
        (orchestrator 4)
        []
      ≡ done (some r))
    × Covered 4 3 12 3 r
historic_process-Covered_example =
    historic_process-Covered hashing dp (λ k. quiet) 12 false 3 (orchestrator 4) [] 11 (omega arith)
      (omega arith) (quiet_chunks 3 12 (omega arith)) (omega arith) (omega arith)

historic_process_stuck_example :
    historic_process hashing dp (λ k. quiet) 12 false 1000 3 (orchestrator 0) [] ≡ done none
historic_process_stuck_example =
    historic_process_stuck hashing dp (λ k. quiet) 12 false 3 (orchestrator 0) [] 1000 refl
      (omega arith) (omega arith) (omega arith) (quiet_empty 12) (λ j. refl)

abbrev live_rounds : List LiveRound
live_rounds = (some 12, quiet) ∷ (none, quiet) ∷ (some 13, quiet) ∷ []

live_process-Contiguous_example :
    (s : LiveRun (List (ℕ × ℕ))) × (live_process hashing dp false false
        (some 10)
        none
        live_rounds
        (orchestrator 4)
        []
      ≡ done s)
    × Contiguous 10 s
    × (s.last_processed_height ≡ catch_up 4 10 live_rounds)
live_process-Contiguous_example =
    live_process-Contiguous hashing dp false false (some 10) none 10 live_rounds (orchestrator 4) []
      (quiet_steps 10 12 (omega arith), (quiet_steps 10 13 (omega arith), tt)) refl
      (omega arith, omega arith, (omega arith, omega arith, tt)) (omega arith)

-- the node answers 12, and then 8
abbrev up_to_12 : LiveRun (List (ℕ × ℕ))
up_to_12 = record {
  orchestrator = record {
    running_mode = "historic";
    chain_name = "test";
    max_block_chunk_size = 4;
    is_processing = true;
    current_processing_height = 12;
  };
  last_processed_height = 12;
  world = (11, 12) ∷ [];
  chunks = (11, 12) ∷ [];
}

first_round :
    live_process hashing dp false false (some 10) none ((some 12, quiet) ∷ []) (orchestrator 4) []
    ≡ done up_to_12
unfolding live_process live_from live_loop live_step live_chunk_end process_chunk process_all
    collect_transactions_from_blocks query_block_txs block_tx_data block_txs Block.get_tx_hashes
    phase1_tasks phase2_tasks run_tasks run_task get_from_to_blocks get_from_to_commits fetch_all
    sleeps_after
first_round = refl

live_process_behind_example :
    live_process hashing dp false false
      (some 10)
      none
      ((some 12, quiet) ∷ (some 8, quiet) ∷ [])
      (orchestrator 4)
      []
    ≡ panicked
live_process_behind_example =
    live_process_behind hashing dp false false (some 10) none 10 ((some 12, quiet) ∷ []) []
      (orchestrator 4) [] up_to_12 8 quiet refl first_round (refl, tt) refl
      (λ from to. get_from_to_blocks_reversed operator answers from to (schedule from to))
      (omega arith) (omega arith) (omega arith) (omega arith)

abbrev pub tx : String → TxResponse
tx hash = record {
  error = none;
  result = record {
    hash = hash;
    height = "7";
    index = 0;
    tx_result = record {
      response_base = record { error = none; events = []; log = [] };
      gas_wanted = "10";
      gas_used = "9";
    };
    tx = "";
  };
}

-- the node does not know "b"
abbrev answer : String → Option TxResponse
answer h = if str_eq h "b" then none else some (tx h)

answer-IsFaithful : IsFaithful answer
answer-IsFaithful h t e = elim (Bool-cases (str_eq h "b")) [
  | inl b ↦ let no = rw b at e in cc
  | inr b ↦ let yes = rw b at e in cc
]

abbrev tx_query : QueryOps
tx_query = record query { get_transactions = λ hs. done (map answer hs) }

abbrev tx_blocks : List (Option BlockResponse)
tx_blocks = some (block "7" ("a" ∷ "b" ∷ [])) ∷ none ∷ some (block "9" ("c" ∷ [])) ∷ []

collect_transactions_from_blocks-found_example :
    collect_transactions_from_blocks hashing tx_query tx_blocks
    ≡ done (known answer hashing tx_blocks)
unfolding block_tx_data block_txs Block.get_tx_hashes Block.get_height parse_uint
collect_transactions_from_blocks-found_example =
    collect_transactions_from_blocks-found answer answer-IsFaithful hashing tx_query tx_blocks
      (λ hs. refl) (refl, (refl, (refl, tt)))
