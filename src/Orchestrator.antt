-- ===== src/Orchestrator.antt =====
-- indexer/orchestrator/operator.go: the loops that fetch chunks of blocks and hand them over to the
-- data processor. What the orchestrator calls is a record of functions; the log, the pauses and the
-- state dumps on disk are not modelled.
pub mod Collect
pub mod State
pub mod Historic
pub mod Live
use spectra_gnoland_indexer.Common.{
  ℕ, zero, suc, ◌+◌, ◌≤◌, String, Bool, true, false, ◌&&◌, Option, none, some, List, [], ◌∷◌, ◌++◌,
  map, length, Outcome, done, panicked, ◌>>=◌, ◌>>◌, min, add64, sub64, leb, ltb, ◌==◌, str_eq,
  if◌then◌else◌,
}
use spectra_gnoland_indexer.Rpc.{BlockResponse, CommitResponse, TxResponse}
use spectra_gnoland_indexer.Rpc.Block
use spectra_gnoland_indexer.Rpc.Tx

pub record TransactionsData : Type 0 where
  pub response : TxResponse
  pub timestamp : ℕ
  pub block_height : ℕ

-- the standard base64 coding and SHA-256
pub record Hashing : Type 1 where
  pub Bytes : Type 0
  pub decode_string : String → Option Bytes
  pub encode_to_string : Bytes → String
  pub sum256 : Bytes → Bytes

pub record BlockTx : Type 0 where
  pub tx_hash : String
  pub block_height : ℕ
  pub timestamp : ℕ

module _ (hashing : Hashing) where
  open hashing use {decode_string, encode_to_string, sum256}

  -- one transaction of a block: `continue` where it cannot be decoded, or the height parsed
  abbrev block_tx : Option BlockResponse → String → Option BlockTx
  block_tx block tx_hash = elim (decode_string tx_hash) [
    | none ↦ none
    | some tx_hash_bytes ↦ elim (Block.get_height block) [
      | none ↦ none
      | some block_height ↦ some (record {
        tx_hash = encode_to_string (sum256 tx_hash_bytes);
        block_height = block_height;
        timestamp = Block.get_timestamp block;
      })
    ]
  ]

  unfoldable pub block_txs : Option BlockResponse → List String → List BlockTx
  block_txs block [] = []
  block_txs block (h ∷ hs) = elim (block_tx block h) [
    | none ↦ block_txs block hs
    | some t ↦ t ∷ block_txs block hs
  ]

  abbrev pub hashes_of : Option (List String) → List String
  hashes_of none = []
  hashes_of (some hs) = hs

  -- nil blocks have nil hashes, and both are skipped
  unfoldable pub block_tx_data : List (Option BlockResponse) → List BlockTx
  unfolding block_txs
  block_tx_data [] = []
  block_tx_data (none ∷ blocks) = block_tx_data blocks
  block_tx_data (some block ∷ blocks) =
      block_txs (some block) (hashes_of (Block.get_tx_hashes (some block))) ++ block_tx_data blocks

-- the inner loop over `blockTxData`, for one transaction that is not nil
unfoldable pub with_block : TxResponse → List BlockTx → List TransactionsData
with_block tx [] = []
with_block tx (b ∷ bs) =
    let rest = with_block tx bs in
    if str_eq b.tx_hash (Tx.get_hash (some tx))
    then record { response = tx; timestamp = b.timestamp; block_height = b.block_height } ∷ rest
    else rest

unfoldable pub join_blocks : List (Option TxResponse) → List BlockTx → List TransactionsData
unfolding with_block
join_blocks [] bs = []
join_blocks (none ∷ txs) bs = join_blocks txs bs
join_blocks (some tx ∷ txs) bs = with_block tx bs ++ join_blocks txs bs

-- the query operator, as the orchestrator uses it
pub record QueryOps : Type 0 where
  pub get_from_to_blocks : ℕ → ℕ → Outcome (List (Option BlockResponse))
  pub get_from_to_commits : ℕ → ℕ → Outcome (List (Option CommitResponse))
  pub get_transactions : List String → Outcome (List (Option TxResponse))

-- the queries for the transactions of the blocks, if there are any
unfoldable pub query_block_txs : QueryOps → List BlockTx → Outcome (List TransactionsData)
unfolding join_blocks
query_block_txs query bs = if length bs == 0 then done [] else do
  transactions ← query.get_transactions (map (λ b. b.tx_hash) bs)
  done (join_blocks transactions bs)

unfoldable pub collect_transactions_from_blocks :
    Hashing → QueryOps → List (Option BlockResponse) → Outcome (List TransactionsData)
unfolding query_block_txs
collect_transactions_from_blocks hashing query bs = query_block_txs query (block_tx_data hashing bs)

pub record ProcessingContext : Type 0 where
  pub blocks : List (Option BlockResponse)
  pub commits : List (Option CommitResponse)
  pub transactions : List TransactionsData
  pub compress_events : Bool
  pub from_height : ℕ
  pub to_height : ℕ
  pub has_txs : Bool

-- the data processor, as the orchestrator uses it: each method changes the world, or panics
pub record DataProcessorOps (W : Type 0) : Type 0 where
  pub process_validator_addresses : List (Option BlockResponse) → ℕ → ℕ → W → Outcome W
  pub process_tx_hash_ids : List TransactionsData → W → Outcome W
  pub process_blocks : List (Option BlockResponse) → ℕ → ℕ → W → Outcome W
  pub process_validator_signings : List (Option CommitResponse) → ℕ → ℕ → W → Outcome W
  -- the error, if any, and the world
  pub process_messages : List TransactionsData → ℕ → ℕ → W → Outcome (Option String × W)
  pub process_transactions : List TransactionsData → Bool → ℕ → ℕ → W → Outcome W

-- the goroutines of the two phases
pub data Task : Type 0 where
  validator_addresses tx_hash_ids blocks validator_signings messages transactions : Task

unfoldable pub phase1_tasks : Bool → List Task
phase1_tasks has_txs = validator_addresses ∷ (if has_txs then tx_hash_ids ∷ [] else [])

unfoldable pub phase2_tasks : Bool → List Task
phase2_tasks has_txs =
    blocks ∷ validator_signings ∷ (if has_txs then messages ∷ transactions ∷ [] else [])

module _ {W : Type 0} (dp : DataProcessorOps W) where
  -- an error of `ProcessMessages` is logged
  unfoldable pub run_task : ProcessingContext → Task → W → Outcome W
  run_task ctx validator_addresses w =
      dp.process_validator_addresses ctx.blocks ctx.from_height ctx.to_height w
  run_task ctx tx_hash_ids w = dp.process_tx_hash_ids ctx.transactions w
  run_task ctx blocks w = dp.process_blocks ctx.blocks ctx.from_height ctx.to_height w
  run_task ctx validator_signings w =
      dp.process_validator_signings ctx.commits ctx.from_height ctx.to_height w
  run_task ctx messages w = do
    (err, w') ← dp.process_messages ctx.transactions ctx.from_height ctx.to_height w
    done w'
  run_task ctx transactions w =
      dp.process_transactions ctx.transactions ctx.compress_events ctx.from_height ctx.to_height w

  unfoldable pub run_tasks : ProcessingContext → List Task → W → Outcome W
  unfolding run_task
  run_tasks ctx [] w = done w
  run_tasks ctx (t ∷ ts) w = do w' ← run_task ctx t w; run_tasks ctx ts w'

  -- `orders` gives, for the tasks of a phase, the order in which they take effect. No error is
  -- ever returned.
  unfoldable pub process_all :
      (List Task → List Task)
      → List (Option BlockResponse)
      → List (Option CommitResponse)
      → List TransactionsData
      → Bool
      → ℕ
      → ℕ
      → W
      → Outcome (Option String × W)
  unfolding run_tasks phase1_tasks phase2_tasks
  process_all orders bs cs txs compress_events from_height to_height w =
      let has_txs = ltb 0 (length txs) in
      let ctx : ProcessingContext = record {
        blocks = bs;
        commits = cs;
        transactions = txs;
        compress_events = compress_events;
        from_height = from_height;
        to_height = to_height;
        has_txs = has_txs;
      } in
      do
        w1 ← run_tasks ctx (orders (phase1_tasks has_txs)) w
        w2 ← run_tasks ctx (orders (phase2_tasks has_txs)) w1
        done (none, w2)

  unfoldable pub process_chunk :
      Hashing → QueryOps → (List Task → List Task) → ℕ → ℕ → Bool → W → Outcome (Option String × W)
  unfolding collect_transactions_from_blocks process_all
  process_chunk hashing query orders chunk_start chunk_end compress_events w = do
    bs ← query.get_from_to_blocks chunk_start chunk_end
    cs ← query.get_from_to_commits chunk_start chunk_end
    if length bs == 0 && length cs == 0 then done (none, w) else do
      txs ← collect_transactions_from_blocks hashing query bs
      process_all orders bs cs txs compress_events chunk_start chunk_end w
