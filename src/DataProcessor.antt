-- ===== src/DataProcessor.antt =====
-- indexer/data_processor: what becomes of a chunk of blocks and commits (operator.go). The database
-- and the validator cache are parameters over a world that their calls change; a goroutine that
-- dereferences nil ends the program. The log, the timeouts and the errors' texts are not modelled.
pub mod Inserts
pub mod Messages
pub mod Aborts
pub mod Events
pub mod Transactions
pub mod Accepts
pub mod Unsupported
use spectra_gnoland_indexer.Common.{
  ℕ, String, Bool, true, false, Option, none, some, List, [], ◌∷◌, map, Outcome, done, panicked,
  ◌>>=◌, insert_key, string_comparable, if◌then◌else◌, parse_uint,
}
use spectra_gnoland_indexer.Rpc.{BlockResponse, CommitResponse, Precommit, zero_time}
use spectra_gnoland_indexer.Rpc.Commits
use spectra_gnoland_indexer.Swarm.{fan_out}

-- `[]byte`, and the standard base64 decoding
pub record Base64 : Type 1 where
  pub Bytes : Type 0
  pub nil_bytes : Bytes
  pub decode_string : String → Option Bytes

pub record Blocks (Bytes : Type 0) : Type 0 where
  pub hash : Bytes
  pub height : ℕ
  pub timestamp : ℕ
  pub chain_id : String
  pub chain_name : String

pub record ValidatorBlockSigning : Type 0 where
  pub block_height : ℕ
  pub timestamp : ℕ
  pub proposer : ℕ
  pub signed_vals : List ℕ
  pub chain_name : String

-- each call gives whether it succeeded, and the world
pub record Services (Bytes : Type 0) : Type 1 where
  pub World : Type 0
  pub insert_blocks : List (Blocks Bytes) → World → Bool × World
  pub insert_signings : List ValidatorBlockSigning → World → Bool × World
  -- `AddressSolver` of the validator cache, for validators, with three attempts
  pub solve_validators : List String → World → World
  pub get_validator : World → String → ℕ

-- the pointers of a slice that are not nil, or the panic of a goroutine that meets nil
unfoldable pub dereferenced {ℓ} : {A : Type ℓ} → List (Option A) → Outcome (List A)
dereferenced [] = done []
dereferenced (none ∷ xs) = panicked
dereferenced (some x ∷ xs) = do ys ← dereferenced xs; done (x ∷ ys)

unfoldable pub add_precommits : List (Option Precommit) → List String → List String
add_precommits [] addresses_map = addresses_map
add_precommits (none ∷ ps) addresses_map = add_precommits ps addresses_map
add_precommits (some p ∷ ps) addresses_map =
    add_precommits ps (insert_key p.validator_address addresses_map)

unfoldable pub process_precommits : BlockResponse → List String → List String
unfolding add_precommits
process_precommits block addresses_map =
    insert_key block.result.block.header.proposer_address
      (add_precommits block.result.block.last_commit.precommits addresses_map)

unfoldable pub all_precommits : List BlockResponse → List String → List String
unfolding process_precommits
all_precommits [] addresses_map = addresses_map
all_precommits (b ∷ bs) addresses_map = all_precommits bs (process_precommits b addresses_map)

-- the entries that were processed
unfoldable pub collect_valid {ℓ} : {A : Type ℓ} → List (Bool × A) → List A
collect_valid [] = []
collect_valid ((ok, a) ∷ slots) = let rest = collect_valid slots in if ok then a ∷ rest else rest

module _ (base64 : Base64) (services : Services base64.Bytes) (chain_name : String) where
  open base64 use {Bytes, nil_bytes, decode_string}
  open services use {World, insert_blocks, insert_signings, solve_validators, get_validator}

  -- the blocks in the order in which their goroutines take effect
  unfoldable pub process_validator_addresses : List (Option BlockResponse) → World → Outcome World
  unfolding dereferenced all_precommits
  process_validator_addresses blocks w = do
    bs ← dereferenced blocks
    done (solve_validators (all_precommits bs []) w)

  abbrev pub zero_block : Blocks Bytes
  zero_block = record {
    hash = nil_bytes;
    height = 0;
    timestamp = zero_time;
    chain_id = "";
    chain_name = "";
  }

  -- what a goroutine writes to its slot: nothing if the hash or the height is malformed
  unfoldable pub process_block : BlockResponse → Option (Blocks Bytes)
  process_block block = elim (decode_string block.result.block_meta.block_id.hash) [
    | none ↦ none
    | some hash ↦ elim (parse_uint block.result.block.header.height) [
      | none ↦ none
      | some height ↦ some (record {
        hash = hash;
        height = height;
        timestamp = block.result.block.header.time;
        chain_id = block.result.block.header.chain_id;
        chain_name = chain_name;
      })
    ]
  ]

  -- `sched` is the order in which the goroutines take effect; an error of the database is logged
  unfoldable pub process_blocks : List ℕ → List (Option BlockResponse) → World → Outcome World
  unfolding dereferenced fan_out process_block
  process_blocks sched blocks w = do
    bs ← dereferenced blocks
    done (insert_blocks (fan_out process_block bs zero_block sched) w).1

  unfoldable pub signed_vals : World → List (Option Precommit) → List ℕ
  signed_vals w [] = []
  signed_vals w (none ∷ ps) = signed_vals w ps
  signed_vals w (some p ∷ ps) = get_validator w p.validator_address ∷ signed_vals w ps

  abbrev pub zero_signing : ValidatorBlockSigning
  zero_signing = record {
    block_height = 0;
    timestamp = zero_time;
    proposer = 0;
    signed_vals = [];
    chain_name = "";
  }

  -- the slot of the row, and whether it is valid; a commit may be nil
  unfoldable pub process_validator_signing :
      World → Option CommitResponse → Option (Bool × ValidatorBlockSigning)
  unfolding signed_vals
  process_validator_signing w commit = elim (Commits.get_height commit) [
    | none ↦ none
    | some height ↦ some (
      true,
      record {
        block_height = height;
        timestamp = Commits.get_timestamp commit;
        proposer = get_validator w (Commits.get_proposer_address commit);
        signed_vals = signed_vals w (Commits.get_signers commit);
        chain_name = chain_name;
      },
    )
  ]

  unfoldable pub process_validator_signings : List ℕ → List (Option CommitResponse) → World → World
  unfolding collect_valid fan_out process_validator_signing
  process_validator_signings sched commits w =
      (insert_signings
        (collect_valid (fan_out (process_validator_signing w) commits (false, zero_signing) sched))
        w).1
