-- ===== src/DataProcessor/Inserts.antt =====
-- Which rows and addresses of a chunk reach the database.
use mathlib.Core.Option
use spectra_gnoland_indexer.Common.{
  ℕ, String, parse_uint, fun_ext, ◌≡◌, refl, ap, ◌∙◌, Bool, false, ◌||◌, Option, none, some, List,
  [], ◌∷◌, ◌++◌, map, length, done, panicked, contains, contains-insert_key, insert_key,
  string_comparable, str_eq, Option-cases, inl, inr, arith,
}
use spectra_gnoland_indexer.Rpc.{zero_time, BlockResponse, CommitResponse, Precommit}
use spectra_gnoland_indexer.Rpc.Commits
use spectra_gnoland_indexer.Swarm.{Covers}
use spectra_gnoland_indexer.Swarm.Schedules.{fan_out-map}
use spectra_gnoland_indexer.DataProcessor.{
  Base64, Services, Blocks, ValidatorBlockSigning, dereferenced, add_precommits, process_precommits,
  all_precommits, collect_valid, process_validator_addresses, zero_block, process_block,
  process_blocks, zero_signing, signed_vals, process_validator_signing, process_validator_signings,
}

dereferenced-map {ℓ} : {A : Type ℓ} (xs : List A) → dereferenced (map some xs) ≡ done xs
unfolding dereferenced
dereferenced-map [] = refl
dereferenced-map (x ∷ xs) = rw (dereferenced-map xs)

dereferenced_nil {ℓ} :
    {A : Type ℓ} (xs : List A) (ys : List (Option A))
    → dereferenced (map some xs ++ none ∷ ys) ≡ panicked
unfolding dereferenced
dereferenced_nil [] ys = refl
dereferenced_nil (x ∷ xs) ys = rw (dereferenced_nil xs ys)

-- an address that signed or proposed one of the blocks
abbrev signed_by : String → List (Option Precommit) → Bool
signed_by a [] = false
signed_by a (none ∷ ps) = signed_by a ps
signed_by a (some p ∷ ps) = str_eq p.validator_address a || signed_by a ps

abbrev pub takes_part : String → List BlockResponse → Bool
takes_part a [] = false
takes_part a (b ∷ bs) =
    str_eq b.result.block.header.proposer_address a
    || signed_by a b.result.block.last_commit.precommits
    || takes_part a bs

contains-add_precommits :
    (a : String) (ps : List (Option Precommit)) (s : List String)
    → contains a (add_precommits ps s) ≡ (signed_by a ps || contains a s)
unfolding add_precommits
contains-add_precommits a [] s = refl
contains-add_precommits a (none ∷ ps) s = contains-add_precommits a ps s
contains-add_precommits a (some p ∷ ps) s = ground (
  arith,
  contains-add_precommits a ps (insert_key p.validator_address s),
  contains-insert_key p.validator_address a s,
)

contains-all_precommits :
    (a : String) (bs : List BlockResponse) (s : List String)
    → contains a (all_precommits bs s) ≡ (takes_part a bs || contains a s)
unfolding all_precommits process_precommits
contains-all_precommits a [] s = refl
contains-all_precommits a (b ∷ bs) s =
    let ps = b.result.block.last_commit.precommits in
    let p = b.result.block.header.proposer_address in
    ground (
      arith,
      contains-all_precommits a bs (process_precommits b s),
      contains-insert_key p a (add_precommits ps s),
      contains-add_precommits a ps s,
    )

-- the zero value of a row
abbrev empty_row : {Bytes : Type 0} → Bytes → Blocks Bytes
empty_row nil_bytes = record {
  hash = nil_bytes;
  height = 0;
  timestamp = zero_time;
  chain_id = "";
  chain_name = "";
}

module _ (base64 : Base64) (services : Services base64.Bytes) (chain_name : String) where
  open services use {World, insert_blocks, insert_signings, solve_validators}

  -- If no block is nil, ProcessValidatorAddresses hands exactly the addresses that proposed or
  -- signed one of the blocks to the validator cache.
  pub process_validator_addresses-takes_part :
      (blocks : List BlockResponse) (w : World)
      → (asked : List String) × (process_validator_addresses base64 services chain_name
            (map some blocks)
            w
          ≡ done (solve_validators asked w))
        × ((a : String) → contains a asked ≡ takes_part a blocks)
  unfolding process_validator_addresses
  process_validator_addresses-takes_part blocks w = (
    all_precommits blocks [],
    rw (dereferenced-map blocks),
    λ a. ground (arith, contains-all_precommits a blocks []),
  )

  -- the row of a block with this hash and this height, if both can be read; else the zero row
  abbrev row_of : Option base64.Bytes → Option ℕ → BlockResponse → Blocks base64.Bytes
  row_of (some hash) (some height) b = record {
    hash = hash;
    height = height;
    timestamp = b.result.block.header.time;
    chain_id = b.result.block.header.chain_id;
    chain_name = chain_name;
  }
  row_of none height b = empty_row base64.nil_bytes
  row_of (some hash) none b = empty_row base64.nil_bytes

  abbrev pub block_row : BlockResponse → Blocks base64.Bytes
  block_row b =
      row_of (base64.decode_string b.result.block_meta.block_id.hash)
        (parse_uint b.result.block.header.height) b

  process_block-block_row :
      (b : BlockResponse)
      → Option.get_or
          (process_block base64 services chain_name b)
          (zero_block base64 services chain_name)
        ≡ block_row b
  unfolding process_block
  process_block-block_row b =
      elim (Option-cases (base64.decode_string b.result.block_meta.block_id.hash)) [
        | inl d ↦ rw (d, process_block)
        | inr (hash, d) ↦ elim (Option-cases (parse_uint b.result.block.header.height)) [
          | inl e ↦ rw (d, e, process_block)
          | inr (height, e) ↦ rw (d, e, process_block)
        ]
      ]

  -- If no block is nil, ProcessBlocks inserts one row for each block in order, whatever the order
  -- of the goroutines: with the block's decoded hash, its height, its time and chain id and the
  -- chain's name, or a row of zero values if the hash is not base64 or the height no number.
  pub process_blocks-rows :
      (blocks : List BlockResponse) (sched : List ℕ) (w : World)
      → Covers (length blocks) sched
      → process_blocks base64 services chain_name sched (map some blocks) w
        ≡ done (insert_blocks (map block_row blocks) w).1
  unfolding process_blocks
  process_blocks-rows blocks sched w c = rw (
    dereferenced-map blocks,
    fan_out-map (process_block base64 services chain_name) (zero_block base64 services chain_name)
          blocks sched c
        ∙ ap (λ f. map f blocks) (fun_ext process_block-block_row),
  )

  -- A nil block, which the query operator leaves for a height that it could not fetch, makes both
  -- ProcessValidatorAddresses and ProcessBlocks panic.
  process_blocks_nil :
      (blocks : List BlockResponse) (rest : List (Option BlockResponse)) (sched : List ℕ)
      (w : World)
      → (process_validator_addresses base64 services chain_name (map some blocks ++ none ∷ rest) w
          ≡ panicked)
        × (process_blocks base64 services chain_name sched (map some blocks ++ none ∷ rest) w
            ≡ panicked)
  unfolding process_blocks process_validator_addresses
  process_blocks_nil blocks rest sched w =
      (rw (dereferenced_nil blocks rest), rw (dereferenced_nil blocks rest))

  -- the rows of the commits whose height can be parsed
  abbrev signing_row : World → Option CommitResponse → Option ℕ → List ValidatorBlockSigning
  signing_row w c none = []
  signing_row w c (some height) =
      record {
        block_height = height;
        timestamp = Commits.get_timestamp c;
        proposer = services.get_validator w (Commits.get_proposer_address c);
        signed_vals = signed_vals base64 services chain_name w (Commits.get_signers c);
        chain_name = chain_name;
      }
      ∷ []

  abbrev valid_rows : World → List (Option CommitResponse) → List ValidatorBlockSigning
  valid_rows w [] = []
  valid_rows w (c ∷ cs) = signing_row w c (Commits.get_height c) ++ valid_rows w cs

  collect_valid-map :
      (w : World) (cs : List (Option CommitResponse))
      → collect_valid (
          map
            (λ c.
              Option.get_or
                (process_validator_signing base64 services chain_name w c)
                (false, zero_signing base64 services chain_name))
            cs)
        ≡ valid_rows w cs
  unfolding collect_valid process_validator_signing
  collect_valid-map w [] = refl
  collect_valid-map w (c ∷ cs) =
      let rest = collect_valid-map w cs in
      elim (Option-cases (Commits.get_height c)) [
        | inl e ↦ rw (process_validator_signing, e) rest
        | inr (h, e) ↦ rw (process_validator_signing, e, rest)
      ]

  -- ProcessValidatorSignings never panics, and inserts the rows of exactly those commits whose
  -- height can be parsed, in order, whatever the order of the goroutines.
  process_validator_signings-valid_rows :
      (commits : List (Option CommitResponse)) (sched : List ℕ) (w : World)
      → Covers (length commits) sched
      → process_validator_signings base64 services chain_name sched commits w
        ≡ (insert_signings (valid_rows w commits) w).1
  unfolding process_validator_signings
  process_validator_signings-valid_rows commits sched w c =
      ap (λ rows. (insert_signings rows w).1)
        (ap collect_valid (
            fan_out-map (process_validator_signing base64 services chain_name w)
              (false, zero_signing base64 services chain_name) commits sched c)
          ∙ collect_valid-map w commits)
