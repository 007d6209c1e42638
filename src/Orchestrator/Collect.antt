-- ===== src/Orchestrator/Collect.antt =====
-- Which transactions `collectTransactionsFromBlocks` hands over.
use mathlib.Core.List.{append_assoc}
use spectra_gnoland_indexer.Common.{
  ℕ, parse_uint, String, ◌≡◌, refl, sym, ap, ◌∙◌, false, inl, inr, Option, none, some, List, [],
  ◌∷◌, ◌++◌, map, length, done, arith, str_eq, eq_iff, ◌==◌, contains, string_comparable,
  Option-cases,
}
use spectra_gnoland_indexer.Rpc.{BlockResponse, TxResponse}
use spectra_gnoland_indexer.Rpc.Block
use spectra_gnoland_indexer.Rpc.Tx
use spectra_gnoland_indexer.Orchestrator.{
  TransactionsData, Hashing, BlockTx, QueryOps, hashes_of, block_txs, block_tx_data, with_block,
  join_blocks, query_block_txs, collect_transactions_from_blocks,
}

abbrev pub hashes : List BlockTx → List String
hashes bs = map (λ b. b.tx_hash) bs

-- no hash occurs twice
abbrev pub IsDistinct : List String → Type 0
IsDistinct [] = Unit
IsDistinct (h ∷ hs) = (contains h hs ≡ false) × IsDistinct hs

-- what the node says of each extracted transaction
abbrev one_found : BlockTx → Option TxResponse → List TransactionsData
one_found b none = []
one_found b (some tx) =
    record { response = tx; timestamp = b.timestamp; block_height = b.block_height } ∷ []

abbrev found : (String → Option TxResponse) → List BlockTx → List TransactionsData
found answer [] = []
found answer (b ∷ bs) = one_found b (answer b.tx_hash) ++ found answer bs

found-append :
    (answer : String → Option TxResponse) (bs cs : List BlockTx)
    → found answer (bs ++ cs) ≡ found answer bs ++ found answer cs
found-append answer [] cs = refl
found-append answer (b ∷ bs) cs =
    ap (λ ts. one_found b (answer b.tx_hash) ++ ts) (found-append answer bs cs)
    ∙ sym (append_assoc (one_found b (answer b.tx_hash)) (found answer bs) (found answer cs))

-- What is to be collected: for each block whose height is the number `n`, and each of its
-- transactions that is base64, what the node says of the hash, with `n` and the block's time.
module _ (answer : String → Option TxResponse) (hashing : Hashing) where
  open hashing use {Bytes, decode_string, encode_to_string, sum256}

  abbrev with_header : BlockResponse → ℕ → Option TxResponse → List TransactionsData
  with_header b n none = []
  with_header b n (some tx) =
      record { response = tx; timestamp = b.result.block.header.time; block_height = n } ∷ []

  abbrev known_tx : BlockResponse → ℕ → Option Bytes → List TransactionsData
  known_tx b n none = []
  known_tx b n (some bytes) = with_header b n (answer (encode_to_string (sum256 bytes)))

  abbrev known_txs : BlockResponse → ℕ → List String → List TransactionsData
  known_txs b n [] = []
  known_txs b n (h ∷ hs) = known_tx b n (decode_string h) ++ known_txs b n hs

  abbrev of_block : BlockResponse → Option ℕ → Option (List String) → List TransactionsData
  of_block b o none = []
  of_block b none (some hs) = []
  of_block b (some n) (some hs) = known_txs b n hs

  abbrev pub known : List (Option BlockResponse) → List TransactionsData
  known [] = []
  known (none ∷ blocks) = known blocks
  known (some b ∷ blocks) =
      of_block b (parse_uint b.result.block.header.height) b.result.block.block_data.txs
      ++ known blocks

  found-block_txs :
      (b : BlockResponse) (hs : List String)
      → found answer (block_txs hashing (some b) hs)
        ≡ of_block b (parse_uint b.result.block.header.height) (some hs)
  unfolding block_txs Block.get_height Block.get_timestamp
  found-block_txs b [] = elim (Option-cases (parse_uint b.result.block.header.height)) [
    | inl e ↦ rw e
    | inr (n, e) ↦ rw e
  ]
  found-block_txs b (h ∷ hs) =
      let rest = found-block_txs b hs in
      elim (Option-cases (parse_uint b.result.block.header.height)) [
        | inl e ↦ elim (Option-cases (decode_string h)) [
          | inl d ↦ rw (d, block_txs, rest, e)
          | inr (bytes, d) ↦ rw (d, e, block_txs, rest, e)
        ]
        | inr (n, e) ↦ elim (Option-cases (decode_string h)) [
          | inl d ↦ rw (e, d, block_txs, rest, e)
          | inr (bytes, d) ↦ elim (Option-cases (answer (encode_to_string (sum256 bytes)))) [
            | inl a ↦ rw (e, d, block_txs, e, a, rest, e)
            | inr (tx, a) ↦ rw (e, d, block_txs, e, a, rest, e)
          ]
        ]
      ]

  found-hashes_of :
      (b : BlockResponse) (o : Option (List String))
      → found answer (block_txs hashing (some b) (hashes_of hashing o))
        ≡ of_block b (parse_uint b.result.block.header.height) o
  unfolding block_txs
  found-hashes_of b none = refl
  found-hashes_of b (some hs) = found-block_txs b hs

  found-known :
      (blocks : List (Option BlockResponse))
      → found answer (block_tx_data hashing blocks) ≡ known blocks
  unfolding block_tx_data Block.get_tx_hashes
  found-known [] = refl
  found-known (none ∷ blocks) = found-known blocks
  found-known (some b ∷ blocks) =
      let txs = b.result.block.block_data.txs in
      found-append answer (block_txs hashing (some b) (hashes_of hashing txs))
        (block_tx_data hashing blocks)
      ∙ rw (found-hashes_of b txs, found-known blocks)

with_block_absent :
    (tx : TxResponse) (bs : List BlockTx)
    → contains tx.result.hash (hashes bs) ≡ false
    → with_block tx bs ≡ []
unfolding with_block Tx.get_hash
with_block_absent tx [] h = refl
with_block_absent tx (b ∷ bs) h =
    ground (arith, eq_iff b.tx_hash tx.result.hash, with_block_absent tx bs)

with_block_present :
    (tx : TxResponse) (pre : List BlockTx) (b : BlockTx) (bs : List BlockTx)
    → b.tx_hash ≡ tx.result.hash
    → contains tx.result.hash (hashes pre) ≡ false
    → contains tx.result.hash (hashes bs) ≡ false
    → with_block tx (pre ++ b ∷ bs) ≡ one_found b (some tx)
unfolding with_block Tx.get_hash
with_block_present tx [] b bs e h k =
    ground (arith, eq_iff b.tx_hash tx.result.hash, with_block_absent tx bs k)
with_block_present tx (p ∷ pre) b bs e h k =
    ground (arith, eq_iff p.tx_hash tx.result.hash, with_block_present tx pre b bs e)

not_last :
    (h : String) (pre : List BlockTx) (b : BlockTx) (bs : List BlockTx)
    → contains h (hashes (pre ++ b ∷ bs)) ≡ false
    → str_eq b.tx_hash h ≡ false
not_last h [] b bs k = ground arith
not_last h (p ∷ pre) b bs k = not_last h pre b bs (ground arith)

middle-IsDistinct :
    (pre : List BlockTx) (b : BlockTx) (bs : List BlockTx)
    → IsDistinct (hashes (pre ++ b ∷ bs))
    → (contains b.tx_hash (hashes pre) ≡ false) × (contains b.tx_hash (hashes bs) ≡ false)
middle-IsDistinct [] b bs d = (refl, d.0)
middle-IsDistinct (p ∷ pre) b bs d = ground (
  arith,
  eq_iff p.tx_hash b.tx_hash,
  eq_iff b.tx_hash p.tx_hash,
  not_last p.tx_hash pre b bs d.0,
  middle-IsDistinct pre b bs d.1,
)

module _ (answer : String → Option TxResponse) where
  -- the node answers with the transaction that it was asked for
  abbrev pub IsFaithful : Type 0
  IsFaithful = (h : String) (tx : TxResponse) → answer h ≡ some tx → tx.result.hash ≡ h

  join_blocks-found :
      IsFaithful
      → (pre bs : List BlockTx) → IsDistinct (hashes (pre ++ bs))
      → join_blocks (map answer (hashes bs)) (pre ++ bs) ≡ found answer bs
  unfolding join_blocks
  join_blocks-found faithful pre [] d = refl
  join_blocks-found faithful pre (b ∷ bs) d =
      let (before, behind) = middle-IsDistinct pre b bs d in
      let moved : (pre ++ b ∷ []) ++ bs ≡ pre ++ b ∷ bs = append_assoc pre (b ∷ []) bs in
      let rest : join_blocks (map answer (hashes bs)) (pre ++ b ∷ bs) ≡ found answer bs =
        rw moved at (join_blocks-found faithful (pre ++ b ∷ []) bs (rw moved d)) in
      elim (Option-cases (answer b.tx_hash)) [
        | inl e ↦ rw e rest
        | inr (tx, e) ↦
            let same = faithful b.tx_hash tx e in
            rw (e, with_block_present tx pre b bs (sym same) (rw same before) (rw same behind))
              (rw rest)
      ]

  query_block_txs-found :
      IsFaithful
      → (query : QueryOps) (bs : List BlockTx)
      → ((hs : List String) → query.get_transactions hs ≡ done (map answer hs))
      → IsDistinct (hashes bs)
      → query_block_txs query bs ≡ done (found answer bs)
  unfolding query_block_txs
  query_block_txs-found faithful query [] answers d = refl
  query_block_txs-found faithful query (b ∷ bs) answers d =
      let some_left : (length (b ∷ bs) == 0) ≡ false = ground arith in
      rw (some_left, answers (hashes (b ∷ bs))) (ap done (join_blocks-found faithful [] (b ∷ bs) d))

  -- If the node answers each query with the transaction that was asked for or with nothing, and no
  -- hash of a transaction occurs twice in the blocks, then what is collected is, for each block
  -- that is not nil and whose height can be parsed, in order, and each of its transactions that
  -- is base64 and whose hash the node knows, in order, the node's answer with that block's height
  -- and time.
  pub collect_transactions_from_blocks-found :
      IsFaithful
      → (hashing : Hashing) (query : QueryOps) (blocks : List (Option BlockResponse))
      → ((hs : List String) → query.get_transactions hs ≡ done (map answer hs))
      → IsDistinct (hashes (block_tx_data hashing blocks))
      → collect_transactions_from_blocks hashing query blocks ≡ done (known answer hashing blocks)
  collect_transactions_from_blocks-found faithful hashing query blocks answers d =
      unfold collect_transactions_from_blocks in
      query_block_txs-found faithful query (block_tx_data hashing blocks) answers d
      ∙ ap done (found-known answer hashing blocks)
