-- ===== src/DataProcessor/Accepts.antt =====
-- Which transactions are inserted, and in which format their events are stored.
use mathlib.Core.Option
use spectra_gnoland_indexer.Common.{
  ℕ, String, ◌≡◌, refl, Bool, false, Option, none, some, List, [], ◌∷◌, ◌++◌, map, length, done,
  GoMap, Option-cases, inl, inr,
}
use spectra_gnoland_indexer.Swarm.{Covers}
use spectra_gnoland_indexer.Swarm.Schedules.{fan_out-map}
use spectra_gnoland_indexer.Orchestrator.{TransactionsData}
use spectra_gnoland_indexer.Decoder.{DecodedMsg}
use spectra_gnoland_indexer.DataProcessor.{collect_valid}
use spectra_gnoland_indexer.DataProcessor.Events.{Encoding}
use spectra_gnoland_indexer.DataProcessor.Transactions.{
  TransactionGeneral, process_transaction, decode_all, flagged, process_transactions,
  zero_transaction,
}

module _ {Bytes Float : Type 0} (encoding : Encoding Bytes Float)
    (decode : String → Option DecodedMsg) (chain_name : String) where
  abbrev pub kept : Option (TransactionGeneral Bytes) → List (TransactionGeneral Bytes)
  kept none = []
  kept (some row) = row ∷ []

  -- the rows of the transactions that can be processed
  abbrev pub accepted :
      GoMap String ℕ → Bool → List (TransactionsData × DecodedMsg) → List (TransactionGeneral Bytes)
  accepted tx_hash_cache compress_events [] = []
  accepted tx_hash_cache compress_events (p ∷ ps) =
      kept (process_transaction encoding decode chain_name tx_hash_cache compress_events p)
      ++ accepted tx_hash_cache compress_events ps

  collect_valid-accepted :
      (tx_hash_cache : GoMap String ℕ) (compress_events : Bool)
      (ps : List (TransactionsData × DecodedMsg))
      → collect_valid (
          map
            (λ p.
              Option.get_or
                (flagged encoding decode chain_name
                  (process_transaction encoding decode chain_name tx_hash_cache compress_events p))
                (false, zero_transaction encoding decode chain_name))
            ps)
        ≡ accepted tx_hash_cache compress_events ps
  unfolding collect_valid
  collect_valid-accepted cache compress [] = refl
  collect_valid-accepted cache compress (p ∷ ps) =
      let rest = collect_valid-accepted cache compress ps in
      elim (Option-cases (process_transaction encoding decode chain_name cache compress p)) [
        | inl e ↦ rw e rest
        | inr (row, e) ↦ rw (e, rest)
      ]

  -- If every transaction can be decoded, ProcessTransactions inserts the rows of exactly the
  -- transactions that can be processed, in order, whatever the order of the goroutines, and no zero
  -- row.
  pub process_transactions-accepted :
      {W : Type 0} (insert_rows : List (TransactionGeneral Bytes) → W → Bool × W) (sched : List ℕ)
      (transactions : List TransactionsData) (ps : List (TransactionsData × DecodedMsg))
      (tx_hash_cache : GoMap String ℕ) (compress_events : Bool) (w : W)
      → decode_all encoding decode chain_name transactions ≡ done ps
      → Covers (length ps) sched
      → process_transactions encoding decode chain_name insert_rows sched transactions tx_hash_cache
          compress_events w
        ≡ done (insert_rows (accepted tx_hash_cache compress_events ps) w).1
  unfolding process_transactions
  process_transactions-accepted insert_rows sched transactions ps cache compress w e c = rw (
    e,
    fan_out-map
        (λ p.
          flagged encoding decode chain_name
            (process_transaction encoding decode chain_name cache compress p))
        (false, zero_transaction encoding decode chain_name) ps sched c,
    collect_valid-accepted cache compress ps,
  )
