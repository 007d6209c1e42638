-- ===== src/Timescale/Averages.antt =====
-- pkgs/database/timescaledb/query_block.go: the average times of the blocks, and the signers of a
-- block. A float is a parameter: `per_height` is the time between two times in seconds, divided by
-- a number of heights.
use spectra_gnoland_indexer.Common.{
  ℕ, String, Option, none, some, List, [], ◌∷◌, Result, ok, err, sub64, ◌==◌, if◌then◌else◌,
}
use spectra_gnoland_indexer.Timescale.{DbError, not_found, failure}
use spectra_gnoland_indexer.Timescale.Views.{Rows, fold_answer, append_scanned}

pub record BlockPoint : Type 0 where
  pub height : ℕ
  pub time : ℕ

pub record BlockSigners : Type 0 where
  pub block_height : ℕ
  pub proposer : String
  pub signed_vals : List String

module _ {Float : Type 0} (per_height : ℕ → ℕ → ℕ → Float) where
  abbrev average : ℕ → ℕ → ℕ → Result DbError Float
  average end_time start_time diff_height =
      if diff_height == 0 then err failure else ok (per_height end_time start_time diff_height)

  -- the highest and the lowest block, if they are two
  abbrev mean_of : Result DbError (List BlockPoint) → Result DbError Float
  mean_of (err e) = err e
  mean_of (ok []) = err failure
  mean_of (ok (p ∷ [])) = err failure
  mean_of (ok (p ∷ q ∷ points)) = average p.time q.time (sub64 p.height q.height)

  unfoldable get_avg_block_prod_time_true_mean :
      (String → Option (Rows BlockPoint)) → String → Result DbError Float
  get_avg_block_prod_time_true_mean query chain_name =
      mean_of (fold_answer append_scanned [] (query chain_name))

  -- a row with the difference of the heights and the two times
  abbrev average_of : Option (Option (ℕ × ℕ × ℕ)) → Result DbError Float
  average_of none = err failure
  average_of (some none) = err failure
  average_of (some (some (height_diff, end_time, start_time))) =
      average end_time start_time height_diff

  unfoldable get_avg_block_prod_time :
      (String → ℕ → Option (Option (ℕ × ℕ × ℕ))) → String → Result DbError Float
  get_avg_block_prod_time query_row chain_name = average_of (query_row chain_name 10000)

abbrev scan_signers : Option (Option BlockSigners) → Result DbError BlockSigners
scan_signers none = err not_found
scan_signers (some none) = err failure
scan_signers (some (some signers)) = ok signers

unfoldable get_all_block_signers :
    (String → ℕ → Option (Option BlockSigners)) → String → ℕ → Result DbError BlockSigners
get_all_block_signers query_row chain_name block_height =
    scan_signers (query_row chain_name block_height)
