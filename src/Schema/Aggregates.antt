-- ===== src/Schema/Aggregates.antt =====
-- pkgs/schema/materialize.go: the structs of the continuous aggregates; indexer/cli/setup.go: their
-- segments.
use spectra_gnoland_indexer.Common.{ℕ, String, none, some, List, [], ◌∷◌, map}
use spectra_gnoland_indexer.DbInit.Aggregates.{AggField, Aggregate}

abbrev column : String → String → String → AggField
column mt fn gb = record { mt = mt; fn = fn; gb = gb }

abbrev plain : String → String → List AggField → ℕ → ℕ → Aggregate
plain name source fields end_offset interval = record {
  table_name = name;
  from_table = source;
  fields = fields;
  lateral = none;
  end_offset = end_offset;
  interval = interval;
}

unfoldable pub tx_counter : Aggregate
tx_counter =
    plain "tx_counter" "transaction_general"
      (column "time_bucket" "time_bucket('1 hour', timestamp)" "0"
        ∷ column "chain_name" "" "1"
        ∷ column "transaction_count" "count(*)" ""
        ∷ [])
      15 15

unfoldable pub fee_volume : Aggregate
fee_volume =
    plain "fee_volume" "transaction_general"
      (column "time_bucket" "time_bucket('1 hour', timestamp)" "0"
        ∷ column "chain_name" "" "2"
        ∷ column "denom" "fee_denom" "1"
        ∷ column "volume" "sum(fee_amount)" ""
        ∷ [])
      15 15

unfoldable pub daily_active_accounts : Aggregate
daily_active_accounts =
    plain "daily_active_accounts" "address_tx"
      (column "time_bucket" "time_bucket('1 day', timestamp)" "0"
        ∷ column "chain_name" "" "1"
        ∷ column "active_account_count" "count(DISTINCT address)" ""
        ∷ [])
      3600 1800

unfoldable validator_signing_counter : Aggregate
validator_signing_counter = record {
  table_name = "validator_signing_counter";
  from_table = "validator_block_signing";
  fields =
      column "time_bucket" "time_bucket('1 hour', vbs.timestamp)" "0"
      ∷ column "chain_name" "" "1"
      ∷ column "validator_id" "" "2"
      ∷ column "blocks_signed" "count(*)" ""
      ∷ [];
  lateral = some (
    "vbs",
    record {
      kind = "CROSS JOIN LATERAL";
      expression = "unnest(vbs.signed_vals)";
      alias = "v_id";
      columns = "validator_id" ∷ [];
    }
        ∷ [],
  );
  end_offset = 15;
  interval = 15;
}

unfoldable pub block_counter : Aggregate
block_counter =
    plain "block_counter" "blocks"
      (column "time_bucket" "time_bucket('1 hour', timestamp)" "0"
        ∷ column "chain_name" "" "1"
        ∷ column "block_count" "count(*)" ""
        ∷ [])
      15 15

unfoldable pub all_aggregates : List Aggregate
unfolding tx_counter fee_volume daily_active_accounts validator_signing_counter block_counter
all_aggregates =
    tx_counter ∷ fee_volume ∷ daily_active_accounts ∷ validator_signing_counter ∷ block_counter ∷ []

unfoldable pub all_aggr_table_names : List String
all_aggr_table_names = map (λ a. a.table_name) all_aggregates

-- what createContinuousAggregates makes of an aggregate
pub record View : Type 0 where
  pub agg : Aggregate
  pub segment_by_cols : List String
  pub chunk_interval : String

abbrev view : Aggregate → List String → View
view agg segment_by_cols = record {
  agg = agg;
  segment_by_cols = segment_by_cols;
  chunk_interval = "1 month";
}

unfoldable pub views : List View
unfolding tx_counter fee_volume daily_active_accounts validator_signing_counter block_counter
views =
    view tx_counter ("chain_name" ∷ [])
    ∷ view fee_volume ("chain_name" ∷ "denom" ∷ [])
    ∷ view daily_active_accounts ("chain_name" ∷ [])
    ∷ view validator_signing_counter ("chain_name" ∷ "validator_id" ∷ [])
    ∷ view block_counter ("chain_name" ∷ [])
    ∷ []
