-- ===== src/Api/Constants.antt =====
-- api/handlers/in_memory.go: the two values of the chain that are kept in memory, and read again
-- every five minutes until the handler is stopped. A float is a parameter.
use spectra_gnoland_indexer.Common.{ℕ, Option, none, some, List, [], ◌∷◌}

-- an error keeps the value
abbrev kept_or {ℓ} : {A : Type ℓ} → A → Option A → A
kept_or old none = old
kept_or old (some new) = new

module _ (Float : Type 0) where
  pub record ConstData : Type 0 where
    pub avg_block_prod_time : Float
    pub total_addresses_count : ℕ

  -- the answers to the two queries of a refresh, each of which may fail
  pub record Answered : Type 0 where
    pub avg : Option Float
    pub total : Option ℕ

  -- what the goroutine of Start selects
  pub data Wake : Type 0 where
    ticked : Answered → Wake
    stopped : Wake

module _ {Float : Type 0} where
  unfoldable pub refresh_constants : ConstData Float → Answered Float → ConstData Float
  refresh_constants constants answered = record {
    avg_block_prod_time = kept_or constants.avg_block_prod_time answered.avg;
    total_addresses_count = kept_or constants.total_addresses_count answered.total;
  }

  unfoldable pub refresh_loop : ConstData Float → List (Wake Float) → ConstData Float
  refresh_loop constants [] = constants
  refresh_loop constants (ticked answered ∷ events) =
      refresh_loop (refresh_constants constants answered) events
  refresh_loop constants (stopped ∷ events) = constants

  -- the values after the first refresh and so many events
  unfoldable pub new_in_memory_handler :
      Float → Answered Float → List (Wake Float) → ConstData Float
  unfolding refresh_constants refresh_loop
  new_in_memory_handler float_zero first events =
      let start : ConstData Float = record {
        avg_block_prod_time = float_zero;
        total_addresses_count = 0;
      } in
      refresh_loop (refresh_constants start first) events

  unfoldable get_avg_block_prod_time : ConstData Float → Float
  get_avg_block_prod_time constants = constants.avg_block_prod_time

  unfoldable get_total_addresses_count : ConstData Float → ℕ
  get_total_addresses_count constants = constants.total_addresses_count
