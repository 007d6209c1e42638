-- ===== src/Tests/Views.antt =====
-- Continuous aggregates at concrete values.
use spectra_gnoland_indexer.Common.{◌≡◌, refl, List, [], ◌∷◌, done, parse_int, parse_digits}
use spectra_gnoland_indexer.DbInit.Aggregates.{AggField, agg_group_by, entries, index_of, fill}

abbrev fields : List AggField
fields =
    record { mt = "time_bucket"; fn = "time_bucket('1 hour', timestamp)"; gb = "0" }
    ∷ record { mt = "chain_name"; fn = ""; gb = "2" }
    ∷ record { mt = "denom"; fn = "fee_denom"; gb = "2" }
    ∷ record { mt = "volume"; fn = "sum(fee_amount)"; gb = "" }
    ∷ []

grouped_names : agg_group_by fields ≡ done ("time_bucket" ∷ "" ∷ "denom" ∷ [])
unfolding agg_group_by entries index_of parse_int parse_digits fill
grouped_names = refl
