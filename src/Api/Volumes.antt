-- ===== src/Api/Volumes.antt =====
-- api/handlers/transactions.go: the volumes of a range of dates, over the query of the database.

use spectra_gnoland_indexer.Common.{
  ℕ, ◌-◌, ◌*◌, ◌≤◌, ◌<◌, String, ◌≡◌, refl, ◌∙◌, true, false, Option, some, List, [], ◌∷◌, ok,
  GoMap, lookup, str_eq, eq_iff, ltb, arith, string_comparable,
}
use spectra_gnoland_indexer.Timescale.Views.{
  Rows, ViewQuery, DenomVolume, fold_answer, dates_of, get_volume_by_date,
}
use spectra_gnoland_indexer.Timescale.Volumes.{whole, volumes_of, volumes_in, fold_rows-volumes_of}
use spectra_gnoland_indexer.Api.Ranges.{
  day, checked_range, checked_dates, rows_passed_on, get_volume_by_date as volume_response,
}

abbrev message : String
message = "volume for the given date range not found"

-- a map that has volumes is not empty, so that it is passed on
passed_volumes :
    {V : Type 0} (denom : String) (v : V) (vs : List V) (m : GoMap String (List V))
    → volumes_in denom m ≡ v ∷ vs
    → rows_passed_on message (ok m) ≡ ok m
unfolding rows_passed_on lookup
passed_volumes denom v vs [] e = cc
passed_volumes denom v vs (entry ∷ m) e = refl

module _ {Decimal : Type 0} (query : ViewQuery → Option (Rows (DenomVolume Decimal × String)))
    (chain_name : String) where
  -- If the range is not empty and has at most 30 days, and the database answers the query of the
  -- range, to the end of its last day, with rows, at least one, that can all be read,
  -- GetVolumeByDate of the API answers, over that of the database, a map that gives for each
  -- denomination the volumes of its rows, in order.
  pub get_volume_by_date-volumes_of :
      (start end : ℕ) (sort_order : String) (volume : DenomVolume Decimal) (denom : String)
      (rows : List (DenomVolume Decimal × String))
      → start < end
      → end - start ≤ day * 30
      → query (dates_of "fee_volume" chain_name start end sort_order)
        ≡ some (whole ((volume, denom) ∷ rows))
      → (m : GoMap String (List (DenomVolume Decimal))) × (volume_response
            (get_volume_by_date query chain_name)
            start
            end
            sort_order
          ≡ ok m)
        × ((d : String) → volumes_in d m ≡ volumes_of d ((volume, denom) ∷ rows))
  unfolding volume_response get_volume_by_date fold_answer checked_dates checked_range
  get_volume_by_date-volumes_of start end sort_order volume denom rows before near answer =
      let (m, e, at) = fold_rows-volumes_of ((volume, denom) ∷ rows) [] in
      let ordered : ltb start end ≡ true = ground arith in
      let small : ltb (day * 30) (end - start) ≡ false = ground arith in
      let own : str_eq denom denom ≡ true = (eq_iff denom denom).1 refl in
      let volumes : (d : String) → volumes_in d m ≡ volumes_of d ((volume, denom) ∷ rows) =
        λ d. at d ∙ (unfold lookup in refl) in
      (
        m,
        rw (ordered, small, answer, e)
            (passed_volumes denom volume (volumes_of denom rows) m (volumes denom ∙ rw own)),
        volumes,
      )
