-- ===== src/Tests/Volumes.antt =====
-- The volumes of two denominations.

use spectra_gnoland_indexer.Common.{
  ℕ, String, ◌≡◌, refl, Option, some, List, [], ◌∷◌, ok, GoMap, arith,
}
use spectra_gnoland_indexer.Timescale.Views.{Rows, ViewQuery, DenomVolume, get_volume_by_date}
use spectra_gnoland_indexer.Timescale.Volumes.{whole, volumes_of, volumes_in}
use spectra_gnoland_indexer.Api.Ranges.{get_volume_by_date as volume_response}
use spectra_gnoland_indexer.Api.Volumes.{get_volume_by_date-volumes_of}

abbrev volume : ℕ → DenomVolume ℕ
volume n = record { time = 5; volume = n }

abbrev rows : List (DenomVolume ℕ × String)
rows = (volume 1, "ugnot") ∷ (volume 2, "foo") ∷ (volume 3, "ugnot") ∷ []

abbrev query : ViewQuery → Option (Rows (DenomVolume ℕ × String))
query q = some (whole rows)

get_volume_by_date-volumes_of_example :
    (m : GoMap String (List (DenomVolume ℕ))) × (volume_response
        (get_volume_by_date query "gno")
        5
        7
        "asc"
      ≡ ok m)
    × ((d : String) → volumes_in d m ≡ volumes_of d rows)
get_volume_by_date-volumes_of_example =
    get_volume_by_date-volumes_of query "gno" 5 7 "asc" (volume 1) "ugnot"
      ((volume 2, "foo") ∷ (volume 3, "ugnot") ∷ []) (omega arith) (omega arith) refl
