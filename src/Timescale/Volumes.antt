-- ===== src/Timescale/Volumes.antt =====
-- pkgs/database/timescaledb/query_view.go: the volumes of each denomination.
use mathlib.Core.Option
use mathlib.Core.List.{append_assoc, append-nil}
use spectra_gnoland_indexer.Common.{
  String, ◌≡◌, refl, sym, ap, ◌∙◌, inl, inr, true, Option, some, List, [], ◌∷◌, ◌++◌, ok, GoMap,
  lookup, lookup-put, string_comparable, str_eq, eq_iff, if◌then◌else◌, Bool-cases,
}
use spectra_gnoland_indexer.Timescale.Views.{Rows, fold_rows, add_volume}

abbrev pub all_read {ℓ} : {A : Type ℓ} → List A → List (Option A)
all_read [] = []
all_read (row ∷ rows) = some row ∷ all_read rows

-- all rows, to the end of the reading
abbrev pub whole {ℓ} : {A : Type ℓ} → List A → Rows A
whole rows = record { rows = all_read rows; complete = true }

module _ {V : Type 0} where
  -- the volumes of the rows with the denomination, in order
  abbrev pub volumes_of : String → List (V × String) → List V
  volumes_of denom [] = []
  volumes_of denom ((volume, d) ∷ rows) =
      let rest = volumes_of denom rows in if str_eq d denom then volume ∷ rest else rest

  abbrev pub volumes_in : String → GoMap String (List V) → List V
  volumes_in denom m = Option.get_or (lookup denom m) []

  volumes_in-add_volume :
      (denom d : String) (volume : V) (m : GoMap String (List V))
      → volumes_in denom (add_volume m (volume, d))
        ≡ (if str_eq d denom then volumes_in denom m ++ volume ∷ [] else volumes_in denom m)
  volumes_in-add_volume denom d volume m = elim (Bool-cases (str_eq d denom)) [
    | inl e ↦
        let same : d ≡ denom = (eq_iff d denom).0 e in
        ap (λ o. Option.get_or o []) (lookup-put d denom (volumes_in d m ++ volume ∷ []) m)
        ∙ rw e (ap (λ x. volumes_in x m ++ volume ∷ []) same)
    | inr e ↦
        ap (λ o. Option.get_or o []) (lookup-put d denom (volumes_in d m ++ volume ∷ []) m) ∙ rw e
  ]

  pub fold_rows-volumes_of :
      (rows : List (V × String)) (m : GoMap String (List V))
      → (after : GoMap String (List V)) × (fold_rows add_volume (all_read rows) true m ≡ ok after)
        × ((denom : String) → volumes_in denom after ≡ volumes_in denom m ++ volumes_of denom rows)
  unfolding fold_rows
  fold_rows-volumes_of [] m = (m, refl, λ denom. sym (append-nil (volumes_in denom m)))
  fold_rows-volumes_of ((volume, d) ∷ rows) m =
      let (after, e, at) = fold_rows-volumes_of rows (add_volume m (volume, d)) in
      (
        after,
        e,
        λ denom.
            at denom
            ∙ ap (λ front. front ++ volumes_of denom rows) (volumes_in-add_volume denom d volume m)
            ∙ (elim (Bool-cases (str_eq d denom)) [
              | inl f ↦
                  rw f (append_assoc (volumes_in denom m) (volume ∷ []) (volumes_of denom rows))
              | inr f ↦ rw f
            ]),
      )
