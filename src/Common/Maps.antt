-- ===== src/Common/Maps.antt =====
-- A Go map as an association list: the theorems read it only through `lookup`.
use mathlib.Core.Path.{◌≡◌, refl}
use mathlib.Core.List.{List, [], ◌∷◌}
use mathlib.Core.Bool.{Bool, true, false}
use mathlib.Core.Option.{Option, none, some}
use native.Mathlib.Omega.{arith}
use spectra_gnoland_indexer.Common.Tests.{Comparable, if◌then◌else◌}

abbrev pub GoMap {ℓ κ} : Type ℓ → Type κ → Type (ℓ ⊔ κ)
GoMap K V = List (K × V)

abbrev pub or_else {ℓ} : {V : Type ℓ} → Option V → Option V → Option V
or_else none o = o
or_else (some v) o = some v

pub or_else_later {ℓ} :
    {V : Type ℓ} (a o : Option V) (b : Bool) (v : V)
    → or_else a (if b then some v else o) ≡ or_else (or_else a (if b then some v else none)) o
or_else_later none o true v = refl
or_else_later none o false v = refl
or_else_later (some w) o b v = refl

pub or_else_assoc {ℓ} :
    {V : Type ℓ} (a b c : Option V) → or_else a (or_else b c) ≡ or_else (or_else a b) c
or_else_assoc none b c = refl
or_else_assoc (some v) b c = refl

pub or_else-none {ℓ} : {V : Type ℓ} (o : Option V) → or_else o none ≡ o
or_else-none none = refl
or_else-none (some v) = refl

module _ {ℓ κ} {K : Type ℓ} {V : Type κ} ⦃e : Comparable K⦄ where
  -- v, ok := m[k]
  unfoldable pub lookup : K → GoMap K V → Option V
  lookup k [] = none
  lookup k ((j, v) ∷ m) = if e.same j k then some v else lookup k m

  -- m[k] = v
  unfoldable pub put : K → V → GoMap K V → GoMap K V
  put k v [] = (k, v) ∷ []
  put k v ((j, w) ∷ m) = if e.same j k then (k, v) ∷ m else (j, w) ∷ put k v m

  -- maps.Copy(dst, src)
  unfoldable pub copy : GoMap K V → GoMap K V → GoMap K V
  copy dst [] = dst
  copy dst ((k, v) ∷ src) = put k v (copy dst src)

  pub lookup-cons :
      (k j : K) (v : V) (m : GoMap K V)
      → lookup j ((k, v) ∷ m) ≡ (if e.same k j then some v else lookup j m)
  unfolding lookup
  lookup-cons k j v m = refl

  pub lookup-put :
      (k j : K) (v : V) (m : GoMap K V)
      → lookup j (put k v m) ≡ (if e.same k j then some v else lookup j m)
  unfolding lookup put
  lookup-put k j v [] = refl
  lookup-put k j v ((i, w) ∷ m) =
      ground (arith, e.same_iff k j, e.same_iff i k, e.same_iff i j, lookup-put k j v m)

  pub lookup-copy :
      (j : K) (dst src : GoMap K V)
      → lookup j (copy dst src) ≡ or_else (lookup j src) (lookup j dst)
  unfolding lookup copy
  lookup-copy j dst [] = refl
  lookup-copy j dst ((k, v) ∷ src) =
      ground (arith, lookup-put k j v (copy dst src), lookup-copy j dst src)
