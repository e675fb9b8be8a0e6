-- ===== src/Hft/FlatMap/Spec.antt =====
-- The finite map that FlatMap stands for: a plain search through the entries, in any order.
use latentspeed.Prelude.{List, [], ◌∷◌, Option, none, some, if◌then◌else◌, ◌≡◌, true}
use latentspeed.Hft.FlatMap.{KeyOrd}

module _ {ℓ κ} {K : Type ℓ} {V : Type κ} ⦃o : KeyOrd K⦄ where
  unfoldable pub lookup : K → List (K × V) → Option V
  lookup k [] = none
  lookup k ((j, v) ∷ m) = if o.eq j k then some v else lookup k m

-- Every key of the map is greater than `k`.
abbrev pub Above {ℓ κ} : {K : Type ℓ} {V : Type κ} ⦃o : KeyOrd K⦄ → K → List (K × V) → Type 0
Above k [] = Unit {0}
Above ⦃o⦄ k ((j, v) ∷ m) = (KeyOrd.lt o k j ≡ true) × Above k m

abbrev pub IsSorted {ℓ κ} : {K : Type ℓ} {V : Type κ} ⦃o : KeyOrd K⦄ → List (K × V) → Type 0
IsSorted [] = Unit {0}
IsSorted ((j, v) ∷ m) = Above j m × IsSorted m
