-- ===== src/Hft/FlatMap/Fits.antt =====
-- Maps of at most `max` entries in the order of their keys.
use latentspeed.Prelude.{ℕ, ◌≤◌, List, inl, inr, length, arith}
use latentspeed.Hft.FlatMap.{KeyOrd, insert, erase}
use latentspeed.Hft.FlatMap.Spec.{IsSorted}
use latentspeed.Hft.FlatMap.Laws.{insert_lem, erase_lem}

abbrev pub Fits {ℓ κ} : {K : Type ℓ} {V : Type κ} ⦃o : KeyOrd K⦄ → ℕ → List (K × V) → Type 0
Fits max m = IsSorted m × (length m ≤ max)

module _ {ℓ κ} {K : Type ℓ} {V : Type κ} ⦃o : KeyOrd K⦄ where
  pub insert-Fits :
      (max : ℕ) (k : K) (v : V) (m : List (K × V)) → Fits max m → Fits max (insert max k v m).0
  insert-Fits max k v m (s, b) = elim (insert_lem max k v m s) [
    | inl (full, same) ↦ rw same (s, b)
    | inr (_, _, sorted, bound, _) ↦ (sorted, bound)
  ]

  pub erase-Fits : (max : ℕ) (k : K) (m : List (K × V)) → Fits max m → Fits max (erase k m).0
  erase-Fits max k m (s, b) =
      let (sorted, smaller, _, _) = erase_lem k m s in (sorted, omega (arith, smaller, b))
