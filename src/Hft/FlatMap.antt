-- ===== src/Hft/FlatMap.antt =====
-- include/hft_data_structures.h, class FlatMap<Key, Value, MaxSize>: a sorted array of entries.
-- The map is the list of its first size_ entries; the slots behind them are never read. MaxSize is
-- the first argument `max` of insert and full.
pub mod Laws
pub mod Fits
pub mod Keys
pub mod Spec
mod Tests
use latentspeed.Prelude.{
  ℕ, zero, suc, ◌≡◌, ◌↔◌, List, [], ◌∷◌, Bool, true, false, Option, none, some, length, leb,
  if◌then◌else◌, get_elem?, set, insert_at, erase_at,
}

-- What the entries ask of the key type: `<` and `==` that agree on a total order.
pub record KeyOrd {ℓ} (K : Type ℓ) : Type ℓ where
  pub lt : K → K → Bool
  pub eq : K → K → Bool
  pub eq_iff : (a b : K) → (eq a b ≡ true) ↔ (a ≡ b)
  pub lt_irrefl : (a : K) → lt a a ≡ false
  pub lt_trans : (a b c : K) → lt a b ≡ true → lt b c ≡ true → lt a c ≡ true
  pub lt_total : (a b : K) → lt a b ≡ false → lt b a ≡ false → a ≡ b

module _ {ℓ κ} {K : Type ℓ} {V : Type κ} ⦃o : KeyOrd K⦄ where
  -- std::lower_bound: the first position whose key is not less than `k`.
  unfoldable pub lower_bound : K → List (K × V) → ℕ
  lower_bound k [] = 0
  lower_bound k ((j, v) ∷ m) = if o.lt j k then suc (lower_bound k m) else 0

  -- The test that each operation makes on the entry at the lower bound.
  unfoldable pub hit : K → Option (K × V) → Option V
  hit k none = none
  hit k (some (j, v)) = if o.eq j k then some v else none

  unfoldable pub find : K → List (K × V) → Option V
  unfolding lower_bound hit
  find k m = hit k (get_elem? m (lower_bound k m))

  -- Past the capacity check: an equal key is overwritten in place, a new one is moved in.
  unfoldable pub put : K → V → List (K × V) → List (K × V)
  unfolding lower_bound hit
  put k v m =
      let i = lower_bound k m in
      elim (hit k (get_elem? m i)) [ some w ↦ set m i (k, v) | none ↦ insert_at m i (k, v) ]

  -- The flag is what the C++ function returns.
  unfoldable pub insert : ℕ → K → V → List (K × V) → List (K × V) × Bool
  insert max k v m = if leb max (length m) then (m, false) else (put k v m, true)

  unfoldable pub erase : K → List (K × V) → List (K × V) × Bool
  unfolding lower_bound hit
  erase k m =
      let i = lower_bound k m in
      elim (hit k (get_elem? m i)) [ some w ↦ (erase_at m i, true) | none ↦ (m, false) ]

-- size_ >= MaxSize
abbrev pub full {ℓ κ} : {K : Type ℓ} {V : Type κ} → ℕ → List (K × V) → Bool
full max m = leb max (length m)
