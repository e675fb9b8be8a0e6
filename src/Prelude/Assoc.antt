-- ===== src/Prelude/Assoc.antt =====
-- std::unordered_map with texts as keys: its entries, the newest first, of which the first counts.
use mathlib.Core.Path.{◌≡◌, refl}
use mathlib.Core.List.{List, [], ◌∷◌}
use mathlib.Core.Option.{Option, none, some}
use mathlib.Core.Bool.{false}
use latentspeed.Prelude.Tests.{if◌then◌else◌}
use latentspeed.Prelude.Bytes.{Bytes, str_eq, str_eq_refl}

module _ {ℓ} {A : Type ℓ} where
  unfoldable pub lookup : Bytes → List (Bytes × A) → Option A
  lookup k [] = none
  lookup k ((k', v) ∷ m) = if str_eq k' k then some v else lookup k m

  -- m[k] = v
  abbrev pub put : Bytes → A → List (Bytes × A) → List (Bytes × A)
  put k v m = (k, v) ∷ m

module _ {ℓ} {A : Type ℓ} where
  pub lookup-put_self : (k : Bytes) (v : A) (m : List (Bytes × A)) → lookup k (put k v m) ≡ some v
  unfolding lookup
  lookup-put_self k v m = rw (str_eq_refl k) refl

  pub lookup-put_ne :
      (k k' : Bytes) (v : A) (m : List (Bytes × A))
      → str_eq k k' ≡ false
      → lookup k' (put k v m) ≡ lookup k' m
  unfolding lookup
  lookup-put_ne k k' v m h = rw h refl
