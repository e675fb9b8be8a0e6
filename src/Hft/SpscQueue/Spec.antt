-- ===== src/Hft/SpscQueue/Spec.antt =====
-- A first-in first-out queue that holds fewer than `cap` items.
use latentspeed.Prelude.{
  ℕ, suc, List, [], ◌∷◌, ◌++◌, Bool, true, false, Option, none, some, ◌==◌, if◌then◌else◌, length,
}

pub data Op {ℓ} (T : Type ℓ) : Type ℓ where
  push : T → Op T
  pop : Op T

-- What a call answers: the flag of a push, the item of a pop.
pub data Reply {ℓ} (T : Type ℓ) : Type ℓ where
  pushed : Bool → Reply T
  popped : Option T → Reply T

module _ {ℓ} {T : Type ℓ} where
  unfoldable pub fifo_push : ℕ → T → List T → List T × Bool
  fifo_push cap x xs = if suc (length xs) == cap then (xs, false) else (xs ++ x ∷ [], true)

  unfoldable pub fifo_pop : List T → List T × Option T
  fifo_pop [] = ([], none)
  fifo_pop (x ∷ xs) = (xs, some x)

  unfoldable pub fifo_run : ℕ → List T → List (Op T) → List (Reply T)
  fifo_run cap xs [] = []
  fifo_run cap xs (push x ∷ ops) =
      let (ys, done) = fifo_push cap x xs in pushed done ∷ fifo_run cap ys ops
  fifo_run cap xs (pop ∷ ops) = let (ys, out) = fifo_pop xs in popped out ∷ fifo_run cap ys ops
