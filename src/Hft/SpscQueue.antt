-- ===== src/Hft/SpscQueue.antt =====
-- include/hft_data_structures.h, class LockFreeSPSCQueue<T, Capacity>. The capacity is the first
-- argument `cap` of each operation. It is a power of two, so that `x & MASK` is `x % cap`.
-- A call of try_push or try_pop is one step here; Interleaved takes the atomic steps apart.
pub mod Spec
pub mod Window
pub mod Refine
pub mod Interleaved
mod Tests
use latentspeed.Prelude.{
  ℕ, ◌+◌, ◌-◌, ◌%◌, ◌^◌, List, Bool, true, false, Option, none, some, ◌==◌, if◌then◌else◌,
  get_elem?, set,
}

pub record Queue {ℓ} (T : Type ℓ) : Type ℓ where
  pub head : ℕ
  pub tail : ℕ
  pub buffer : List T

-- x & MASK
abbrev pub masked : ℕ → ℕ → ℕ
masked cap x = x % cap

module _ {ℓ} {T : Type ℓ} where
  unfoldable pub try_push : ℕ → T → Queue T → Queue T × Bool
  try_push cap item q =
      let next_tail = masked cap (q.tail + 1) in
      if next_tail == q.head
      then (q, false)
      else (record q { buffer = set q.buffer q.tail item; tail = next_tail }, true)

  -- The option is the item that goes through the reference, with the flag.
  unfoldable pub try_pop : ℕ → Queue T → Queue T × Option T
  try_pop cap q =
      if q.head == q.tail
      then (q, none)
      else (record q { head = masked cap (q.head + 1) }, get_elem? q.buffer q.head)

  unfoldable pub empty : Queue T → Bool
  empty q = q.head == q.tail

  -- The subtraction is that of size_t.
  unfoldable pub size : ℕ → Queue T → ℕ
  size cap q = masked cap ((q.tail + 2 ^ 64 - q.head) % 2 ^ 64)
