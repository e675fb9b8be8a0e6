-- ===== src/Hft/MemoryPool.antt =====
-- include/hft_data_structures.h, class MemoryPool<T, PoolSize>: a free list threaded through the
-- cells. A pointer is the index of its cell (index_of_), and `none` is the null pointer. Each call
-- is one step: the compare-exchange loops are those of a thread that nobody disturbs.
pub mod Inv
pub mod Laws
mod Tests
use latentspeed.Prelude.{
  ℕ, zero, suc, ◌+◌, ◌-◌, ◌%◌, ◌^◌, List, [], ◌∷◌, Option, none, some, ◌==◌, if◌then◌else◌, get_or,
  set,
}

pub record Pool : Type 0 where
  -- FreeNode::next of each cell; it means something only while the cell is free
  pub links : List (Option ℕ)
  pub free_head : Option ℕ
  pub free_count : ℕ
  -- 0 = allocated, 1 = free
  pub state : List ℕ

-- `k` cells from index `i` on, each linked to the next and the last to nothing.
unfoldable pub links_from : ℕ → ℕ → List (Option ℕ)
links_from i zero = []
links_from i (suc k) = (if k == 0 then none else some (suc i)) ∷ links_from (suc i) k

unfoldable pub all_free : ℕ → List ℕ
all_free zero = []
all_free (suc n) = 1 ∷ all_free n

-- The constructor, for a PoolSize of at least one.
unfoldable pub init : ℕ → Pool
unfolding links_from all_free
init n = record { links = links_from 0 n; free_head = some 0; free_count = n; state = all_free n }

unfoldable pub allocate : Pool → Pool × Option ℕ
allocate p = elim p.free_head [
  | none ↦ (p, none)
  | some node ↦ (
    record p {
      free_head = get_or p.links node none;
      state = set p.state node 0;
      free_count = (p.free_count + 2 ^ 64 - 1) % 2 ^ 64;
    },
    some node,
  )
]

-- Only a cell that turns from allocated to free goes back on the list.
unfoldable pub release : Pool → ℕ → Pool
release p idx =
    if get_or p.state idx 1 == 0
    then record p {
      state = set p.state idx 1;
      links = set p.links idx p.free_head;
      free_head = some idx;
      free_count = (p.free_count + 1) % 2 ^ 64;
    }
    else p

unfoldable pub deallocate : Pool → Option ℕ → Pool
unfolding release
deallocate p none = p
deallocate p (some idx) = release p idx

abbrev pub available : Pool → ℕ
available p = p.free_count
