-- ===== src/Hft/MemoryPool/Tests.antt =====
-- A pool of three cells.
use latentspeed.Prelude.{ℕ, ◌+◌, ◌≡◌, refl, ◌≢◌, ◌⊎◌, List, [], ◌∷◌, none, some, get_or, arith}
use latentspeed.Hft.MemoryPool.{Pool, init, allocate, deallocate, available}
use latentspeed.Hft.MemoryPool.Inv.{Inv, ones}
use latentspeed.Hft.MemoryPool.Laws.{allocate_lem, deallocate_lem}

-- Cells 0 and 1 are allocated.
abbrev one_left : Pool
one_left = record {
  links = some 1 ∷ some 2 ∷ none ∷ [];
  free_head = some 2;
  free_count = 1;
  state = 0 ∷ 0 ∷ 1 ∷ [];
}

allocate_twice : (allocate (allocate (init 3)).0).0 ≡ one_left
unfolding init allocate
allocate_twice = refl

one_left-Inv : Inv 3 one_left (2 ∷ [])
unfolding ones
one_left-Inv = record {
  small = omega arith;
  cells = refl;
  states = refl;
  chain = (refl, refl);
  distinct = (tt, tt);
  marked = ((omega arith, refl), tt);
  counted = refl;
  complete = refl;
}

allocate_lem_example :
    ((available one_left ≡ 0) × (allocate one_left ≡ (one_left, none)))
    ⊎ ((x : ℕ) × (rest : List ℕ) × (◌≡◌ {A = List ℕ} (2 ∷ []) (x ∷ rest))
        × ((allocate one_left).1 ≡ some x)
        × (get_or one_left.state x 1 ≡ 1)
        × (get_or (allocate one_left).0.state x 1 ≡ 0)
        × ((i : ℕ) → x ≢ i → get_or (allocate one_left).0.state i 1 ≡ get_or one_left.state i 1)
        × (available (allocate one_left).0 + 1 ≡ available one_left)
        × Inv 3 (allocate one_left).0 rest)
allocate_lem_example = allocate_lem 3 one_left (2 ∷ []) one_left-Inv

deallocate_lem_example :
    (((get_or one_left.state 0 1 ≡ 0) × Inv 3 (deallocate one_left (some 0)) (0 ∷ 2 ∷ []))
      ⊎ ((get_or one_left.state 0 1 ≢ 0) × (deallocate one_left (some 0) ≡ one_left)))
    × (deallocate one_left none ≡ one_left)
    × (deallocate (deallocate one_left (some 0)) (some 0) ≡ deallocate one_left (some 0))
deallocate_lem_example = deallocate_lem 3 one_left 0 (2 ∷ []) one_left-Inv (omega arith)
