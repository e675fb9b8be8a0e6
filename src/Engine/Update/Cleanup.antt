-- ===== src/Engine/Update/Cleanup.antt =====
-- Which cell the end of a tracked order gives back.
use latentspeed.Prelude.{
  ℕ, suc, ◌≡◌, refl, ap, ap₂, ◌∙◌, subst, List, [], ◌∷◌, ◌++◌, Bool, true, false, none, some,
  length, get_elem?, erase_at,
}
use latentspeed.Prelude.Bytes.{Bytes, str_lt, str_eq_refl, str_lt_irrefl}
use latentspeed.Hft.MemoryPool.{deallocate}
use latentspeed.Hft.FlatMap.{lower_bound, hit, erase}
use latentspeed.Hft.FlatMap.Keys.{bytes_ord}
use latentspeed.Hft.FlatMap.Spec.{Above, IsSorted}
use latentspeed.Engine.Types.{Engine}
use latentspeed.Engine.Update.{shown_after_erase, clean_up}

abbrev pub Entries : Type 0
Entries = List (Bytes × ℕ)

Above-middle :
    (j id : Bytes) (idx : ℕ) (pre post : Entries)
    → Above j (pre ++ (id, idx) ∷ post)
    → str_lt j id ≡ true
Above-middle j id idx [] post h = h.0
Above-middle j id idx (x ∷ pre) post h = Above-middle j id idx pre post h.1

-- The entry stands at its lower bound.
pub lower_bound-middle :
    (id : Bytes) (idx : ℕ) (pre post : Entries)
    → IsSorted (pre ++ (id, idx) ∷ post)
    → lower_bound id (pre ++ (id, idx) ∷ post) ≡ length pre
unfolding lower_bound
lower_bound-middle id idx [] post s = rw (str_lt_irrefl id) refl
lower_bound-middle id idx ((j, v) ∷ pre) post s =
    rw (Above-middle j id idx pre post s.0) (ap suc (lower_bound-middle id idx pre post s.1))

pub get-middle :
    (id : Bytes) (idx : ℕ) (pre post : Entries)
    → get_elem? (pre ++ (id, idx) ∷ post) (length pre) ≡ some (id, idx)
get-middle id idx [] post = refl
get-middle id idx (x ∷ pre) post = get-middle id idx pre post

erase-middle :
    (id : Bytes) (idx : ℕ) (pre post : Entries)
    → erase_at (pre ++ (id, idx) ∷ post) (length pre) ≡ pre ++ post
erase-middle id idx [] post = refl
erase-middle id idx (x ∷ pre) post = ap (◌∷◌ x) (erase-middle id idx pre post)

erase_lem_middle :
    (id : Bytes) (idx : ℕ) (pre post : Entries)
    → IsSorted (pre ++ (id, idx) ∷ post)
    → erase id (pre ++ (id, idx) ∷ post) ≡ (pre ++ post, true)
unfolding erase hit
erase_lem_middle id idx pre post s =
    let m = pre ++ (id, idx) ∷ post in
    ap (λ i. elim (hit id (get_elem? m i)) [ some w ↦ (erase_at m i, true) | none ↦ (m, false) ])
      (lower_bound-middle id idx pre post s)
    ∙ rw (get-middle id idx pre post, str_eq_refl id)
        (ap (λ k. (k, true)) (erase-middle id idx pre post))

-- The cell of the first entry, or `idx` if there is none.
abbrev pub cell_of_next : ℕ → Entries → ℕ
cell_of_next idx [] = idx
cell_of_next idx ((j, cell) ∷ post) = cell

get-next :
    (idx : ℕ) (pre post : Entries)
    → (elim (get_elem? (pre ++ post) (length pre)) [ none ↦ idx | some entry ↦ entry.1 ])
      ≡ cell_of_next idx post
get-next idx [] [] = refl
get-next idx [] (x ∷ post) = refl
get-next idx (x ∷ pre) post = get-next idx pre post

shown-middle :
    (id : Bytes) (idx : ℕ) (pre post : Entries)
    → IsSorted (pre ++ (id, idx) ∷ post)
    → shown_after_erase id idx (pre ++ (id, idx) ∷ post) ≡ cell_of_next idx post
unfolding shown_after_erase
shown-middle id idx pre post s =
    ap₂ (λ (m : Entries × Bool) i. elim (get_elem? m.0 i) [ none ↦ idx | some entry ↦ entry.1 ])
      (erase_lem_middle id idx pre post s) (lower_bound-middle id idx pre post s)
    ∙ get-next idx pre post

-- The end of a tracked order removes its entry, but gives back the cell of the entry behind it,
-- which stays pending. Only the last entry gives back its own cell.
pub clean_up_lem :
    (id : Bytes) (idx : ℕ) (e : Engine) (pre post : Entries)
    → e.pending ≡ pre ++ (id, idx) ∷ post
    → IsSorted e.pending
    → ((clean_up id idx e).pending ≡ pre ++ post)
      × ((clean_up id idx e).order_pool ≡ deallocate e.order_pool (some (cell_of_next idx post)))
unfolding clean_up
clean_up_lem id idx e pre post at sorted =
    let s : IsSorted (pre ++ (id, idx) ∷ post) = subst IsSorted at sorted in
    rw (at, shown-middle id idx pre post s, erase_lem_middle id idx pre post s) (refl, refl)
