-- ===== src/Hft/FlatMap/Tests.antt =====
-- A FlatMap of three entries over identifiers.
use latentspeed.Prelude.{
  ℕ, ◌+◌, ◌≤◌, ◌<◌, ◌⊎◌, ◌≡◌, List, [], ◌∷◌, true, false, none, some, length, if◌then◌else◌, arith,
}
use latentspeed.Prelude.Bytes.{Bytes, codes, str_eq, str_lt, is_some}
use latentspeed.Hft.FlatMap.{find, insert, erase}
use latentspeed.Hft.FlatMap.Keys.{bytes_ord}
use latentspeed.Hft.FlatMap.Spec.{IsSorted}
use latentspeed.Hft.FlatMap.Laws.{insert_lem, erase_lem}

abbrev two : List (Bytes × ℕ)
two = (codes "b", 1) ∷ (codes "d", 2) ∷ []

two-IsSorted : IsSorted two
unfolding str_lt
two-IsSorted = ground arith

insert_lem_example :
    ((3 ≤ length two) × (insert 3 (codes "c") 7 two ≡ (two, false)))
    ⊎ ((length two < 3)
        × ((insert 3 (codes "c") 7 two).1 ≡ true)
        × IsSorted (insert 3 (codes "c") 7 two).0
        × (length (insert 3 (codes "c") 7 two).0 ≤ 3)
        × ((i : Bytes)
            → find i (insert 3 (codes "c") 7 two).0
              ≡ (if str_eq (codes "c") i then some 7 else find i two)))
insert_lem_example = insert_lem 3 (codes "c") 7 two two-IsSorted

erase_lem_example :
    IsSorted (erase (codes "b") two).0
    × (length two ≡ length (erase (codes "b") two).0 + (if (erase (codes "b") two).1 then 1 else 0))
    × ((erase (codes "b") two).1 ≡ is_some (find (codes "b") two))
    × ((i : Bytes)
        → find i (erase (codes "b") two).0 ≡ (if str_eq (codes "b") i then none else find i two))
erase_lem_example = erase_lem (codes "b") two two-IsSorted
