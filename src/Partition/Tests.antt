-- ===== src/Partition/Tests.antt =====
-- Runs of the partition code, and its theorems at concrete inputs.
use flecsi.Base.{
  ◌+◌, ◌/◌, ◌%◌, ◌≤◌, ◌<◌, ◌≡◌, refl, ◌↔◌, true, none, some, [], ◌∷◌, arith, length, ◌⊎◌, get_or,
}
use flecsi.StdSet.{member, insert, IsSorted}
use flecsi.Partition.{
  part_size, subdivide_loop, subdivide, upper_bound, rank_owner, offset_loop, index_loop,
  naive_coloring,
}
use flecsi.Partition.Bounds.{subdivide_balanced}
use flecsi.Partition.Coloring.{naive_coloring-rank_owner}

program : Unit {0}
unfolding part_size subdivide_loop subdivide upper_bound rank_owner offset_loop index_loop
    naive_coloring insert
program = tt

-- 10 elements in 4 parts of 2, 2, 3 and 3
ten_in_four :
    (subdivide 10 4 [] ≡ 0 ∷ 2 ∷ 4 ∷ 7 ∷ 10 ∷ [])
    × (rank_owner (subdivide 10 4 []) 6 ≡ some 2)
    × (rank_owner (subdivide 10 4 []) 10 ≡ none)
    × (naive_coloring 10 4 2 ≡ 4 ∷ 5 ∷ 6 ∷ [])
unfolding program
ten_in_four = (refl, refl, refl, refl)

subdivide_balanced_example :
    (length (subdivide 10 4 []) ≡ 5)
    × (get_or (subdivide 10 4 []) 0 0 ≡ 0)
    × (get_or (subdivide 10 4 []) 4 0 ≡ 10)
    × ((1 + 10 % 4 < 4) × (get_or (subdivide 10 4 []) 2 0 ≡ get_or (subdivide 10 4 []) 1 0 + 10 / 4)
        ⊎ (4 ≤ 1 + 10 % 4)
          × (get_or (subdivide 10 4 []) 2 0 ≡ get_or (subdivide 10 4 []) 1 0 + 10 / 4 + 1))
subdivide_balanced_example = subdivide_balanced 10 4 1 (omega arith) (omega arith)

naive_coloring-rank_owner_example :
    IsSorted (naive_coloring 10 4 2)
    × ((member 5 (naive_coloring 10 4 2) ≡ true) ↔ (rank_owner (subdivide 10 4 []) 5 ≡ some 2))
naive_coloring-rank_owner_example =
    naive_coloring-rank_owner 10 4 2 5 (omega arith) (omega arith) (omega arith)
