-- ===== src/Partition.antt =====
-- coloring/dcrs_utils.h: the subdivision of an index space into contiguous parts, the owner of an
-- index, and the naive coloring of the entities of a mesh. A part is a rank; the number of ranks
-- and the own rank, which the source gets from MPI, are arguments. No sum exceeds `nelem`, so
-- `size_t` does not wrap here.
pub mod Bounds
pub mod Owner
pub mod Coloring
mod Tests
use flecsi.Base.{
  ℕ, zero, suc, ◌+◌, ◌-◌, ◌/◌, ◌%◌, ◌^◌, Option, none, some, List, [], ◌∷◌, ◌++◌, leb, ltb, ◌==◌,
  if◌then◌else◌, get_or, length,
}
use flecsi.StdSet.{insert}

-- `quot + ((r >= (npart - rem)) ? 1 : 0)`, the number of elements of part `r`
unfoldable pub part_size : ℕ → ℕ → ℕ → ℕ
part_size nelem npart r = nelem / npart + (if leb (npart - nelem % npart) r then 1 else 0)

-- The loop of `subdivide`, with `rounds` parts left from part `r` on.
unfoldable pub subdivide_loop : ℕ → ℕ → ℕ → ℕ → List ℕ → List ℕ
subdivide_loop nelem npart zero r dist = dist
subdivide_loop nelem npart (suc rounds) r dist =
    subdivide_loop nelem npart rounds (suc r)
      (dist ++ (get_or dist r 0 + part_size nelem npart r) ∷ [])

unfoldable pub subdivide : ℕ → ℕ → List ℕ → List ℕ
subdivide nelem npart dist = subdivide_loop nelem npart npart 0 (dist ++ 0 ∷ [])

-- `std::upper_bound` as a position: that of the first element above `i`, or the length.
pub upper_bound : List ℕ → ℕ → ℕ
upper_bound [] i = 0
upper_bound (d ∷ ds) i = if ltb i d then 0 else suc (upper_bound ds i)

-- `none` is the failed assertion; the position less one is a `size_t`.
pub rank_owner : List ℕ → ℕ → Option ℕ
unfolding upper_bound
rank_owner dist i =
    let it = upper_bound dist i in
    if it == length dist then none else some ((it + 2 ^ 64 - 1) % 2 ^ 64)

-- The loop that sums the sizes of the lower ranks.
pub offset_loop : ℕ → ℕ → ℕ → ℕ → ℕ → ℕ
offset_loop n size zero r offset = offset
offset_loop n size (suc rounds) r offset =
    offset_loop n size rounds (suc r) (offset + part_size n size r)

-- The loop that inserts `offset + i`.
pub index_loop : ℕ → ℕ → ℕ → List ℕ → List ℕ
index_loop offset zero i indices = indices
index_loop offset (suc rounds) i indices =
    index_loop offset rounds (suc i) (insert (offset + i) indices)

-- The naive coloring of `n` entities over `size` ranks, as seen by `rank`.
pub naive_coloring : ℕ → ℕ → ℕ → List ℕ
naive_coloring n size rank = index_loop (offset_loop n size rank 0 0) (part_size n size rank) 0 []
