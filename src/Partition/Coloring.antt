-- ===== src/Partition/Coloring.antt =====
-- The naive coloring against the subdivision and its owner function.
use flecsi.Base.{
  ℕ, zero, suc, ◌+◌, ◌^◌, ◌≤◌, ◌<◌, ◌≡◌, List, [], arith, ◌↔◌, some, true, ltb, leb, ◌&&◌, ◌||◌,
}
use flecsi.StdSet.{member, insert, member-insert, insert-IsSorted, IsSorted}
use flecsi.Partition.{subdivide, rank_owner, offset_loop, index_loop, naive_coloring, part_size}
use flecsi.Partition.Bounds.{bound, bound-suc, offset_loop_lem, get_or-subdivide}
use flecsi.Partition.Owner.{rank_owner-subdivide}

member-index_loop :
    (x offset rounds i : ℕ) (s : List ℕ)
    → member x (index_loop offset rounds i s)
      ≡ ((leb (offset + i) x && ltb x (offset + i + rounds)) || member x s)
unfolding index_loop
member-index_loop x offset zero i s = ground arith
member-index_loop x offset (suc rounds) i s = ground (
  arith,
  member-index_loop x offset rounds (suc i) (insert (offset + i) s),
  member-insert x (offset + i) s,
)

index_loop-IsSorted :
    (offset rounds i : ℕ) (s : List ℕ) → IsSorted s → IsSorted (index_loop offset rounds i s)
unfolding index_loop
index_loop-IsSorted offset zero i s h = h
index_loop-IsSorted offset (suc rounds) i s h =
    index_loop-IsSorted offset rounds (suc i) (insert (offset + i) s)
      (insert-IsSorted (offset + i) s h)

member-naive_coloring :
    (n p r x : ℕ)
    → (member x (naive_coloring n p r) ≡ true) ↔ ((bound n p r ≤ x) × (x < bound n p (suc r)))
unfolding naive_coloring member
member-naive_coloring n p r x = ground (
  arith,
  member-index_loop x (offset_loop n p r 0 0) (part_size n p r) 0 [],
  offset_loop_lem n p r,
  bound-suc n p r,
)

-- For 0 < p < 2^63 ranks, the naive coloring of rank r is a set (its elements in increasing order)
-- that holds an entity x exactly if the owner of x, under the subdivision of the n entities into p
-- parts, is the rank r.
pub naive_coloring-rank_owner :
    (n p r x : ℕ)
    → 0 < p
    → p < 2 ^ 63
    → r < p
    → IsSorted (naive_coloring n p r)
      × ((member x (naive_coloring n p r) ≡ true) ↔ (rank_owner (subdivide n p []) x ≡ some r))
unfolding naive_coloring
naive_coloring-rank_owner n p r x pos small hr =
    let mem = member-naive_coloring n p r x in
    let own = rank_owner-subdivide n p x r pos small hr in
    let a = get_or-subdivide n p r (omega arith) in
    let b = get_or-subdivide n p (suc r) hr in
    (
      index_loop-IsSorted _ _ 0 [] tt,
      (
        λ m. own.1 (omega (arith, mem.0 m, a), omega (arith, mem.0 m, b)),
        λ e. mem.1 (omega (arith, own.0 e, a), omega (arith, own.0 e, b)),
      ),
    )
