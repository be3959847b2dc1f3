-- ===== src/Graph/Through.antt =====
-- `make_dcrs_have_connectivity` in coloring/dcrs_utils.h: the entities that a rank's cells reach
-- through the entities of another dimension. `none` is the exception of `cell2other.at`.
use flecsi.Base.{
  ℕ, zero, suc, ◌+◌, ◌&&◌, Option, none, some, List, [], ◌∷◌, ◌++◌, ltb, leb, ◌==◌, if◌then◌else◌,
  length, get_or,
}
use flecsi.Connectivity.{and_then}
use flecsi.Connectivity.Intersect.{sorted}
use flecsi.Crs.{Crs}
use flecsi.Partition.{part_size, subdivide}
use flecsi.Graph.{MeshDefinition, Dcrs}

-- `std::unique`: one of each run of equal elements
unfoldable pub unique : List ℕ → List ℕ
unique [] = []
unique (x ∷ []) = x ∷ []
unique (x ∷ y ∷ ys) = let rest = unique (y ∷ ys) in if x == y then rest else x ∷ rest

-- the loop over the entities that one of the intermediate entities has
unfoldable pub reach_loop : ℕ → ℕ → ℕ → List ℕ → List ℕ → List ℕ
reach_loop from to cell [] row = row
reach_loop from to cell (other ∷ others) row =
    reach_loop from to cell others
      (if (from == to) && (cell == other) then row else row ++ other ∷ [])

-- the loop over the intermediate entities of a cell
unfoldable pub thru_loop : MeshDefinition → ℕ → ℕ → ℕ → ℕ → List ℕ → List ℕ → List ℕ
thru_loop md from to thru cell [] row = row
thru_loop md from to thru cell (vertex ∷ vertices) row =
    thru_loop md from to thru cell vertices
      (reach_loop from to cell (md.entities thru to vertex) row)

-- `cell2other.at(cell)`: the loop that fills the map runs over the cells of the rank.
unfoldable pub other_at : MeshDefinition → ℕ → ℕ → ℕ → ℕ → ℕ → ℕ → Option (List ℕ)
other_at md from to thru first last cell =
    if leb first cell && ltb cell last
    then some (thru_loop md from to thru cell (md.entities from thru cell) [])
    else none

-- The loop that appends the rows: `rounds` of them are left, from `i` on.
unfoldable pub through_loop : (ℕ → Option (List ℕ)) → ℕ → ℕ → ℕ → Crs → Option Crs
through_loop other first zero i crs = some crs
through_loop other first (suc rounds) i crs = and_then (other (first + i)) (λ row.
    through_loop other first rounds (suc i) (record {
      offsets = crs.offsets ++ (get_or crs.offsets i 0 + length (unique (sorted row))) ∷ [];
      indices = crs.indices ++ unique (sorted row);
    }))

-- The whole function, on the graph that the caller passes.
unfoldable pub make_dcrs_have_connectivity : MeshDefinition → ℕ → ℕ → ℕ → ℕ → ℕ → Dcrs → Option Dcrs
make_dcrs_have_connectivity md from to thru size rank dcrs =
    let distribution : List ℕ = subdivide (md.num_entities from) size dcrs.distribution in
    let first : ℕ = get_or distribution rank 0 in
    let last : ℕ = get_or distribution (suc rank) 0 in
    and_then
      (through_loop (other_at md from to thru first last) first
        (part_size (md.num_entities from) size rank) 0
        (record { offsets = dcrs.crs.offsets ++ 0 ∷ []; indices = dcrs.crs.indices }))
      (λ crs. some (record { crs = crs; distribution = distribution }))
