-- ===== src/Graph.antt =====
-- The graph of the entities of a mesh that share vertices: the loops of `make_dcrs` in
-- coloring/dcrs_utils.h, which topology/closure_utils.h repeats, over topology/mesh_definition.h.
-- A `std::map` whose values are vectors is a function, since `operator[]` of a missing key is an
-- empty vector; the map of counts, which is iterated, is the list of its pairs by their keys.
pub mod Counts
pub mod Chosen
pub mod Cells
pub mod Closure
pub mod Neighbors
pub mod Rows
pub mod Through
pub mod Distinct
mod Tests
use flecsi.Base.{
  ℕ, zero, suc, ◌+◌, Bool, List, [], ◌∷◌, ◌++◌, ltb, ◌==◌, if◌then◌else◌, length, get_or, last_or,
}
use flecsi.StdSet.{insert_all}
use flecsi.Partition.{part_size, subdivide}
use flecsi.Crs.{Crs}

-- The abstract interface `mesh_definition_u`: the numbers of entities of each dimension, and the
-- entities of one dimension that define an entity of another.
pub record MeshDefinition : Type 0 where
  pub num_entities : ℕ → ℕ
  pub entities : ℕ → ℕ → ℕ → List ℕ

-- `entities_set`
unfoldable pub entities_set : MeshDefinition → ℕ → ℕ → ℕ → List ℕ
entities_set md from to id = insert_all (md.entities from to id) []

-- `m[k].push_back(x)`
abbrev pub push_at : ℕ → ℕ → (ℕ → List ℕ) → ℕ → List ℕ
push_at k x m j = if j == k then m k ++ x ∷ [] else m j

-- `cell_counts[k] += 1`
unfoldable pub count_up : ℕ → List (ℕ × ℕ) → List (ℕ × ℕ)
count_up k [] = (k, 1) ∷ []
count_up k ((j, n) ∷ m) =
    if ltb k j
    then (k, 1) ∷ (j, n) ∷ m
    else if k == j
    then (j, n + 1) ∷ m
    else (j, n) ∷ count_up k m

-- the loop over the cells that have the vertex so far
unfoldable pub other_loop : ℕ → List ℕ → List (ℕ × ℕ) → List (ℕ × ℕ)
other_loop cell [] counts = counts
other_loop cell (other ∷ others) counts =
    other_loop cell others (if other == cell then counts else count_up other counts)

-- the loop over the vertices of a cell
unfoldable pub vertex_loop : ℕ → List ℕ → (ℕ → List ℕ) → List (ℕ × ℕ) → (ℕ → List ℕ) × List (ℕ × ℕ)
vertex_loop cell [] v2c counts = (v2c, counts)
vertex_loop cell (vertex ∷ vertices) v2c counts =
    let pushed : ℕ → List ℕ = push_at vertex cell v2c in
    vertex_loop cell vertices pushed (other_loop cell (pushed vertex) counts)

-- the loop over the counts of a cell
unfoldable pub link_loop : ℕ → ℕ → List (ℕ × ℕ) → (ℕ → List ℕ) → ℕ → List ℕ
link_loop thru cell [] c2c = c2c
link_loop thru cell ((other, n) ∷ counts) c2c =
    link_loop thru cell counts
      (if ltb thru n then push_at other cell (push_at cell other c2c) else c2c)

-- The two maps that the loop over the cells fills.
pub record CellMaps : Type 0 where
  pub vertex2cells : ℕ → List ℕ
  pub cell2cells : ℕ → List ℕ

-- one round of the loop over the cells
unfoldable pub cell_round : MeshDefinition → ℕ → ℕ → ℕ → CellMaps → CellMaps
cell_round md from thru cell maps =
    let met = vertex_loop cell (md.entities from 0 cell) maps.vertex2cells [] in
    record { vertex2cells = met.0; cell2cells = link_loop thru cell met.1 maps.cell2cells }

-- The loop, with `rounds` cells left from `cell` on.
unfoldable pub cell_loop : MeshDefinition → ℕ → ℕ → ℕ → ℕ → CellMaps → CellMaps
cell_loop md from thru zero cell maps = maps
cell_loop md from thru (suc rounds) cell maps =
    cell_loop md from thru rounds (suc cell) (cell_round md from thru cell maps)

-- `cell2cells` at the end
unfoldable pub cell2cells_of : MeshDefinition → ℕ → ℕ → ℕ → List ℕ
cell2cells_of md from thru =
    (cell_loop md from thru (md.num_entities from) 0
      (record { vertex2cells = λ v. []; cell2cells = λ c. [] })).cell2cells

-- `dcrs_t`
pub record Dcrs : Type 0 where
  pub crs : Crs
  pub distribution : List ℕ

-- The loop that appends the rows: `rounds` of them are left, from `i` on.
unfoldable pub row_loop : (ℕ → List ℕ) → List ℕ → ℕ → ℕ → ℕ → Crs → Crs
row_loop c2c distribution rank zero i crs = crs
row_loop c2c distribution rank (suc rounds) i crs =
    let others : List ℕ = c2c (get_or distribution rank 0 + i) in
    row_loop c2c distribution rank rounds (suc i) (record {
      offsets = crs.offsets ++ (get_or crs.offsets i 0 + length others) ∷ [];
      indices = crs.indices ++ others;
    })

-- `make_dcrs` on `rank` of `size`: the distribution is that of `subdivide`, written out there.
unfoldable pub make_dcrs : MeshDefinition → ℕ → ℕ → ℕ → ℕ → Dcrs
make_dcrs md from thru size rank =
    let distribution : List ℕ = subdivide (md.num_entities from) size [] in
    record {
      crs =
          row_loop (cell2cells_of md from thru) distribution rank
            (part_size (md.num_entities from) size rank) 0
            (record { offsets = 0 ∷ []; indices = [] });
      distribution = distribution;
    }
