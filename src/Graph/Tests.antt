-- ===== src/Graph/Tests.antt =====
-- The graph of a strip of three quadrilaterals, evaluated.
use flecsi.Base.{
  ℕ, ◌+◌, ◌-◌, ◌≡◌, refl, not, ◌&&◌, none, some, List, [], ◌∷◌, arith, ◌==◌, if◌then◌else◌, ltb,
  get_or, ==_iff,
}
use flecsi.StdSet.{member, insert, insert_all, set_intersection, IsSorted}
use flecsi.Connectivity.Picks.{AllDistinct}
use flecsi.Crs.{row_at, row, size}
use flecsi.Partition.{part_size, subdivide, subdivide_loop}
use flecsi.Partition.Bounds.{bound}
use flecsi.Graph.{
  MeshDefinition, Dcrs, make_dcrs, cell2cells_of, cell_loop, cell_round, vertex_loop, other_loop,
  count_up, link_loop, row_loop, entities_set,
}
use flecsi.Graph.Cells.{neighbors_of}
use flecsi.Graph.Closure.{
  entity_neighbors, neighbors_closure, entity_referencers, entity_closure, neighbor_loop,
  closure_loop, referencer_loop,
}
use flecsi.Graph.Neighbors.{entity_neighbors-cell2cells, some_has}
use flecsi.Graph.Rows.{make_dcrs-row_at, make_dcrs-symmetric}
use flecsi.Graph.Through.{make_dcrs_have_connectivity}
use flecsi.Graph.Distinct.{no_rows, make_dcrs_have_connectivity_lem}

-- Cell `c` has the vertices `c`, `c + 1`, `c + 5` and `c + 4`, and the edges `c` and `c + 1`; edge
-- `e` is between the cells `e - 1` and `e`.
abbrev strip_entities : ℕ → ℕ → ℕ → List ℕ
strip_entities from to id =
    if to == 0
    then id ∷ (id + 1) ∷ (id + 5) ∷ (id + 4) ∷ []
    else if to == 1
    then id ∷ (id + 1) ∷ []
    else if id == 0
    then 0 ∷ []
    else if id == 3
    then 2 ∷ []
    else (id - 1) ∷ id ∷ []

abbrev strip : MeshDefinition
strip = record { num_entities = λ d. if d == 2 then 3 else 4; entities = strip_entities }

-- The middle cell has both others; a pair of cells shares two vertices, more than the dimension 1.
program :
    (cell2cells_of strip 2 1 1 ≡ 0 ∷ 2 ∷ [])
    × (entity_neighbors strip 2 2 1 0 ≡ 1 ∷ [])
    × (entity_referencers strip 2 0 2 ≡ 1 ∷ 2 ∷ [])
    × (entity_closure strip 2 0 (2 ∷ 1 ∷ []) ≡ 1 ∷ 2 ∷ 3 ∷ 5 ∷ 6 ∷ 7 ∷ [])
    × (neighbors_closure strip 2 2 1 (2 ∷ []) ≡ some (1 ∷ 2 ∷ []))
    × (neighbors_closure strip 2 1 1 (2 ∷ []) ≡ none)
unfolding cell2cells_of cell_loop cell_round vertex_loop other_loop count_up link_loop
    entity_neighbors neighbor_loop entities_set insert_all insert set_intersection member
    entity_referencers referencer_loop entity_closure closure_loop neighbors_closure
program = (refl, refl, refl, refl, refl, refl)

strip-AllDistinct : (e : ℕ) → AllDistinct (strip.entities 2 0 e)
unfolding member
strip-AllDistinct e = ground (
  arith,
  ==_iff e (e + 1),
  ==_iff e (e + 5),
  ==_iff e (e + 4),
  ==_iff (e + 1) (e + 5),
  ==_iff (e + 1) (e + 4),
  ==_iff (e + 5) (e + 4),
)

entity_neighbors-cell2cells_example : entity_neighbors strip 2 2 1 1 ≡ cell2cells_of strip 2 1 1
entity_neighbors-cell2cells_example =
    entity_neighbors-cell2cells strip 2 1 1 strip-AllDistinct (omega arith)

make_dcrs-row_at_example :
    ((make_dcrs strip 2 1 2 1).distribution ≡ subdivide 3 2 [])
    × (row_at (make_dcrs strip 2 1 2 1).crs 1 ≡ (
        if ltb 1 (part_size 3 2 1) then some (neighbors_of strip 2 1 (bound 3 2 1 + 1)) else none))
make_dcrs-row_at_example = make_dcrs-row_at strip 2 1 2 1 1 (omega arith)

rows :
    (row_at (make_dcrs strip 2 1 2 0).crs 0 ≡ some (1 ∷ []))
    × (row_at (make_dcrs strip 2 1 2 1).crs 0 ≡ some (0 ∷ 2 ∷ []))
unfolding row_at row size make_dcrs row_loop subdivide subdivide_loop part_size cell2cells_of
    cell_loop cell_round vertex_loop other_loop count_up link_loop
rows = (refl, refl)

make_dcrs-symmetric_example :
    member (get_or (make_dcrs strip 2 1 2 1).distribution 1 0 + 0) (1 ∷ [])
    ≡ member (get_or (make_dcrs strip 2 1 2 0).distribution 0 0 + 0) (0 ∷ 2 ∷ [])
make_dcrs-symmetric_example =
    make_dcrs-symmetric strip 2 1 2 0 1 0 0 (1 ∷ []) (0 ∷ 2 ∷ []) (omega arith) (omega arith) rows.0
      rows.1

make_dcrs_have_connectivity_lem_example :
    (dcrs : Dcrs) × (row : List ℕ) × (make_dcrs_have_connectivity strip 2 2 1 2 1 no_rows
      ≡ some dcrs)
    × (row_at dcrs.crs 1 ≡ (if ltb 1 (part_size 3 2 1) then some row else none))
    × IsSorted row
    × (member 1 row ≡ (
        some_has (strip.entities 1 2) 1 (strip.entities 2 1 (bound 3 2 1 + 1))
        && not ((2 == 2) && (bound 3 2 1 + 1 == 1))))
make_dcrs_have_connectivity_lem_example =
    make_dcrs_have_connectivity_lem strip 2 2 1 2 1 1 1 (omega arith)
