-- ===== src/Graph/Closure.antt =====
-- topology/closure_utils.h: neighbours, referencers and closures of entities, over the mesh
-- definition. `none` is the failed assertion.
use flecsi.Base.{
  ℕ, zero, suc, ◌&&◌, Option, none, some, List, [], ◌∷◌, ltb, ◌==◌, if◌then◌else◌, length,
}
use flecsi.StdSet.{member, insert, insert_all, set_intersection}
use flecsi.Graph.{MeshDefinition, entities_set, cell2cells_of}

-- The loop over the entities of `to`, with `rounds` left from `e` on.
unfoldable pub neighbor_loop : MeshDefinition → ℕ → ℕ → ℕ → ℕ → List ℕ → ℕ → ℕ → List ℕ → List ℕ
neighbor_loop md from to thru id vertices zero e neighbors = neighbors
neighbor_loop md from to thru id vertices (suc rounds) e neighbors =
    neighbor_loop md from to thru id vertices rounds (suc e) (
      if (from == to) && (e == id)
      then neighbors
      else if ltb thru (length (set_intersection vertices (entities_set md to 0 e)))
      then insert e neighbors
      else neighbors)

-- `entity_neighbors` of one entity
unfoldable pub entity_neighbors : MeshDefinition → ℕ → ℕ → ℕ → ℕ → List ℕ
entity_neighbors md from to thru id =
    neighbor_loop md from to thru id (entities_set md from 0 id) (md.num_entities to) 0 []

-- The loop that inserts what belongs to each index.
unfoldable pub closure_loop : (ℕ → List ℕ) → List ℕ → List ℕ → List ℕ
closure_loop of [] closure = closure
closure_loop of (i ∷ indices) closure = closure_loop of indices (insert_all (of i) closure)

-- `entity_neighbors` of a set of indices, with the set itself
unfoldable pub neighbors_closure : MeshDefinition → ℕ → ℕ → ℕ → List ℕ → Option (List ℕ)
neighbors_closure md from to thru indices =
    if from == to
    then some (closure_loop (cell2cells_of md from thru) indices (insert_all indices []))
    else none

unfoldable pub referencer_loop : MeshDefinition → ℕ → ℕ → ℕ → ℕ → ℕ → List ℕ → List ℕ
referencer_loop md from to id zero e referencers = referencers
referencer_loop md from to id (suc rounds) e referencers =
    referencer_loop md from to id rounds (suc e)
      (if member id (md.entities from to e) then insert e referencers else referencers)

unfoldable pub entity_referencers : MeshDefinition → ℕ → ℕ → ℕ → List ℕ
entity_referencers md from to id = referencer_loop md from to id (md.num_entities from) 0 []

unfoldable pub entity_closure : MeshDefinition → ℕ → ℕ → List ℕ → List ℕ
entity_closure md from to indices = closure_loop (md.entities from to) indices []
