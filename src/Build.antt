-- ===== src/Build.antt =====
-- topology/mesh_topology.h, `build_connectivity`: the entities of one dimension that the cells of a
-- mesh consist of, each made once, and the connections from the cells to them and from them to the
-- vertices. An id of a vertex is given by its local id, all that comparison and `entity()` read.
-- What the context and the mesh's specialisation give is a record of arguments. `none` is a failed
-- assertion, a missing key of `at`, an access out of bounds or a full array.
pub mod Reorder
pub mod Firsts
pub mod Unique
pub mod Result
pub mod Cycles
mod Tests
use flecsi.Base.{
  ℕ, ◌%◌, ◌^◌, zero, suc, ◌+◌, ◌-◌, Bool, true, false, not, ◌&&◌, Option, none, some, List, [], ◌∷◌,
  ◌++◌, map, ltb, leb, ◌==◌, if◌then◌else◌, length, get_elem?, get_or, set, take, drop, replicate,
}
use flecsi.Connectivity.{Connectivity, and_then, init}
use flecsi.Connectivity.Intersect.{sorted}
use flecsi.Ids.{EntityId, make_id, local_id}
use flecsi.Ids.Order.{entity_of}
use flecsi.Build.Reorder.{reorder_destructive}

-- `entity()` of an id, stored in 32 bits
abbrev pub index_entity : ℕ → ℕ
index_entity id = entity_of id % 2 ^ 32

pub record BuildContext : Type 0 where
  pub cells : List ℕ  -- the local ids of the cells, in the order of `gis_to_cis`
  pub num_cells : ℕ
  pub cell_partition : ℕ → ℕ  -- `cell_id.partition()`
  -- `create_entities`: the numbers of vertices of a cell's entities, and the buffer it fills
  pub create_entities : ℕ → List ℕ × List ℕ
  pub own_color : ℕ  -- `context_.color()`
  pub has_intermediate_map : Bool
  pub intermediate_at : List ℕ → Option ℕ  -- `reverse_intermediate_map.at`
  pub entity_index_at : ℕ → Option ℕ  -- `entity_index_map.at`
  pub vertex_map : List ℕ

-- The local variables of the loops, and the calls of `create_entity` so far.
pub record Building : Type 0 where
  pub known : List (List ℕ × ℕ)  -- `entity_vertices_map`
  pub vertex_conn : List (List ℕ)  -- `entity_vertex_conn`
  pub ids : List ℕ  -- `entity_ids`
  pub counter : ℕ  -- `entity_counter`
  pub made : List (ℕ × EntityId)

unfoldable pub equal_lists : List ℕ → List ℕ → Bool
equal_lists [] [] = true
equal_lists [] (y ∷ ys) = false
equal_lists (x ∷ xs) [] = false
equal_lists (x ∷ xs) (y ∷ ys) = x == y && equal_lists xs ys

-- the search of a key in `entity_vertices_map`
unfoldable pub find_key : List ℕ → List (List ℕ × ℕ) → Option ℕ
find_key key [] = none
find_key key ((k, v) ∷ m) = if equal_lists key k then some v else find_key key m

-- The local ids of vertices as indices of the mesh.
unfoldable pub vertices_mis : List ℕ → List ℕ → Option (List ℕ)
vertices_mis vertex_map [] = some []
vertices_mis vertex_map (v ∷ a) =
    and_then (get_elem? vertex_map (entity_of v))
      (λ mis. and_then (vertices_mis vertex_map a) (λ rest. some (mis ∷ rest)))

-- `entity_id` of the entity whose vertices are `a`
unfoldable pub entity_id_of : BuildContext → List ℕ → ℕ → Option ℕ
entity_id_of ctx a counter =
    if ctx.has_intermediate_map
    then and_then (vertices_mis ctx.vertex_map a)
        (λ mis. and_then (ctx.intermediate_at (sorted mis)) ctx.entity_index_at)
    else some counter

-- The rest of the round for an entity: `found` is what the map has for the sorted vertices `a`.
unfoldable pub emplace :
    BuildContext → ℕ → ℕ → ℕ → List ℕ → ℕ → Option ℕ → Building → List ℕ → Building × List ℕ
emplace ctx dim dom c a entity_id (some id) b conns = (b, conns ++ index_entity id ∷ [])
emplace ctx dim dom c a entity_id none b conns =
    let id : ℕ = local_id (make_id dim dom entity_id (ctx.cell_partition c) 0 0) in
    (
      record {
        known = b.known ++ (sorted a, id) ∷ [];
        vertex_conn = b.vertex_conn ++ map index_entity a ∷ [];
        ids = b.ids ++ entity_id ∷ [];
        counter = b.counter + 1;
        made = b.made ++ (length a, make_id dim dom entity_id ctx.own_color 0 0) ∷ [];
      },
      conns ++ index_entity id ∷ [],
    )

-- the loop over the entities of cell `c`; `vertices` is the buffer from `pos` on
unfoldable pub entity_loop :
    BuildContext → ℕ → ℕ → ℕ → List ℕ → List ℕ → Building → List ℕ → Option (Building × List ℕ)
entity_loop ctx dim dom c [] vertices b conns = some (b, conns)
entity_loop ctx dim dom c (m ∷ sizes) vertices b conns =
    if leb m (length vertices)
    then and_then (entity_id_of ctx (take m vertices) b.counter) (λ entity_id.
      let next =
        emplace ctx dim dom c (take m vertices) entity_id
          (find_key (sorted (take m vertices)) b.known) b conns in
      entity_loop ctx dim dom c sizes (drop m vertices) next.0 next.1)
    else none

-- `entity_vertices` has 4096 places; `create_entities` writes past its end when it fills more.
unfoldable pub within_buffer : List ℕ → Option (List ℕ)
within_buffer vertices = if leb (length vertices) 4096 then some vertices else none

-- the loop over the cells
unfoldable pub build_loop :
    BuildContext → ℕ → ℕ → List ℕ → Building → List (List ℕ) → Option (Building × List (List ℕ))
build_loop ctx dim dom [] b cell_conn = some (b, cell_conn)
build_loop ctx dim dom (c ∷ cells) b cell_conn = and_then (get_elem? cell_conn c) (λ conns.
    and_then (within_buffer (ctx.create_entities c).1) (λ vertices.
      and_then (entity_loop ctx dim dom c (ctx.create_entities c).0 vertices b conns)
        (λ next. build_loop ctx dim dom cells next.0 (set cell_conn c next.1))))

abbrev pub new_building : Building
new_building = record { known = []; vertex_conn = []; ids = []; counter = 0; made = [] }

-- the connections of the entities in the order of their ids
unfoldable pub ordered_conn : BuildContext → Building → Option (List (List ℕ))
ordered_conn ctx b =
    if ctx.has_intermediate_map then reorder_destructive b.ids b.vertex_conn else some b.vertex_conn

-- What `build_connectivity` leaves: the two connectivities, and the entities it made.
pub record Built : Type 0 where
  pub entity_to_vertex : Connectivity
  pub cell_to_entity : Connectivity
  pub made : List (ℕ × EntityId)

-- `dim` is `DimensionToBuild`, `dom` is `Domain`.
unfoldable pub build_connectivity :
    BuildContext → ℕ → ℕ → Connectivity → Connectivity → Connectivity → Option Built
build_connectivity ctx dim dom cell_to_vertex entity_to_vertex cell_to_entity =
    if length cell_to_vertex.ids == 0
    then none
    else and_then (build_loop ctx dim dom ctx.cells new_building (replicate ctx.num_cells []))
        (λ built. and_then (ordered_conn ctx built.0) (λ conn.
          and_then (init conn entity_to_vertex) (λ e2v.
            and_then (init built.1 cell_to_entity) (λ c2e.
              some
                (record { entity_to_vertex = e2v; cell_to_entity = c2e; made = built.0.made })))))
