-- ===== src/Build/Tests.antt =====
-- The edges of two triangles, evaluated with and without an intermediate map.
use flecsi.Base.{
  ℕ, ◌-◌, ◌*◌, ◌^◌, ◌≡◌, ◌↔◌, refl, true, false, Option, none, some, List, [], ◌∷◌, map, arith,
  ◌==◌, if◌then◌else◌, length, concat, get_elem?, ◌≤◌, ⊎_elim, Bool-cases,
}
use flecsi.Words.{sub64}
use flecsi.StdSet.{member}
use flecsi.Connectivity.{
  Connectivity, and_then, init, get_entities, init_loop, push_all, push, push_offset, add_count,
  from_size, start_offsets, is_row, sub32, clear, sort_by, insert_by,
}
use flecsi.Connectivity.Intersect.{sorted}
use flecsi.Connectivity.Refs.{table}
use flecsi.Ids.{make_id, local_id}
use flecsi.Build.{
  index_entity, BuildContext, Built, build_connectivity, build_loop, within_buffer, entity_loop,
  entity_id_of, emplace, find_key, equal_lists, ordered_conn, vertices_mis,
}
use flecsi.Build.Reorder.{reorder_destructive, reorder_loop, cycle_loop}
use flecsi.Build.Cycles.{IsPermutation, reorder_destructive_lem}
use flecsi.Build.Firsts.{index_of, note, note_all, number}
use flecsi.Build.Unique.{firsts_of, count_parts}
use flecsi.Build.Result.{Buildable, build_connectivity-get_entities, build_connectivity_unique}

-- the local id of a vertex
abbrev vertex : ℕ → ℕ
vertex n = n * 2 ^ 24

abbrev edge : ℕ → ℕ → List ℕ
edge a b = vertex a ∷ vertex b ∷ []

-- The triangles have the vertices 0, 1, 2 and 1, 2, 3.
abbrev edges : ℕ → List (List ℕ)
edges c =
    if c == 0 then edge 0 1 ∷ edge 1 2 ∷ edge 2 0 ∷ [] else edge 2 1 ∷ edge 1 3 ∷ edge 3 2 ∷ []

abbrev triangles : BuildContext
triangles = record {
  cells = 1 ∷ 0 ∷ [];
  num_cells = 2;
  cell_partition = λ c. 0;
  create_entities = λ c. (map length (edges c), concat (edges c));
  own_color = 0;
  has_intermediate_map = false;
  intermediate_at = λ key. none;
  entity_index_at = λ mis. none;
  vertex_map = [];
}

abbrev empty_store : Connectivity
empty_store = record { ids = []; offsets = []; id_capacity = 20; offset_capacity = 20 }

abbrev filled : Connectivity
filled = record { ids = 0 ∷ []; offsets = 0 ∷ 1 ∷ []; id_capacity = 20; offset_capacity = 20 }

moved :
    reorder_destructive (2 ∷ 0 ∷ 1 ∷ []) ((5 ∷ []) ∷ (6 ∷ []) ∷ (7 ∷ []) ∷ [])
    ≡ some ((6 ∷ []) ∷ (7 ∷ []) ∷ (5 ∷ []) ∷ [])
unfolding reorder_destructive reorder_loop cycle_loop
moved = refl

-- With an intermediate map the numbers are those of the map, and the connections to the vertices are put in their order.
abbrev numbered_edges : List ℕ → Option ℕ
numbered_edges key =
    if equal_lists key (0 ∷ 1 ∷ [])
    then some 14
    else if equal_lists key (1 ∷ 2 ∷ [])
    then some 12
    else if equal_lists key (0 ∷ 2 ∷ [])
    then some 13
    else if equal_lists key (1 ∷ 3 ∷ [])
    then some 11
    else if equal_lists key (2 ∷ 3 ∷ [])
    then some 10
    else none

abbrev mapped : BuildContext
mapped = record triangles {
  has_intermediate_map = true;
  intermediate_at = numbered_edges;
  entity_index_at = λ mis. some (mis - 10);
  vertex_map = 0 ∷ 1 ∷ 2 ∷ 3 ∷ [];
}

-- Cell 1 comes first; the edge from 1 to 2 is shared.
program :
    (and_then
        (build_connectivity triangles 1 0 filled empty_store empty_store)
        (λ built. get_entities built.cell_to_entity 0)
      ≡ some (3 ∷ 0 ∷ 4 ∷ []))
    × (and_then
          (build_connectivity triangles 1 0 filled empty_store empty_store)
          (λ built. some (length built.made))
        ≡ some 5)
    × (and_then
          (build_connectivity mapped 1 0 filled empty_store empty_store)
          (λ built. get_entities built.cell_to_entity 0)
        ≡ some (4 ∷ 2 ∷ 3 ∷ []))
    × (and_then
          (build_connectivity mapped 1 0 filled empty_store empty_store)
          (λ built. get_entities built.entity_to_vertex 4)
        ≡ some (0 ∷ 1 ∷ []))
unfolding build_connectivity build_loop within_buffer entity_loop entity_id_of emplace find_key
    equal_lists ordered_conn init init_loop push_all push push_offset add_count clear get_entities
    sort_by insert_by local_id make_id vertices_mis reorder_destructive reorder_loop cycle_loop
    start_offsets is_row sub64 sub32
program = (refl, refl, refl, refl)

buffer_holds : (c : ℕ) → length (concat (edges c)) ≤ 4096
buffer_holds c =
    ⊎_elim (λ e. rw (e) (omega arith)) (λ e. rw (e) (omega arith)) (Bool-cases (c == 0))

triangles-Buildable : Buildable triangles edges filled empty_store empty_store
unfolding firsts_of note_all note index_of number equal_lists sort_by insert_by count_parts member
    table
triangles-Buildable = record {
  off = refl;
  creates = λ c. refl;
  buffer = buffer_holds;
  below = (omega arith, (omega arith, tt));
  distinct = (refl, (refl, tt));
  nonempty = omega arith;
  few = omega arith;
  vertices_fit = (omega arith, omega arith, omega arith, omega arith);
  cells_fit = (omega arith, omega arith, omega arith, omega arith);
}

in_cells : (member 0 triangles.cells ≡ true) × (member 1 triangles.cells ≡ true)
unfolding member
in_cells = (refl, refl)

build_connectivity-get_entities_example :
    (built : Built) × (e : ℕ) × (first : List ℕ) × (build_connectivity triangles 1 0 filled
        empty_store empty_store
      ≡ some built)
    × (and_then (get_entities built.cell_to_entity 0) (λ row. get_elem? row 1) ≡ some e)
    × (get_entities built.entity_to_vertex e ≡ some (map index_entity first))
    × (sorted first ≡ sorted (edge 1 2))
    × (get_elem? built.made e ≡ some (length first, make_id 1 0 e 0 0 0))
build_connectivity-get_entities_example =
    build_connectivity-get_entities triangles edges filled empty_store empty_store 1 0
      triangles-Buildable 0 1 (edge 1 2) (omega arith) in_cells.0 refl

build_connectivity_unique_example :
    (built : Built) × (e f : ℕ) × (build_connectivity triangles 1 0 filled empty_store empty_store
      ≡ some built)
    × (and_then (get_entities built.cell_to_entity 0) (λ row. get_elem? row 1) ≡ some e)
    × (and_then (get_entities built.cell_to_entity 1) (λ row. get_elem? row 0) ≡ some f)
    × ((e ≡ f) ↔ (sorted (edge 1 2) ≡ sorted (edge 2 1)))
    × ((m : ℕ) × (get_elem? built.made e ≡ some (m, make_id 1 0 e 0 0 0)))
    × (length built.made ≡ from_size built.entity_to_vertex)
build_connectivity_unique_example =
    build_connectivity_unique triangles edges filled empty_store empty_store 1 0 triangles-Buildable
      0 1 1 0 (edge 1 2) (edge 2 1) (omega arith) (omega arith) in_cells.0 in_cells.1 refl refl

-- Three places: 0 to 2, 1 to 0 and 2 to 1.
abbrev turn : ℕ → ℕ
turn i = if i == 0 then 2 else if i == 1 then 0 else if i == 2 then 1 else i

turn-IsPermutation : IsPermutation 3 turn (λ i. i ∷ [])
turn-IsPermutation = record {
  within = λ i lt. ground arith;
  injective = λ i j lt lt' e. ground arith;
  small = omega arith;
}

reorder_destructive_lem_example :
    (out : List (List ℕ)) × (reorder_destructive
        (2 ∷ 0 ∷ 1 ∷ [])
        ((0 ∷ []) ∷ (1 ∷ []) ∷ (2 ∷ []) ∷ [])
      ≡ some out)
    × (length out ≡ 3)
    × (get_elem? out 2 ≡ some (0 ∷ []))
unfolding table
reorder_destructive_lem_example =
    reorder_destructive_lem 3 turn (λ i. i ∷ []) turn-IsPermutation 0 (omega arith)
