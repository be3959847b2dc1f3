-- ===== src/Registry/Tests.antt =====
-- The context, evaluated.
use flecsi.Base.{ℕ, ◌≡◌, ◌↔◌, refl, true, Option, none, some, List, [], ◌∷◌, get_elem?, arith}
use flecsi.StdSet.{member}
use flecsi.Connectivity.Picks.{AllDistinct}
use flecsi.Build.{equal_lists, find_key}
use flecsi.Registry.{
  Context, EntityInfo, IndexColoring, FieldInfo, add_index_map, get_index_map,
  get_reverse_index_map, add_coloring, local_index_map, pair_loop, put_field_info, field_from_name,
  field_from_key, build_reverse_maps, advance_state, lower_state,
}
use flecsi.Registry.Indices.{add_index_map-reverse}
use flecsi.Registry.Fields.{put_field_info-field_from_name, put_field_info-persists}
use flecsi.Registry.Reverse.{build_reverse_maps-find_key, DistinctVertices, keys_of, has_vertices}

-- Nothing is registered, but an intermediate map of two edges.
abbrev no_context : Context
no_context = record {
  index_maps = λ s. none;
  reverse_index_maps = λ s. none;
  colorings = λ s. none;
  coloring_infos = λ s. none;
  sparse_infos = λ s. none;
  field_infos = λ h s. none;
  field_names = λ h k. none;
  intermediate_maps = (3, (10, 1 ∷ 2 ∷ []) ∷ (11, 2 ∷ 4 ∷ []) ∷ []) ∷ [];
  reverse_intermediate_maps = λ k. none;
  execution_state = 0;
}

abbrev density : FieldInfo
density = record {
  data_client_hash = 7;
  storage_class = 0;
  size = 8;
  namespace_hash = 1;
  name_hash = 2;
  versions = 1;
  fid = 4;
  index_space = 5;
  key = 9;
}

abbrev at_offset : ℕ → EntityInfo
at_offset n = record { id = n; rank = 0; offset = n; shared = [] }

abbrev coloring : IndexColoring
coloring = record {
  primary = [];
  exclusive = at_offset 6 ∷ [];
  shared = at_offset 8 ∷ [];
  ghost = [];
}

abbrev local_map : Option Context → Option (List (ℕ × ℕ))
local_map none = none
local_map (some c) = local_index_map c 2

abbrev refused : Option Context → Option Context
refused none = some no_context
refused (some c) = add_coloring c 2 coloring (λ k. none)

-- A second coloring of an index space is refused; the state steps below 0 wrap around.
program :
    (local_map (add_coloring no_context 2 coloring (λ k. none)) ≡ some ((0, 6) ∷ (1, 8) ∷ []))
    × (refused (add_coloring no_context 2 coloring (λ k. none)) ≡ none)
    × ((lower_state no_context).execution_state ≡ 18446744073709551615)
    × ((advance_state (lower_state no_context)).execution_state ≡ 0)
unfolding add_coloring local_index_map pair_loop lower_state advance_state
program = (refl, refl, refl, refl)

two_distinct : AllDistinct (30 ∷ 20 ∷ [])
unfolding member
two_distinct = (refl, (refl, tt))

add_index_map-reverse_example :
    (rev : ℕ → Option ℕ) × (get_index_map (add_index_map no_context 1 (30 ∷ 20 ∷ [])) 1
      ≡ some (30 ∷ 20 ∷ []))
    × (get_reverse_index_map (add_index_map no_context 1 (30 ∷ 20 ∷ [])) 1 ≡ some rev)
    × ((rev 20 ≡ some 1) ↔ (get_elem? {A = ℕ} (30 ∷ 20 ∷ []) 1 ≡ some 20))
unfolding get_reverse_index_map
add_index_map-reverse_example =
    add_index_map-reverse no_context 1 (30 ∷ 20 ∷ []) 20 1 two_distinct (omega arith) refl

put_field_info-persists_example :
    (field_from_name (put_field_info (put_field_info no_context density) density) 7 9
      ≡ some density)
    × (field_from_key (put_field_info (put_field_info no_context density) density) 7 9
        ≡ some density)
put_field_info-persists_example =
    put_field_info-persists (put_field_info no_context density) density density 7 9
      (put_field_info-field_from_name no_context density refl refl)

no_context_keys : AllDistinct (keys_of no_context.intermediate_maps)
unfolding keys_of member
no_context_keys = (refl, tt)

no_context_entries : DistinctVertices ((10, 1 ∷ 2 ∷ []) ∷ (11, 2 ∷ 4 ∷ []) ∷ [])
unfolding has_vertices equal_lists
no_context_entries = (refl, (refl, tt))

build_reverse_maps-find_key_example :
    (rev : List (List ℕ × ℕ)) × ((build_reverse_maps no_context true).reverse_intermediate_maps 3
      ≡ some rev)
    × (find_key (2 ∷ 4 ∷ []) rev ≡ some 11)
build_reverse_maps-find_key_example =
    build_reverse_maps-find_key no_context 0 3 1 11 ((10, 1 ∷ 2 ∷ []) ∷ (11, 2 ∷ 4 ∷ []) ∷ [])
      (2 ∷ 4 ∷ []) no_context_keys no_context_entries refl refl
