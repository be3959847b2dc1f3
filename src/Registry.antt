-- ===== src/Registry.antt =====
-- execution/context.h: what the context registers, the index maps, the colorings, the fields and the
-- maps of intermediate entities. A map that is only searched is a function into `Option`; one that
-- is iterated or tested for emptiness is the list of its pairs. `none` is a failed assertion or, where
-- a pointer is returned, a null pointer.
pub mod Indices
pub mod Fields
pub mod Reverse
mod Tests
use flecsi.Base.{
  ℕ, zero, suc, ◌+◌, ◌-◌, ◌%◌, ◌^◌, Bool, true, false, ◌&&◌, Option, none, some, List, [], ◌∷◌,
  ◌++◌, ltb, ◌==◌, if◌then◌else◌, length,
}
use flecsi.Connectivity.{and_then}
use flecsi.Connectivity.Refs.{update}
use flecsi.Build.{equal_lists, find_key}

-- `entity_info_t`
pub record EntityInfo : Type 0 where
  pub id : ℕ
  pub rank : ℕ
  pub offset : ℕ
  pub shared : List ℕ

-- `index_coloring_t`
pub record IndexColoring : Type 0 where
  pub primary : List ℕ
  pub exclusive : List EntityInfo
  pub shared : List EntityInfo
  pub ghost : List EntityInfo

-- `coloring_info_t`
pub record ColoringInfo : Type 0 where
  pub exclusive : ℕ
  pub shared : ℕ
  pub ghost : ℕ
  pub shared_users : List ℕ
  pub ghost_owners : List ℕ

-- `field_info_t`
pub record FieldInfo : Type 0 where
  pub data_client_hash : ℕ
  pub storage_class : ℕ
  pub size : ℕ
  pub namespace_hash : ℕ
  pub name_hash : ℕ
  pub versions : ℕ
  pub fid : ℕ
  pub index_space : ℕ
  pub key : ℕ

-- `sparse_index_space_info_t`
pub record SparseInfo : Type 0 where
  pub index_space : ℕ
  pub exclusive_reserve : ℕ
  pub max_entries_per_index : ℕ
  pub sparse_fields_registered : ℕ

pub record Context : Type 0 where
  pub index_maps : ℕ → Option (List ℕ)
  pub reverse_index_maps : ℕ → Option (ℕ → Option ℕ)
  pub colorings : ℕ → Option IndexColoring
  pub coloring_infos : ℕ → Option (ℕ → Option ColoringInfo)
  pub sparse_infos : ℕ → Option SparseInfo
  -- by the hash of the data client and the index space, then by the field id
  pub field_infos : ℕ → ℕ → Option (ℕ → Option FieldInfo)
  -- by the hash of the data client and the key: the index space and the field id
  pub field_names : ℕ → ℕ → Option (ℕ × ℕ)
  pub intermediate_maps : List (ℕ × List (ℕ × List ℕ))
  pub reverse_intermediate_maps : ℕ → Option (List (List ℕ × ℕ))
  pub execution_state : ℕ

-- the loop `rev_map[index_map[i]] = i`, from `i` on; the values have 32 bits
unfoldable pub reverse_loop : List ℕ → ℕ → (ℕ → Option ℕ) → ℕ → Option ℕ
reverse_loop [] i rev = rev
reverse_loop (x ∷ xs) i rev = reverse_loop xs (suc i) (update rev x (some (i % 2 ^ 32)))

-- `m[key]`, with an empty map for a missing key
abbrev pub or_empty : Option (ℕ → Option ℕ) → ℕ → Option ℕ
or_empty (some m) = m
or_empty none = λ k. none

unfoldable pub add_index_map : Context → ℕ → List ℕ → Context
add_index_map c space index_map = record c {
  index_maps = update c.index_maps space (some index_map);
  reverse_index_maps =
      update c.reverse_index_maps space
        (some (reverse_loop index_map 0 (or_empty (c.reverse_index_maps space))));
}

unfoldable pub get_index_map : Context → ℕ → Option (List ℕ)
get_index_map c space = c.index_maps space

unfoldable pub get_reverse_index_map : Context → ℕ → Option (ℕ → Option ℕ)
get_reverse_index_map c space = c.reverse_index_maps space

unfoldable pub add_coloring :
    Context → ℕ → IndexColoring → (ℕ → Option ColoringInfo) → Option Context
add_coloring c space coloring info = elim (c.colorings space) [
  | some _ ↦ none
  | none ↦ some (record c {
    colorings = update c.colorings space (some coloring);
    coloring_infos = update c.coloring_infos space (some info);
  })
]

unfoldable pub get_coloring : Context → ℕ → Option IndexColoring
get_coloring c space = c.colorings space

unfoldable pub get_coloring_info : Context → ℕ → Option (ℕ → Option ColoringInfo)
get_coloring_info c space = c.coloring_infos space

-- the loops of `local_index_map` over exclusive and shared indices
unfoldable pub pair_loop : List EntityInfo → List (ℕ × ℕ) → List (ℕ × ℕ)
pair_loop [] pairs = pairs
pair_loop (index ∷ rest) pairs = pair_loop rest (pairs ++ (length pairs, index.offset) ∷ [])

unfoldable pub local_index_map : Context → ℕ → Option (List (ℕ × ℕ))
local_index_map c space =
    and_then (c.colorings space) (λ is. some (pair_loop is.shared (pair_loop is.exclusive [])))

unfoldable pub set_sparse_info : Context → SparseInfo → Context
set_sparse_info c info = record c {
  sparse_infos = update c.sparse_infos info.index_space (some info);
}

unfoldable pub increment_sparse_fields : Context → ℕ → Option Context
increment_sparse_fields c space = and_then (c.sparse_infos space) (λ info. some (record c {
  sparse_infos = update c.sparse_infos space (
      some
        (record info { sparse_fields_registered = (info.sparse_fields_registered + 1) % 2 ^ 64 }));
}))

unfoldable pub sparse_fields : Context → ℕ → Option Bool
sparse_fields c space =
    and_then (c.sparse_infos space) (λ info. some (ltb 0 info.sparse_fields_registered))

-- `map.emplace` and `map.insert`: what is there stays
abbrev pub insert_new {ℓ} : {V : Type ℓ} → (ℕ → Option V) → ℕ → V → ℕ → Option V
insert_new m k v j = if j == k then elim (m k) [ some old ↦ some old | none ↦ some v ] else m j

abbrev pub or_no_fields : Option (ℕ → Option FieldInfo) → ℕ → Option FieldInfo
or_no_fields (some m) = m
or_no_fields none = λ k. none

unfoldable pub put_field_info : Context → FieldInfo → Context
put_field_info c f = record c {
  field_infos = update c.field_infos f.data_client_hash (
      update (c.field_infos f.data_client_hash) f.index_space (
        some (insert_new (or_no_fields (c.field_infos f.data_client_hash f.index_space)) f.fid f)));
  field_names =
      update c.field_names f.data_client_hash
        (insert_new (c.field_names f.data_client_hash) f.key (f.index_space, f.fid));
}

-- `get_field_info_from_name`
unfoldable pub field_from_name : Context → ℕ → ℕ → Option FieldInfo
field_from_name c hash name =
    and_then (c.field_names hash name)
      (λ at. and_then (c.field_infos hash at.0) (λ fields. fields at.1))

-- `get_field_info_from_key`: the same search, with null for the assertions
unfoldable pub field_from_key : Context → ℕ → ℕ → Option FieldInfo
field_from_key c hash key =
    and_then (c.field_names hash key) (λ at. or_no_fields (c.field_infos hash at.0) at.1)

-- `reverse_map[key] = id`
unfoldable pub set_key : List ℕ → ℕ → List (List ℕ × ℕ) → List (List ℕ × ℕ)
set_key key id [] = (key, id) ∷ []
set_key key id ((k, v) ∷ m) =
    let rest = set_key key id m in if equal_lists key k then (k, id) ∷ m else (k, v) ∷ rest

unfoldable pub flip_loop : List (ℕ × List ℕ) → List (List ℕ × ℕ) → List (List ℕ × ℕ)
flip_loop [] rev = rev
flip_loop ((id, vertices) ∷ entries) rev = flip_loop entries (set_key vertices id rev)

abbrev pub or_nothing : Option (List (List ℕ × ℕ)) → List (List ℕ × ℕ)
or_nothing (some m) = m
or_nothing none = []

-- the loop over the intermediate maps
unfoldable pub flip_maps :
    List (ℕ × List (ℕ × List ℕ)) → (ℕ → Option (List (List ℕ × ℕ))) → ℕ → Option (List (List ℕ × ℕ))
flip_maps [] rev = rev
flip_maps ((key, entries) ∷ maps) rev =
    let there : List (List ℕ × ℕ) = or_nothing (rev key) in
    flip_maps maps
      (update rev key (some (if length there == 0 then flip_loop entries there else there)))

-- `build_reverse_intermediate_maps(reset)`, on sorted entries
unfoldable pub build_reverse_maps : Context → Bool → Context
build_reverse_maps c reset = record c {
  reverse_intermediate_maps =
      flip_maps c.intermediate_maps (if reset then (λ key. none) else c.reverse_intermediate_maps);
}

unfoldable pub advance_state : Context → Context
advance_state c = record c { execution_state = (c.execution_state + 1) % 2 ^ 64 }

unfoldable pub lower_state : Context → Context
lower_state c = record c { execution_state = (c.execution_state + 2 ^ 64 - 1) % 2 ^ 64 }
