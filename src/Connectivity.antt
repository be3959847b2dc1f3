-- ===== src/Connectivity.antt =====
-- topology/connectivity.h and topology/common/entity_storage.h: connections between entities in
-- compressed storage, and the transposition of topology/mesh_topology.h. The two arrays are
-- `vector_ref`s over storage of a fixed capacity; offsets and ids are 32 bits wide. `none` is a
-- failed assertion, a full array or an access out of bounds.
pub mod Rows
pub mod Init
pub mod Refs
mod Fill
mod Filling
mod Transpose
pub mod Intersect
pub mod Picks
pub mod Sorting
pub mod Ascending
pub mod Merge
mod Tests
use flecsi.Base.{
  ℕ, zero, suc, ◌+◌, ◌-◌, ◌*◌, ◌%◌, ◌^◌, Bool, true, false, ◌&&◌, Option, none, some, List, [], ◌∷◌,
  ◌++◌, ltb, leb, ◌==◌, if◌then◌else◌, length, get_or, set, take, drop, replicate, last_or, reverse,
}
use flecsi.Words.{sub64}

abbrev pub and_then {ℓ κ} : {A : Type ℓ} {B : Type κ} → Option A → (A → Option B) → Option B
and_then none f = none
and_then (some a) f = f a

-- `uint32_t` difference
unfoldable pub sub32 : ℕ → ℕ → ℕ
sub32 a b = (a + 2 ^ 32 - b) % 2 ^ 32

-- `connectivity_t`: the ids of its index space and the offsets
pub record Connectivity : Type 0 where
  pub ids : List ℕ
  pub offsets : List ℕ
  pub id_capacity : ℕ
  pub offset_capacity : ℕ

abbrev with_ids : Connectivity → List ℕ → Connectivity
with_ids c ids = record {
  ids = ids;
  offsets = c.offsets;
  id_capacity = c.id_capacity;
  offset_capacity = c.offset_capacity;
}

abbrev with_offsets : Connectivity → List ℕ → Connectivity
with_offsets c offsets = record {
  ids = c.ids;
  offsets = offsets;
  id_capacity = c.id_capacity;
  offset_capacity = c.offset_capacity;
}

unfoldable pub clear : Connectivity → Connectivity
clear c = with_offsets (with_ids c []) []

-- `push`
unfoldable pub push : Connectivity → ℕ → Option Connectivity
push c id = if ltb (length c.ids) c.id_capacity then some (with_ids c (c.ids ++ id ∷ [])) else none

-- `s_.push_back` of the offsets
unfoldable pub push_offset : Connectivity → ℕ → Option Connectivity
push_offset c o =
    if ltb (length c.offsets) c.offset_capacity
    then some (with_offsets c (c.offsets ++ o ∷ []))
    else none

unfoldable pub start_offsets : Connectivity → Option Connectivity
start_offsets c = if length c.offsets == 0 then push_offset c 0 else some c

-- `add_count`
unfoldable pub add_count : Connectivity → ℕ → Option Connectivity
add_count c count =
    and_then (start_offsets c) (λ c. push_offset c ((last_or c.offsets 0 + count) % 2 ^ 32))

-- `end_from`, by `add_end`; without offsets it reads the last one out of bounds.
unfoldable pub end_from : Connectivity → Option Connectivity
end_from c =
    if ltb 0 (length c.offsets) && ltb (last_or c.offsets 0) (length c.ids)
    then add_count c (sub64 (length c.ids) (last_or c.offsets 0) % 2 ^ 32)
    else none

-- The inner loop of `init`.
unfoldable pub push_all : List ℕ → Connectivity → Option Connectivity
push_all [] c = some c
push_all (id ∷ iv) c = and_then (push c id) (push_all iv)

unfoldable pub init_loop : List (List ℕ) → Connectivity → Option Connectivity
init_loop [] c = some c
init_loop (iv ∷ cv) c =
    and_then (push_all iv c) (λ c. and_then (add_count c (length iv % 2 ^ 32)) (init_loop cv))

unfoldable pub init : List (List ℕ) → Connectivity → Option Connectivity
init cv c = init_loop cv (clear c)

-- The loop of `resize`, with the running `size`.
unfoldable pub resize_loop : List ℕ → ℕ → Connectivity → Option (Connectivity × ℕ)
resize_loop [] size c = some (c, size)
resize_loop (n ∷ num_conns) size c =
    let count = n % 2 ^ 32 in
    and_then (add_count c count) (λ c. resize_loop num_conns ((size + count) % 2 ^ 64) c)

-- `index_space_.ids.resize(size)`
unfoldable pub resize_ids : Connectivity → ℕ → Option Connectivity
resize_ids c size =
    if leb size c.id_capacity
    then some (with_ids c (take size c.ids ++ replicate (size - length c.ids) 0))
    else none

unfoldable pub resize : List ℕ → Connectivity → Option Connectivity
resize num_conns c = and_then (resize_loop num_conns 0 (clear c)) (λ r. resize_ids r.0 r.1)

-- `assert(index < offsets_.size() - 1)`, and the offsets themselves
unfoldable pub is_row : Connectivity → ℕ → Bool
is_row c index = ltb index (sub64 (length c.offsets) 1) && ltb (suc index) (length c.offsets)

-- `get_entities(i)`
unfoldable pub get_entities : Connectivity → ℕ → Option (List ℕ)
get_entities c index =
    let o = get_or c.offsets index 0 in
    let count = sub32 (get_or c.offsets (suc index) 0) o in
    if is_row c index then some (take count (drop o c.ids)) else none

-- A row written back over its ids.
unfoldable pub put_row : Connectivity → ℕ → List ℕ → Connectivity
put_row c o row = with_ids c (take o c.ids ++ row ++ drop (o + length row) c.ids)

unfoldable pub reverse_entities : Connectivity → ℕ → Option Connectivity
reverse_entities c index =
    and_then (get_entities c index)
      (λ row. some (put_row c (get_or c.offsets index 0) (reverse row)))

-- `set(from_local_id, to_id, pos)`
unfoldable pub set_id : Connectivity → ℕ → ℕ → ℕ → Connectivity
set_id c from to pos = with_ids c (set c.ids (get_or c.offsets from 0 + pos) to)

unfoldable pub from_size : Connectivity → ℕ
from_size c = if length c.offsets == 0 then 0 else length c.offsets - 1

-- `++pos[from_id]`
abbrev pub bump : List ℕ → ℕ → List ℕ
bump pos i = set pos i (get_or pos i 0 + 1)

-- The counting loops of `transpose`, where they stay within `pos`, over the ids `entity_ids(to_entity)` of each "to" entity.
unfoldable pub count_row : List ℕ → List ℕ → List ℕ
count_row [] pos = pos
count_row (from ∷ row) pos = count_row row (bump pos from)

unfoldable pub count_all : List (List ℕ) → List ℕ → List ℕ
count_all [] pos = pos
count_all (row ∷ rows) pos = count_all rows (count_row row pos)

-- The filling loops on the same ids, `to` being the current "to" entity.
unfoldable pub fill_row : ℕ → List ℕ → Connectivity × List ℕ → Connectivity × List ℕ
fill_row to [] s = s
fill_row to (from ∷ row) (c, pos) =
    fill_row to row (set_id c from to (get_or pos from 0), bump pos from)

unfoldable pub fill_all : ℕ → List (List ℕ) → Connectivity × List ℕ → Connectivity × List ℕ
fill_all to [] s = s
fill_all to (row ∷ rows) s = fill_all (suc to) rows (fill_row to row s)

-- `std::sort` of a row by the global ids
unfoldable pub insert_by : (ℕ → ℕ) → ℕ → List ℕ → List ℕ
insert_by gid x [] = x ∷ []
insert_by gid x (y ∷ ys) = if leb (gid x) (gid y) then x ∷ y ∷ ys else y ∷ insert_by gid x ys

unfoldable pub sort_by : (ℕ → ℕ) → List ℕ → List ℕ
sort_by gid [] = []
sort_by gid (x ∷ xs) = insert_by gid x (sort_by gid xs)

-- `to_cis_to_gis.at(id)` throws for an id that the map does not have.
abbrev has_value : Option ℕ → Bool
has_value none = false
has_value (some gid) = true

abbrev value_or_zero : Option ℕ → ℕ
value_or_zero none = 0
value_or_zero (some gid) = gid

unfoldable pub all_known : (ℕ → Option ℕ) → List ℕ → Bool
all_known gid_at [] = true
all_known gid_at (id ∷ ids) = has_value (gid_at id) && all_known gid_at ids

unfoldable pub global_of : (ℕ → Option ℕ) → ℕ → ℕ
global_of gid_at id = value_or_zero (gid_at id)

-- A row packed with its global ids, sorted and unpacked.
unfoldable pub sort_row : (ℕ → Option ℕ) → List ℕ → Option (List ℕ)
sort_row gid_at row = if all_known gid_at row then some (sort_by (global_of gid_at) row) else none

-- The final loop, over the "from" entities from `from` on.
unfoldable pub sort_rows : (ℕ → Option ℕ) → ℕ → ℕ → Connectivity → Option Connectivity
sort_rows gid_at zero from c = some c
sort_rows gid_at (suc n) from c = and_then (get_entities c from) (λ row.
    and_then (sort_row gid_at row)
      (λ row. sort_rows gid_at n (suc from) (put_row c (get_or c.offsets from 0) row)))

-- Whether the counting loop stays within `pos`; the filling loop visits the same ids.
unfoldable pub row_within : ℕ → List ℕ → Bool
row_within num_from [] = true
row_within num_from (from ∷ row) = ltb from num_from && row_within num_from row

unfoldable pub rows_within : ℕ → List (List ℕ) → Bool
rows_within num_from [] = true
rows_within num_from (row ∷ rows) = row_within num_from row && rows_within num_from rows

-- `transpose`: `rows` are the "from" ids of the "to" entities in their order, `num_from` is the
-- number of "from" entities, and `gid_at` the map from local to global ids, of the context. The
-- counting loop ends out of bounds at an id that is not below `num_from`.
unfoldable pub transpose : (ℕ → Option ℕ) → List (List ℕ) → ℕ → Connectivity → Option Connectivity
transpose gid_at rows num_from out =
    let zeros = replicate num_from 0 in
    if ltb 0 (length out.ids)
    then some out
    else if rows_within num_from rows
    then and_then (resize (count_all rows zeros) out)
        (λ c. sort_rows gid_at num_from 0 (fill_all 0 rows (c, zeros)).0)
    else none
