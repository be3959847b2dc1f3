-- ===== src/Connectivity/Tests.antt =====
-- Runs of the connectivity code, and its theorems at concrete inputs.
use flecsi.Base.{zero, suc, ℕ, ◌-◌, ◌≡◌, refl, none, some, List, [], ◌∷◌, arith}
use flecsi.Words.{sub64}
use flecsi.Connectivity.{
  Connectivity, clear, push, push_offset, start_offsets, add_count, end_from, push_all, init_loop,
  init, resize_loop, resize_ids, resize, is_row, get_entities, put_row, reverse_entities, set_id,
  from_size, count_row, count_all, fill_row, fill_all, insert_by, sort_by, all_known, global_of,
  sort_row, sort_rows, row_within, rows_within, transpose, sub32, and_then,
}
use flecsi.Connectivity.Rows.{Fits}
use flecsi.Connectivity.Init.{init-get_entities}
use flecsi.Connectivity.Refs.{tos_row, tos, table}
use flecsi.StdSet.{member}
use flecsi.Base.{ltb, if◌then◌else◌, ◌<◌, ◌&&◌, Option, replicate, false, true, get_or}
use flecsi.Connectivity.Intersect.{
  FromEntity, Dimensions, includes_loop, includes, intersects_loop, intersects, accepts, unvisit,
  visit, intersect_loop, intersect,
}
use flecsi.Connectivity.Merge.{fits_vertices, intersect-vertices}
use flecsi.Connectivity.Picks.{AllDistinct}
use mathlib.Core.List.{Permᴰ}
use flecsi.Connectivity.Sorting.{AscendingBy}
use flecsi.Connectivity.Transpose.{transpose-get_entities}

program : Unit {0}
unfolding sub64 sub32 clear push push_offset start_offsets add_count end_from push_all init_loop
    init resize_loop resize_ids resize is_row get_entities put_row reverse_entities set_id from_size
    count_row count_all fill_row fill_all insert_by sort_by all_known global_of sort_row sort_rows
    row_within rows_within transpose tos_row tos table
program = tt

abbrev fresh : Connectivity
fresh = record { ids = []; offsets = []; id_capacity = 20; offset_capacity = 10 }

abbrev small : Connectivity
small = record { ids = []; offsets = []; id_capacity = 2; offset_capacity = 10 }

-- three cells with their vertices, of four
abbrev cells : List (List ℕ)
cells = (0 ∷ 1 ∷ []) ∷ (2 ∷ 1 ∷ []) ∷ (1 ∷ []) ∷ []

abbrev gid : ℕ → ℕ
gid id = 9 - id

abbrev gid_at : ℕ → Option ℕ
gid_at id = if ltb id 3 then some (9 - id) else none

runs :
    (and_then (init cells fresh) (λ c. get_entities c 1) ≡ some (2 ∷ 1 ∷ []))
    × (and_then (init cells fresh) (λ c. get_entities c 3) ≡ none)
    × (init cells small ≡ none)
    × (and_then (and_then (init cells fresh) (λ c. reverse_entities c 0)) (λ c. get_entities c 0)
        ≡ some (1 ∷ 0 ∷ []))
    × (and_then (transpose gid_at cells 4 fresh) (λ c. get_entities c 1) ≡ some (2 ∷ 1 ∷ 0 ∷ []))
    × (and_then (transpose gid_at cells 4 fresh) (λ c. get_entities c 3) ≡ some [])
    × (end_from fresh ≡ none)
    × (transpose gid_at cells 2 fresh ≡ none)
    × (transpose (λ id. none) cells 4 fresh ≡ none)
unfolding program
runs = (refl, refl, refl, refl, refl, refl, refl, refl, refl)

cells-Fits : Fits fresh cells
cells-Fits = (omega arith, omega arith, omega arith, omega arith)

transposed-Fits : Fits fresh (table 0 4 (λ f. tos f 0 cells))
unfolding program
transposed-Fits = (omega arith, omega arith, omega arith, omega arith)

init-get_entities_example : and_then (init cells fresh) (λ c. get_entities c 1) ≡ some (2 ∷ 1 ∷ [])
init-get_entities_example = init-get_entities fresh cells 1 (2 ∷ 1 ∷ []) cells-Fits refl

gids_known : (to : ℕ) → to < 3 → gid_at to ≡ some (gid to)
gids_known to lt = ground arith

transpose-get_entities_example :
    (row : List ℕ) × (and_then (transpose gid_at cells 4 fresh) (λ c. get_entities c 1) ≡ some row)
    × Permᴰ row (tos 1 0 cells)
    × AscendingBy gid row
transpose-get_entities_example =
    transpose-get_entities gid gid_at cells 4 1 fresh gids_known
      (
        (omega arith, (omega arith, tt)),
        ((omega arith, (omega arith, tt)), ((omega arith, tt), tt)),
      )
      transposed-Fits refl (omega arith)

meeting : Unit {0}
unfolding program includes_loop includes intersects_loop intersects accepts unvisit visit
    intersect_loop intersect
meeting = tt

-- a triangle and its edges, met through the vertices
abbrev triangle : FromEntity
triangle = record { from_id = 0; from_verts = 2 ∷ 0 ∷ 1 ∷ []; to_ids = 0 ∷ 1 ∷ 1 ∷ 2 ∷ [] }

abbrev edges : ℕ → List ℕ
edges id = get_or ((0 ∷ 1 ∷ []) ∷ (2 ∷ 1 ∷ []) ∷ (2 ∷ 3 ∷ []) ∷ []) id []

abbrev through_vertices : Dimensions
through_vertices = record { same = false; lower = true }

met_rows :
    (and_then
        (intersect through_vertices false false edges (triangle ∷ []) 3 fresh)
        (λ c. get_entities c 0)
      ≡ some (0 ∷ 1 ∷ []))
    × (intersect_loop through_vertices edges (triangle ∷ []) (replicate 3 false)
        ≡ (0 ∷ 1 ∷ []) ∷ [])
    × (intersects (0 ∷ 4 ∷ []) (1 ∷ 4 ∷ []) ≡ true)
unfolding meeting
met_rows = (refl, refl, refl)

met-Fits : Fits fresh (intersect_loop through_vertices edges (triangle ∷ []) (replicate 3 false))
unfolding meeting
met-Fits = (omega arith, omega arith, omega arith, omega arith)

edges-AllDistinct : (to : ℕ) → AllDistinct (edges to)
unfolding member
edges-AllDistinct zero = (refl, (refl, tt))
edges-AllDistinct (suc zero) = (refl, (refl, tt))
edges-AllDistinct (suc (suc zero)) = (refl, (refl, tt))
edges-AllDistinct (suc (suc (suc to))) = tt

intersect-vertices_example :
    (row : List ℕ) × (and_then
        (intersect through_vertices false false edges (triangle ∷ []) 3 fresh)
        (λ c. get_entities c 0)
      ≡ some row)
    × (member 1 row ≡ (member 1 triangle.to_ids && fits_vertices through_vertices edges triangle 1))
    × AllDistinct row
intersect-vertices_example =
    intersect-vertices through_vertices edges (triangle ∷ []) 3 fresh 0 triangle 1
      ((omega arith, (omega arith, (omega arith, (omega arith, tt)))), tt) edges-AllDistinct
      met-Fits refl refl
