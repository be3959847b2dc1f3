-- ===== src/Connectivity/Intersect.antt =====
-- `intersect` of topology/mesh_topology.h and `intersects` of utils/set_intersection.h. What the code
-- reads of the mesh is an argument: the "from" entities in the order of their ids, and the ids of the
-- intermediate entities of each "to" entity. They are rows that are there: the assertion of
-- `get_entities_vec` on its index does not fail. `std::sort` and `std::includes` are written out.
use flecsi.Base.{
  ℕ, zero, suc, ◌+◌, Bool, true, false, not, ◌||◌, Option, none, some, List, [], ◌∷◌, ◌++◌, ltb,
  ◌==◌, if◌then◌else◌, length, get_or, set, replicate,
}
use flecsi.Connectivity.{Connectivity, init, sort_by}

-- A "from" entity: its id, its ids in the intermediate dimension, and the "to" ids of its
-- intermediate entities, one after another.
pub record FromEntity : Type 0 where
  pub from_id : ℕ
  pub from_verts : List ℕ
  pub to_ids : List ℕ

-- `std::sort` by `operator<`
abbrev pub sorted : List ℕ → List ℕ
sorted = sort_by (λ x. x)

-- `std::includes`: whether the first sorted range has all of the second; the fuel is the sum of the
-- lengths.
unfoldable pub includes_loop : ℕ → List ℕ → List ℕ → Bool
includes_loop zero xs ys = false
includes_loop (suc fuel) xs [] = true
includes_loop (suc fuel) [] (y ∷ ys) = false
includes_loop (suc fuel) (x ∷ xs) (y ∷ ys) =
    let rest = includes_loop fuel xs (if ltb x y then y ∷ ys else ys) in
    if ltb y x then false else rest

unfoldable pub includes : List ℕ → List ℕ → Bool
includes xs ys = includes_loop (suc (length xs + length ys)) xs ys

-- The loop of `intersects`.
unfoldable pub intersects_loop : ℕ → List ℕ → List ℕ → Bool
intersects_loop zero xs ys = false
intersects_loop (suc fuel) [] ys = false
intersects_loop (suc fuel) (x ∷ xs) [] = false
intersects_loop (suc fuel) (x ∷ xs) (y ∷ ys) =
    let rest =
      intersects_loop fuel (if ltb x y then xs else x ∷ xs) (if ltb x y then y ∷ ys else ys) in
    if ltb x y || ltb y x then rest else true

unfoldable pub intersects : List ℕ → List ℕ → Bool
intersects xs ys = intersects_loop (suc (length xs + length ys)) xs ys

-- `FROM_DIM == TO_DIM` and `DIM < TO_DIM`
pub record Dimensions : Type 0 where
  pub same : Bool
  pub lower : Bool

-- Whether a "to" id that is met first is added.
unfoldable pub accepts : Dimensions → (ℕ → List ℕ) → FromEntity → ℕ → Bool
accepts d verts_of from to =
    if d.same
    then not (from.from_id == to)
    else if d.lower
    then includes (sorted from.from_verts) (sorted (verts_of to))
    else intersects (sorted from.from_verts) (sorted (verts_of to))

-- The loop that sets the ids to unvisited.
unfoldable pub unvisit : List ℕ → List Bool → List Bool
unvisit [] visited = visited
unvisit (to ∷ ids) visited = unvisit ids (set visited to false)

-- The loop that visits them.
unfoldable pub visit : (ℕ → Bool) → List ℕ → List Bool → List ℕ → List ℕ × List Bool
visit accept [] visited ents = (ents, visited)
visit accept (to ∷ ids) visited ents =
    let seen = get_or visited to false in
    let added = if accept to then ents ++ to ∷ [] else ents in
    visit accept ids (if seen then visited else set visited to true) (if seen then ents else added)

-- The loop over the "from" entities, which gives `conns`.
unfoldable pub intersect_loop :
    Dimensions → (ℕ → List ℕ) → List FromEntity → List Bool → List (List ℕ)
intersect_loop d verts_of [] visited = []
intersect_loop d verts_of (from ∷ entities) visited =
    let r = visit (accepts d verts_of from) from.to_ids (unvisit from.to_ids visited) [] in
    r.0 ∷ intersect_loop d verts_of entities r.1

-- `c_empty` and `c2_empty` are the asserted tests on the connectivities that are read.
unfoldable pub intersect :
    Dimensions
    → Bool
    → Bool
    → (ℕ → List ℕ)
    → List FromEntity
    → ℕ
    → Connectivity
    → Option Connectivity
intersect d c_empty c2_empty verts_of entities num_to_ent out =
    if ltb 0 (length out.ids)
    then some out
    else if c_empty || c2_empty
    then none
    else init (intersect_loop d verts_of entities (replicate num_to_ent false)) out
