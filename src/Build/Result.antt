-- ===== src/Build/Result.antt =====
-- The two connectivities that `build_connectivity` fills when there is no intermediate map.
use flecsi.Base.{
  ℕ, zero, suc, ◌+◌, ◌≤◌, ◌<◌, ◌^◌, ◌≡◌, ◌↔◌, refl, sym, ap, ◌∙◌, true, false, some, List, [], ◌∷◌,
  map, ◌==◌, if◌then◌else◌, arith, length, get_elem?, concat, ==_iff, ==_ne, Bool-cases, ⊎_elim,
  replicate,
}
use flecsi.StdSet.{member}
use flecsi.Connectivity.{Connectivity, and_then, get_entities, from_size}
use flecsi.Connectivity.Intersect.{sorted}
use flecsi.Connectivity.Picks.{AllDistinct}
use flecsi.Connectivity.Refs.{table, get_elem?-table, replicate-table}
use flecsi.Connectivity.Rows.{holding, Fits, get_entities_lem, from_size-holding}
use flecsi.Connectivity.Init.{init_lem}
use flecsi.Graph.Chosen.{AllBelow}
use flecsi.Build.{index_entity, BuildContext, Built, new_building, ordered_conn, build_connectivity}
use flecsi.Ids.{make_id}
use flecsi.Build.{equal_lists}
use flecsi.Build.Firsts.{
  equal_lists_iff, index_of, note_all, number, number_found, or_zero, index_of-append, Noted,
  calls_for, length-calls_for, get_elem?-calls_for,
}
use flecsi.Build.Unique.{firsts_of, count_parts, firsts_of-grows, indexed, build_loop-Noted}

-- The entities, each by the vertices of its first occurrence.
abbrev pub entities : BuildContext → (ℕ → List (List ℕ)) → List (List ℕ)
entities ctx parts = firsts_of parts ctx.cells []

-- The entities of each cell, by their numbers.
abbrev pub cell_rows : BuildContext → (ℕ → List (List ℕ)) → List (List ℕ)
cell_rows ctx parts =
    table 0 ctx.num_cells
      (λ k. if member k ctx.cells then map (number (entities ctx parts)) (parts k) else [])

-- There is no intermediate map; `parts c` are the vertices of the entities that `create_entities`
-- gives for cell `c`, at most as many as its buffer has places; the cells are numbered below their
-- number, each once; the cells have vertices;
-- the entities can be numbered in 32 bits; and the storage of the connectivities is large enough.
pub record Buildable (ctx : BuildContext) (parts : ℕ → List (List ℕ)) (c2v e2v c2e : Connectivity)
    : Type 0 where
  pub off : ctx.has_intermediate_map ≡ false
  pub creates : (c : ℕ) → ctx.create_entities c ≡ (map length (parts c), concat (parts c))
  pub buffer : (c : ℕ) → length (concat (parts c)) ≤ 4096
  pub below : AllBelow ctx.num_cells ctx.cells
  pub distinct : AllDistinct ctx.cells
  pub nonempty : 0 < length c2v.ids
  pub few : count_parts parts ctx.cells ≤ 2 ^ 32
  pub vertices_fit : Fits e2v (map (map index_entity) (entities ctx parts))
  pub cells_fit : Fits c2e (cell_rows ctx parts)

new-Noted : (own dim dom : ℕ) → Noted own dim dom new_building []
unfolding calls_for
new-Noted own dim dom = record { keys_known = tt; conn_stored = refl; counted = refl; calls = refl }

-- What is left behind, by the entities and the rows.
abbrev pub built_of :
    (ctx : BuildContext) → (ℕ → List (List ℕ)) → Connectivity → Connectivity → ℕ → ℕ → Built
built_of ctx parts e2v c2e dim dom = record {
  entity_to_vertex = holding e2v (map (map index_entity) (entities ctx parts));
  cell_to_entity = holding c2e (cell_rows ctx parts);
  made = calls_for ctx.own_color dim dom 0 (entities ctx parts);
}

build_lem :
    {ctx : BuildContext} {parts : ℕ → List (List ℕ)} {c2v e2v c2e : Connectivity} (dim dom : ℕ)
    → Buildable ctx parts c2v e2v c2e
    → build_connectivity ctx dim dom c2v e2v c2e ≡ some (built_of ctx parts e2v c2e dim dom)
unfolding build_connectivity ordered_conn
build_lem {ctx} {parts} {c2v} {e2v} {c2e} dim dom h =
    let loop =
      build_loop-Noted ctx dim dom parts ctx.num_cells ctx.cells [] new_building (λ k. []) h.off
        h.creates h.buffer h.below h.distinct (omega (arith, h.few))
        (new-Noted ctx.own_color dim dom) in
    let rows : replicate {A = List ℕ} ctx.num_cells [] ≡ table 0 ctx.num_cells (λ k. []) =
      replicate-table {A = List ℕ} 0 ctx.num_cells [] in
    let some_ids : (length c2v.ids == 0) ≡ false =
      ==_ne (length c2v.ids) 0 (λ e. absurd (omega (arith, h.nonempty))) in
    let conn : ordered_conn ctx loop.0 ≡ some (map (map index_entity) (entities ctx parts)) =
      rw (h.off) (ap some loop.2.conn_stored) in
    rw
      (
        some_ids,
        rows,
        loop.1,
        conn,
        init_lem e2v (map (map index_entity) (entities ctx parts)) h.vertices_fit,
        init_lem c2e (cell_rows ctx parts) h.cells_fit,
        loop.2.calls,
      )
      refl

get_elem?-map :
    {A : Type 0} {B : Type 0} (f : A → B) (xs : List A) (i : ℕ) (x : A)
    → get_elem? xs i ≡ some x
    → get_elem? (map f xs) i ≡ some (f x)
get_elem?-map f [] i x e = absurd cc
get_elem?-map f (y ∷ xs) zero x e = cc
get_elem?-map f (y ∷ xs) (suc i) x e = get_elem?-map f xs i x e

-- The list with a number has the key that was looked for.
index_of-get :
    (key : List ℕ) (j n : ℕ) (firsts : List (List ℕ))
    → index_of key j firsts ≡ some n
    → (i : ℕ) × (first : List ℕ) × (j + i ≡ n)
      × (get_elem? firsts i ≡ some first)
      × (sorted first ≡ key)
unfolding index_of
index_of-get key j n [] e = absurd cc
index_of-get key j n (a ∷ firsts) e =
    ⊎_elim
      (λ same.
        let n_eq : j ≡ n = ground arith in
        (0, a, omega arith, refl, sym (equal_lists_iff key (sorted a) same)))
      (λ apart.
        let rest = index_of-get key (suc j) n firsts (ground arith) in
        (suc rest.0, rest.1, omega (arith, rest.2), rest.3, rest.4))
      (Bool-cases (equal_lists key (sorted a)))

-- The entities of the cells are among the first occurrences.
indexed_cells :
    (parts : ℕ → List (List ℕ)) (cells : List ℕ) (firsts : List (List ℕ)) (c i : ℕ) (a : List ℕ)
    → member c cells ≡ true
    → get_elem? (parts c) i ≡ some a
    → (n : ℕ) × (index_of (sorted a) 0 (firsts_of parts cells firsts) ≡ some n)
unfolding member firsts_of
indexed_cells parts [] firsts c i a m e = ground arith
indexed_cells parts (d ∷ cells) firsts c i a m e =
    ⊎_elim
      (λ same.
        let c_eq : c ≡ d = (==_iff c d).0 same in
        let at = indexed firsts (parts d) i a (rw (← c_eq) e) in
        let grown = firsts_of-grows parts cells (note_all firsts (parts d)) in
        (
          at.0,
          rw (grown.1) (index_of-append (sorted a) 0 at.0 (note_all firsts (parts d)) grown.0 at.1),
        ))
      (λ apart. indexed_cells parts cells (note_all firsts (parts d)) c i a (ground arith) e)
      (Bool-cases (c == d))

number_iff :
    (all : List (List ℕ)) (a b : List ℕ) (n k : ℕ)
    → index_of (sorted a) 0 all ≡ some n
    → index_of (sorted b) 0 all ≡ some k
    → (number all a ≡ number all b) ↔ (sorted a ≡ sorted b)
unfolding number
number_iff all a b n k at at' =
    let found = index_of-get (sorted a) 0 n all at in
    let found' = index_of-get (sorted b) 0 k all at' in
    (
      λ e.
          let n_eq : n ≡ k = sym (number_found all a n at) ∙ e ∙ number_found all b k at' in
          let i_eq : found.0 ≡ found'.0 = omega (arith, found.2, found'.2) in
          let same : some found.1 ≡ some found'.1 =
            sym found.3 ∙ ap (λ i. get_elem? all i) i_eq ∙ found'.3 in
          let first_eq : found.1 ≡ found'.1 = cc (same) in
          sym found.4 ∙ ap sorted first_eq ∙ found'.4,
      λ e. ap (λ key. or_zero (index_of key 0 all)) e,
    )

-- Where the entity of a cell stands.
number_at :
    (ctx : BuildContext) (parts : ℕ → List (List ℕ)) (c2e : Connectivity) (c i : ℕ) (a : List ℕ)
    → Fits c2e (cell_rows ctx parts)
    → c < ctx.num_cells
    → member c ctx.cells ≡ true
    → get_elem? (parts c) i ≡ some a
    → and_then (get_entities (holding c2e (cell_rows ctx parts)) c) (λ row. get_elem? row i)
      ≡ some (number (entities ctx parts) a)
number_at ctx parts c2e c i a fits lt m at =
    let all : List (List ℕ) = entities ctx parts in
    let row_at : get_elem? (cell_rows ctx parts) c ≡ some (map (number all) (parts c)) =
      get_elem?-table ctx.num_cells c
        (λ k. if member k ctx.cells then map (number all) (parts k) else []) lt
      ∙ rw (m) refl in
    rw (get_entities_lem c2e (cell_rows ctx parts) c (map (number all) (parts c)) fits row_at)
      (get_elem?-map (number all) (parts c) i a at)

-- Take a mesh without an intermediate map, whose `create_entities` fills at most 4096 places for a
-- cell, whose cells are in range, each once, and have vertices, with at most 2^32 entities counted for
-- each cell, and storage that is large enough. Then `build_connectivity` succeeds. Entity `i` of a
-- cell, with the vertices `a`, stands at place `i` of the cell's entities as a number `e`, the
-- vertices of entity `e` are those of a list with the same sorted ids as `a`, and call `e` of
-- `create_entity` is the one for number `e`, with as many vertices as that list has.
pub build_connectivity-get_entities :
    (ctx : BuildContext) (parts : ℕ → List (List ℕ)) (c2v e2v c2e : Connectivity) (dim dom : ℕ)
    → Buildable ctx parts c2v e2v c2e
    → (c i : ℕ) (a : List ℕ) → c < ctx.num_cells
    → member c ctx.cells ≡ true
    → get_elem? (parts c) i ≡ some a
    → (built : Built) × (e : ℕ) × (first : List ℕ) × (build_connectivity ctx dim dom c2v e2v c2e
        ≡ some built)
      × (and_then (get_entities built.cell_to_entity c) (λ row. get_elem? row i) ≡ some e)
      × (get_entities built.entity_to_vertex e ≡ some (map index_entity first))
      × (sorted first ≡ sorted a)
      × (get_elem? built.made e ≡ some (length first, make_id dim dom e ctx.own_color 0 0))
build_connectivity-get_entities ctx parts c2v e2v c2e dim dom h c i a lt m at =
    let all : List (List ℕ) = entities ctx parts in
    let numbered = indexed_cells parts ctx.cells [] c i a m at in
    let found = index_of-get (sorted a) 0 numbered.0 all numbered.1 in
    let e : number all a ≡ found.0 =
      number_found all a numbered.0 numbered.1 ∙ omega (arith, found.2) in
    (
      built_of ctx parts e2v c2e dim dom,
      found.0,
      found.1,
      build_lem dim dom h,
      number_at ctx parts c2e c i a h.cells_fit lt m at ∙ ap some e,
      get_entities_lem e2v (map (map index_entity) all) found.0 (map index_entity found.1)
          h.vertices_fit (get_elem?-map (map index_entity) all found.0 found.1 found.3),
      found.4,
      get_elem?-calls_for ctx.own_color dim dom found.0 all found.1 found.3,
    )

-- The call that made the entity with a number.
call_at :
    (ctx : BuildContext) (dim dom : ℕ) (a : List ℕ) (all : List (List ℕ)) (n : ℕ)
    → index_of (sorted a) 0 all ≡ some n
    → (m : ℕ) × (get_elem? (calls_for ctx.own_color dim dom 0 all) (number all a)
        ≡ some (m, make_id dim dom (number all a) ctx.own_color 0 0))
call_at ctx dim dom a all n at =
    let found = index_of-get (sorted a) 0 n all at in
    let e : found.0 ≡ number all a = omega (arith, found.2, number_found all a n at) in
    (
      length found.1,
      rw (← e) (get_elem?-calls_for ctx.own_color dim dom found.0 all found.1 found.3),
    )

length-map_index : (all : List (List ℕ)) → length (map (map index_entity) all) ≡ length all
length-map_index [] = refl
length-map_index (a ∷ all) = ap suc (length-map_index all)

-- Take a mesh without an intermediate map, whose `create_entities` fills at most 4096 places for a
-- cell, whose cells are in range, each once, and have vertices, with at most 2^32 entities counted for
-- each cell, and storage that is large enough. Then `build_connectivity` succeeds and makes each
-- entity once: entity `i` of cell `c` and entity `j` of cell `d`, two cells of the mesh, have the same
-- number exactly when their vertices, sorted, are the same; call `e` of `create_entity` is the one
-- for the number `e` of the first; and there are as many calls as entities with vertices.
pub build_connectivity_unique :
    (ctx : BuildContext) (parts : ℕ → List (List ℕ)) (c2v e2v c2e : Connectivity) (dim dom : ℕ)
    → Buildable ctx parts c2v e2v c2e
    → (c i d j : ℕ) (a b : List ℕ) → c < ctx.num_cells
    → d < ctx.num_cells
    → member c ctx.cells ≡ true
    → member d ctx.cells ≡ true
    → get_elem? (parts c) i ≡ some a
    → get_elem? (parts d) j ≡ some b
    → (built : Built) × (e f : ℕ) × (build_connectivity ctx dim dom c2v e2v c2e ≡ some built)
      × (and_then (get_entities built.cell_to_entity c) (λ row. get_elem? row i) ≡ some e)
      × (and_then (get_entities built.cell_to_entity d) (λ row. get_elem? row j) ≡ some f)
      × ((e ≡ f) ↔ (sorted a ≡ sorted b))
      × ((m : ℕ) × (get_elem? built.made e ≡ some (m, make_id dim dom e ctx.own_color 0 0)))
      × (length built.made ≡ from_size built.entity_to_vertex)
build_connectivity_unique ctx parts c2v e2v c2e dim dom h c i d j a b lt lt' m m' at at' =
    let all : List (List ℕ) = entities ctx parts in
    let numbered = indexed_cells parts ctx.cells [] c i a m at in
    let numbered' = indexed_cells parts ctx.cells [] d j b m' at' in
    (
      built_of ctx parts e2v c2e dim dom,
      number all a,
      number all b,
      build_lem dim dom h,
      number_at ctx parts c2e c i a h.cells_fit lt m at,
      number_at ctx parts c2e d j b h.cells_fit lt' m' at',
      number_iff all a b numbered.0 numbered'.0 numbered.1 numbered'.1,
      call_at ctx dim dom a all numbered.0 numbered.1,
      length-calls_for ctx.own_color dim dom 0 all
          ∙ sym (length-map_index all)
          ∙ sym (from_size-holding e2v (map (map index_entity) all)),
    )
