-- ===== src/Graph/Neighbors.antt =====
-- What the functions of closure_utils.h compute, and how they agree.
use flecsi.Base.{
  ℕ, zero, suc, ◌+◌, ◌<◌, ◌≡◌, ◌↔◌, refl, sym, ap, ◌∙◌, Bool, true, false, not, ◌&&◌, ◌||◌, some,
  List, [], ◌∷◌, arith, ltb, ◌==◌, if◌then◌else◌, length, ==_iff, ==_refl, append-nil, Bool-cases,
  ⊎_elim, lt→ltb,
}
use flecsi.StdSet.{member, insert, insert_all, set_intersection, member-insert, member-insert_all}
use flecsi.Connectivity.Picks.{AllDistinct}
use flecsi.Graph.{MeshDefinition, entities_set, cell2cells_of}
use flecsi.Graph.Closure.{
  neighbor_loop, entity_neighbors, closure_loop, neighbors_closure, referencer_loop,
  entity_referencers, entity_closure,
}
use flecsi.Graph.Counts.{occurrences, shared}
use flecsi.Graph.Chosen.{chosen, chosen_ext, member-chosen, insert-last, AllBelow, AllBelow-chosen}
use flecsi.Graph.Cells.{neighbors_of, linked, cell2cells_of-neighbors}

-- how many of the elements of a set are in a list
unfoldable hits : List ℕ → List ℕ → ℕ
hits [] t = 0
hits (x ∷ s) t = (if member x t then 1 else 0) + hits s t

length-set_intersection : (s t : List ℕ) → length (set_intersection s t) ≡ hits s t
unfolding set_intersection hits
length-set_intersection [] t = refl
length-set_intersection (x ∷ s) t = ground (arith, length-set_intersection s t)

hits-insert :
    (x : ℕ) (s t : List ℕ)
    → member x s ≡ false
    → hits (insert x s) t ≡ (if member x t then 1 else 0) + hits s t
unfolding insert hits member
hits-insert x [] t out = refl
hits-insert x (y ∷ s) t out = ground (arith, hits-insert x s t)

hits-insert_all :
    (xs s t : List ℕ)
    → AllDistinct xs
    → ((x : ℕ) → member x xs ≡ true → member x s ≡ false)
    → hits (insert_all xs s) t ≡ hits xs t + hits s t
unfolding insert_all hits member
hits-insert_all [] s t d apart = omega arith
hits-insert_all (x ∷ xs) s t d apart =
    let apart' : (y : ℕ) → member y xs ≡ true → member y (insert x s) ≡ false =
      λ y m. ground (arith, m, d.0, member-insert y x s, apart y, ==_iff y x) in
    omega (
      arith,
      hits-insert_all xs (insert x s) t d.1 apart',
      hits-insert x s t (apart x (rw (==_refl x) refl)),
    )

hits_ext : (s t u : List ℕ) → ((x : ℕ) → member x t ≡ member x u) → hits s t ≡ hits s u
unfolding hits
hits_ext [] t u same = refl
hits_ext (x ∷ s) t u same = rw (same x, hits_ext s t u same) refl

occurrences-member :
    (x : ℕ) (ys : List ℕ) → AllDistinct ys → occurrences x ys ≡ (if member x ys then 1 else 0)
unfolding occurrences member
occurrences-member x [] d = refl
occurrences-member x (y ∷ ys) d = ground (arith, occurrences-member x ys d.1, d.0, ==_iff x y)

hits-shared : (xs ys : List ℕ) → AllDistinct ys → hits xs ys ≡ shared xs ys
unfolding hits shared
hits-shared [] ys d = refl
hits-shared (x ∷ xs) ys d = omega (arith, hits-shared xs ys d, occurrences-member x ys d)

-- Without repeated vertices, the intersection of the vertex sets has as many elements as there
-- are pairs of equal vertices.
intersection-shared :
    (xs ys : List ℕ)
    → AllDistinct xs
    → AllDistinct ys
    → length (set_intersection (insert_all xs []) (insert_all ys [])) ≡ shared xs ys
unfolding member hits
intersection-shared xs ys dx dy =
    length-set_intersection (insert_all xs []) (insert_all ys [])
    ∙ hits-insert_all xs [] (insert_all ys []) dx (λ x m. refl)
    ∙ omega (
      arith,
      hits-shared xs ys dy,
      hits_ext xs (insert_all ys []) ys (λ x. member-insert_all x ys [] ∙ ground arith),
    )

-- An insertion of the next number, when it passes the test.
chosen-step :
    (test : ℕ → Bool) (e : ℕ)
    → (if test e then insert e (chosen test e) else chosen test e) ≡ chosen test (suc e)
unfolding chosen
chosen-step test e =
    ground
      (arith, insert-last e (chosen test e) (AllBelow-chosen test e), append-nil (chosen test e))

module _ (md : MeshDefinition) (from to thru id : ℕ) where
  abbrev near : List ℕ → ℕ → Bool
  near vertices e =
      not ((from == to) && (e == id))
      && ltb thru (length (set_intersection vertices (entities_set md to 0 e)))

  neighbor_loop_lem :
      (vertices : List ℕ) (rounds e n : ℕ)
      → e + rounds ≡ n
      → neighbor_loop md from to thru id vertices rounds e (chosen (near vertices) e)
        ≡ chosen (near vertices) n
  unfolding neighbor_loop
  neighbor_loop_lem vertices zero e n h = let h' : e ≡ n = omega arith in rw h' refl
  neighbor_loop_lem vertices (suc rounds) e n h =
      let step = chosen-step (near vertices) e in
      let now : (if (from == to) && (e == id)
            then chosen (near vertices) e
            else if ltb thru (length (set_intersection vertices (entities_set md to 0 e)))
            then insert e (chosen (near vertices) e)
            else chosen (near vertices) e)
          ≡ chosen (near vertices) (suc e) =
        ground (arith, step) in
      rw now (neighbor_loop_lem vertices rounds (suc e) n (omega arith))

  referencer_loop_lem :
      (rounds e n : ℕ)
      → e + rounds ≡ n
      → referencer_loop md from to id rounds e (chosen (λ k. member id (md.entities from to k)) e)
        ≡ chosen (λ k. member id (md.entities from to k)) n
  unfolding referencer_loop
  referencer_loop_lem zero e n h = let h' : e ≡ n = omega arith in rw h' refl
  referencer_loop_lem (suc rounds) e n h =
      rw (chosen-step (λ k. member id (md.entities from to k)) e)
        (referencer_loop_lem rounds (suc e) n (omega arith))

-- When no entity of the mesh repeats a vertex, the neighbours that are found for one entity by the
-- intersections of its vertex set with those of all others are the list that the loop which builds
-- the graph of all entities has for it.
pub entity_neighbors-cell2cells :
    (md : MeshDefinition) (from thru id : ℕ)
    → ((e : ℕ) → AllDistinct (md.entities from 0 e))
    → id < md.num_entities from
    → entity_neighbors md from from thru id ≡ cell2cells_of md from thru id
unfolding entity_neighbors chosen entities_set linked neighbors_of
entity_neighbors-cell2cells md from thru id d lt =
    neighbor_loop_lem md from from thru id (entities_set md from 0 id) (md.num_entities from) 0
      (md.num_entities from) (omega arith)
    ∙ chosen_ext (near md from from thru id (entities_set md from 0 id)) (linked md from thru id)
        (md.num_entities from)
        (λ e le.
          rw
            (
              ==_refl from,
              intersection-shared (md.entities from 0 id) (md.entities from 0 e) (d id) (d e),
            )
            refl)
    ∙ sym (cell2cells_of-neighbors md from thru id lt)

-- Whether the list of some index has a value.
unfoldable pub some_has : (ℕ → List ℕ) → ℕ → List ℕ → Bool
some_has of x [] = false
some_has of x (i ∷ indices) = member x (of i) || some_has of x indices

member-closure_loop :
    (of : ℕ → List ℕ) (indices closure : List ℕ) (x : ℕ)
    → member x (closure_loop of indices closure) ≡ (some_has of x indices || member x closure)
unfolding closure_loop some_has
member-closure_loop of [] closure x = refl
member-closure_loop of (i ∷ indices) closure x = ground (
  arith,
  member-closure_loop of indices (insert_all (of i) closure) x,
  member-insert_all x (of i) closure,
)

some_has_iff :
    (of : ℕ → List ℕ) (x : ℕ) (indices : List ℕ)
    → (some_has of x indices ≡ true)
      ↔ ((i : ℕ) × (member i indices ≡ true) × (member x (of i) ≡ true))
unfolding some_has member
some_has_iff of x [] = (λ h. ground arith, λ h. ground (arith, h.1))
some_has_iff of x (i ∷ indices) =
    let ih = some_has_iff of x indices in
    (
      λ h.
          ⊎_elim (λ here. (i, ground (arith, ==_refl i), here))
            (λ away. let rest = ih.0 (ground arith) in (rest.0, ground (arith, rest.1), rest.2))
            (Bool-cases (member x (of i))),
      λ h.
          ⊎_elim
            (λ same.
              let e : h.0 ≡ i = (==_iff h.0 i).0 same in
              ground (arith, ap (λ k. member x (of k)) e, h.2))
            (λ other. ground (arith, ih.1 (h.0, ground (arith, h.1), h.2))) (Bool-cases (h.0 == i)),
    )

some_has_ext :
    (f g : ℕ → List ℕ) (x n : ℕ) (indices : List ℕ)
    → AllBelow n indices
    → ((i : ℕ) → i < n → f i ≡ g i)
    → some_has f x indices ≡ some_has g x indices
unfolding some_has
some_has_ext f g x n [] below same = refl
some_has_ext f g x n (i ∷ indices) below same =
    rw (same i below.0, some_has_ext f g x n indices below.1 same) refl

-- The neighbours of a set of indices of the mesh are found, and a number is one of them exactly
-- when it is in the set or in the list of neighbours of some index of the set.
pub neighbors_closure_lem :
    (md : MeshDefinition) (from thru : ℕ) (indices : List ℕ) (x : ℕ)
    → AllBelow (md.num_entities from) indices
    → (closure : List ℕ) × (neighbors_closure md from from thru indices ≡ some closure)
      × (member x closure ≡ (some_has (neighbors_of md from thru) x indices || member x indices))
unfolding neighbors_closure member
neighbors_closure_lem md from thru indices x below = (
  closure_loop (cell2cells_of md from thru) indices (insert_all indices []),
  rw (==_refl from) refl,
  ground (
    arith,
    member-closure_loop (cell2cells_of md from thru) indices (insert_all indices []) x,
    some_has_ext (cell2cells_of md from thru) (neighbors_of md from thru) x (md.num_entities from)
        indices below (cell2cells_of-neighbors md from thru),
    member-insert_all x indices [],
  ),
)

member-referencers :
    (md : MeshDefinition) (from to id i : ℕ)
    → member i (entity_referencers md from to id)
      ≡ (ltb i (md.num_entities from) && member id (md.entities from to i))
unfolding entity_referencers chosen
member-referencers md from to id i =
    ap (member i) (
      referencer_loop_lem md from to 0 id (md.num_entities from) 0 (md.num_entities from)
        (omega arith))
    ∙ member-chosen (λ k. member id (md.entities from to k)) (md.num_entities from) i

AllBelow-member : (n i : ℕ) (xs : List ℕ) → AllBelow n xs → member i xs ≡ true → i < n
unfolding member
AllBelow-member n i [] below m = ground arith
AllBelow-member n i (x ∷ xs) below m = ground (arith, AllBelow-member n i xs below.1, ==_iff i x)

-- An entity is in the closure of a set of indices of the mesh exactly when one of the indices is
-- among the entity's referencers.
pub entity_closure-referencers :
    (md : MeshDefinition) (from to : ℕ) (indices : List ℕ) (v : ℕ)
    → AllBelow (md.num_entities from) indices
    → (member v (entity_closure md from to indices) ≡ true)
      ↔ ((i : ℕ) × (member i indices ≡ true) × (member i (entity_referencers md from to v) ≡ true))
unfolding entity_closure member
entity_closure-referencers md from to indices v below =
    let sum = member-closure_loop (md.entities from to) indices [] v in
    let found = some_has_iff (md.entities from to) v indices in
    (
      λ m.
          let hit = found.0 (ground (arith, sum, m)) in
          let lt = AllBelow-member (md.num_entities from) hit.0 indices below hit.1 in
          (
            hit.0,
            hit.1,
            member-referencers md from to v hit.0
                ∙ rw (lt→ltb hit.0 (md.num_entities from) lt, hit.2) refl,
          ),
      λ h.
          let own : member v (md.entities from to h.0) ≡ true =
            ground (arith, member-referencers md from to v h.0, h.2) in
          ground (arith, sum, found.1 (h.0, h.1, own)),
    )
