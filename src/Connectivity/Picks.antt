-- ===== src/Connectivity/Picks.antt =====
-- What `intersect` adds to the connections of an entity.
use flecsi.Base.{
  ℕ, zero, suc, ◌≡◌, refl, sym, subst, ap, ◌∙◌, Bool, true, false, not, ◌&&◌, some, List, [], ◌∷◌,
  ◌++◌, arith, ltb, ◌==◌, if◌then◌else◌, length, get_elem?, set, replicate, append_assoc,
  append-nil, ⊎_elim, Bool-cases, ==_iff, inl, inr,
}
use flecsi.StdSet.{member}
use flecsi.Connectivity.{Connectivity, get_entities, and_then}
use flecsi.Connectivity.Rows.{Fits}
use flecsi.Connectivity.Init.{init-get_entities}
use flecsi.Connectivity.Refs.{
  RowBelow, table, update, set-table, get_or-table, table_ext, replicate-table,
}
use flecsi.Connectivity.Intersect.{
  FromEntity, Dimensions, accepts, unvisit, visit, intersect_loop, intersect,
}

-- The ids that are accepted, each where it comes first, and not marked before.
unfoldable pub picks : (ℕ → Bool) → (ℕ → Bool) → List ℕ → List ℕ
picks accept marked [] = []
picks accept marked (to ∷ ids) =
    let rest = picks accept (update marked to true) ids in
    if marked to then rest else if accept to then to ∷ rest else rest

unfoldable mark_all : Bool → (ℕ → Bool) → List ℕ → ℕ → Bool
mark_all b marked [] = marked
mark_all b marked (to ∷ ids) = mark_all b (update marked to b) ids

unvisit_lem :
    (n : ℕ) (ids : List ℕ) (marked : ℕ → Bool)
    → RowBelow n ids
    → unvisit ids (table 0 n marked) ≡ table 0 n (mark_all false marked ids)
unfolding unvisit mark_all
unvisit_lem n [] marked h = refl
unvisit_lem n (to ∷ ids) marked h =
    ap (unvisit ids) (set-table n to marked false h.0)
    ∙ unvisit_lem n ids (update marked to false) h.1

mark_same :
    (marked : ℕ → Bool) (to : ℕ) → marked to ≡ true → (k : ℕ) → marked k ≡ update marked to true k
mark_same marked to t k =
    ⊎_elim (λ e. rw e (ap marked ((==_iff k to).0 e) ∙ t)) (λ e. rw e refl) (Bool-cases (k == to))

join_lem :
    (m a : Bool) (to : ℕ) (ents rest : List ℕ)
    → (if m then ents else if a then ents ++ to ∷ [] else ents) ++ rest
      ≡ ents ++ (if m then rest else if a then to ∷ rest else rest)
join_lem true a to ents rest = refl
join_lem false true to ents rest = append_assoc ents (to ∷ []) rest
join_lem false false to ents rest = refl

visit_lem :
    (accept : ℕ → Bool) (n : ℕ) (ids ents : List ℕ) (marked : ℕ → Bool)
    → RowBelow n ids
    → (after : ℕ → Bool) × (visit accept ids (table 0 n marked) ents
        ≡ (ents ++ picks accept marked ids, table 0 n after))
unfolding visit picks
visit_lem accept n [] ents marked h =
    (marked, ap (λ l. (l, table 0 n marked)) (sym (append-nil ents)))
visit_lem accept n (to ∷ ids) ents marked (lt, h) =
    let g = get_or-table n to marked false lt in
    let marks : (if marked to then table 0 n marked else set (table 0 n marked) to true)
        ≡ table 0 n (update marked to true) =
      ⊎_elim (λ t. rw t (table_ext 0 n _ _ (λ k lt'. mark_same marked to t k)))
        (λ t. rw t (set-table n to marked true lt)) (Bool-cases (marked to)) in
    let added : List ℕ = if marked to then ents else if accept to then ents ++ to ∷ [] else ents in
    let (after, run) = visit_lem accept n ids added (update marked to true) h in
    let rest = picks accept (update marked to true) ids in
    let joined = join_lem (marked to) (accept to) to ents rest in
    (after, rw (g, marks) run ∙ ap (λ l. (l, table 0 n after)) joined)

member-picks :
    (accept marked : ℕ → Bool) (ids : List ℕ) (x : ℕ)
    → member x (picks accept marked ids) ≡ (member x ids && accept x && not (marked x))
unfolding picks member
member-picks accept marked [] x = refl
member-picks accept marked (to ∷ ids) x =
    let ih = member-picks accept (update marked to true) ids x in
    elim (Bool-cases (x == to)) [
      | inl t ↦
          let e : x ≡ to = (==_iff x to).0 t in
          let a = ap accept e in let b = ap marked e in ground (arith, ih, a, b)
      | inr t ↦ ground (arith, ih)
    ]

-- No id stands twice in the list.
abbrev pub AllDistinct : List ℕ → Type 0
AllDistinct [] = Unit
AllDistinct (x ∷ xs) = (member x xs ≡ false) × AllDistinct xs

picks-AllDistinct :
    (accept marked : ℕ → Bool) (ids : List ℕ) → AllDistinct (picks accept marked ids)
unfolding picks
picks-AllDistinct accept marked [] = tt
picks-AllDistinct accept marked (to ∷ ids) =
    let ih = picks-AllDistinct accept (update marked to true) ids in
    let once : member to (picks accept (update marked to true) ids) ≡ false =
      ground (arith, member-picks accept (update marked to true) ids to) in
    ground (arith, ih, once)

mark_all_lem :
    (marked : ℕ → Bool) (ids : List ℕ) (x : ℕ)
    → mark_all false marked ids x ≡ (marked x && not (member x ids))
unfolding mark_all member
mark_all_lem marked [] x = ground arith
mark_all_lem marked (to ∷ ids) x = ground (arith, mark_all_lem (update marked to false) ids x)

-- The "to" ids of all "from" entities are below the number of "to" entities.
abbrev pub EntitiesBelow : ℕ → List FromEntity → Type 0
EntitiesBelow n [] = Unit
EntitiesBelow n (from ∷ entities) = RowBelow n from.to_ids × EntitiesBelow n entities

-- The connections of one entity: marks left by earlier entities do not matter.
row_lem :
    (d : Dimensions) (verts_of : ℕ → List ℕ) (n : ℕ) (entities : List FromEntity)
    (marked : ℕ → Bool) (i : ℕ) (from : FromEntity) (x : ℕ)
    → EntitiesBelow n entities
    → get_elem? entities i ≡ some from
    → (row : List ℕ) × (get_elem? (intersect_loop d verts_of entities (table 0 n marked)) i
        ≡ some row)
      × (member x row ≡ (member x from.to_ids && accepts d verts_of from x))
      × AllDistinct row
unfolding intersect_loop
row_lem d verts_of n [] marked i from x h at = absurd cc
row_lem d verts_of n (f ∷ entities) marked zero from x (below, h) at =
    let accept = accepts d verts_of f in
    let cleared = mark_all false marked f.to_ids in
    let u = unvisit_lem n f.to_ids marked below in
    let (after, run) = visit_lem accept n f.to_ids [] cleared below in
    let row = picks accept cleared f.to_ids in
    let here : member x row ≡ (member x f.to_ids && accept x) =
      ground (arith, member-picks accept cleared f.to_ids x, mark_all_lem marked f.to_ids x) in
    let e : f ≡ from = cc at in
    (
      row,
      rw (u, run) refl,
      subst (λ q. member x row ≡ (member x q.to_ids && accepts d verts_of q x)) e here,
      picks-AllDistinct accept cleared f.to_ids,
    )
row_lem d verts_of n (f ∷ entities) marked (suc i) from x (below, h) at =
    let cleared = mark_all false marked f.to_ids in
    let u = unvisit_lem n f.to_ids marked below in
    let (after, run) = visit_lem (accepts d verts_of f) n f.to_ids [] cleared below in
    let r = row_lem d verts_of n entities after i from x h at in (r.0, rw (u, run) (r.1), r.2, r.3)

-- Where the "to" ids are in range, the connections fit, there is no connectivity yet and those that
-- are read are not empty, `intersect` succeeds, and afterwards `get_entities` of a "from" entity gives a list without repetition that
-- has an id if and only if an intermediate entity has it and the test of the vertices accepts it.
pub intersect-get_entities :
    (d : Dimensions) (verts_of : ℕ → List ℕ) (entities : List FromEntity) (n : ℕ) (c : Connectivity)
    (i : ℕ) (from : FromEntity) (x : ℕ)
    → EntitiesBelow n entities
    → Fits c (intersect_loop d verts_of entities (replicate n false))
    → c.ids ≡ []
    → get_elem? entities i ≡ some from
    → (row : List ℕ) × (and_then
          (intersect d false false verts_of entities n c)
          (λ c. get_entities c i)
        ≡ some row)
      × (member x row ≡ (member x from.to_ids && accepts d verts_of from x))
      × AllDistinct row
unfolding intersect
intersect-get_entities d verts_of entities n c i from x h fits none_yet at =
    let z : replicate n false ≡ table 0 n (λ k. false) = replicate-table 0 n false in
    let r = row_lem d verts_of n entities (λ k. false) i from x h at in
    let rows = intersect_loop d verts_of entities (replicate n false) in
    let got : get_elem? rows i ≡ some r.0 =
      ap (λ v. get_elem? (intersect_loop d verts_of entities v) i) z ∙ r.1 in
    let empty_ids : ltb 0 (length c.ids) ≡ false = rw none_yet refl in
    (r.0, rw empty_ids (init-get_entities c rows i r.0 fits got), r.2, r.3)
