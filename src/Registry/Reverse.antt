-- ===== src/Registry/Reverse.antt =====
-- The maps from the vertices of intermediate entities back to the entities.
use flecsi.Base.{
  ℕ, zero, suc, ◌≡◌, ◌≢◌, refl, ap, ◌∙◌, Bool, true, false, ◌||◌, Option, none, some, List, [], ◌∷◌,
  get_elem?, ◌==◌, if◌then◌else◌, arith, ==_refl, ==_ne, Bool-cases, ⊎_elim,
}
use flecsi.StdSet.{member}
use flecsi.Connectivity.Picks.{AllDistinct}
use flecsi.Build.{equal_lists, find_key}
use flecsi.Build.Firsts.{equal_lists_iff, equal_lists_refl}
use flecsi.Registry.{Context, set_key, flip_loop, flip_maps, build_reverse_maps}

equal_lists_ne : (xs ys : List ℕ) → xs ≢ ys → equal_lists xs ys ≡ false
equal_lists_ne xs ys ne =
    ⊎_elim (λ e. absurd (ne (equal_lists_iff xs ys e))) (λ e. e) (Bool-cases (equal_lists xs ys))

find_key-set_key :
    (k key : List ℕ) (id : ℕ) (m : List (List ℕ × ℕ))
    → find_key k (set_key key id m) ≡ (if equal_lists k key then some id else find_key k m)
unfolding find_key set_key
find_key-set_key k key id [] = refl
find_key-set_key k key id ((j, v) ∷ m) =
    ⊎_elim (λ same. let e : key ≡ j = equal_lists_iff key j same in rw (same, e) (ground arith))
      (λ apart. rw (apart) (
        ⊎_elim
          (λ here.
            let e : k ≡ j = equal_lists_iff k j here in
            let other : equal_lists j key ≡ false =
              equal_lists_ne j key
                (λ e'. ground (arith, ap (equal_lists key) e', equal_lists_refl key, apart)) in
            rw (e, equal_lists_refl j, other) refl)
          (λ away. rw (away) (find_key-set_key k key id m)) (Bool-cases (equal_lists k j))))
      (Bool-cases (equal_lists key j))

-- whether an entry has the vertices
unfoldable pub has_vertices : List ℕ → List (ℕ × List ℕ) → Bool
has_vertices k [] = false
has_vertices k ((id, vertices) ∷ entries) = equal_lists k vertices || has_vertices k entries

-- No two entries have the same vertices.
abbrev pub DistinctVertices : List (ℕ × List ℕ) → Type 0
DistinctVertices [] = Unit
DistinctVertices (e ∷ entries) = (has_vertices e.1 entries ≡ false) × DistinctVertices entries

flip_loop_out :
    (k : List ℕ) (entries : List (ℕ × List ℕ)) (rev : List (List ℕ × ℕ))
    → has_vertices k entries ≡ false
    → find_key k (flip_loop entries rev) ≡ find_key k rev
unfolding flip_loop has_vertices
flip_loop_out k [] rev out = refl
flip_loop_out k ((id, vertices) ∷ entries) rev out =
    let apart : equal_lists k vertices ≡ false = ground arith in
    flip_loop_out k entries (set_key vertices id rev) (ground arith)
    ∙ find_key-set_key k vertices id rev
    ∙ rw (apart) refl

flip_loop_at :
    (entries : List (ℕ × List ℕ)) (rev : List (List ℕ × ℕ)) (i id : ℕ) (vertices : List ℕ)
    → DistinctVertices entries
    → get_elem? entries i ≡ some (id, vertices)
    → find_key vertices (flip_loop entries rev) ≡ some id
unfolding flip_loop
flip_loop_at [] rev i id vertices d e = absurd cc
flip_loop_at ((id', vertices') ∷ entries) rev zero id vertices d e =
    let same : vertices' ≡ vertices = cc in
    let same' : id' ≡ id = cc in
    let out : has_vertices vertices entries ≡ false = rw (← same) d.0 in
    flip_loop_out vertices entries (set_key vertices' id' rev) out
    ∙ find_key-set_key vertices vertices' id' rev
    ∙ rw (same, same', equal_lists_refl vertices) refl
flip_loop_at ((id', vertices') ∷ entries) rev (suc i) id vertices d e =
    flip_loop_at entries (set_key vertices' id' rev) i id vertices d.1 e

-- the keys of the maps
unfoldable pub keys_of : List (ℕ × List (ℕ × List ℕ)) → List ℕ
keys_of [] = []
keys_of ((key, entries) ∷ maps) = key ∷ keys_of maps

flip_maps_out :
    (key : ℕ) (maps : List (ℕ × List (ℕ × List ℕ))) (rev : ℕ → Option (List (List ℕ × ℕ)))
    → member key (keys_of maps) ≡ false
    → flip_maps maps rev key ≡ rev key
unfolding flip_maps keys_of member
flip_maps_out key [] rev out = refl
flip_maps_out key ((k, entries) ∷ maps) rev out =
    let apart : (key == k) ≡ false = ground arith in
    flip_maps_out key maps _ (ground arith) ∙ rw (apart) refl

member-keys_of :
    (maps : List (ℕ × List (ℕ × List ℕ))) (j key : ℕ) (entries : List (ℕ × List ℕ))
    → get_elem? maps j ≡ some (key, entries)
    → member key (keys_of maps) ≡ true
unfolding keys_of member
member-keys_of [] j key entries e = absurd cc
member-keys_of ((k, es) ∷ maps) zero key entries e =
    let same : k ≡ key = cc in rw (same, ==_refl key) refl
member-keys_of ((k, es) ∷ maps) (suc j) key entries e =
    ground (arith, member-keys_of maps j key entries e)

flip_maps_at :
    (maps : List (ℕ × List (ℕ × List ℕ))) (rev : ℕ → Option (List (List ℕ × ℕ))) (j key : ℕ)
    (entries : List (ℕ × List ℕ))
    → AllDistinct (keys_of maps)
    → rev key ≡ none
    → get_elem? maps j ≡ some (key, entries)
    → flip_maps maps rev key ≡ some (flip_loop entries [])
unfolding flip_maps keys_of
flip_maps_at [] rev j key entries d fresh e = absurd cc
flip_maps_at ((k, es) ∷ maps) rev zero key entries d fresh e =
    let same : k ≡ key = cc in
    let same' : es ≡ entries = cc in
    let out : member key (keys_of maps) ≡ false = rw (← same) d.0 in
    flip_maps_out key maps _ out ∙ rw (same, same', ==_refl key, fresh) refl
flip_maps_at ((k, es) ∷ maps) rev (suc j) key entries d fresh e =
    let inside = member-keys_of maps j key entries e in
    let apart : (key == k) ≡ false = ==_ne key k (λ same.
      let clash : member key (keys_of maps) ≡ false = rw (same) d.0 in
      ground (arith, inside, clash)) in
    flip_maps_at maps _ j key entries d.1 (rw (apart) fresh) e

-- After a reset, the reverse map of each intermediate map takes the vertices of an entry to its
-- entity, when the maps have distinct keys and the entries of a map distinct vertices.
pub build_reverse_maps-find_key :
    (c : Context) (j key i id : ℕ) (entries : List (ℕ × List ℕ)) (vertices : List ℕ)
    → AllDistinct (keys_of c.intermediate_maps)
    → DistinctVertices entries
    → get_elem? c.intermediate_maps j ≡ some (key, entries)
    → get_elem? entries i ≡ some (id, vertices)
    → (rev : List (List ℕ × ℕ)) × ((build_reverse_maps c true).reverse_intermediate_maps key
        ≡ some rev)
      × (find_key vertices rev ≡ some id)
unfolding build_reverse_maps
build_reverse_maps-find_key c j key i id entries vertices d d' at at' = (
  flip_loop entries [],
  flip_maps_at c.intermediate_maps (λ k. none) j key entries d refl at,
  flip_loop_at entries [] i id vertices d' at',
)
