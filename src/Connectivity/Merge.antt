-- ===== src/Connectivity/Merge.antt =====
-- What the merge loops of `intersect` decide: whether two lists of vertices have a common element,
-- and whether the first has all of the second.
use flecsi.Base.{
  ℕ, zero, suc, ◌+◌, ◌<◌, ◌≡◌, refl, sym, ◌∙◌, Bool, true, false, not, ◌&&◌, ◌||◌, some, List, [],
  ◌∷◌, arith, ◌==◌, if◌then◌else◌, ==_iff, length, get_elem?, replicate,
}
use flecsi.StdSet.{member, AllAbove, IsSorted, AllAbove-trans}
use flecsi.Connectivity.{Connectivity, get_entities, and_then, insert_by, sort_by}
use flecsi.Connectivity.Rows.{Fits}
use flecsi.Connectivity.Intersect.{
  FromEntity, Dimensions, sorted, includes_loop, includes, intersects_loop, intersects, accepts,
  intersect_loop, intersect,
}
use flecsi.Connectivity.Picks.{AllDistinct, EntitiesBelow, intersect-get_entities}
use flecsi.Connectivity.Ascending.{
  AllFrom, Ascending, sorted-Ascending, member-sorted, sorted-IsSorted,
}

-- Some element of the first list is in the second.
unfoldable pub meets : List ℕ → List ℕ → Bool
meets [] ys = false
meets (x ∷ xs) ys = member x ys || meets xs ys

-- Every element of the second list is in the first.
unfoldable pub covers : List ℕ → List ℕ → Bool
covers xs [] = true
covers xs (y ∷ ys) = member y xs && covers xs ys

member-above : (x y : ℕ) (ys : List ℕ) → x < y → AllFrom y ys → member x ys ≡ false
unfolding member
member-above x y [] lt h = refl
member-above x y (z ∷ ys) lt h = ground (arith, member-above x y ys lt h.1, ==_iff x z)

meets-skip : (x y : ℕ) (xs ys : List ℕ) → y < x → AllFrom x xs → meets xs (y ∷ ys) ≡ meets xs ys
unfolding meets member
meets-skip x y [] ys lt h = refl
meets-skip x y (z ∷ xs) ys lt h = ground (arith, meets-skip x y xs ys lt h.1, ==_iff z y)

meets-nil : (xs : List ℕ) → meets xs [] ≡ false
unfolding meets member
meets-nil [] = refl
meets-nil (x ∷ xs) = meets-nil xs

intersects_loop_lem :
    (fuel : ℕ) (xs ys : List ℕ)
    → length xs + length ys < fuel
    → Ascending xs
    → Ascending ys
    → intersects_loop fuel xs ys ≡ meets xs ys
unfolding intersects_loop meets member
intersects_loop_lem zero xs ys lt hx hy = absurd (omega arith)
intersects_loop_lem (suc fuel) [] ys lt hx hy = refl
intersects_loop_lem (suc fuel) (x ∷ xs) [] lt hx hy = sym (meets-nil (x ∷ xs))
intersects_loop_lem (suc fuel) (x ∷ xs) (y ∷ ys) lt hx hy = ground (
  arith,
  intersects_loop_lem fuel xs (y ∷ ys) (omega arith) hx.1 hy,
  intersects_loop_lem fuel (x ∷ xs) ys (omega arith) hx hy.1,
  member-above x y ys,
  meets-skip x y xs ys,
  ==_iff x y,
)

covers-skip : (x : ℕ) (xs ys : List ℕ) → AllAbove x ys → covers (x ∷ xs) ys ≡ covers xs ys
unfolding covers member
covers-skip x xs [] h = refl
covers-skip x xs (y ∷ ys) h = ground (arith, covers-skip x xs ys h.1, ==_iff y x)

includes_loop_lem :
    (fuel : ℕ) (xs ys : List ℕ)
    → length xs + length ys < fuel
    → Ascending xs
    → IsSorted ys
    → includes_loop fuel xs ys ≡ covers xs ys
unfolding includes_loop covers member
includes_loop_lem zero xs ys lt hx hy = absurd (omega arith)
includes_loop_lem (suc fuel) xs [] lt hx hy = refl
includes_loop_lem (suc fuel) [] (y ∷ ys) lt hx hy = refl
includes_loop_lem (suc fuel) (x ∷ xs) (y ∷ ys) lt hx hy =
    let skip : x < y → covers (x ∷ xs) (y ∷ ys) ≡ covers xs (y ∷ ys) =
      λ less. covers-skip x xs (y ∷ ys) (less, AllAbove-trans x y ys (omega arith) hy.0) in
    let same : x ≡ y → covers (x ∷ xs) ys ≡ covers xs ys = λ e. covers-skip x xs ys (rw (e) hy.0) in
    ground (
      arith,
      skip,
      same,
      includes_loop_lem fuel xs (y ∷ ys) (omega arith) hx.1 hy,
      includes_loop_lem fuel xs ys (omega arith) hx.1 hy.1,
      member-above y x xs,
      ==_iff y x,
    )

meets-insert_by :
    (x : ℕ) (xs ys : List ℕ) → meets (insert_by (λ k. k) x xs) ys ≡ (member x ys || meets xs ys)
unfolding meets insert_by
meets-insert_by x [] ys = refl
meets-insert_by x (z ∷ xs) ys = ground (arith, meets-insert_by x xs ys)

meets-sorted :
    (xs ys zs : List ℕ) → ((x : ℕ) → member x zs ≡ member x ys) → meets (sorted xs) zs ≡ meets xs ys
unfolding meets sort_by
meets-sorted [] ys zs same = refl
meets-sorted (x ∷ xs) ys zs same =
    ground (arith, meets-insert_by x (sorted xs) zs, meets-sorted xs ys zs same, same x)

covers-insert_by :
    (y : ℕ) (xs ys : List ℕ) → covers xs (insert_by (λ k. k) y ys) ≡ (member y xs && covers xs ys)
unfolding covers insert_by
covers-insert_by y xs [] = refl
covers-insert_by y xs (z ∷ ys) = ground (arith, covers-insert_by y xs ys)

covers-sorted :
    (xs ys zs : List ℕ)
    → ((x : ℕ) → member x zs ≡ member x xs)
    → covers zs (sorted ys) ≡ covers xs ys
unfolding covers sort_by
covers-sorted xs [] zs same = refl
covers-sorted xs (y ∷ ys) zs same =
    ground (arith, covers-insert_by y zs (sorted ys), covers-sorted xs ys zs same, same y)

intersects-meets : (xs ys : List ℕ) → intersects (sorted xs) (sorted ys) ≡ meets xs ys
unfolding intersects
intersects-meets xs ys =
    intersects_loop_lem (suc (length (sorted xs) + length (sorted ys))) (sorted xs) (sorted ys)
      (omega arith) (sorted-Ascending xs) (sorted-Ascending ys)
    ∙ meets-sorted xs ys (sorted ys) (λ x. member-sorted x ys)

includes-covers :
    (xs ys : List ℕ) → AllDistinct ys → includes (sorted xs) (sorted ys) ≡ covers xs ys
unfolding includes
includes-covers xs ys d =
    includes_loop_lem (suc (length (sorted xs) + length (sorted ys))) (sorted xs) (sorted ys)
      (omega arith) (sorted-Ascending xs) (sorted-IsSorted ys d)
    ∙ covers-sorted xs ys (sorted xs) (λ x. member-sorted x xs)

-- What an entity must satisfy besides being met: to be another entity in the same dimension; to have
-- all its vertices among those of the "from" entity when the dimension between is the lower one; and
-- else to have a vertex in common with it.
unfoldable pub fits_vertices : Dimensions → (ℕ → List ℕ) → FromEntity → ℕ → Bool
fits_vertices d verts_of from to =
    if d.same
    then not (from.from_id == to)
    else if d.lower
    then covers from.from_verts (verts_of to)
    else meets from.from_verts (verts_of to)

accepts-fits_vertices :
    (d : Dimensions) (verts_of : ℕ → List ℕ) (from : FromEntity) (to : ℕ)
    → AllDistinct (verts_of to)
    → accepts d verts_of from to ≡ fits_vertices d verts_of from to
unfolding accepts fits_vertices
accepts-fits_vertices d verts_of from to distinct =
    rw
      (
        intersects-meets from.from_verts (verts_of to),
        includes-covers from.from_verts (verts_of to) distinct,
      )
      refl

-- Where the "to" ids are in range, no entity repeats a vertex, the connections fit, there is no
-- connectivity yet and those that are read are not empty, `intersect` succeeds, and afterwards
-- `get_entities` of a "from" entity gives a list without repetition, which has an id if and only if
-- an intermediate entity has it and, by the dimensions, it is another id, has all its vertices among
-- those of the "from" entity, or has one of them in common with it.
pub intersect-vertices :
    (d : Dimensions) (verts_of : ℕ → List ℕ) (entities : List FromEntity) (n : ℕ) (c : Connectivity)
    (i : ℕ) (from : FromEntity) (x : ℕ)
    → EntitiesBelow n entities
    → ((to : ℕ) → AllDistinct (verts_of to))
    → Fits c (intersect_loop d verts_of entities (replicate n false))
    → c.ids ≡ []
    → get_elem? entities i ≡ some from
    → (row : List ℕ) × (and_then
          (intersect d false false verts_of entities n c)
          (λ c. get_entities c i)
        ≡ some row)
      × (member x row ≡ (member x from.to_ids && fits_vertices d verts_of from x))
      × AllDistinct row
intersect-vertices d verts_of entities n c i from x below distinct fits empty at =
    let r = intersect-get_entities d verts_of entities n c i from x below fits empty at in
    (r.0, r.1, r.2 ∙ rw (accepts-fits_vertices d verts_of from x (distinct x)) refl, r.3)
