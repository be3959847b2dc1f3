-- ===== src/Graph/Distinct.antt =====
-- The rows of `make_dcrs_have_connectivity`: sorted, without repetition, and exactly what is reached.
use flecsi.Base.{
  ℕ, zero, suc, ◌+◌, ◌<◌, ◌≡◌, refl, ◌∙◌, not, ◌&&◌, ◌||◌, Option, some, List, [], ◌∷◌, ◌++◌, arith,
  none, ltb, ◌==◌, if◌then◌else◌, get_or, lt→ltb, le→leb, le→ltb_false, ==_iff,
}
use native.Mathlib.Decide.{dec_lt}
use flecsi.StdSet.{member, AllAbove, IsSorted, member-append, member_one}
use flecsi.Connectivity.Ascending.{AllFrom, Ascending, sorted-Ascending, member-sorted}
use flecsi.Connectivity.Intersect.{sorted}
use flecsi.Connectivity.Refs.{table, get_elem?-table, length-table}
use flecsi.Crs.{Crs, row_at}
use flecsi.Crs.Rows.{offsets_from, get_elem?-none, Represents, row_at_lem}
use flecsi.Partition.{part_size, subdivide}
use flecsi.Partition.Bounds.{bound, bound-suc, get_or-subdivide}
use flecsi.Graph.{MeshDefinition, Dcrs, row_loop}
use flecsi.Graph.Rows.{row_loop-Represents}
use flecsi.Graph.Neighbors.{some_has}
use flecsi.Graph.Through.{
  unique, reach_loop, thru_loop, other_at, through_loop, make_dcrs_have_connectivity,
}

member-unique : (z : ℕ) (xs : List ℕ) → member z (unique xs) ≡ member z xs
unfolding member unique
member-unique z [] = refl
member-unique z (x ∷ []) = refl
member-unique z (x ∷ y ∷ ys) =
    ground (arith, member-unique z (y ∷ ys), ==_iff z x, ==_iff z y, ==_iff x y)

AllAbove-unique : (a : ℕ) (xs : List ℕ) → AllAbove a xs → AllAbove a (unique xs)
unfolding unique
AllAbove-unique a [] h = tt
AllAbove-unique a (x ∷ []) h = h
AllAbove-unique a (x ∷ y ∷ ys) h = ground (arith, AllAbove-unique a (y ∷ ys) h.1)

AllFrom-AllAbove : (a b : ℕ) (xs : List ℕ) → a < b → AllFrom b xs → AllAbove a xs
AllFrom-AllAbove a b [] lt h = tt
AllFrom-AllAbove a b (x ∷ xs) lt h = (omega arith, AllFrom-AllAbove a b xs lt h.1)

unique-IsSorted : (xs : List ℕ) → Ascending xs → IsSorted (unique xs)
unfolding unique
unique-IsSorted [] h = tt
unique-IsSorted (x ∷ []) h = (tt, tt)
unique-IsSorted (x ∷ y ∷ ys) h = ground (
  arith,
  unique-IsSorted (y ∷ ys) h.1,
  AllAbove-unique x (y ∷ ys),
  AllFrom-AllAbove x y ys,
  ==_iff x y,
)

member-reach_loop :
    (z from to cell : ℕ) (others row : List ℕ)
    → member z (reach_loop from to cell others row)
      ≡ (member z row || (member z others && not ((from == to) && (cell == z))))
unfolding member reach_loop
member-reach_loop z from to cell [] row = ground arith
member-reach_loop z from to cell (other ∷ others) row =
    let next : List ℕ = if (from == to) && (cell == other) then row else row ++ other ∷ [] in
    ground (
      arith,
      member-reach_loop z from to cell others next,
      member-append z row (other ∷ []),
      member_one z other,
      ==_iff z other,
      ==_iff cell z,
      ==_iff cell other,
    )

member-thru_loop :
    (z : ℕ) (md : MeshDefinition) (from to thru cell : ℕ) (vertices row : List ℕ)
    → member z (thru_loop md from to thru cell vertices row) ≡ (
        member z row
        || (some_has (md.entities thru to) z vertices && not ((from == to) && (cell == z))))
unfolding thru_loop some_has
member-thru_loop z md from to thru cell [] row = ground arith
member-thru_loop z md from to thru cell (vertex ∷ vertices) row =
    let next : List ℕ = reach_loop from to cell (md.entities thru to vertex) row in
    ground (
      arith,
      member-thru_loop z md from to thru cell vertices next,
      member-reach_loop z from to cell (md.entities thru to vertex) row,
    )

-- When every `at` finds its cell, the loop appends the rows as that of `make_dcrs` does.
through_loop-row_loop :
    (other : ℕ → Option (List ℕ)) (row : ℕ → List ℕ) (distribution : List ℕ) (rank first n : ℕ)
    → get_or distribution rank 0 ≡ first
    → ((k : ℕ) → k < n → other (first + k) ≡ some (row (first + k)))
    → (rounds i : ℕ) (crs : Crs) → i + rounds ≡ n
    → through_loop other first rounds i crs
      ≡ some (row_loop (λ c. unique (sorted (row c))) distribution rank rounds i crs)
unfolding through_loop row_loop
through_loop-row_loop other row distribution rank first n hb at zero i crs e = refl
through_loop-row_loop other row distribution rank first n hb at (suc rounds) i crs e =
    rw (at i (omega arith), hb)
      (through_loop-row_loop other row distribution rank first n hb at rounds (suc i) _
        (omega arith))

other_at-inside :
    (md : MeshDefinition) (from to thru first parts k : ℕ)
    → k < parts
    → other_at md from to thru first (first + parts) (first + k)
      ≡ some (thru_loop md from to thru (first + k) (md.entities from thru (first + k)) [])
unfolding other_at
other_at-inside md from to thru first parts k lt =
    rw (le→leb first (first + k) (omega arith), lt→ltb (first + k) (first + parts) (omega arith))
      refl

abbrev pub no_rows : Dcrs
no_rows = record { crs = record { offsets = []; indices = [] }; distribution = [] }

-- On an empty graph the function succeeds on every rank, also where the rank's part is empty. It has
-- a row for each cell of the part and no other; the row is strictly increasing and has exactly
-- what the cell reaches through its entities of the dimension between, without the cell itself
-- when the dimensions are the same.
pub make_dcrs_have_connectivity_lem :
    (md : MeshDefinition) (from to thru size rank i z : ℕ)
    → rank < size
    → (dcrs : Dcrs) × (row : List ℕ) × (make_dcrs_have_connectivity md from to thru size rank
          no_rows
        ≡ some dcrs)
      × (row_at dcrs.crs i
          ≡ (if ltb i (part_size (md.num_entities from) size rank) then some row else none))
      × IsSorted row
      × (member z row ≡ (
          some_has
            (md.entities thru to)
            z
            (md.entities from thru (bound (md.num_entities from) size rank + i))
          && not ((from == to) && (bound (md.num_entities from) size rank + i == z))))
unfolding make_dcrs_have_connectivity offsets_from member
make_dcrs_have_connectivity_lem md from to thru size rank i z lt =
    let n : ℕ = md.num_entities from in
    let parts : ℕ = part_size n size rank in
    let first : ℕ = bound n size rank in
    let dist : List ℕ = subdivide n size [] in
    let lower : get_or dist rank 0 ≡ first = get_or-subdivide n size rank (omega arith) in
    let upper : get_or dist (suc rank) 0 ≡ first + parts =
      get_or-subdivide n size (suc rank) lt ∙ bound-suc n size rank in
    let reached : ℕ → List ℕ =
      λ cell. thru_loop md from to thru cell (md.entities from thru cell) [] in
    let start : Crs = record { offsets = 0 ∷ []; indices = [] } in
    let made : Crs = row_loop (λ c. unique (sorted (reached c))) dist rank parts 0 start in
    let found : (k : ℕ)
        → k < parts
        → other_at md from to thru first (first + parts) (first + k) ≡ some (reached (first + k)) =
      λ k below. other_at-inside md from to thru first parts k below in
    let rows : List (List ℕ) = table 0 parts (λ k. unique (sorted (reached (first + k)))) in
    let held : Represents made rows =
      row_loop-Represents (λ c. unique (sorted (reached c))) dist rank first parts 0 start [] lower
        refl refl refl in
    (
      record { crs = made; distribution = dist },
      unique (sorted (reached (first + i))),
      rw
          (
            lower,
            upper,
            through_loop-row_loop (other_at md from to thru first (first + parts)) reached dist rank
                first parts lower found parts 0 start (omega arith),
          )
          refl,
      row_at_lem made rows i held ∙ elim (dec_lt i parts) [
        | yes le ↦
            rw (lt→ltb i parts le)
              (get_elem?-table parts i (λ k. unique (sorted (reached (first + k)))) le)
        | no ge ↦ rw (le→ltb_false i parts (omega arith)) (
            get_elem?-none rows i
              (omega (arith, length-table 0 parts (λ k. unique (sorted (reached (first + k)))))))
      ],
      unique-IsSorted (sorted (reached (first + i))) (sorted-Ascending (reached (first + i))),
      member-unique z (sorted (reached (first + i)))
          ∙ member-sorted z (reached (first + i))
          ∙ member-thru_loop z md from to thru (first + i) (md.entities from thru (first + i)) [],
    )
