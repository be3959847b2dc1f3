-- ===== src/Crs/Tests.antt =====
-- Runs of the compressed storage, and its theorems at concrete inputs.
use flecsi.Base.{ℕ, ◌≢◌, ◌↔◌, ◌≡◌, refl, none, some, List, [], ◌∷◌, ◌++◌, arith}
use flecsi.StdSet.{member}
use flecsi.Crs.{
  Crs, size, row, row_at, append, append_to, with_start, is_sorted, write, keep_row, erase_row,
  erase_loop, erase_start, erase_sorted, erase, clear, erased, unsorted, length_error,
  out_of_bounds,
}
use flecsi.Crs.Rows.{Represents, stored, offsets_from, append-Represents}
use flecsi.Crs.Keeping.{Increasing, without}
use flecsi.Crs.Erase.{erase_lem, erase-out_of_bounds}

program : Unit {0}
unfolding size row row_at append append_to with_start is_sorted write keep_row erase_row erase_loop
    erase_start erase_sorted erase clear offsets_from member
program = tt

abbrev rows : List (List ℕ)
rows = (5 ∷ 6 ∷ []) ∷ (7 ∷ []) ∷ (8 ∷ 9 ∷ []) ∷ []

abbrev sample : Crs
sample = record { offsets = 0 ∷ 2 ∷ 3 ∷ 5 ∷ []; indices = 5 ∷ 6 ∷ 7 ∷ 8 ∷ 9 ∷ [] }

runs :
    (append (append (append (clear sample) (5 ∷ 6 ∷ [])) (7 ∷ [])) (8 ∷ 9 ∷ []) ≡ sample)
    × (row_at sample 1 ≡ some (7 ∷ []))
    × (row_at sample 3 ≡ none)
    × (erase sample (0 ∷ 2 ∷ []) ≡ erased (record { offsets = 0 ∷ 1 ∷ []; indices = 7 ∷ [] }))
    × (erase sample (1 ∷ 1 ∷ []) ≡ out_of_bounds)
    × (erase sample (2 ∷ 1 ∷ []) ≡ unsorted)
    × (erase sample (0 ∷ 1 ∷ 2 ∷ 3 ∷ []) ≡ out_of_bounds)
    × (erase sample (0 ∷ 1 ∷ 2 ∷ 3 ∷ 4 ∷ []) ≡ length_error)
unfolding program
runs = (refl, refl, refl, refl, refl, refl, refl, refl)

sample-Represents : Represents sample rows
unfolding program
sample-Represents = stored refl refl

append-Represents_example : Represents (append sample (4 ∷ [])) (rows ++ (4 ∷ []) ∷ [])
append-Represents_example = append-Represents sample rows (4 ∷ []) sample-Represents

erase_lem_example :
    (c' : Crs) × (erase sample (0 ∷ 2 ∷ []) ≡ erased c')
    × Represents c' (without 0 (0 ∷ 2 ∷ []) rows)
erase_lem_example = erase_lem sample rows (0 ∷ 2 ∷ []) sample-Represents (omega arith)

erase-out_of_bounds_example :
    (erase sample (1 ∷ 1 ∷ []) ≢ unsorted)
    × (erase sample (1 ∷ 1 ∷ []) ≢ length_error)
    × ((erase sample (1 ∷ 1 ∷ []) ≡ out_of_bounds) ↔ ¬ Increasing 0 3 (1 ∷ 1 ∷ []))
erase-out_of_bounds_example =
    erase-out_of_bounds sample rows 1 (1 ∷ []) sample-Represents ((omega arith, tt), (tt, tt))
      (omega arith)
