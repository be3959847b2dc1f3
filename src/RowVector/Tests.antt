-- ===== src/RowVector/Tests.antt =====
-- A row of two elements in a buffer of two.
use flecsi.Base.{ℕ, suc, ◌+◌, ◌≡◌, refl, Option, none, some, List, [], ◌∷◌, arith}
use flecsi.Connectivity.Refs.{table}
use flecsi.RowVector.{
  RowVector, load, store, copy_n, copy, copy_backward, reserve, resize_row, make_room, insert_at,
  erase_at, add32, at_index, row_size, push_back, assign, store_all, clear_row, range_of,
  assign_row, copy_row, make_row,
}
use flecsi.RowVector.Rows.{IsValid, insert_at_lem, erase_at-insert_at}

abbrev junk : ℕ → ℕ
junk i = 99

abbrev full_row : RowVector ℕ
full_row = record { count = 2; capacity = 2; datap = λ i. i + 10 }

abbrev shown : Option (RowVector ℕ) → List ℕ
shown none = []
shown (some v) = table 0 v.count v.datap

program :
    (shown (insert_at junk 1 5 full_row) ≡ 10 ∷ 5 ∷ 11 ∷ [])
    × (shown (push_back junk 5 full_row) ≡ 10 ∷ 11 ∷ 5 ∷ [])
    × (shown (erase_at 0 full_row) ≡ 11 ∷ [])
    × (erase_at 2 full_row ≡ none)
    × (shown (assign junk (7 ∷ 8 ∷ 9 ∷ []) full_row) ≡ 7 ∷ 8 ∷ 9 ∷ [])
    × (shown (resize_row junk 3 full_row) ≡ 10 ∷ 11 ∷ 99 ∷ [])
    × (shown (copy_row junk junk full_row) ≡ 10 ∷ 11 ∷ [])
    × (shown (assign_row junk full_row (make_row junk 3)) ≡ 10 ∷ 11 ∷ [])
    × (shown (some (clear_row junk full_row)) ≡ [])
unfolding insert_at push_back erase_at assign resize_row reserve make_room copy_n copy copy_backward
    load store store_all add32 clear_row range_of assign_row copy_row make_row table
program = (refl, refl, refl, refl, refl, refl, refl, refl, refl)

insert_at_lem_example :
    (w : RowVector ℕ) × (insert_at junk 1 5 full_row ≡ some w)
    × (row_size w ≡ suc (row_size full_row))
    × IsValid w
    × (at_index w 2 ≡ at_index full_row 1)
insert_at_lem_example = insert_at_lem junk 1 5 full_row 2 (omega arith) (omega arith) (omega arith)

erase_at-insert_at_example :
    (w u : RowVector ℕ) × (insert_at junk 1 5 full_row ≡ some w)
    × (erase_at 1 w ≡ some u)
    × IsValid u
    × (row_size u ≡ row_size full_row)
    × (at_index u 1 ≡ at_index full_row 1)
erase_at-insert_at_example =
    erase_at-insert_at junk 1 5 full_row 1 (omega arith) (omega arith) (omega arith)
