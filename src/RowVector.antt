-- ===== src/RowVector.antt =====
-- data/common/row_vector.h: `row_vector_u`, the rows of sparse data, as a buffer with a count and a
-- capacity of 32 bits. An iterator is an index. `none` is a failed assertion or an access out of the
-- buffer; `fresh` is what newly allocated memory holds.
pub mod Copies
pub mod Rows
pub mod Assign
mod Tests
use flecsi.Base.{
  ℕ, zero, suc, ◌+◌, ◌-◌, ◌%◌, ◌^◌, Option, none, some, List, [], ◌∷◌, ltb, leb, ◌==◌,
  if◌then◌else◌, length,
}
use flecsi.Connectivity.{and_then}
use flecsi.Connectivity.Refs.{update, table}

pub record RowVector (A : Type 0) : Type 0 where
  pub count : ℕ
  pub capacity : ℕ
  pub datap : ℕ → A

-- `uint32_t` sum
unfoldable pub add32 : ℕ → ℕ → ℕ
add32 a b = (a + b) % 2 ^ 32

module _ {A : Type 0} where
  -- `datap[i]`, to read and to write
  unfoldable pub load : RowVector A → ℕ → Option A
  load v i = if ltb i v.capacity then some (v.datap i) else none

  unfoldable pub store : ℕ → A → RowVector A → Option (RowVector A)
  store i a v =
      if ltb i v.capacity
      then some (record { count = v.count; capacity = v.capacity; datap = update v.datap i a })
      else none

  abbrev pub with_count : RowVector A → ℕ → RowVector A
  with_count v n = record { count = n; capacity = v.capacity; datap = v.datap }

  -- `operator[]`
  unfoldable pub at_index : RowVector A → ℕ → Option A
  at_index v i = if ltb i v.count then load v i else none

  unfoldable pub row_size : RowVector A → ℕ
  row_size v = v.count

  unfoldable pub clear_row : (ℕ → A) → RowVector A → RowVector A
  clear_row null v = record { count = 0; capacity = 0; datap = null }

  -- `std::copy_n` from one buffer to another, from element `i` on
  unfoldable pub copy_n : ℕ → ℕ → RowVector A → RowVector A → Option (RowVector A)
  copy_n zero i old new = some new
  copy_n (suc n) i old new =
      and_then (load old i) (λ a. and_then (store i a new) (λ w. copy_n n (suc i) old w))

  -- `std::copy` of `n` elements within the buffer
  unfoldable pub copy : ℕ → ℕ → ℕ → RowVector A → Option (RowVector A)
  copy zero src dst v = some v
  copy (suc n) src dst v =
      and_then (load v src) (λ a. and_then (store dst a v) (λ w. copy n (suc src) (suc dst) w))

  -- `std::copy_backward` of `n` elements from `first` on, each to the next place
  unfoldable pub copy_backward : ℕ → ℕ → RowVector A → Option (RowVector A)
  copy_backward zero first v = some v
  copy_backward (suc n) first v =
      and_then (load v (first + n))
        (λ a. and_then (store (suc (first + n)) a v) (λ w. copy_backward n first w))

  unfoldable pub reserve : (ℕ → A) → ℕ → RowVector A → Option (RowVector A)
  reserve fresh new_cap v =
      if leb new_cap v.capacity
      then some v
      else copy_n v.count 0 v (record { count = v.count; capacity = new_cap; datap = fresh })

  unfoldable pub resize_row : (ℕ → A) → ℕ → RowVector A → Option (RowVector A)
  resize_row fresh new_count v =
      and_then (reserve fresh new_count v) (λ w. some (with_count w new_count))

  -- Room for one more, as `push_back` and `insert` make it.
  unfoldable pub make_room : (ℕ → A) → RowVector A → Option (RowVector A)
  make_room fresh v = if v.count == v.capacity then reserve fresh (add32 v.count 5) v else some v

  unfoldable pub push_back : (ℕ → A) → A → RowVector A → Option (RowVector A)
  push_back fresh value v =
      and_then (make_room fresh v)
        (λ w. and_then (store w.count value w) (λ u. some (with_count u (add32 u.count 1))))

  -- `pos` is the iterator as an index, which is not negative.
  unfoldable pub erase_at : ℕ → RowVector A → Option (RowVector A)
  erase_at pos v =
      if ltb pos v.count
      then and_then (copy (v.count - suc pos) (suc pos) pos v)
          (λ w. some (with_count w (w.count - 1)))
      else none

  -- `value` is not an element of the vector itself.
  unfoldable pub insert_at : (ℕ → A) → ℕ → A → RowVector A → Option (RowVector A)
  insert_at fresh pos value v =
      if leb pos v.count
      then and_then (make_room fresh v) (λ w.
        and_then (copy_backward (w.count - pos) pos w) (λ shifted.
          and_then (store pos value shifted) (λ u. some (with_count u (add32 u.count 1)))))
      else none

  -- `std::copy` of a range of another buffer
  unfoldable pub store_all : ℕ → List A → RowVector A → Option (RowVector A)
  store_all i [] v = some v
  store_all i (a ∷ values) v = and_then (store i a v) (λ w. store_all (suc i) values w)

  unfoldable pub assign : (ℕ → A) → List A → RowVector A → Option (RowVector A)
  assign fresh values v =
      and_then (resize_row fresh (length values % 2 ^ 32) v) (λ w. store_all 0 values w)

  -- The elements from `begin()` to `end()`
  unfoldable pub range_of : RowVector A → List A
  range_of v = table 0 v.count v.datap

  -- The assignment of another row, and its copy
  unfoldable pub assign_row : (ℕ → A) → RowVector A → RowVector A → Option (RowVector A)
  assign_row fresh rhs v = assign fresh (range_of rhs) v

  unfoldable pub copy_row : (ℕ → A) → (ℕ → A) → RowVector A → Option (RowVector A)
  copy_row null fresh rhs =
      assign fresh (range_of rhs) (record { count = 0; capacity = 0; datap = null })

  unfoldable pub make_row : (ℕ → A) → ℕ → RowVector A
  make_row fresh init_count = record { count = init_count; capacity = init_count; datap = fresh }
