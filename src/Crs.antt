-- ===== src/Crs.antt =====
-- coloring/crs.h: compressed row storage. A row is the span that an iterator yields. Sizes are
-- those of vectors in memory, so no `size_t` sum wraps; `none` is a failed assertion or a write out
-- of bounds.
pub mod Rows
pub mod Keeping
pub mod Erase
mod Tests
use flecsi.Base.{
  ℕ, zero, suc, ◌+◌, ◌-◌, Bool, true, ◌&&◌, Option, none, some, List, [], ◌∷◌, ◌++◌, ltb, leb, ◌==◌,
  if◌then◌else◌, length, get_or, set, take, drop, replicate, last_or,
}

pub record Crs : Type 0 where
  pub offsets : List ℕ
  pub indices : List ℕ

-- `size()`: `offsets.size() - 1`, or 0 without offsets
unfoldable pub size : Crs → ℕ
size c = elim c.offsets [ [] ↦ 0 | o ∷ os ↦ length os ]

-- `operator[]` and `*iterator`: the span of `offsets[pos + 1] - offsets[pos]` indices
unfoldable pub row : Crs → ℕ → List ℕ
row c pos =
    let i = get_or c.offsets pos 0 in take (get_or c.offsets (suc pos) 0 - i) (drop i c.indices)

-- `at(i)` asserts the range.
unfoldable pub row_at : Crs → ℕ → Option (List ℕ)
row_at c i = if ltb i (size c) then some (row c i) else none

-- `clear()`
pub clear : Crs → Crs
clear c = record { offsets = []; indices = [] }

-- `append(first, last)` of the elements of a range; `push_back` of a container calls it.
pub append_to : List ℕ → Crs → List ℕ → Crs
append_to offsets c range = record {
  offsets = offsets ++ (last_or offsets 0 + length range) ∷ [];
  indices = c.indices ++ range;
}

pub with_start : List ℕ → List ℕ
with_start [] = 0 ∷ []
with_start (o ∷ os) = o ∷ os

pub append : Crs → List ℕ → Crs
append c [] = c
append c (x ∷ xs) = append_to (with_start c.offsets) c (x ∷ xs)

-- `std::is_sorted`
pub is_sorted : List ℕ → Bool
is_sorted [] = true
is_sorted (x ∷ []) = true
is_sorted (x ∷ y ∷ ys) = leb x y && is_sorted (y ∷ ys)

-- `v[i] = x`, with a fault out of bounds
pub write : List ℕ → ℕ → ℕ → Option (List ℕ)
write v i x = if ltb i (length v) then some (set v i x) else none

-- What the loop of `erase` carries: `inew`, the ids from `delete_it` on, and the new arrays.
pub record Erasing : Type 0 where
  pub inew : ℕ
  pub pending : List ℕ
  pub new_offsets : List ℕ
  pub new_indices : List ℕ

-- The part of the body below the test for a deleted row.
pub keep_row : Crs → ℕ → Erasing → Option Erasing
keep_row c iold s =
    let new_indices = s.new_indices ++ row c iold in
    elim (write s.new_offsets (suc s.inew) (length new_indices)) [
      | none ↦ none
      | some new_offsets ↦ some (record {
        inew = suc s.inew;
        pending = s.pending;
        new_offsets = new_offsets;
        new_indices = new_indices;
      })
    ]

-- The body of the loop.
pub erase_row : Crs → ℕ → Erasing → Option Erasing
erase_row c iold s = elim s.pending [
  | [] ↦ keep_row c iold s
  | d ∷ ds ↦ if d == iold then some (record s { pending = ds }) else keep_row c iold s
]

-- The loop, with `rounds` rows left from row `iold` on.
pub erase_loop : Crs → ℕ → ℕ → Erasing → Option Erasing
erase_loop c zero iold s = some s
erase_loop c (suc rounds) iold s = elim (erase_row c iold s) [
  | none ↦ none
  | some s' ↦ erase_loop c rounds (suc iold) s'
]

pub erase_start : List ℕ → ℕ → Erasing
erase_start ids slots = record {
  inew = 0;
  pending = ids;
  new_offsets = replicate slots 0;
  new_indices = [];
}

-- The part of `erase` below its assertion: the loop, and the swap.
pub erase_sorted : Crs → List ℕ → Option Crs
erase_sorted c ids =
    elim (erase_loop c (size c) 0 (erase_start ids (length c.offsets - length ids))) [
      | none ↦ none
      | some s ↦ some (record { offsets = s.new_offsets; indices = s.new_indices })
    ]

-- How `erase` ends: with the new storage, at the assertion on the order, at `std::length_error` as
-- `new_offsets` would get a length that no vector can have, or at an access out of bounds.
pub data Erasure : Type 0 where
  erased : (result : Crs) → Erasure
  unsorted : Erasure
  length_error : Erasure
  out_of_bounds : Erasure

abbrev pub ending : Option Crs → Erasure
ending (some c) = erased c
ending none = out_of_bounds

-- `erase(ids)`; without a place for `new_offsets[0]` its write is out of bounds.
pub erase : Crs → List ℕ → Erasure
erase c [] = erased c
erase c (d ∷ ds) =
    if is_sorted (d ∷ ds)
    then (if leb (length (d ∷ ds)) (length c.offsets)
        then (if length (d ∷ ds) == length c.offsets
            then out_of_bounds
            else ending (erase_sorted c (d ∷ ds)))
        else length_error)
    else unsorted
