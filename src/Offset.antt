-- ===== src/Offset.antt =====
-- utils/offset.h, `offset_u`: a start index and a count in one 64-bit integer, the count in the lower
-- `count_bits` bits, of which there are 1 to 32. `none` is a failed assertion.
pub mod Laws
mod Tests
use flecsi.Base.{
  ℕ, ◌+◌, ◌-◌, ◌*◌, ◌/◌, ◌%◌, ◌^◌, Bool, true, false, ◌&&◌, Option, none, some, leb, if◌then◌else◌,
}

module _ (count_bits : ℕ) where
  unfoldable pub count_mask : ℕ
  count_mask = 2 ^ count_bits - 1

  unfoldable pub start_max : ℕ
  start_max = 2 ^ (64 - count_bits) - 1

  -- The count goes where the shift has put zeros.
  unfoldable pub make : ℕ → ℕ → Option ℕ
  make start count =
      if leb count count_mask && leb start start_max
      then some ((start * 2 ^ count_bits) % 2 ^ 64 + count)
      else none

  unfoldable pub get_start : ℕ → ℕ
  get_start o = o / 2 ^ count_bits

  -- `o_ & count_mask`
  unfoldable pub get_count : ℕ → ℕ
  get_count o = o % 2 ^ count_bits

  unfoldable pub get_end : ℕ → ℕ
  get_end o = (get_start o + get_count o) % 2 ^ 64

  unfoldable pub make_after : ℕ → ℕ → Option ℕ
  make_after prev count = make (get_end prev) count

  -- `o_ & ~count_mask` is `o_` with the lower bits shifted out and in again.
  unfoldable pub set_count : ℕ → ℕ → Option ℕ
  set_count o count =
      if leb count count_mask then some (o / 2 ^ count_bits * 2 ^ count_bits + count) else none

  unfoldable pub set_offset : ℕ → ℕ → Option ℕ
  set_offset o start =
      if leb start start_max
      then some (o % 2 ^ count_bits + (start * 2 ^ count_bits) % 2 ^ 64)
      else none

  unfoldable pub range : ℕ → ℕ × ℕ
  range o = (get_start o, (get_start o + get_count o) % 2 ^ 64)
