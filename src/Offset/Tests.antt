-- ===== src/Offset/Tests.antt =====
-- Runs of the offset ranges, and their theorems at concrete inputs.
use flecsi.Base.{◌+◌, ◌%◌, ◌^◌, ◌≡◌, refl, none, some, arith}
use flecsi.Offset.{
  count_mask, start_max, make, get_start, get_count, get_end, make_after, set_count, set_offset,
  range,
}
use flecsi.Offset.Laws.{make-get}

program : Unit {0}
unfolding count_mask start_max make get_start get_count get_end make_after set_count set_offset
    range
program = tt

-- 16 bits for the count
runs :
    (make 16 3 5 ≡ some 196613)
    × (make_after 16 196613 2 ≡ some 524290)
    × (set_count 16 196613 7 ≡ some 196615)
    × (set_offset 16 196613 1 ≡ some 65541)
    × (make 16 3 65536 ≡ none)
    × (range 16 196613 ≡ (3, 8))
unfolding program
runs = (refl, refl, refl, refl, refl, refl)

make-get_example :
    (get_start 16 196613 ≡ 3) × (get_count 16 196613 ≡ 5) × (get_end 16 196613 ≡ (3 + 5) % 2 ^ 64)
make-get_example = make-get 16 3 5 196613 (omega arith) (runs.0)
