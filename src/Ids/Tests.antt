-- ===== src/Ids/Tests.antt =====
-- Ids, evaluated.
use flecsi.Base.{◌<◌, ◌≡◌, ◌↔◌, ◌⊎◌, refl, true, none}
use flecsi.Ids.{make_id, local_id, less_id, equal_id, set_flags}
use flecsi.Ids.Order.{make_id-Packed, less_id_iff}

-- The entity counts before the partition, and flags do not count.
program :
    (less_id (make_id 0 0 7 9 0 0) (make_id 0 0 8 1 0 0) ≡ true)
    × (equal_id (make_id 1 0 7 9 0 0) (make_id 1 0 7 9 5 3) ≡ true)
    × (local_id (make_id 1 2 3 4 0 0) ≡ 50331721)
    × (set_flags (make_id 0 0 0 0 0 0) 16 ≡ none)
unfolding less_id equal_id local_id make_id set_flags
program = (refl, refl, refl, refl)

less_id_iff_example : (less_id (make_id 0 0 7 9 0 0) (make_id 0 0 8 1 0 0) ≡ true) ↔ (
    (7 < 8)
    ⊎ (((make_id 0 0 7 9 0 0).entity ≡ 8)
        × ((9 < 1)
            ⊎ ((9 ≡ (make_id 0 0 8 1 0 0).partition)
                × ((0 < 0) ⊎ (((make_id 0 0 7 9 0 0).domain ≡ 0) × (0 < 0)))))))
unfolding make_id
less_id_iff_example =
    less_id_iff (make_id 0 0 7 9 0 0) (make_id 0 0 8 1 0 0) (make_id-Packed 0 0 7 9 0 0)
      (make_id-Packed 0 0 8 1 0 0)
