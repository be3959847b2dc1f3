-- ===== src/Box/Plane.antt =====
-- The boxes of a structured grid of dimension 2 (coloring/simple_box_colorer.h).
use flecsi.Base.{
  ℕ, ◌+◌, ◌*◌, ◌%◌, ◌^◌, Bool, true, false, not, ◌&&◌, List, [], ◌∷◌, ◌++◌, leb, ◌==◌,
  if◌then◌else◌,
}
use flecsi.Box.{Box, ColoredBox, Side, low, mid, high, is_mid, Cuts, differ, segment, step, loop}

-- `idx_new[0] + ncolors[0] * idx_new[1]`
unfoldable pub cval : ℕ → ℕ → ℕ → ℕ
cval n0 idx0 idx1 = (idx0 + n0 * idx1) % 2 ^ 64

-- `flag`
unfoldable pub shared_flag : Cuts → Cuts → Side → Side → Bool
shared_flag c0 c1 i j =
    if is_mid i && is_mid j
    then false
    else if differ c0 i && differ c1 j
    then true
    else if is_mid i && not (differ c0 i) && differ c1 j
    then true
    else if is_mid j && differ c0 i && not (differ c1 j)
    then true
    else false

-- The edge shared ranks: the loop over `d`.
unfoldable pub edge_colors : ℕ → ℕ → ℕ → Side → Side → List ℕ
edge_colors n0 idx0 idx1 i j =
    (if is_mid i then [] else cval n0 (step i idx0) idx1 ∷ [])
    ++ (if is_mid j then [] else cval n0 idx0 (step j idx1) ∷ [])

-- The corner vertex shared ranks.
unfoldable pub corner_colors : ℕ → ℕ → ℕ → Side → Side → List ℕ
corner_colors n0 idx0 idx1 low low = cval n0 (step low idx0) (step low idx1) ∷ []
corner_colors n0 idx0 idx1 high low = cval n0 (step high idx0) (step low idx1) ∷ []
corner_colors n0 idx0 idx1 low high = cval n0 (step low idx0) (step high idx1) ∷ []
corner_colors n0 idx0 idx1 high high = cval n0 (step high idx0) (step high idx1) ∷ []
corner_colors n0 idx0 idx1 i j = []

-- `sbox`, `ghbox` and `dhbox`
unfoldable pub plane_box : Cuts → Cuts → Side → Side → Box
plane_box c0 c1 i j = segment c0 i ∷ segment c1 j ∷ []

-- `scbox.colors`
unfoldable pub shared_colors : ℕ → ℕ → ℕ → ℕ → Side → Side → List ℕ
shared_colors td n0 idx0 idx1 i j =
    edge_colors n0 idx0 idx1 i j ++ (if td == 0 then corner_colors n0 idx0 idx1 i j else [])

-- One round of the loops over `j` and `i`.
unfoldable pub shared_round : ℕ → ℕ → ℕ → ℕ → Cuts → Cuts → Side → Side → List ColoredBox
shared_round td n0 idx0 idx1 c0 c1 i j =
    if shared_flag c0 c1 i j
    then record { box = plane_box c0 c1 i j; colors = shared_colors td n0 idx0 idx1 i j } ∷ []
    else []

-- The shared boxes of `create_exclusive_and_shared_boxes`.
unfoldable pub shared_boxes : ℕ → ℕ → ℕ → ℕ → Cuts → Cuts → List ColoredBox
shared_boxes td n0 idx0 idx1 c0 c1 = loop (λ j. loop (λ i. shared_round td n0 idx0 idx1 c0 c1 i j))

-- A row of `rankmap`; `minus` is an offset of -1.
pub record RankRow : Type 0 where
  pub entity : ℕ
  pub offset0 : Side
  pub offset1 : Side

-- `rankmap[i + 3 * j]`; -1, 0 and 1 are the sides.
unfoldable pub rankmap : Side → Side → RankRow
rankmap low low = record { entity = 0; offset0 = low; offset1 = low }
rankmap mid low = record { entity = 1; offset0 = mid; offset1 = low }
rankmap high low = record { entity = 0; offset0 = high; offset1 = low }
rankmap low mid = record { entity = 1; offset0 = low; offset1 = mid }
rankmap mid mid = record { entity = 2; offset0 = mid; offset1 = mid }
rankmap high mid = record { entity = 1; offset0 = high; offset1 = mid }
rankmap low high = record { entity = 0; offset0 = low; offset1 = high }
rankmap mid high = record { entity = 1; offset0 = mid; offset1 = high }
rankmap high high = record { entity = 0; offset0 = high; offset1 = high }

-- One round of the loops over `j` and `i`.
unfoldable pub ghost_round : ℕ → ℕ → ℕ → ℕ → Cuts → Cuts → Side → Side → List ColoredBox
ghost_round td n0 idx0 idx1 c0 c1 i j =
    let r = rankmap i j in
    if is_mid i && is_mid j
    then []
    else if differ c0 i && differ c1 j
    then if leb td r.entity
      then record {
        box = plane_box c0 c1 i j;
        colors = cval n0 (step r.offset0 idx0) (step r.offset1 idx1) ∷ [];
      }
        ∷ []
      else []
    else []

-- The ghost boxes of `create_ghost_boxes`.
unfoldable pub ghost_boxes : ℕ → ℕ → ℕ → ℕ → Cuts → Cuts → List ColoredBox
ghost_boxes td n0 idx0 idx1 c0 c1 = loop (λ j. loop (λ i. ghost_round td n0 idx0 idx1 c0 c1 i j))

unfoldable pub halo_round : Cuts → Cuts → Side → Side → List Box
halo_round c0 c1 i j =
    if is_mid i && is_mid j
    then []
    else if differ c0 i && differ c1 j
    then plane_box c0 c1 i j ∷ []
    else []

-- The boxes of `create_domain_halo_boxes` with D = 2.
unfoldable pub halo_boxes : Cuts → Cuts → List Box
halo_boxes c0 c1 = loop (λ j. loop (λ i. halo_round c0 c1 i j))
