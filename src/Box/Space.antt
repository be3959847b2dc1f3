-- ===== src/Box/Space.antt =====
-- The boxes of a structured grid of dimension 3 (coloring/simple_box_colorer.h).
use flecsi.Base.{
  ℕ, ◌+◌, ◌*◌, ◌%◌, ◌^◌, Bool, true, false, not, ◌&&◌, List, [], ◌∷◌, ◌++◌, leb, ◌==◌,
  if◌then◌else◌,
}
use flecsi.Box.{Box, ColoredBox, Side, low, mid, high, is_mid, Cuts, differ, segment, step, loop}

-- `idx_new[0] + ncolors[0] * idx_new[1] + ncolors[0] * ncolors[1] * idx_new[2]`
unfoldable pub cval : ℕ → ℕ → ℕ → ℕ → ℕ → ℕ
cval n0 n1 idx0 idx1 idx2 = (idx0 + n0 * idx1 + n0 * n1 * idx2) % 2 ^ 64

-- `flag`
unfoldable pub shared_flag : Cuts → Cuts → Cuts → Side → Side → Side → Bool
shared_flag c0 c1 c2 i j k =
    if is_mid i && is_mid j && is_mid k
    then false
    else if differ c0 i && differ c1 j && differ c2 k
    then true
    else if is_mid i && not (differ c0 i) && differ c1 j && differ c2 k
    then true
    else if is_mid j && not (differ c1 j) && differ c0 i && differ c2 k
    then true
    else if is_mid k && not (differ c2 k) && differ c0 i && differ c1 j
    then true
    else if is_mid i && not (differ c0 i) && is_mid j && not (differ c1 j) && differ c2 k
    then true
    else if is_mid j && not (differ c1 j) && is_mid k && not (differ c2 k) && differ c0 i
    then true
    else if is_mid k && not (differ c2 k) && is_mid i && not (differ c0 i) && differ c1 j
    then true
    else false

-- The face shared ranks: the loop over `d`.
unfoldable pub face_colors : ℕ → ℕ → ℕ → ℕ → ℕ → Side → Side → Side → List ℕ
face_colors n0 n1 idx0 idx1 idx2 i j k =
    (if is_mid i then [] else cval n0 n1 (step i idx0) idx1 idx2 ∷ [])
    ++ (if is_mid j then [] else cval n0 n1 idx0 (step j idx1) idx2 ∷ [])
    ++ (if is_mid k then [] else cval n0 n1 idx0 idx1 (step k idx2) ∷ [])

-- The edge shared ranks: the loop over `d`, with `im[d]` = {0, 1}, {1, 2} and {2, 0}.
unfoldable pub edge_colors : ℕ → ℕ → ℕ → ℕ → ℕ → Side → Side → Side → List ℕ
edge_colors n0 n1 idx0 idx1 idx2 i j k =
    (if not (is_mid i) && not (is_mid j)
      then cval n0 n1 (step i idx0) (step j idx1) idx2 ∷ []
      else [])
    ++ (if not (is_mid j) && not (is_mid k)
        then cval n0 n1 idx0 (step j idx1) (step k idx2) ∷ []
        else [])
    ++ (if not (is_mid k) && not (is_mid i)
        then cval n0 n1 (step i idx0) idx1 (step k idx2) ∷ []
        else [])

-- The corner vertex shared ranks.
unfoldable pub corner_colors : ℕ → ℕ → ℕ → ℕ → ℕ → Side → Side → Side → List ℕ
corner_colors n0 n1 idx0 idx1 idx2 low low low =
    cval n0 n1 (step low idx0) (step low idx1) (step low idx2) ∷ []
corner_colors n0 n1 idx0 idx1 idx2 high low low =
    cval n0 n1 (step high idx0) (step low idx1) (step low idx2) ∷ []
corner_colors n0 n1 idx0 idx1 idx2 low high low =
    cval n0 n1 (step low idx0) (step high idx1) (step low idx2) ∷ []
corner_colors n0 n1 idx0 idx1 idx2 high high low =
    cval n0 n1 (step high idx0) (step high idx1) (step low idx2) ∷ []
corner_colors n0 n1 idx0 idx1 idx2 low low high =
    cval n0 n1 (step low idx0) (step low idx1) (step high idx2) ∷ []
corner_colors n0 n1 idx0 idx1 idx2 high low high =
    cval n0 n1 (step high idx0) (step low idx1) (step high idx2) ∷ []
corner_colors n0 n1 idx0 idx1 idx2 low high high =
    cval n0 n1 (step low idx0) (step high idx1) (step high idx2) ∷ []
corner_colors n0 n1 idx0 idx1 idx2 high high high =
    cval n0 n1 (step high idx0) (step high idx1) (step high idx2) ∷ []
corner_colors n0 n1 idx0 idx1 idx2 i j k = []

-- `sbox`, `ghbox` and `dhbox`
unfoldable pub space_box : Cuts → Cuts → Cuts → Side → Side → Side → Box
space_box c0 c1 c2 i j k = segment c0 i ∷ segment c1 j ∷ segment c2 k ∷ []

-- `scbox.colors`
unfoldable pub shared_colors : ℕ → ℕ → ℕ → ℕ → ℕ → ℕ → Side → Side → Side → List ℕ
shared_colors td n0 n1 idx0 idx1 idx2 i j k =
    face_colors n0 n1 idx0 idx1 idx2 i j k
    ++ (if leb td 1 then edge_colors n0 n1 idx0 idx1 idx2 i j k else [])
    ++ (if td == 0 then corner_colors n0 n1 idx0 idx1 idx2 i j k else [])

-- One round of the loops over `k`, `j` and `i`.
unfoldable pub shared_round :
    ℕ → ℕ → ℕ → ℕ → ℕ → ℕ → Cuts → Cuts → Cuts → Side → Side → Side → List ColoredBox
shared_round td n0 n1 idx0 idx1 idx2 c0 c1 c2 i j k =
    if shared_flag c0 c1 c2 i j k
    then record {
      box = space_box c0 c1 c2 i j k;
      colors = shared_colors td n0 n1 idx0 idx1 idx2 i j k;
    }
      ∷ []
    else []

-- The shared boxes of `create_exclusive_and_shared_boxes`.
unfoldable pub shared_boxes : ℕ → ℕ → ℕ → ℕ → ℕ → ℕ → Cuts → Cuts → Cuts → List ColoredBox
shared_boxes td n0 n1 idx0 idx1 idx2 c0 c1 c2 =
    loop (λ k. loop (λ j. loop (λ i. shared_round td n0 n1 idx0 idx1 idx2 c0 c1 c2 i j k)))

-- A row of `rankmap`.
pub record RankRow : Type 0 where
  pub entity : ℕ
  pub offset0 : Side
  pub offset1 : Side
  pub offset2 : Side

-- `rankmap[i + 3 * j + 9 * k]`; -1, 0 and 1 are the sides.
unfoldable pub rankmap : Side → Side → Side → RankRow
rankmap low low low = record { entity = 0; offset0 = low; offset1 = low; offset2 = low }
rankmap mid low low = record { entity = 1; offset0 = mid; offset1 = low; offset2 = low }
rankmap high low low = record { entity = 0; offset0 = high; offset1 = low; offset2 = low }
rankmap low mid low = record { entity = 1; offset0 = low; offset1 = mid; offset2 = low }
rankmap mid mid low = record { entity = 2; offset0 = mid; offset1 = mid; offset2 = low }
rankmap high mid low = record { entity = 1; offset0 = high; offset1 = mid; offset2 = low }
rankmap low high low = record { entity = 0; offset0 = low; offset1 = high; offset2 = low }
rankmap mid high low = record { entity = 1; offset0 = mid; offset1 = high; offset2 = low }
rankmap high high low = record { entity = 0; offset0 = high; offset1 = high; offset2 = low }
rankmap low low mid = record { entity = 1; offset0 = low; offset1 = low; offset2 = mid }
rankmap mid low mid = record { entity = 2; offset0 = mid; offset1 = low; offset2 = mid }
rankmap high low mid = record { entity = 1; offset0 = high; offset1 = low; offset2 = mid }
rankmap low mid mid = record { entity = 2; offset0 = low; offset1 = mid; offset2 = mid }
rankmap mid mid mid = record { entity = 3; offset0 = mid; offset1 = mid; offset2 = mid }
rankmap high mid mid = record { entity = 2; offset0 = high; offset1 = mid; offset2 = mid }
rankmap low high mid = record { entity = 1; offset0 = low; offset1 = high; offset2 = mid }
rankmap mid high mid = record { entity = 2; offset0 = mid; offset1 = high; offset2 = mid }
rankmap high high mid = record { entity = 1; offset0 = high; offset1 = high; offset2 = mid }
rankmap low low high = record { entity = 0; offset0 = low; offset1 = low; offset2 = high }
rankmap mid low high = record { entity = 1; offset0 = mid; offset1 = low; offset2 = high }
rankmap high low high = record { entity = 0; offset0 = high; offset1 = low; offset2 = high }
rankmap low mid high = record { entity = 1; offset0 = low; offset1 = mid; offset2 = high }
rankmap mid mid high = record { entity = 2; offset0 = mid; offset1 = mid; offset2 = high }
rankmap high mid high = record { entity = 1; offset0 = high; offset1 = mid; offset2 = high }
rankmap low high high = record { entity = 0; offset0 = low; offset1 = high; offset2 = high }
rankmap mid high high = record { entity = 1; offset0 = mid; offset1 = high; offset2 = high }
rankmap high high high = record { entity = 0; offset0 = high; offset1 = high; offset2 = high }

-- One round of the loops over `k`, `j` and `i`.
unfoldable pub ghost_round :
    ℕ → ℕ → ℕ → ℕ → ℕ → ℕ → Cuts → Cuts → Cuts → Side → Side → Side → List ColoredBox
ghost_round td n0 n1 idx0 idx1 idx2 c0 c1 c2 i j k =
    let r = rankmap i j k in
    if is_mid i && is_mid j && is_mid k
    then []
    else if differ c0 i && differ c1 j && differ c2 k
    then if leb td r.entity
      then record {
        box = space_box c0 c1 c2 i j k;
        colors = cval n0 n1 (step r.offset0 idx0) (step r.offset1 idx1) (step r.offset2 idx2) ∷ [];
      }
        ∷ []
      else []
    else []

-- The ghost boxes of `create_ghost_boxes`.
unfoldable pub ghost_boxes : ℕ → ℕ → ℕ → ℕ → ℕ → ℕ → Cuts → Cuts → Cuts → List ColoredBox
ghost_boxes td n0 n1 idx0 idx1 idx2 c0 c1 c2 =
    loop (λ k. loop (λ j. loop (λ i. ghost_round td n0 n1 idx0 idx1 idx2 c0 c1 c2 i j k)))

unfoldable pub halo_round : Cuts → Cuts → Cuts → Side → Side → Side → List Box
halo_round c0 c1 c2 i j k =
    if is_mid i && is_mid j && is_mid k
    then []
    else if differ c0 i && differ c1 j && differ c2 k
    then space_box c0 c1 c2 i j k ∷ []
    else []

-- The boxes of `create_domain_halo_boxes` with D = 3.
unfoldable pub halo_boxes : Cuts → Cuts → Cuts → List Box
halo_boxes c0 c1 c2 = loop (λ k. loop (λ j. loop (λ i. halo_round c0 c1 c2 i j k)))
