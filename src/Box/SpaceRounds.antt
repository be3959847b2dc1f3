-- ===== src/Box/SpaceRounds.antt =====
-- One round of the loops of dimension 3.
use flecsi.Base.{
  ℕ, ◌+◌, ◌≡◌, refl, Bool, true, not, ◌&&◌, ◌||◌, [], ◌∷◌, append-nil, arith, leb, if◌then◌else◌,
  ap,
}
use flecsi.Box.{Side, low, mid, high, is_mid, Cuts, segment, step}
use flecsi.Box.Axis.{
  in_span, inside, covering, boxes, InOrder, side_of, same_side, is_wide, selects, selects_lem,
  differ_lem, one, colors_of,
}
use flecsi.Box.Space.{
  space_box, shared_flag, shared_round, rankmap, ghost_round, halo_round, cval, shared_colors,
}

-- The sides on which the code makes ghost boxes: off the middle, where the entities of dimension
-- `td` are shared, and along no axis on which the inner box is one cell wide.
unfoldable pub is_ghost : ℕ → Cuts → Cuts → Cuts → Side → Side → Side → Bool
is_ghost td c0 c1 c2 i j k =
    not (is_mid i && is_mid j && is_mid k)
    && leb td (one (is_mid i) + one (is_mid j) + one (is_mid k))
    && (not (is_mid i) || is_wide c0)
    && (not (is_mid j) || is_wide c1)
    && (not (is_mid k) || is_wide c2)

shared_flag_lem :
    (c0 c1 c2 : Cuts) (i j k : Side)
    → shared_flag c0 c1 c2 i j k
      ≡ (not (is_mid i && is_mid j && is_mid k) && selects c0 i && selects c1 j && selects c2 k)
unfolding shared_flag selects
shared_flag_lem c0 c1 c2 low low k = ground arith
shared_flag_lem c0 c1 c2 low mid k = ground arith
shared_flag_lem c0 c1 c2 low high k = ground arith
shared_flag_lem c0 c1 c2 mid low k = ground arith
shared_flag_lem c0 c1 c2 mid mid k = ground arith
shared_flag_lem c0 c1 c2 mid high k = ground arith
shared_flag_lem c0 c1 c2 high low k = ground arith
shared_flag_lem c0 c1 c2 high mid k = ground arith
shared_flag_lem c0 c1 c2 high high k = ground arith

rankmap_lem :
    (i j k : Side)
    → ((rankmap i j k).entity ≡ one (is_mid i) + one (is_mid j) + one (is_mid k))
      × ((rankmap i j k).offset0 ≡ i)
      × ((rankmap i j k).offset1 ≡ j)
      × ((rankmap i j k).offset2 ≡ k)
unfolding rankmap
rankmap_lem low low low = (refl, refl, refl, refl)
rankmap_lem low low mid = (refl, refl, refl, refl)
rankmap_lem low low high = (refl, refl, refl, refl)
rankmap_lem low mid low = (refl, refl, refl, refl)
rankmap_lem low mid mid = (refl, refl, refl, refl)
rankmap_lem low mid high = (refl, refl, refl, refl)
rankmap_lem low high low = (refl, refl, refl, refl)
rankmap_lem low high mid = (refl, refl, refl, refl)
rankmap_lem low high high = (refl, refl, refl, refl)
rankmap_lem mid low low = (refl, refl, refl, refl)
rankmap_lem mid low mid = (refl, refl, refl, refl)
rankmap_lem mid low high = (refl, refl, refl, refl)
rankmap_lem mid mid low = (refl, refl, refl, refl)
rankmap_lem mid mid mid = (refl, refl, refl, refl)
rankmap_lem mid mid high = (refl, refl, refl, refl)
rankmap_lem mid high low = (refl, refl, refl, refl)
rankmap_lem mid high mid = (refl, refl, refl, refl)
rankmap_lem mid high high = (refl, refl, refl, refl)
rankmap_lem high low low = (refl, refl, refl, refl)
rankmap_lem high low mid = (refl, refl, refl, refl)
rankmap_lem high low high = (refl, refl, refl, refl)
rankmap_lem high mid low = (refl, refl, refl, refl)
rankmap_lem high mid mid = (refl, refl, refl, refl)
rankmap_lem high mid high = (refl, refl, refl, refl)
rankmap_lem high high low = (refl, refl, refl, refl)
rankmap_lem high high mid = (refl, refl, refl, refl)
rankmap_lem high high high = (refl, refl, refl, refl)

box_lem :
    (x y z : ℕ) (c0 c1 c2 : Cuts) (i j k : Side)
    → inside (x ∷ y ∷ z ∷ []) (space_box c0 c1 c2 i j k)
      ≡ (in_span x (segment c0 i) && in_span y (segment c1 j) && in_span z (segment c2 k))
unfolding space_box inside
box_lem x y z c0 c1 c2 i j k = ground arith

-- A round of the shared boxes counts at the sides of the cell, off the middle.
pub shared_round_lem :
    (td n0 n1 idx0 idx1 idx2 : ℕ) (c0 c1 c2 : Cuts) (i j k : Side) (x y z : ℕ)
    → InOrder c0
    → InOrder c1
    → InOrder c2
    → (in_span x c0.outer ≡ true)
    → (in_span y c1.outer ≡ true)
    → (in_span z c2.outer ≡ true)
    → covering (x ∷ y ∷ z ∷ []) (boxes (shared_round td n0 n1 idx0 idx1 idx2 c0 c1 c2 i j k)) ≡ (
        if same_side i (side_of c0 x)
        then (if same_side j (side_of c1 y)
            then (if same_side k (side_of c2 z)
                then one (not (is_mid i && is_mid j && is_mid k))
                else 0)
            else 0)
        else 0)
unfolding shared_round boxes covering
shared_round_lem td n0 n1 idx0 idx1 idx2 c0 c1 c2 i j k x y z o0 o1 o2 h0 h1 h2 = ground (
  arith,
  shared_flag_lem c0 c1 c2 i j k,
  box_lem x y z c0 c1 c2 i j k,
  selects_lem c0 i x o0 h0,
  selects_lem c1 j y o1 h1,
  selects_lem c2 k z o2 h2,
)

-- A round of the shared boxes gives its colors at the sides of the cell.
pub shared_round_colors :
    (td n0 n1 idx0 idx1 idx2 : ℕ) (c0 c1 c2 : Cuts) (i j k : Side) (x y z : ℕ)
    → InOrder c0
    → InOrder c1
    → InOrder c2
    → (in_span x c0.outer ≡ true)
    → (in_span y c1.outer ≡ true)
    → (in_span z c2.outer ≡ true)
    → colors_of (x ∷ y ∷ z ∷ []) (shared_round td n0 n1 idx0 idx1 idx2 c0 c1 c2 i j k) ≡ (
        if same_side i (side_of c0 x)
        then (if same_side j (side_of c1 y)
            then (if same_side k (side_of c2 z)
                then (if not (is_mid i && is_mid j && is_mid k)
                    then shared_colors td n0 n1 idx0 idx1 idx2 i j k
                    else [])
                else [])
            else [])
        else [])
unfolding shared_round colors_of
shared_round_colors td n0 n1 idx0 idx1 idx2 c0 c1 c2 i j k x y z o0 o1 o2 h0 h1 h2 = ground (
  arith,
  append-nil (shared_colors td n0 n1 idx0 idx1 idx2 i j k),
  shared_flag_lem c0 c1 c2 i j k,
  box_lem x y z c0 c1 c2 i j k,
  selects_lem c0 i x o0 h0,
  selects_lem c1 j y o1 h1,
  selects_lem c2 k z o2 h2,
)

-- A round of the ghost boxes gives the color of the neighbour at the sides of the cell.
pub ghost_round_colors :
    (td n0 n1 idx0 idx1 idx2 : ℕ) (c0 c1 c2 : Cuts) (i j k : Side) (x y z : ℕ)
    → InOrder c0
    → InOrder c1
    → InOrder c2
    → (in_span x c0.outer ≡ true)
    → (in_span y c1.outer ≡ true)
    → (in_span z c2.outer ≡ true)
    → colors_of (x ∷ y ∷ z ∷ []) (ghost_round td n0 n1 idx0 idx1 idx2 c0 c1 c2 i j k) ≡ (
        if same_side i (side_of c0 x)
        then (if same_side j (side_of c1 y)
            then (if same_side k (side_of c2 z)
                then (if is_ghost td c0 c1 c2 i j k
                    then cval n0 n1 (step i idx0) (step j idx1) (step k idx2) ∷ []
                    else [])
                else [])
            else [])
        else [])
unfolding ghost_round colors_of is_ghost
ghost_round_colors td n0 n1 idx0 idx1 idx2 c0 c1 c2 i j k x y z o0 o1 o2 h0 h1 h2 = ground (
  arith,
  rankmap_lem i j k,
  ap (leb td) (rankmap_lem i j k).0,
  box_lem x y z c0 c1 c2 i j k,
  differ_lem c0 i x o0 h0,
  differ_lem c1 j y o1 h1,
  differ_lem c2 k z o2 h2,
)

pub halo_round_lem :
    (c0 c1 c2 : Cuts) (i j k : Side) (x y z : ℕ)
    → InOrder c0
    → InOrder c1
    → InOrder c2
    → (in_span x c0.outer ≡ true)
    → (in_span y c1.outer ≡ true)
    → (in_span z c2.outer ≡ true)
    → covering (x ∷ y ∷ z ∷ []) (halo_round c0 c1 c2 i j k) ≡ (
        if same_side i (side_of c0 x)
        then (if same_side j (side_of c1 y)
            then (if same_side k (side_of c2 z) then one (is_ghost 0 c0 c1 c2 i j k) else 0)
            else 0)
        else 0)
unfolding halo_round covering is_ghost
halo_round_lem c0 c1 c2 i j k x y z o0 o1 o2 h0 h1 h2 = ground (
  arith,
  box_lem x y z c0 c1 c2 i j k,
  differ_lem c0 i x o0 h0,
  differ_lem c1 j y o1 h1,
  differ_lem c2 k z o2 h2,
)
