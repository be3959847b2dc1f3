-- ===== src/Box/PlaneRounds.antt =====
-- One round of the loops of dimension 2.
use flecsi.Base.{
  ℕ, ◌+◌, ◌≡◌, refl, Bool, true, not, ◌&&◌, ◌||◌, [], ◌∷◌, append-nil, arith, leb, if◌then◌else◌,
  ap,
}
use flecsi.Box.{Side, low, mid, high, is_mid, Cuts, segment, step}
use flecsi.Box.Axis.{
  in_span, inside, covering, boxes, InOrder, side_of, same_side, is_wide, selects, selects_lem,
  differ_lem, one, colors_of,
}
use flecsi.Box.Plane.{
  plane_box, shared_flag, shared_round, rankmap, ghost_round, halo_round, cval, shared_colors,
}

-- The sides on which the code makes ghost boxes: off the middle, where the entities of dimension
-- `td` are shared, and along no axis on which the inner box is one cell wide.
unfoldable pub is_ghost : ℕ → Cuts → Cuts → Side → Side → Bool
is_ghost td c0 c1 i j =
    not (is_mid i && is_mid j)
    && leb td (one (is_mid i) + one (is_mid j))
    && (not (is_mid i) || is_wide c0)
    && (not (is_mid j) || is_wide c1)

shared_flag_lem :
    (c0 c1 : Cuts) (i j : Side)
    → shared_flag c0 c1 i j ≡ (not (is_mid i && is_mid j) && selects c0 i && selects c1 j)
unfolding shared_flag selects
shared_flag_lem c0 c1 low j = ground arith
shared_flag_lem c0 c1 mid j = ground arith
shared_flag_lem c0 c1 high j = ground arith

rankmap_lem :
    (i j : Side)
    → ((rankmap i j).entity ≡ one (is_mid i) + one (is_mid j))
      × ((rankmap i j).offset0 ≡ i)
      × ((rankmap i j).offset1 ≡ j)
unfolding rankmap
rankmap_lem low low = (refl, refl, refl)
rankmap_lem low mid = (refl, refl, refl)
rankmap_lem low high = (refl, refl, refl)
rankmap_lem mid low = (refl, refl, refl)
rankmap_lem mid mid = (refl, refl, refl)
rankmap_lem mid high = (refl, refl, refl)
rankmap_lem high low = (refl, refl, refl)
rankmap_lem high mid = (refl, refl, refl)
rankmap_lem high high = (refl, refl, refl)

box_lem :
    (x y : ℕ) (c0 c1 : Cuts) (i j : Side)
    → inside (x ∷ y ∷ []) (plane_box c0 c1 i j)
      ≡ (in_span x (segment c0 i) && in_span y (segment c1 j))
unfolding plane_box inside
box_lem x y c0 c1 i j = ground arith

-- A round of the shared boxes counts at the sides of the cell, off the middle.
pub shared_round_lem :
    (td n0 idx0 idx1 : ℕ) (c0 c1 : Cuts) (i j : Side) (x y : ℕ)
    → InOrder c0
    → InOrder c1
    → (in_span x c0.outer ≡ true)
    → (in_span y c1.outer ≡ true)
    → covering (x ∷ y ∷ []) (boxes (shared_round td n0 idx0 idx1 c0 c1 i j)) ≡ (
        if same_side i (side_of c0 x)
        then (if same_side j (side_of c1 y) then one (not (is_mid i && is_mid j)) else 0)
        else 0)
unfolding shared_round boxes covering
shared_round_lem td n0 idx0 idx1 c0 c1 i j x y o0 o1 h0 h1 = ground (
  arith,
  shared_flag_lem c0 c1 i j,
  box_lem x y c0 c1 i j,
  selects_lem c0 i x o0 h0,
  selects_lem c1 j y o1 h1,
)

-- A round of the shared boxes gives its colors at the sides of the cell.
pub shared_round_colors :
    (td n0 idx0 idx1 : ℕ) (c0 c1 : Cuts) (i j : Side) (x y : ℕ)
    → InOrder c0
    → InOrder c1
    → (in_span x c0.outer ≡ true)
    → (in_span y c1.outer ≡ true)
    → colors_of (x ∷ y ∷ []) (shared_round td n0 idx0 idx1 c0 c1 i j) ≡ (
        if same_side i (side_of c0 x)
        then (if same_side j (side_of c1 y)
            then (if not (is_mid i && is_mid j) then shared_colors td n0 idx0 idx1 i j else [])
            else [])
        else [])
unfolding shared_round colors_of
shared_round_colors td n0 idx0 idx1 c0 c1 i j x y o0 o1 h0 h1 = ground (
  arith,
  append-nil (shared_colors td n0 idx0 idx1 i j),
  shared_flag_lem c0 c1 i j,
  box_lem x y c0 c1 i j,
  selects_lem c0 i x o0 h0,
  selects_lem c1 j y o1 h1,
)

-- A round of the ghost boxes gives the color of the neighbour at the sides of the cell.
pub ghost_round_colors :
    (td n0 idx0 idx1 : ℕ) (c0 c1 : Cuts) (i j : Side) (x y : ℕ)
    → InOrder c0
    → InOrder c1
    → (in_span x c0.outer ≡ true)
    → (in_span y c1.outer ≡ true)
    → colors_of (x ∷ y ∷ []) (ghost_round td n0 idx0 idx1 c0 c1 i j) ≡ (
        if same_side i (side_of c0 x)
        then (if same_side j (side_of c1 y)
            then (if is_ghost td c0 c1 i j then cval n0 (step i idx0) (step j idx1) ∷ [] else [])
            else [])
        else [])
unfolding ghost_round colors_of is_ghost
ghost_round_colors td n0 idx0 idx1 c0 c1 i j x y o0 o1 h0 h1 = ground (
  arith,
  rankmap_lem i j,
  ap (leb td) (rankmap_lem i j).0,
  box_lem x y c0 c1 i j,
  differ_lem c0 i x o0 h0,
  differ_lem c1 j y o1 h1,
)

pub halo_round_lem :
    (c0 c1 : Cuts) (i j : Side) (x y : ℕ)
    → InOrder c0
    → InOrder c1
    → (in_span x c0.outer ≡ true)
    → (in_span y c1.outer ≡ true)
    → covering (x ∷ y ∷ []) (halo_round c0 c1 i j) ≡ (
        if same_side i (side_of c0 x)
        then (if same_side j (side_of c1 y) then one (is_ghost 0 c0 c1 i j) else 0)
        else 0)
unfolding halo_round covering is_ghost
halo_round_lem c0 c1 i j x y o0 o1 h0 h1 =
    ground (arith, box_lem x y c0 c1 i j, differ_lem c0 i x o0 h0, differ_lem c1 j y o1 h1)
