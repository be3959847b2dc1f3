-- ===== src/Box/PlaneTiles.antt =====
-- The boxes of dimension 2 tile the region between the cuts.
use flecsi.Base.{ℕ, ◌≡◌, true, not, ◌&&◌, [], ◌∷◌, if◌then◌else◌}
use flecsi.Box.{is_mid, Cuts, loop, step}
use flecsi.Box.Axis.{
  in_span, covering, boxes, InOrder, side_of, same_side, covering-loop, covering_box-loop, pick,
  one, colors_of, pick_colors,
}
use flecsi.Box.Plane.{
  shared_round, shared_boxes, ghost_round, ghost_boxes, halo_round, halo_boxes, cval, shared_colors,
}
use flecsi.Box.PlaneRounds.{
  is_ghost, shared_round_lem, shared_round_colors, ghost_round_colors, halo_round_lem,
}

-- The shared boxes cover a cell of the outer box once, unless it is in the inner box.
pub shared_boxes_lem :
    (td n0 idx0 idx1 : ℕ) (c0 c1 : Cuts) (x y : ℕ)
    → InOrder c0
    → InOrder c1
    → (in_span x c0.outer ≡ true)
    → (in_span y c1.outer ≡ true)
    → covering (x ∷ y ∷ []) (boxes (shared_boxes td n0 idx0 idx1 c0 c1))
      ≡ one (not (is_mid (side_of c0 x) && is_mid (side_of c1 y)))
unfolding shared_boxes
shared_boxes_lem td n0 idx0 idx1 c0 c1 x y o0 o1 h0 h1 =
    pick (λ l. covering (x ∷ y ∷ []) (boxes l)) (covering-loop (x ∷ y ∷ [])) (side_of c1 y)
      (λ j. one (not (is_mid (side_of c0 x) && is_mid j)))
      (λ j. loop (λ i. shared_round td n0 idx0 idx1 c0 c1 i j))
      (λ j.
        pick (λ l. covering (x ∷ y ∷ []) (boxes l)) (covering-loop (x ∷ y ∷ [])) (side_of c0 x)
          (λ i. (if same_side j (side_of c1 y) then one (not (is_mid i && is_mid j)) else 0))
          (λ i. shared_round td n0 idx0 idx1 c0 c1 i j)
          (λ i. shared_round_lem td n0 idx0 idx1 c0 c1 i j x y o0 o1 h0 h1))

-- The shared box of a cell has the colors of its sides.
pub shared_boxes_colors :
    (td n0 idx0 idx1 : ℕ) (c0 c1 : Cuts) (x y : ℕ)
    → InOrder c0
    → InOrder c1
    → (in_span x c0.outer ≡ true)
    → (in_span y c1.outer ≡ true)
    → colors_of (x ∷ y ∷ []) (shared_boxes td n0 idx0 idx1 c0 c1) ≡ (
        if not (is_mid (side_of c0 x) && is_mid (side_of c1 y))
        then shared_colors td n0 idx0 idx1 (side_of c0 x) (side_of c1 y)
        else [])
unfolding shared_boxes
shared_boxes_colors td n0 idx0 idx1 c0 c1 x y o0 o1 h0 h1 =
    pick_colors (x ∷ y ∷ []) (side_of c1 y)
      (λ j.
        (if not (is_mid (side_of c0 x) && is_mid j)
          then shared_colors td n0 idx0 idx1 (side_of c0 x) j
          else []))
      (λ j. loop (λ i. shared_round td n0 idx0 idx1 c0 c1 i j))
      (λ j.
        pick_colors (x ∷ y ∷ []) (side_of c0 x)
          (λ i.
            (if same_side j (side_of c1 y)
              then (if not (is_mid i && is_mid j) then shared_colors td n0 idx0 idx1 i j else [])
              else []))
          (λ i. shared_round td n0 idx0 idx1 c0 c1 i j)
          (λ i. shared_round_colors td n0 idx0 idx1 c0 c1 i j x y o0 o1 h0 h1))

-- The ghost boxes have one color for a cell of the outer box where its sides are those of a ghost.
pub ghost_boxes_lem :
    (td n0 idx0 idx1 : ℕ) (c0 c1 : Cuts) (x y : ℕ)
    → InOrder c0
    → InOrder c1
    → (in_span x c0.outer ≡ true)
    → (in_span y c1.outer ≡ true)
    → colors_of (x ∷ y ∷ []) (ghost_boxes td n0 idx0 idx1 c0 c1) ≡ (
        if is_ghost td c0 c1 (side_of c0 x) (side_of c1 y)
        then cval n0 (step (side_of c0 x) idx0) (step (side_of c1 y) idx1) ∷ []
        else [])
unfolding ghost_boxes
ghost_boxes_lem td n0 idx0 idx1 c0 c1 x y o0 o1 h0 h1 =
    pick_colors (x ∷ y ∷ []) (side_of c1 y)
      (λ j.
        (if is_ghost td c0 c1 (side_of c0 x) j
          then cval n0 (step (side_of c0 x) idx0) (step j idx1) ∷ []
          else []))
      (λ j. loop (λ i. ghost_round td n0 idx0 idx1 c0 c1 i j))
      (λ j.
        pick_colors (x ∷ y ∷ []) (side_of c0 x)
          (λ i.
            (if same_side j (side_of c1 y)
              then (if is_ghost td c0 c1 i j then cval n0 (step i idx0) (step j idx1) ∷ [] else [])
              else []))
          (λ i. ghost_round td n0 idx0 idx1 c0 c1 i j)
          (λ i. ghost_round_colors td n0 idx0 idx1 c0 c1 i j x y o0 o1 h0 h1))

-- The boxes of the domain halo cover a cell of the outer box once, on the same sides.
pub halo_boxes_lem :
    (c0 c1 : Cuts) (x y : ℕ)
    → InOrder c0
    → InOrder c1
    → (in_span x c0.outer ≡ true)
    → (in_span y c1.outer ≡ true)
    → covering (x ∷ y ∷ []) (halo_boxes c0 c1)
      ≡ one (is_ghost 0 c0 c1 (side_of c0 x) (side_of c1 y))
unfolding halo_boxes
halo_boxes_lem c0 c1 x y o0 o1 h0 h1 =
    pick (covering (x ∷ y ∷ [])) (covering_box-loop (x ∷ y ∷ [])) (side_of c1 y)
      (λ j. one (is_ghost 0 c0 c1 (side_of c0 x) j)) (λ j. loop (λ i. halo_round c0 c1 i j))
      (λ j.
        pick (covering (x ∷ y ∷ [])) (covering_box-loop (x ∷ y ∷ [])) (side_of c0 x)
          (λ i. (if same_side j (side_of c1 y) then one (is_ghost 0 c0 c1 i j) else 0))
          (λ i. halo_round c0 c1 i j) (λ i. halo_round_lem c0 c1 i j x y o0 o1 h0 h1))
