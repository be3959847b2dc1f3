-- ===== src/Box/SpaceTiles.antt =====
-- The boxes of dimension 3 tile the region between the cuts.
use flecsi.Base.{ℕ, ◌≡◌, true, not, ◌&&◌, [], ◌∷◌, if◌then◌else◌}
use flecsi.Box.{is_mid, Cuts, loop, step}
use flecsi.Box.Axis.{
  in_span, covering, boxes, InOrder, side_of, same_side, covering-loop, covering_box-loop, pick,
  one, colors_of, pick_colors,
}
use flecsi.Box.Space.{
  shared_round, shared_boxes, ghost_round, ghost_boxes, halo_round, halo_boxes, cval, shared_colors,
}
use flecsi.Box.SpaceRounds.{
  is_ghost, shared_round_lem, shared_round_colors, ghost_round_colors, halo_round_lem,
}

-- The shared boxes cover a cell of the outer box once, unless it is in the inner box.
pub shared_boxes_lem :
    (td n0 n1 idx0 idx1 idx2 : ℕ) (c0 c1 c2 : Cuts) (x y z : ℕ)
    → InOrder c0
    → InOrder c1
    → InOrder c2
    → (in_span x c0.outer ≡ true)
    → (in_span y c1.outer ≡ true)
    → (in_span z c2.outer ≡ true)
    → covering (x ∷ y ∷ z ∷ []) (boxes (shared_boxes td n0 n1 idx0 idx1 idx2 c0 c1 c2))
      ≡ one (not (is_mid (side_of c0 x) && is_mid (side_of c1 y) && is_mid (side_of c2 z)))
unfolding shared_boxes
shared_boxes_lem td n0 n1 idx0 idx1 idx2 c0 c1 c2 x y z o0 o1 o2 h0 h1 h2 =
    pick (λ l. covering (x ∷ y ∷ z ∷ []) (boxes l)) (covering-loop (x ∷ y ∷ z ∷ [])) (side_of c2 z)
      (λ k. one (not (is_mid (side_of c0 x) && is_mid (side_of c1 y) && is_mid k)))
      (λ k. loop (λ j. loop (λ i. shared_round td n0 n1 idx0 idx1 idx2 c0 c1 c2 i j k)))
      (λ k.
        pick (λ l. covering (x ∷ y ∷ z ∷ []) (boxes l)) (covering-loop (x ∷ y ∷ z ∷ []))
          (side_of c1 y)
          (λ j.
            (if same_side k (side_of c2 z)
              then one (not (is_mid (side_of c0 x) && is_mid j && is_mid k))
              else 0))
          (λ j. loop (λ i. shared_round td n0 n1 idx0 idx1 idx2 c0 c1 c2 i j k))
          (λ j.
            pick (λ l. covering (x ∷ y ∷ z ∷ []) (boxes l)) (covering-loop (x ∷ y ∷ z ∷ []))
              (side_of c0 x)
              (λ i.
                (if same_side j (side_of c1 y)
                  then (if same_side k (side_of c2 z)
                      then one (not (is_mid i && is_mid j && is_mid k))
                      else 0)
                  else 0))
              (λ i. shared_round td n0 n1 idx0 idx1 idx2 c0 c1 c2 i j k)
              (λ i.
                shared_round_lem td n0 n1 idx0 idx1 idx2 c0 c1 c2 i j k x y z o0 o1 o2 h0 h1 h2)))

-- The shared box of a cell has the colors of its sides.
pub shared_boxes_colors :
    (td n0 n1 idx0 idx1 idx2 : ℕ) (c0 c1 c2 : Cuts) (x y z : ℕ)
    → InOrder c0
    → InOrder c1
    → InOrder c2
    → (in_span x c0.outer ≡ true)
    → (in_span y c1.outer ≡ true)
    → (in_span z c2.outer ≡ true)
    → colors_of (x ∷ y ∷ z ∷ []) (shared_boxes td n0 n1 idx0 idx1 idx2 c0 c1 c2) ≡ (
        if not (is_mid (side_of c0 x) && is_mid (side_of c1 y) && is_mid (side_of c2 z))
        then shared_colors td n0 n1 idx0 idx1 idx2 (side_of c0 x) (side_of c1 y) (side_of c2 z)
        else [])
unfolding shared_boxes
shared_boxes_colors td n0 n1 idx0 idx1 idx2 c0 c1 c2 x y z o0 o1 o2 h0 h1 h2 =
    pick_colors (x ∷ y ∷ z ∷ []) (side_of c2 z)
      (λ k.
        (if not (is_mid (side_of c0 x) && is_mid (side_of c1 y) && is_mid k)
          then shared_colors td n0 n1 idx0 idx1 idx2 (side_of c0 x) (side_of c1 y) k
          else []))
      (λ k. loop (λ j. loop (λ i. shared_round td n0 n1 idx0 idx1 idx2 c0 c1 c2 i j k)))
      (λ k.
        pick_colors (x ∷ y ∷ z ∷ []) (side_of c1 y)
          (λ j.
            (if same_side k (side_of c2 z)
              then (if not (is_mid (side_of c0 x) && is_mid j && is_mid k)
                  then shared_colors td n0 n1 idx0 idx1 idx2 (side_of c0 x) j k
                  else [])
              else []))
          (λ j. loop (λ i. shared_round td n0 n1 idx0 idx1 idx2 c0 c1 c2 i j k))
          (λ j.
            pick_colors (x ∷ y ∷ z ∷ []) (side_of c0 x)
              (λ i.
                (if same_side j (side_of c1 y)
                  then (if same_side k (side_of c2 z)
                      then (if not (is_mid i && is_mid j && is_mid k)
                          then shared_colors td n0 n1 idx0 idx1 idx2 i j k
                          else [])
                      else [])
                  else []))
              (λ i. shared_round td n0 n1 idx0 idx1 idx2 c0 c1 c2 i j k)
              (λ i.
                shared_round_colors td n0 n1 idx0 idx1 idx2 c0 c1 c2 i j k x y z o0 o1 o2 h0 h1
                  h2)))

-- The ghost boxes have one color for a cell of the outer box where its sides are those of a ghost.
pub ghost_boxes_lem :
    (td n0 n1 idx0 idx1 idx2 : ℕ) (c0 c1 c2 : Cuts) (x y z : ℕ)
    → InOrder c0
    → InOrder c1
    → InOrder c2
    → (in_span x c0.outer ≡ true)
    → (in_span y c1.outer ≡ true)
    → (in_span z c2.outer ≡ true)
    → colors_of (x ∷ y ∷ z ∷ []) (ghost_boxes td n0 n1 idx0 idx1 idx2 c0 c1 c2) ≡ (
        if is_ghost td c0 c1 c2 (side_of c0 x) (side_of c1 y) (side_of c2 z)
        then cval n0 n1
            (step (side_of c0 x) idx0)
            (step (side_of c1 y) idx1)
            (step (side_of c2 z) idx2)
          ∷ []
        else [])
unfolding ghost_boxes
ghost_boxes_lem td n0 n1 idx0 idx1 idx2 c0 c1 c2 x y z o0 o1 o2 h0 h1 h2 =
    pick_colors (x ∷ y ∷ z ∷ []) (side_of c2 z)
      (λ k.
        (if is_ghost td c0 c1 c2 (side_of c0 x) (side_of c1 y) k
          then cval n0 n1 (step (side_of c0 x) idx0) (step (side_of c1 y) idx1) (step k idx2) ∷ []
          else []))
      (λ k. loop (λ j. loop (λ i. ghost_round td n0 n1 idx0 idx1 idx2 c0 c1 c2 i j k)))
      (λ k.
        pick_colors (x ∷ y ∷ z ∷ []) (side_of c1 y)
          (λ j.
            (if same_side k (side_of c2 z)
              then (if is_ghost td c0 c1 c2 (side_of c0 x) j k
                  then cval n0 n1 (step (side_of c0 x) idx0) (step j idx1) (step k idx2) ∷ []
                  else [])
              else []))
          (λ j. loop (λ i. ghost_round td n0 n1 idx0 idx1 idx2 c0 c1 c2 i j k))
          (λ j.
            pick_colors (x ∷ y ∷ z ∷ []) (side_of c0 x)
              (λ i.
                (if same_side j (side_of c1 y)
                  then (if same_side k (side_of c2 z)
                      then (if is_ghost td c0 c1 c2 i j k
                          then cval n0 n1 (step i idx0) (step j idx1) (step k idx2) ∷ []
                          else [])
                      else [])
                  else []))
              (λ i. ghost_round td n0 n1 idx0 idx1 idx2 c0 c1 c2 i j k)
              (λ i.
                ghost_round_colors td n0 n1 idx0 idx1 idx2 c0 c1 c2 i j k x y z o0 o1 o2 h0 h1 h2)))

-- The boxes of the domain halo cover a cell of the outer box once, on the same sides.
pub halo_boxes_lem :
    (c0 c1 c2 : Cuts) (x y z : ℕ)
    → InOrder c0
    → InOrder c1
    → InOrder c2
    → (in_span x c0.outer ≡ true)
    → (in_span y c1.outer ≡ true)
    → (in_span z c2.outer ≡ true)
    → covering (x ∷ y ∷ z ∷ []) (halo_boxes c0 c1 c2)
      ≡ one (is_ghost 0 c0 c1 c2 (side_of c0 x) (side_of c1 y) (side_of c2 z))
unfolding halo_boxes
halo_boxes_lem c0 c1 c2 x y z o0 o1 o2 h0 h1 h2 =
    pick (covering (x ∷ y ∷ z ∷ [])) (covering_box-loop (x ∷ y ∷ z ∷ [])) (side_of c2 z)
      (λ k. one (is_ghost 0 c0 c1 c2 (side_of c0 x) (side_of c1 y) k))
      (λ k. loop (λ j. loop (λ i. halo_round c0 c1 c2 i j k)))
      (λ k.
        pick (covering (x ∷ y ∷ z ∷ [])) (covering_box-loop (x ∷ y ∷ z ∷ [])) (side_of c1 y)
          (λ j.
            (if same_side k (side_of c2 z)
              then one (is_ghost 0 c0 c1 c2 (side_of c0 x) j k)
              else 0))
          (λ j. loop (λ i. halo_round c0 c1 c2 i j k))
          (λ j.
            pick (covering (x ∷ y ∷ z ∷ [])) (covering_box-loop (x ∷ y ∷ z ∷ [])) (side_of c0 x)
              (λ i.
                (if same_side j (side_of c1 y)
                  then (if same_side k (side_of c2 z) then one (is_ghost 0 c0 c1 c2 i j k) else 0)
                  else 0))
              (λ i. halo_round c0 c1 c2 i j k)
              (λ i. halo_round_lem c0 c1 c2 i j k x y z o0 o1 o2 h0 h1 h2)))
