-- ===== src/Box/PlaneParts.antt =====
-- The boxes of a color in dimension 2, at the indices of the color.
use flecsi.Base.{
  ℕ, ◌+◌, ◌*◌, ◌^◌, ◌<◌, ◌≡◌, ◌∙◌, ap, true, not, ◌&&◌, arith, [], ◌∷◌, if◌then◌else◌, leb, ◌⊎◌,
}
use flecsi.Box.{
  BoxColoringInfo, Side, Cuts, is_mid, mid, shared_cuts, ghost_cuts, halo_cuts, step, span_at,
}
use flecsi.Box.Axis.{
  in_span, inside, covering, boxes, side_of, is_wide, same_side, inner_lem, one, colors_of,
}
use flecsi.Box.Color.{
  plane, color_at, create_exclusive_and_shared_boxes, create_ghost_boxes, create_domain_halo_boxes,
  create_shared, create_ghost, create_halo, primary_info, boundaries, create_primary_box,
  create_domain, exclusive_box,
}
use flecsi.Box.Primary.{owner, owners}
use flecsi.Box.Indices.{weigh, weigh_below}
use flecsi.Box.Spans.{
  Room, reach, ghost_span-reach, overhang, halo_span-overhang, shared-InOrder, ghost-InOrder,
  halo-InOrder,
}
use flecsi.Box.Neighbors.{neighbor-owner, is_wide-cuts}
use flecsi.Box.PlaneRounds.{is_ghost}
use flecsi.Box.PlaneTiles.{shared_boxes_lem, ghost_boxes_lem, halo_boxes_lem}
use flecsi.Box.Plane.{cval}

-- The numbering of the colors does not wrap.
cval_lem :
    (n0 n1 k0 k1 : ℕ)
    → k0 < n0
    → k1 < n1
    → n0 * n1 < 2 ^ 64
    → cval n0 k0 k1 ≡ weigh (n0 ∷ n1 ∷ []) (k0 ∷ k1 ∷ [])
unfolding cval
cval_lem n0 n1 k0 k1 lt0 lt1 fit =
    let b = weigh_below (n0 ∷ n1 ∷ []) (k0 ∷ k1 ∷ []) (lt0, (lt1, tt)) in grind (arith, b)

-- With parts wider than a cell, or no halo, ghosts are due on all sides of shared entities.
wide_lem :
    (hl td : ℕ) (c0 c1 : Cuts) (s0 s1 : Side)
    → (0 < hl) × (is_wide c0 ≡ true) ⊎ (hl ≡ 0) × (s0 ≡ mid)
    → (0 < hl) × (is_wide c1 ≡ true) ⊎ (hl ≡ 0) × (s1 ≡ mid)
    → is_ghost td c0 c1 s0 s1
      ≡ (not (is_mid s0 && is_mid s1) && leb td (one (is_mid s0) + one (is_mid s1)))
unfolding is_ghost
wide_lem hl td c0 c1 s0 s1 w0 w1 = ground arith

module _ (g0 g1 hl hd td n0 n1 i0 i1 rank : ℕ) (room0 : Room g0 hl hd n0) (room1 : Room g1 hl hd n1)
    (lt0 : i0 < n0) (lt1 : i1 < n1) where
  abbrev result : BoxColoringInfo
  result = color_at plane rank (g0 ∷ g1 ∷ []) hl hd td (n0 ∷ n1 ∷ []) (i0 ∷ i1 ∷ [])

  pub ghost_cuts-reach :
      ((ghost_cuts result.primary 0).outer ≡ reach g0 hl hd (span_at result.primary.box 0))
      × ((ghost_cuts result.primary 1).outer ≡ reach g1 hl hd (span_at result.primary.box 1))
  unfolding color_at create_exclusive_and_shared_boxes create_ghost_boxes create_domain_halo_boxes
      create_shared create_ghost create_halo primary_info boundaries create_primary_box
      create_domain exclusive_box ghost_cuts
  ghost_cuts-reach =
      (ghost_span-reach g0 hl hd n0 i0 room0 lt0, ghost_span-reach g1 hl hd n1 i1 room1 lt1)

  pub halo_cuts-overhang :
      ((halo_cuts result.primary 0).outer ≡ overhang g0 hd (span_at result.primary.box 0))
      × ((halo_cuts result.primary 1).outer ≡ overhang g1 hd (span_at result.primary.box 1))
  unfolding color_at create_exclusive_and_shared_boxes create_ghost_boxes create_domain_halo_boxes
      create_shared create_ghost create_halo primary_info boundaries create_primary_box
      create_domain exclusive_box halo_cuts
  halo_cuts-overhang =
      (halo_span-overhang g0 hl hd n0 i0 room0 lt0, halo_span-overhang g1 hl hd n1 i1 room1 lt1)

  pub tiles_shared :
      (x y : ℕ)
      → (inside (x ∷ y ∷ []) result.primary.box ≡ true)
      → covering (x ∷ y ∷ []) (result.exclusive.box ∷ boxes result.shared) ≡ 1
  unfolding color_at create_exclusive_and_shared_boxes create_ghost_boxes create_domain_halo_boxes
      create_shared create_ghost create_halo primary_info boundaries create_primary_box
      create_domain exclusive_box shared_cuts inside covering same_side
  tiles_shared x y h =
      let o0 = shared-InOrder g0 hl hd n0 i0 room0 lt0 in
      let o1 = shared-InOrder g1 hl hd n1 i1 room1 lt1 in
      let h0 : in_span x (shared_cuts result.primary 0).outer ≡ true = ground arith in
      let h1 : in_span y (shared_cuts result.primary 1).outer ≡ true = ground arith in
      ground (
        arith,
        inner_lem (shared_cuts result.primary 0) x o0 h0,
        inner_lem (shared_cuts result.primary 1) y o1 h1,
        shared_boxes_lem td n0 i0 i1 (shared_cuts result.primary 0) (shared_cuts result.primary 1) x
            y o0 o1 h0 h1,
      )

  pub tiles_ghost :
      (x y : ℕ)
      → n0 * n1 < 2 ^ 64
      → (in_span x (ghost_cuts result.primary 0).outer ≡ true)
      → (in_span y (ghost_cuts result.primary 1).outer ≡ true)
      → colors_of (x ∷ y ∷ []) result.ghost ≡ (
          if not (
              is_mid (side_of (ghost_cuts result.primary 0) x)
              && is_mid (side_of (ghost_cuts result.primary 1) y))
            && leb td (
                one (is_mid (side_of (ghost_cuts result.primary 0) x))
                + one (is_mid (side_of (ghost_cuts result.primary 1) y)))
          then weigh (n0 ∷ n1 ∷ []) (owners hd (g0 ∷ g1 ∷ []) (n0 ∷ n1 ∷ []) (x ∷ y ∷ [])) ∷ []
          else [])
  unfolding color_at create_exclusive_and_shared_boxes create_ghost_boxes create_domain_halo_boxes
      create_shared create_ghost create_halo primary_info boundaries create_primary_box
      create_domain exclusive_box ghost_cuts
  tiles_ghost x y fit h0 h1 =
      let o0 = ghost-InOrder g0 hl hd n0 i0 room0 lt0 in
      let o1 = ghost-InOrder g1 hl hd n1 i1 room1 lt1 in
      let b0 = neighbor-owner g0 hl hd n0 i0 room0 lt0 x h0 in
      let b1 = neighbor-owner g1 hl hd n1 i1 room1 lt1 y h1 in
      let c =
        cval_lem n0 n1 (owner g0 hd n0 x) (owner g1 hd n1 y) (omega (arith, b0.0, b0.1))
          (omega (arith, b1.0, b1.1)) fit in
      let c' =
        ap (λ s. cval n0 s (step (side_of (ghost_cuts result.primary 1) y) i1)) b0.1
        ∙ ap (λ s. cval n0 (owner g0 hd n0 x) s) b1.1 in
      let w =
        wide_lem hl td (ghost_cuts result.primary 0) (ghost_cuts result.primary 1)
          (side_of (ghost_cuts result.primary 0) x) (side_of (ghost_cuts result.primary 1) y)
          (is_wide-cuts g0 hl hd n0 i0 room0 lt0 x h0)
          (is_wide-cuts g1 hl hd n1 i1 room1 lt1 y h1) in
      ghost_boxes_lem td n0 i0 i1 (ghost_cuts result.primary 0) (ghost_cuts result.primary 1) x y o0
        o1 h0 h1
      ∙ ap
          (λ b.
            if b
            then cval n0 (step (side_of (ghost_cuts result.primary 0) x) i0)
                (step (side_of (ghost_cuts result.primary 1) y) i1)
              ∷ []
            else [])
          w
      ∙ ap
          (λ v.
            if not (
                is_mid (side_of (ghost_cuts result.primary 0) x)
                && is_mid (side_of (ghost_cuts result.primary 1) y))
              && leb td (
                  one (is_mid (side_of (ghost_cuts result.primary 0) x))
                  + one (is_mid (side_of (ghost_cuts result.primary 1) y)))
            then v ∷ []
            else [])
          (c' ∙ c)

  pub tiles_halo :
      (x y : ℕ)
      → (in_span x (halo_cuts result.primary 0).outer ≡ true)
      → (in_span y (halo_cuts result.primary 1).outer ≡ true)
      → covering (x ∷ y ∷ []) result.domain_halo
        ≡ one (
            is_ghost 0
              (halo_cuts result.primary 0)
              (halo_cuts result.primary 1)
              (side_of (halo_cuts result.primary 0) x)
              (side_of (halo_cuts result.primary 1) y))
  unfolding color_at create_exclusive_and_shared_boxes create_ghost_boxes create_domain_halo_boxes
      create_shared create_ghost create_halo primary_info boundaries create_primary_box
      create_domain exclusive_box halo_cuts
  tiles_halo x y h0 h1 =
      let o0 = halo-InOrder g0 hl hd n0 i0 room0 lt0 in
      let o1 = halo-InOrder g1 hl hd n1 i1 room1 lt1 in
      halo_boxes_lem (halo_cuts result.primary 0) (halo_cuts result.primary 1) x y o0 o1 h0 h1
