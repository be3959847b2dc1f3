-- ===== src/Box/SpaceParts.antt =====
-- The boxes of a color in dimension 3, at the indices of the color.
use flecsi.Base.{
  ℕ, ◌+◌, ◌*◌, ◌^◌, ◌<◌, ◌≡◌, ◌∙◌, ap, true, not, ◌&&◌, arith, [], ◌∷◌, if◌then◌else◌, leb, ◌⊎◌,
}
use flecsi.Box.{
  BoxColoringInfo, Side, Cuts, is_mid, mid, shared_cuts, ghost_cuts, halo_cuts, step, span_at,
}
use flecsi.Box.Axis.{
  in_span, inside, covering, boxes, side_of, is_wide, same_side, inner_lem, one, colors_of,
}
use flecsi.Box.Color.{
  space, color_at, create_exclusive_and_shared_boxes, create_ghost_boxes, create_domain_halo_boxes,
  create_shared, create_ghost, create_halo, primary_info, boundaries, create_primary_box,
  create_domain, exclusive_box,
}
use flecsi.Box.Primary.{owner, owners}
use flecsi.Box.Indices.{weigh, weigh_below}
use flecsi.Box.Spans.{Room, reach, ghost_span-reach, shared-InOrder, ghost-InOrder, halo-InOrder}
use flecsi.Box.Neighbors.{neighbor-owner, is_wide-cuts}
use flecsi.Box.SpaceRounds.{is_ghost}
use flecsi.Box.SpaceTiles.{shared_boxes_lem, ghost_boxes_lem, halo_boxes_lem}
use flecsi.Box.Space.{cval}

-- The numbering of the colors does not wrap.
cval_lem :
    (n0 n1 n2 k0 k1 k2 : ℕ)
    → k0 < n0
    → k1 < n1
    → k2 < n2
    → n0 * (n1 * n2) < 2 ^ 64
    → cval n0 n1 k0 k1 k2 ≡ weigh (n0 ∷ n1 ∷ n2 ∷ []) (k0 ∷ k1 ∷ k2 ∷ [])
unfolding cval
cval_lem n0 n1 n2 k0 k1 k2 lt0 lt1 lt2 fit =
    let b = weigh_below (n0 ∷ n1 ∷ n2 ∷ []) (k0 ∷ k1 ∷ k2 ∷ []) (lt0, (lt1, (lt2, tt))) in
    grind (arith, b)

-- With parts wider than a cell, or no halo, ghosts are due on all sides of shared entities.
wide_lem :
    (hl td : ℕ) (c0 c1 c2 : Cuts) (s0 s1 s2 : Side)
    → (0 < hl) × (is_wide c0 ≡ true) ⊎ (hl ≡ 0) × (s0 ≡ mid)
    → (0 < hl) × (is_wide c1 ≡ true) ⊎ (hl ≡ 0) × (s1 ≡ mid)
    → (0 < hl) × (is_wide c2 ≡ true) ⊎ (hl ≡ 0) × (s2 ≡ mid)
    → is_ghost td c0 c1 c2 s0 s1 s2 ≡ (
        not (is_mid s0 && is_mid s1 && is_mid s2)
        && leb td (one (is_mid s0) + one (is_mid s1) + one (is_mid s2)))
unfolding is_ghost
wide_lem hl td c0 c1 c2 s0 s1 s2 w0 w1 w2 = ground arith

module _ (g0 g1 g2 hl hd td n0 n1 n2 i0 i1 i2 rank : ℕ) (room0 : Room g0 hl hd n0)
    (room1 : Room g1 hl hd n1) (room2 : Room g2 hl hd n2) (lt0 : i0 < n0) (lt1 : i1 < n1)
    (lt2 : i2 < n2) where
  abbrev result : BoxColoringInfo
  result = color_at space rank (g0 ∷ g1 ∷ g2 ∷ []) hl hd td (n0 ∷ n1 ∷ n2 ∷ []) (i0 ∷ i1 ∷ i2 ∷ [])

  pub ghost_cuts-reach :
      ((ghost_cuts result.primary 0).outer ≡ reach g0 hl hd (span_at result.primary.box 0))
      × ((ghost_cuts result.primary 1).outer ≡ reach g1 hl hd (span_at result.primary.box 1))
      × ((ghost_cuts result.primary 2).outer ≡ reach g2 hl hd (span_at result.primary.box 2))
  unfolding color_at create_exclusive_and_shared_boxes create_ghost_boxes create_domain_halo_boxes
      create_shared create_ghost create_halo primary_info boundaries create_primary_box
      create_domain exclusive_box ghost_cuts
  ghost_cuts-reach = (
    ghost_span-reach g0 hl hd n0 i0 room0 lt0,
    ghost_span-reach g1 hl hd n1 i1 room1 lt1,
    ghost_span-reach g2 hl hd n2 i2 room2 lt2,
  )

  pub tiles_shared :
      (x y z : ℕ)
      → (inside (x ∷ y ∷ z ∷ []) result.primary.box ≡ true)
      → covering (x ∷ y ∷ z ∷ []) (result.exclusive.box ∷ boxes result.shared) ≡ 1
  unfolding color_at create_exclusive_and_shared_boxes create_ghost_boxes create_domain_halo_boxes
      create_shared create_ghost create_halo primary_info boundaries create_primary_box
      create_domain exclusive_box shared_cuts inside covering same_side
  tiles_shared x y z h =
      let o0 = shared-InOrder g0 hl hd n0 i0 room0 lt0 in
      let o1 = shared-InOrder g1 hl hd n1 i1 room1 lt1 in
      let o2 = shared-InOrder g2 hl hd n2 i2 room2 lt2 in
      let h0 : in_span x (shared_cuts result.primary 0).outer ≡ true = ground arith in
      let h1 : in_span y (shared_cuts result.primary 1).outer ≡ true = ground arith in
      let h2 : in_span z (shared_cuts result.primary 2).outer ≡ true = ground arith in
      ground (
        arith,
        inner_lem (shared_cuts result.primary 0) x o0 h0,
        inner_lem (shared_cuts result.primary 1) y o1 h1,
        inner_lem (shared_cuts result.primary 2) z o2 h2,
        shared_boxes_lem td n0 n1 i0 i1 i2 (shared_cuts result.primary 0)
            (shared_cuts result.primary 1) (shared_cuts result.primary 2) x y z o0 o1 o2 h0 h1 h2,
      )

  pub tiles_ghost :
      (x y z : ℕ)
      → n0 * (n1 * n2) < 2 ^ 64
      → (in_span x (ghost_cuts result.primary 0).outer ≡ true)
      → (in_span y (ghost_cuts result.primary 1).outer ≡ true)
      → (in_span z (ghost_cuts result.primary 2).outer ≡ true)
      → colors_of (x ∷ y ∷ z ∷ []) result.ghost ≡ (
          if not (
              is_mid (side_of (ghost_cuts result.primary 0) x)
              && is_mid (side_of (ghost_cuts result.primary 1) y)
              && is_mid (side_of (ghost_cuts result.primary 2) z))
            && leb td (
                one (is_mid (side_of (ghost_cuts result.primary 0) x))
                + one (is_mid (side_of (ghost_cuts result.primary 1) y))
                + one (is_mid (side_of (ghost_cuts result.primary 2) z)))
          then weigh
              (n0 ∷ n1 ∷ n2 ∷ [])
              (owners hd (g0 ∷ g1 ∷ g2 ∷ []) (n0 ∷ n1 ∷ n2 ∷ []) (x ∷ y ∷ z ∷ []))
            ∷ []
          else [])
  unfolding color_at create_exclusive_and_shared_boxes create_ghost_boxes create_domain_halo_boxes
      create_shared create_ghost create_halo primary_info boundaries create_primary_box
      create_domain exclusive_box ghost_cuts
  tiles_ghost x y z fit h0 h1 h2 =
      let o0 = ghost-InOrder g0 hl hd n0 i0 room0 lt0 in
      let o1 = ghost-InOrder g1 hl hd n1 i1 room1 lt1 in
      let o2 = ghost-InOrder g2 hl hd n2 i2 room2 lt2 in
      let b0 = neighbor-owner g0 hl hd n0 i0 room0 lt0 x h0 in
      let b1 = neighbor-owner g1 hl hd n1 i1 room1 lt1 y h1 in
      let b2 = neighbor-owner g2 hl hd n2 i2 room2 lt2 z h2 in
      let c =
        cval_lem n0 n1 n2 (owner g0 hd n0 x) (owner g1 hd n1 y) (owner g2 hd n2 z)
          (omega (arith, b0.0, b0.1)) (omega (arith, b1.0, b1.1)) (omega (arith, b2.0, b2.1)) fit in
      let c' =
        ap
          (λ s.
            cval n0 n1 s (step (side_of (ghost_cuts result.primary 1) y) i1)
              (step (side_of (ghost_cuts result.primary 2) z) i2))
          b0.1
        ∙ ap
            (λ s.
              cval n0 n1 (owner g0 hd n0 x) s (step (side_of (ghost_cuts result.primary 2) z) i2))
            b1.1
        ∙ ap (λ s. cval n0 n1 (owner g0 hd n0 x) (owner g1 hd n1 y) s) b2.1 in
      let w =
        wide_lem hl td (ghost_cuts result.primary 0) (ghost_cuts result.primary 1)
          (ghost_cuts result.primary 2) (side_of (ghost_cuts result.primary 0) x)
          (side_of (ghost_cuts result.primary 1) y) (side_of (ghost_cuts result.primary 2) z)
          (is_wide-cuts g0 hl hd n0 i0 room0 lt0 x h0) (is_wide-cuts g1 hl hd n1 i1 room1 lt1 y h1)
          (is_wide-cuts g2 hl hd n2 i2 room2 lt2 z h2) in
      ghost_boxes_lem td n0 n1 i0 i1 i2 (ghost_cuts result.primary 0) (ghost_cuts result.primary 1)
        (ghost_cuts result.primary 2) x y z o0 o1 o2 h0 h1 h2
      ∙ ap
          (λ b.
            if b
            then cval n0 n1 (step (side_of (ghost_cuts result.primary 0) x) i0)
                (step (side_of (ghost_cuts result.primary 1) y) i1)
                (step (side_of (ghost_cuts result.primary 2) z) i2)
              ∷ []
            else [])
          w
      ∙ ap
          (λ v.
            if not (
                is_mid (side_of (ghost_cuts result.primary 0) x)
                && is_mid (side_of (ghost_cuts result.primary 1) y)
                && is_mid (side_of (ghost_cuts result.primary 2) z))
              && leb td (
                  one (is_mid (side_of (ghost_cuts result.primary 0) x))
                  + one (is_mid (side_of (ghost_cuts result.primary 1) y))
                  + one (is_mid (side_of (ghost_cuts result.primary 2) z)))
            then v ∷ []
            else [])
          (c' ∙ c)

  pub tiles_halo :
      (x y z : ℕ)
      → (in_span x (halo_cuts result.primary 0).outer ≡ true)
      → (in_span y (halo_cuts result.primary 1).outer ≡ true)
      → (in_span z (halo_cuts result.primary 2).outer ≡ true)
      → covering (x ∷ y ∷ z ∷ []) result.domain_halo
        ≡ one (
            is_ghost 0
              (halo_cuts result.primary 0)
              (halo_cuts result.primary 1)
              (halo_cuts result.primary 2)
              (side_of (halo_cuts result.primary 0) x)
              (side_of (halo_cuts result.primary 1) y)
              (side_of (halo_cuts result.primary 2) z))
  unfolding color_at create_exclusive_and_shared_boxes create_ghost_boxes create_domain_halo_boxes
      create_shared create_ghost create_halo primary_info boundaries create_primary_box
      create_domain exclusive_box halo_cuts
  tiles_halo x y z h0 h1 h2 =
      let o0 = halo-InOrder g0 hl hd n0 i0 room0 lt0 in
      let o1 = halo-InOrder g1 hl hd n1 i1 room1 lt1 in
      let o2 = halo-InOrder g2 hl hd n2 i2 room2 lt2 in
      halo_boxes_lem (halo_cuts result.primary 0) (halo_cuts result.primary 1)
        (halo_cuts result.primary 2) x y z o0 o1 o2 h0 h1 h2
