-- ===== src/Box/SpaceColor.antt =====
-- What `color` computes in dimension 3: the boxes of a color tile its part of the grid and the
-- neighbourhood of the part.
use flecsi.Base.{
  if_some, ℕ, ◌+◌, ◌*◌, ◌^◌, ◌<◌, ◌≡◌, refl, sym, ◌∙◌, ap, subst, true, not, ◌&&◌, arith, List, [],
  ◌∷◌, if◌then◌else◌, leb, some,
}
use flecsi.Box.{BoxColoringInfo, is_mid, ghost_cuts, halo_cuts, factor, get_indices, span_at}
use flecsi.Box.Axis.{in_span, inside, covering, boxes, side_of, one, colors_of}
use flecsi.Box.Color.{space, dim, color, color_at}
use flecsi.Box.Primary.{owners}
use flecsi.Box.Indices.{AllBelow, weigh, get_indices_lem}
use flecsi.Box.Spans.{Room, reach}
use flecsi.Box.SpaceRounds.{is_ghost}
use flecsi.Box.SpaceParts.{ghost_cuts-reach, tiles_shared, tiles_ghost, tiles_halo}

split_indices :
    (n0 n1 n2 : ℕ) (ids : List ℕ)
    → AllBelow (n0 ∷ n1 ∷ n2 ∷ []) ids
    → (i0 : ℕ) × (i1 : ℕ) × (i2 : ℕ) × ((i0 < n0) × (i1 < n1) × (i2 < n2))
      × (ids ≡ i0 ∷ i1 ∷ i2 ∷ [])
split_indices n0 n1 n2 (i0 ∷ i1 ∷ i2 ∷ []) h = (i0, i1, i2, (h.0, h.1.0, h.1.1.0), refl)
split_indices n0 n1 n2 [] h = elim h [ ]
split_indices n0 n1 n2 (i0 ∷ []) h = elim (h.1) [ ]
split_indices n0 n1 n2 (i0 ∷ i1 ∷ []) h = elim (h.1.1) [ ]
split_indices n0 n1 n2 (i0 ∷ i1 ∷ i2 ∷ i ∷ rest) h = elim (h.1.1.1) [ ]

-- What `color` returns is the coloring at indices below the numbers of colors.
at_indices :
    (size rank g0 g1 g2 hl hd td n0 n1 n2 : ℕ) (r : BoxColoringInfo)
    → color space size rank (g0 ∷ g1 ∷ g2 ∷ []) hl hd td (n0 ∷ n1 ∷ n2 ∷ []) ≡ some r
    → rank < size
    → size < 2 ^ 64
    → (i0 : ℕ) × (i1 : ℕ) × (i2 : ℕ) × ((i0 < n0) × (i1 < n1) × (i2 < n2))
      × (r
          ≡ color_at space rank
              (g0 ∷ g1 ∷ g2 ∷ [])
              hl
              hd
              td
              (n0 ∷ n1 ∷ n2 ∷ [])
              (i0 ∷ i1 ∷ i2 ∷ []))
      × (n0 * (n1 * n2) < 2 ^ 64)
unfolding color dim factor
at_indices size rank g0 g1 g2 hl hd td n0 n1 n2 r e lt fit =
    let c =
      if_some _
        (color_at space rank (g0 ∷ g1 ∷ g2 ∷ []) hl hd td (n0 ∷ n1 ∷ n2 ∷ [])
          (get_indices (n0 ∷ n1 ∷ n2 ∷ []) rank))
        r e in
    let n : n0 * (n1 * n2) ≡ size = ground (arith, c.0) in
    let g = get_indices_lem (n0 ∷ n1 ∷ n2 ∷ []) rank (omega arith) (omega arith) in
    let s = split_indices n0 n1 n2 (get_indices (n0 ∷ n1 ∷ n2 ∷ []) rank) (g.0) in
    (
      s.0,
      s.1,
      s.2,
      s.3,
      c.1 ∙ ap (color_at space rank (g0 ∷ g1 ∷ g2 ∷ []) hl hd td (n0 ∷ n1 ∷ n2 ∷ [])) s.4,
      omega arith,
    )

-- In dimension 3 the exclusive box and the shared boxes of a color tile its primary box: where
-- `color` returns, every axis has room for the halos, the rank is below the size and the size fits
-- in a word, a cell of the primary box is in exactly one of them.
pub color_space-shared :
    (size rank g0 g1 g2 hl hd td n0 n1 n2 x y z : ℕ) (r : BoxColoringInfo)
    → color space size rank (g0 ∷ g1 ∷ g2 ∷ []) hl hd td (n0 ∷ n1 ∷ n2 ∷ []) ≡ some r
    → rank < size
    → size < 2 ^ 64
    → Room g0 hl hd n0
    → Room g1 hl hd n1
    → Room g2 hl hd n2
    → (inside (x ∷ y ∷ z ∷ []) r.primary.box ≡ true)
    → covering (x ∷ y ∷ z ∷ []) (r.exclusive.box ∷ boxes r.shared) ≡ 1
color_space-shared size rank g0 g1 g2 hl hd td n0 n1 n2 x y z r e lt fit room0 room1 room2 h =
    let i = at_indices size rank g0 g1 g2 hl hd td n0 n1 n2 r e lt fit in
    subst
      (λ r.
        (inside (x ∷ y ∷ z ∷ []) r.primary.box ≡ true)
        → covering (x ∷ y ∷ z ∷ []) (r.exclusive.box ∷ boxes r.shared) ≡ 1)
      (sym i.4)
      (tiles_shared g0 g1 g2 hl hd td n0 n1 n2 i.0 i.1 i.2 rank room0 room1 room2 i.3.0 i.3.1 i.3.2
        x y z)
      h

-- In dimension 3 the ghost boxes have the colors that own their cells: where `color` returns,
-- every axis has room for the halos, the rank is below the size and the size fits in a word, the
-- outer bounds of the ghosts are those of the primary box, moved by the halo width as far as the
-- domain goes. Take a cell within these bounds. If it is off the primary box and the dimension of
-- the entities shared on its side is at least `thru_dim`, the ghost boxes with the cell have one
-- color, that whose primary box has the cell; otherwise none.
pub color_space-ghost :
    (size rank g0 g1 g2 hl hd td n0 n1 n2 x y z : ℕ) (r : BoxColoringInfo)
    → color space size rank (g0 ∷ g1 ∷ g2 ∷ []) hl hd td (n0 ∷ n1 ∷ n2 ∷ []) ≡ some r
    → rank < size
    → size < 2 ^ 64
    → Room g0 hl hd n0
    → Room g1 hl hd n1
    → Room g2 hl hd n2
    → (in_span x (ghost_cuts r.primary 0).outer ≡ true)
    → (in_span y (ghost_cuts r.primary 1).outer ≡ true)
    → (in_span z (ghost_cuts r.primary 2).outer ≡ true)
    → ((ghost_cuts r.primary 0).outer ≡ reach g0 hl hd (span_at r.primary.box 0))
      × ((ghost_cuts r.primary 1).outer ≡ reach g1 hl hd (span_at r.primary.box 1))
      × ((ghost_cuts r.primary 2).outer ≡ reach g2 hl hd (span_at r.primary.box 2))
      × (colors_of (x ∷ y ∷ z ∷ []) r.ghost ≡ (
          if not (
              is_mid (side_of (ghost_cuts r.primary 0) x)
              && is_mid (side_of (ghost_cuts r.primary 1) y)
              && is_mid (side_of (ghost_cuts r.primary 2) z))
            && leb td (
                one (is_mid (side_of (ghost_cuts r.primary 0) x))
                + one (is_mid (side_of (ghost_cuts r.primary 1) y))
                + one (is_mid (side_of (ghost_cuts r.primary 2) z)))
          then weigh
              (n0 ∷ n1 ∷ n2 ∷ [])
              (owners hd (g0 ∷ g1 ∷ g2 ∷ []) (n0 ∷ n1 ∷ n2 ∷ []) (x ∷ y ∷ z ∷ []))
            ∷ []
          else []))
color_space-ghost size rank g0 g1 g2 hl hd td n0 n1 n2 x y z r e lt fit room0 room1 room2 h0 h1 h2 =
    let i = at_indices size rank g0 g1 g2 hl hd td n0 n1 n2 r e lt fit in
    let w =
      subst
        (λ r.
          ((ghost_cuts r.primary 0).outer ≡ reach g0 hl hd (span_at r.primary.box 0))
          × ((ghost_cuts r.primary 1).outer ≡ reach g1 hl hd (span_at r.primary.box 1))
          × ((ghost_cuts r.primary 2).outer ≡ reach g2 hl hd (span_at r.primary.box 2)))
        (sym i.4)
        (ghost_cuts-reach g0 g1 g2 hl hd td n0 n1 n2 i.0 i.1 i.2 rank room0 room1 room2 i.3.0 i.3.1
          i.3.2) in
    (
      w.0,
      w.1,
      w.2,
      subst
          (λ r.
            (in_span x (ghost_cuts r.primary 0).outer ≡ true)
            → (in_span y (ghost_cuts r.primary 1).outer ≡ true)
            → (in_span z (ghost_cuts r.primary 2).outer ≡ true)
            → colors_of (x ∷ y ∷ z ∷ []) r.ghost ≡ (
                if not (
                    is_mid (side_of (ghost_cuts r.primary 0) x)
                    && is_mid (side_of (ghost_cuts r.primary 1) y)
                    && is_mid (side_of (ghost_cuts r.primary 2) z))
                  && leb td (
                      one (is_mid (side_of (ghost_cuts r.primary 0) x))
                      + one (is_mid (side_of (ghost_cuts r.primary 1) y))
                      + one (is_mid (side_of (ghost_cuts r.primary 2) z)))
                then weigh (n0 ∷ n1 ∷ n2 ∷ [])
                    (owners hd (g0 ∷ g1 ∷ g2 ∷ []) (n0 ∷ n1 ∷ n2 ∷ []) (x ∷ y ∷ z ∷ []))
                  ∷ []
                else []))
          (sym i.4)
          (tiles_ghost g0 g1 g2 hl hd td n0 n1 n2 i.0 i.1 i.2 rank room0 room1 room2 i.3.0 i.3.1
            i.3.2 x y z i.5)
          h0 h1 h2,
    )

-- In dimension 3 the domain halo boxes tile the halo: where `color` returns, every axis has room
-- for the halos, the rank is below the size and the size fits in a word, take a cell at most the
-- width of the domain halo from the primary box, on the sides at the boundary of the domain. If it
-- is off the primary box, and the primary box has more than one cell on each axis on which the cell
-- does not leave it, exactly one box has the cell; otherwise none.
pub color_space-halo :
    (size rank g0 g1 g2 hl hd td n0 n1 n2 x y z : ℕ) (r : BoxColoringInfo)
    → color space size rank (g0 ∷ g1 ∷ g2 ∷ []) hl hd td (n0 ∷ n1 ∷ n2 ∷ []) ≡ some r
    → rank < size
    → size < 2 ^ 64
    → Room g0 hl hd n0
    → Room g1 hl hd n1
    → Room g2 hl hd n2
    → (in_span x (halo_cuts r.primary 0).outer ≡ true)
    → (in_span y (halo_cuts r.primary 1).outer ≡ true)
    → (in_span z (halo_cuts r.primary 2).outer ≡ true)
    → covering (x ∷ y ∷ z ∷ []) r.domain_halo
      ≡ one (
          is_ghost 0
            (halo_cuts r.primary 0)
            (halo_cuts r.primary 1)
            (halo_cuts r.primary 2)
            (side_of (halo_cuts r.primary 0) x)
            (side_of (halo_cuts r.primary 1) y)
            (side_of (halo_cuts r.primary 2) z))
color_space-halo size rank g0 g1 g2 hl hd td n0 n1 n2 x y z r e lt fit room0 room1 room2 h0 h1 h2 =
    let i = at_indices size rank g0 g1 g2 hl hd td n0 n1 n2 r e lt fit in
    subst
      (λ r.
        (in_span x (halo_cuts r.primary 0).outer ≡ true)
        → (in_span y (halo_cuts r.primary 1).outer ≡ true)
        → (in_span z (halo_cuts r.primary 2).outer ≡ true)
        → covering (x ∷ y ∷ z ∷ []) r.domain_halo
          ≡ one (
              is_ghost 0 (halo_cuts r.primary 0) (halo_cuts r.primary 1) (halo_cuts r.primary 2)
                (side_of (halo_cuts r.primary 0) x) (side_of (halo_cuts r.primary 1) y)
                (side_of (halo_cuts r.primary 2) z)))
      (sym i.4)
      (tiles_halo g0 g1 g2 hl hd td n0 n1 n2 i.0 i.1 i.2 rank room0 room1 room2 i.3.0 i.3.1 i.3.2 x
        y z)
      h0 h1 h2
