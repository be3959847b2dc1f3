-- ===== src/Box/PlaneColor.antt =====
-- What `color` computes in dimension 2: the boxes of a color tile its part of the grid and the
-- neighbourhood of the part.
use flecsi.Base.{
  if_some, ℕ, ◌+◌, ◌*◌, ◌^◌, ◌<◌, ◌≡◌, refl, sym, ◌∙◌, ap, subst, true, not, ◌&&◌, arith, List, [],
  ◌∷◌, if◌then◌else◌, leb, some,
}
use flecsi.Box.{BoxColoringInfo, is_mid, ghost_cuts, halo_cuts, factor, get_indices, span_at}
use flecsi.Box.Axis.{in_span, inside, covering, boxes, side_of, one, colors_of}
use flecsi.Box.Color.{plane, dim, color, color_at}
use flecsi.Box.Primary.{owners}
use flecsi.Box.Indices.{AllBelow, weigh, get_indices_lem}
use flecsi.Box.Spans.{Room, reach, overhang}
use flecsi.Box.PlaneRounds.{is_ghost}
use flecsi.Box.PlaneParts.{
  ghost_cuts-reach, halo_cuts-overhang, tiles_shared, tiles_ghost, tiles_halo,
}

split_indices :
    (n0 n1 : ℕ) (ids : List ℕ)
    → AllBelow (n0 ∷ n1 ∷ []) ids
    → (i0 : ℕ) × (i1 : ℕ) × ((i0 < n0) × (i1 < n1)) × (ids ≡ i0 ∷ i1 ∷ [])
split_indices n0 n1 (i0 ∷ i1 ∷ []) h = (i0, i1, (h.0, h.1.0), refl)
split_indices n0 n1 [] h = elim h [ ]
split_indices n0 n1 (i0 ∷ []) h = elim (h.1) [ ]
split_indices n0 n1 (i0 ∷ i1 ∷ i ∷ rest) h = elim (h.1.1) [ ]

-- What `color` returns is the coloring at indices below the numbers of colors.
at_indices :
    (size rank g0 g1 hl hd td n0 n1 : ℕ) (r : BoxColoringInfo)
    → color plane size rank (g0 ∷ g1 ∷ []) hl hd td (n0 ∷ n1 ∷ []) ≡ some r
    → rank < size
    → size < 2 ^ 64
    → (i0 : ℕ) × (i1 : ℕ) × ((i0 < n0) × (i1 < n1))
      × (r ≡ color_at plane rank (g0 ∷ g1 ∷ []) hl hd td (n0 ∷ n1 ∷ []) (i0 ∷ i1 ∷ []))
      × (n0 * n1 < 2 ^ 64)
unfolding color dim factor
at_indices size rank g0 g1 hl hd td n0 n1 r e lt fit =
    let c =
      if_some _
        (color_at plane rank (g0 ∷ g1 ∷ []) hl hd td (n0 ∷ n1 ∷ [])
          (get_indices (n0 ∷ n1 ∷ []) rank))
        r e in
    let n : n0 * n1 ≡ size = ground (arith, c.0) in
    let g = get_indices_lem (n0 ∷ n1 ∷ []) rank (omega arith) (omega arith) in
    let s = split_indices n0 n1 (get_indices (n0 ∷ n1 ∷ []) rank) (g.0) in
    (
      s.0,
      s.1,
      s.2,
      c.1 ∙ ap (color_at plane rank (g0 ∷ g1 ∷ []) hl hd td (n0 ∷ n1 ∷ [])) s.3,
      omega arith,
    )

-- In dimension 2 the exclusive box and the shared boxes of a color tile its primary box: where
-- `color` returns, every axis has room for the halos, the rank is below the size and the size fits
-- in a word, a cell of the primary box is in exactly one of them.
pub color_plane-shared :
    (size rank g0 g1 hl hd td n0 n1 x y : ℕ) (r : BoxColoringInfo)
    → color plane size rank (g0 ∷ g1 ∷ []) hl hd td (n0 ∷ n1 ∷ []) ≡ some r
    → rank < size
    → size < 2 ^ 64
    → Room g0 hl hd n0
    → Room g1 hl hd n1
    → (inside (x ∷ y ∷ []) r.primary.box ≡ true)
    → covering (x ∷ y ∷ []) (r.exclusive.box ∷ boxes r.shared) ≡ 1
color_plane-shared size rank g0 g1 hl hd td n0 n1 x y r e lt fit room0 room1 h =
    let i = at_indices size rank g0 g1 hl hd td n0 n1 r e lt fit in
    subst
      (λ r.
        (inside (x ∷ y ∷ []) r.primary.box ≡ true)
        → covering (x ∷ y ∷ []) (r.exclusive.box ∷ boxes r.shared) ≡ 1)
      (sym i.3) (tiles_shared g0 g1 hl hd td n0 n1 i.0 i.1 rank room0 room1 i.2.0 i.2.1 x y) h

-- In dimension 2 the ghost boxes have the colors that own their cells: where `color` returns,
-- every axis has room for the halos, the rank is below the size and the size fits in a word, the
-- outer bounds of the ghosts are those of the primary box, moved by the halo width as far as the
-- domain goes. Take a cell within these bounds. If it is off the primary box and the dimension of
-- the entities shared on its side is at least `thru_dim`, the ghost boxes with the cell have one
-- color, that whose primary box has the cell; otherwise none.
pub color_plane-ghost :
    (size rank g0 g1 hl hd td n0 n1 x y : ℕ) (r : BoxColoringInfo)
    → color plane size rank (g0 ∷ g1 ∷ []) hl hd td (n0 ∷ n1 ∷ []) ≡ some r
    → rank < size
    → size < 2 ^ 64
    → Room g0 hl hd n0
    → Room g1 hl hd n1
    → (in_span x (ghost_cuts r.primary 0).outer ≡ true)
    → (in_span y (ghost_cuts r.primary 1).outer ≡ true)
    → ((ghost_cuts r.primary 0).outer ≡ reach g0 hl hd (span_at r.primary.box 0))
      × ((ghost_cuts r.primary 1).outer ≡ reach g1 hl hd (span_at r.primary.box 1))
      × (colors_of (x ∷ y ∷ []) r.ghost ≡ (
          if not (
              is_mid (side_of (ghost_cuts r.primary 0) x)
              && is_mid (side_of (ghost_cuts r.primary 1) y))
            && leb td (
                one (is_mid (side_of (ghost_cuts r.primary 0) x))
                + one (is_mid (side_of (ghost_cuts r.primary 1) y)))
          then weigh (n0 ∷ n1 ∷ []) (owners hd (g0 ∷ g1 ∷ []) (n0 ∷ n1 ∷ []) (x ∷ y ∷ [])) ∷ []
          else []))
color_plane-ghost size rank g0 g1 hl hd td n0 n1 x y r e lt fit room0 room1 h0 h1 =
    let i = at_indices size rank g0 g1 hl hd td n0 n1 r e lt fit in
    let w =
      subst
        (λ r.
          ((ghost_cuts r.primary 0).outer ≡ reach g0 hl hd (span_at r.primary.box 0))
          × ((ghost_cuts r.primary 1).outer ≡ reach g1 hl hd (span_at r.primary.box 1)))
        (sym i.3) (ghost_cuts-reach g0 g1 hl hd td n0 n1 i.0 i.1 rank room0 room1 i.2.0 i.2.1) in
    (
      w.0,
      w.1,
      subst
          (λ r.
            (in_span x (ghost_cuts r.primary 0).outer ≡ true)
            → (in_span y (ghost_cuts r.primary 1).outer ≡ true)
            → colors_of (x ∷ y ∷ []) r.ghost ≡ (
                if not (
                    is_mid (side_of (ghost_cuts r.primary 0) x)
                    && is_mid (side_of (ghost_cuts r.primary 1) y))
                  && leb td (
                      one (is_mid (side_of (ghost_cuts r.primary 0) x))
                      + one (is_mid (side_of (ghost_cuts r.primary 1) y)))
                then weigh (n0 ∷ n1 ∷ []) (owners hd (g0 ∷ g1 ∷ []) (n0 ∷ n1 ∷ []) (x ∷ y ∷ []))
                  ∷ []
                else []))
          (sym i.3) (tiles_ghost g0 g1 hl hd td n0 n1 i.0 i.1 rank room0 room1 i.2.0 i.2.1 x y i.4)
          h0 h1,
    )

-- In dimension 2 the domain halo boxes tile the halo: where `color` returns, every axis has room
-- for the halos, the rank is below the size and the size fits in a word, the outer bounds of the
-- halo are those of the primary box, moved by the width of the domain halo on the sides at the
-- boundary of the domain. Take a cell within these bounds. If it is off the primary box, and the
-- primary box has more than one cell on each axis on which the cell does not leave it, exactly one
-- box has the cell; otherwise none.
pub color_plane-halo :
    (size rank g0 g1 hl hd td n0 n1 x y : ℕ) (r : BoxColoringInfo)
    → color plane size rank (g0 ∷ g1 ∷ []) hl hd td (n0 ∷ n1 ∷ []) ≡ some r
    → rank < size
    → size < 2 ^ 64
    → Room g0 hl hd n0
    → Room g1 hl hd n1
    → (in_span x (halo_cuts r.primary 0).outer ≡ true)
    → (in_span y (halo_cuts r.primary 1).outer ≡ true)
    → ((halo_cuts r.primary 0).outer ≡ overhang g0 hd (span_at r.primary.box 0))
      × ((halo_cuts r.primary 1).outer ≡ overhang g1 hd (span_at r.primary.box 1))
      × (covering (x ∷ y ∷ []) r.domain_halo
          ≡ one (
              is_ghost 0
                (halo_cuts r.primary 0)
                (halo_cuts r.primary 1)
                (side_of (halo_cuts r.primary 0) x)
                (side_of (halo_cuts r.primary 1) y)))
color_plane-halo size rank g0 g1 hl hd td n0 n1 x y r e lt fit room0 room1 h0 h1 =
    let i = at_indices size rank g0 g1 hl hd td n0 n1 r e lt fit in
    let w =
      subst
        (λ r.
          ((halo_cuts r.primary 0).outer ≡ overhang g0 hd (span_at r.primary.box 0))
          × ((halo_cuts r.primary 1).outer ≡ overhang g1 hd (span_at r.primary.box 1)))
        (sym i.3) (halo_cuts-overhang g0 g1 hl hd td n0 n1 i.0 i.1 rank room0 room1 i.2.0 i.2.1) in
    (
      w.0,
      w.1,
      subst
          (λ r.
            (in_span x (halo_cuts r.primary 0).outer ≡ true)
            → (in_span y (halo_cuts r.primary 1).outer ≡ true)
            → covering (x ∷ y ∷ []) r.domain_halo
              ≡ one (
                  is_ghost 0 (halo_cuts r.primary 0) (halo_cuts r.primary 1)
                    (side_of (halo_cuts r.primary 0) x) (side_of (halo_cuts r.primary 1) y)))
          (sym i.3) (tiles_halo g0 g1 hl hd td n0 n1 i.0 i.1 rank room0 room1 i.2.0 i.2.1 x y) h0
          h1,
    )
