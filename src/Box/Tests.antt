-- ===== src/Box/Tests.antt =====
-- Runs of the box colorer, and its theorems at concrete inputs.
use flecsi.Base.{
  ◌+◌, ◌^◌, ◌<◌, ◌≡◌, ◌↔◌, refl, true, not, ◌&&◌, arith, [], ◌∷◌, if◌then◌else◌, leb, some, none,
}
use flecsi.Words.{sub64}
use flecsi.Box.{
  BoxColoringInfo, is_mid, segment, differ, step, loop, factor, indices_loop, get_indices,
  domain_span, primary_span, on_boundary, exclusive_span, ghost_span, halo_span, shared_cuts,
  ghost_cuts, halo_cuts, span_at,
}
use flecsi.Box.Axis.{in_span, inside, covering, boxes, side_of, one, colors_of, is_wide}
use flecsi.Box.Color.{
  plane, space, dim, color, color_at, create_exclusive_and_shared_boxes, create_ghost_boxes,
  create_domain_halo_boxes, create_shared, create_ghost, create_halo, primary_info, boundaries,
  create_primary_box, create_domain, exclusive_box,
}
use flecsi.Box.Primary.{owners, primary_box-owner}
use flecsi.Box.Spans.{reach, overhang}
use flecsi.Box.Indices.{weigh}
use flecsi.Box.PlaneColor.{color_plane-shared, color_plane-ghost, color_plane-halo}
use flecsi.Box.SpaceColor.{color_space-shared, color_space-ghost}
use flecsi.Box.PlaneRounds
use flecsi.Box.Plane
use flecsi.Box.Space

program : Unit {0}
unfolding sub64 segment differ step loop factor indices_loop get_indices domain_span primary_span
    on_boundary exclusive_span ghost_span halo_span shared_cuts ghost_cuts halo_cuts in_span inside
    covering boxes side_of colors_of is_wide dim color color_at create_exclusive_and_shared_boxes
    create_ghost_boxes create_domain_halo_boxes create_shared create_ghost create_halo primary_info
    boundaries create_primary_box create_domain exclusive_box Plane.cval Plane.shared_flag
    Plane.edge_colors Plane.corner_colors Plane.plane_box Plane.shared_colors Plane.shared_round
    Plane.shared_boxes Plane.rankmap Plane.ghost_round Plane.ghost_boxes Plane.halo_round
    Plane.halo_boxes Space.cval Space.shared_flag Space.face_colors Space.edge_colors
    Space.corner_colors Space.space_box Space.shared_colors Space.shared_round Space.shared_boxes
    Space.rankmap Space.ghost_round Space.ghost_boxes Space.halo_round Space.halo_boxes
program = tt

-- 8 by 9 cells in 2 by 2 boxes, seen from color 1
abbrev flat : BoxColoringInfo
flat = color_at plane 1 (8 ∷ 9 ∷ []) 1 1 0 (2 ∷ 2 ∷ []) (1 ∷ 0 ∷ [])

flat_runs :
    (color plane 4 1 (8 ∷ 9 ∷ []) 1 1 0 (2 ∷ 2 ∷ []) ≡ some flat)
    × (flat.primary.box ≡ record { lower = 5; upper = 8 } ∷ record { lower = 1; upper = 4 } ∷ [])
    × (inside (5 ∷ 4 ∷ []) flat.primary.box ≡ true)
    × (in_span 4 (ghost_cuts flat.primary 0).outer ≡ true)
    × (in_span 5 (ghost_cuts flat.primary 1).outer ≡ true)
    × (in_span 9 (halo_cuts flat.primary 0).outer ≡ true)
    × (in_span 2 (halo_cuts flat.primary 1).outer ≡ true)
    × (colors_of (4 ∷ 5 ∷ []) flat.ghost ≡ 2 ∷ [])
    × (color plane 3 1 (8 ∷ 9 ∷ []) 1 1 0 (2 ∷ 2 ∷ []) ≡ none)
unfolding program
flat_runs = (refl, refl, refl, refl, refl, refl, refl, refl, refl)

-- A primary box of one cell by three with a domain halo: no halo box has the cell above it.
narrow_runs :
    covering
      (1 ∷ 0 ∷ [])
      (color_at plane 0 (2 ∷ 3 ∷ []) 0 1 0 (2 ∷ 1 ∷ []) (0 ∷ 0 ∷ [])).domain_halo
    ≡ 0
unfolding program
narrow_runs = refl

color_plane-shared_example : covering (5 ∷ 4 ∷ []) (flat.exclusive.box ∷ boxes flat.shared) ≡ 1
color_plane-shared_example =
    color_plane-shared 4 1 8 9 1 1 0 2 2 5 4 flat flat_runs.0 (omega arith) (omega arith)
      (omega arith, omega arith, omega arith, omega arith)
      (omega arith, omega arith, omega arith, omega arith) flat_runs.2

color_plane-ghost_example :
    ((ghost_cuts flat.primary 0).outer ≡ reach 8 1 1 (span_at flat.primary.box 0))
    × ((ghost_cuts flat.primary 1).outer ≡ reach 9 1 1 (span_at flat.primary.box 1))
    × (colors_of (4 ∷ 5 ∷ []) flat.ghost ≡ (
        if not (
            is_mid (side_of (ghost_cuts flat.primary 0) 4)
            && is_mid (side_of (ghost_cuts flat.primary 1) 5))
          && leb 0 (
              one (is_mid (side_of (ghost_cuts flat.primary 0) 4))
              + one (is_mid (side_of (ghost_cuts flat.primary 1) 5)))
        then weigh (2 ∷ 2 ∷ []) (owners 1 (8 ∷ 9 ∷ []) (2 ∷ 2 ∷ []) (4 ∷ 5 ∷ [])) ∷ []
        else []))
color_plane-ghost_example =
    color_plane-ghost 4 1 8 9 1 1 0 2 2 4 5 flat flat_runs.0 (omega arith) (omega arith)
      (omega arith, omega arith, omega arith, omega arith)
      (omega arith, omega arith, omega arith, omega arith) flat_runs.3 flat_runs.4

color_plane-halo_example :
    ((halo_cuts flat.primary 0).outer ≡ overhang 8 1 (span_at flat.primary.box 0))
    × ((halo_cuts flat.primary 1).outer ≡ overhang 9 1 (span_at flat.primary.box 1))
    × (covering (9 ∷ 2 ∷ []) flat.domain_halo
        ≡ one (
            PlaneRounds.is_ghost 0
              (halo_cuts flat.primary 0)
              (halo_cuts flat.primary 1)
              (side_of (halo_cuts flat.primary 0) 9)
              (side_of (halo_cuts flat.primary 1) 2)))
color_plane-halo_example =
    color_plane-halo 4 1 8 9 1 1 0 2 2 9 2 flat flat_runs.0 (omega arith) (omega arith)
      (omega arith, omega arith, omega arith, omega arith)
      (omega arith, omega arith, omega arith, omega arith) flat_runs.5 flat_runs.6

-- 8 by 9 by 4 cells in 2 by 2 by 1 boxes, seen from color 1
abbrev deep : BoxColoringInfo
deep = color_at space 1 (8 ∷ 9 ∷ 4 ∷ []) 1 1 0 (2 ∷ 2 ∷ 1 ∷ []) (1 ∷ 0 ∷ 0 ∷ [])

deep_runs :
    (color space 4 1 (8 ∷ 9 ∷ 4 ∷ []) 1 1 0 (2 ∷ 2 ∷ 1 ∷ []) ≡ some deep)
    × (inside (5 ∷ 4 ∷ 2 ∷ []) deep.primary.box ≡ true)
    × (in_span 4 (ghost_cuts deep.primary 0).outer ≡ true)
    × (in_span 5 (ghost_cuts deep.primary 1).outer ≡ true)
    × (in_span 2 (ghost_cuts deep.primary 2).outer ≡ true)
    × (in_span 9 (halo_cuts deep.primary 0).outer ≡ true)
    × (in_span 2 (halo_cuts deep.primary 1).outer ≡ true)
    × (in_span 5 (halo_cuts deep.primary 2).outer ≡ true)
    × (colors_of (4 ∷ 5 ∷ 2 ∷ []) deep.ghost ≡ 2 ∷ [])
unfolding program
deep_runs = (refl, refl, refl, refl, refl, refl, refl, refl, refl)

color_space-shared_example : covering (5 ∷ 4 ∷ 2 ∷ []) (deep.exclusive.box ∷ boxes deep.shared) ≡ 1
color_space-shared_example =
    color_space-shared 4 1 8 9 4 1 1 0 2 2 1 5 4 2 deep deep_runs.0 (omega arith) (omega arith)
      (omega arith, omega arith, omega arith, omega arith)
      (omega arith, omega arith, omega arith, omega arith)
      (omega arith, omega arith, omega arith, omega arith) deep_runs.1

color_space-ghost_example :
    ((ghost_cuts deep.primary 0).outer ≡ reach 8 1 1 (span_at deep.primary.box 0))
    × ((ghost_cuts deep.primary 1).outer ≡ reach 9 1 1 (span_at deep.primary.box 1))
    × ((ghost_cuts deep.primary 2).outer ≡ reach 4 1 1 (span_at deep.primary.box 2))
    × (colors_of (4 ∷ 5 ∷ 2 ∷ []) deep.ghost ≡ (
        if not (
            is_mid (side_of (ghost_cuts deep.primary 0) 4)
            && is_mid (side_of (ghost_cuts deep.primary 1) 5)
            && is_mid (side_of (ghost_cuts deep.primary 2) 2))
          && leb 0 (
              one (is_mid (side_of (ghost_cuts deep.primary 0) 4))
              + one (is_mid (side_of (ghost_cuts deep.primary 1) 5))
              + one (is_mid (side_of (ghost_cuts deep.primary 2) 2)))
        then weigh (2 ∷ 2 ∷ 1 ∷ []) (owners 1 (8 ∷ 9 ∷ 4 ∷ []) (2 ∷ 2 ∷ 1 ∷ []) (4 ∷ 5 ∷ 2 ∷ []))
          ∷ []
        else []))
color_space-ghost_example =
    color_space-ghost 4 1 8 9 4 1 1 0 2 2 1 4 5 2 deep deep_runs.0 (omega arith) (omega arith)
      (omega arith, omega arith, omega arith, omega arith)
      (omega arith, omega arith, omega arith, omega arith)
      (omega arith, omega arith, omega arith, omega arith) deep_runs.2 deep_runs.3 deep_runs.4

ranks_below :
    (5 < factor 2 (2 ∷ 3 ∷ [])) × (1 < factor 2 (2 ∷ 2 ∷ [])) × (factor 2 (2 ∷ 2 ∷ []) < 2 ^ 64)
unfolding factor
ranks_below = (omega arith, omega arith, omega arith)

primary_box-owner_example :
    ((inside (5 ∷ 4 ∷ []) (
          create_primary_box
            (create_domain (8 ∷ 9 ∷ []) 1)
            (2 ∷ 2 ∷ [])
            (get_indices (2 ∷ 2 ∷ []) 1))
        ≡ true)
      ↔ (1 ≡ weigh (2 ∷ 2 ∷ []) (owners 1 (8 ∷ 9 ∷ []) (2 ∷ 2 ∷ []) (5 ∷ 4 ∷ []))))
    × (weigh (2 ∷ 2 ∷ []) (owners 1 (8 ∷ 9 ∷ []) (2 ∷ 2 ∷ []) (5 ∷ 4 ∷ [])) < factor 2 (2 ∷ 2 ∷ []))
primary_box-owner_example =
    primary_box-owner 1 (8 ∷ 9 ∷ []) (2 ∷ 2 ∷ []) (5 ∷ 4 ∷ []) 1
      (
        (omega arith, omega arith, omega arith, omega arith, omega arith),
        ((omega arith, omega arith, omega arith, omega arith, omega arith), tt),
      )
      (ranks_below.1) (ranks_below.2)
