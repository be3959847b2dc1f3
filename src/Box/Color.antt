-- ===== src/Box/Color.antt =====
-- `simple_box_colorer_t::color`: the steps over all dimensions. MPI gives the size and the rank.
use flecsi.Base.{ℕ, ◌&&◌, ltb, List, [], ◌∷◌, ◌++◌, ◌==◌, if◌then◌else◌, get_or, Option, none, some}
use flecsi.Box.{
  Box, ColoredBox, OnBoundary, BoxInfo, BoxColoringInfo, domain_span, primary_span, on_boundary,
  get_indices, shared_cuts, ghost_cuts, halo_cuts, exclusive_span, factor,
}
use flecsi.Box.Plane
use flecsi.Box.Space

-- `create_primary_box`
unfoldable pub create_primary_box : Box → List ℕ → List ℕ → Box
create_primary_box (s ∷ domain) (n ∷ ncolors) (x ∷ idx) =
    primary_span s n x ∷ create_primary_box domain ncolors idx
create_primary_box _ _ _ = []

-- Step 1 of `color`.
unfoldable pub create_domain : List ℕ → ℕ → Box
create_domain [] h = []
create_domain (g ∷ grid_size) h = domain_span g h ∷ create_domain grid_size h

-- The loop of `color` that sets `onbnd`.
unfoldable pub boundaries : Box → Box → List OnBoundary
boundaries (s ∷ domain) (b ∷ pbox) = on_boundary s b ∷ boundaries domain pbox
boundaries _ _ = []

-- The loop over the dimensions that computes `ebox`.
unfoldable pub exclusive_box : ℕ → List OnBoundary → Box → Box
exclusive_box hl (b ∷ onbnd) (s ∷ pbox) = exclusive_span hl b s ∷ exclusive_box hl onbnd pbox
exclusive_box _ _ _ = []

-- The templates are there for D = 2 and D = 3.
pub data Dimension : Type 0 where
  plane space : Dimension

unfoldable pub dim : Dimension → ℕ
dim plane = 2
dim space = 3

unfoldable pub create_shared : Dimension → BoxInfo → List ℕ → List ℕ → List ColoredBox
create_shared plane p ncolors idx =
    Plane.shared_boxes p.thru_dim (get_or ncolors 0 0) (get_or idx 0 0) (get_or idx 1 0)
      (shared_cuts p 0) (shared_cuts p 1)
create_shared space p ncolors idx =
    Space.shared_boxes p.thru_dim (get_or ncolors 0 0) (get_or ncolors 1 0) (get_or idx 0 0)
      (get_or idx 1 0) (get_or idx 2 0) (shared_cuts p 0) (shared_cuts p 1) (shared_cuts p 2)

-- `create_exclusive_and_shared_boxes` on a coloring whose boxes are still empty
unfoldable pub create_exclusive_and_shared_boxes :
    Dimension → BoxColoringInfo → List ℕ → List ℕ → ℕ → BoxColoringInfo
create_exclusive_and_shared_boxes D colbox ncolors idx rank = record {
  primary = colbox.primary;
  exclusive = record {
    box = exclusive_box colbox.primary.nhalo colbox.primary.onbnd colbox.primary.box;
    colors = colbox.exclusive.colors ++ rank ∷ [];
  };
  shared = colbox.shared ++ create_shared D colbox.primary ncolors idx;
  ghost = colbox.ghost;
  domain_halo = colbox.domain_halo;
}

unfoldable pub create_ghost : Dimension → BoxInfo → List ℕ → List ℕ → List ColoredBox
create_ghost plane p ncolors idx =
    Plane.ghost_boxes p.thru_dim (get_or ncolors 0 0) (get_or idx 0 0) (get_or idx 1 0)
      (ghost_cuts p 0) (ghost_cuts p 1)
create_ghost space p ncolors idx =
    Space.ghost_boxes p.thru_dim (get_or ncolors 0 0) (get_or ncolors 1 0) (get_or idx 0 0)
      (get_or idx 1 0) (get_or idx 2 0) (ghost_cuts p 0) (ghost_cuts p 1) (ghost_cuts p 2)

unfoldable pub create_ghost_boxes : Dimension → BoxColoringInfo → List ℕ → List ℕ → BoxColoringInfo
create_ghost_boxes D colbox ncolors idx = record {
  primary = colbox.primary;
  exclusive = colbox.exclusive;
  shared = colbox.shared;
  ghost = colbox.ghost ++ create_ghost D colbox.primary ncolors idx;
  domain_halo = colbox.domain_halo;
}

unfoldable pub create_halo : Dimension → BoxInfo → List Box
create_halo plane p = Plane.halo_boxes (halo_cuts p 0) (halo_cuts p 1)
create_halo space p = Space.halo_boxes (halo_cuts p 0) (halo_cuts p 1) (halo_cuts p 2)

unfoldable pub create_domain_halo_boxes : Dimension → BoxColoringInfo → BoxColoringInfo
create_domain_halo_boxes D colbox = record {
  primary = colbox.primary;
  exclusive = colbox.exclusive;
  shared = colbox.shared;
  ghost = colbox.ghost;
  domain_halo = colbox.domain_halo ++ create_halo D colbox.primary;
}

-- `colbox.primary` after the loop that sets `onbnd`
unfoldable pub primary_info : List ℕ → ℕ → ℕ → ℕ → List ℕ → List ℕ → BoxInfo
primary_info grid_size nhalo nhalo_domain thru_dim ncolors idx =
    let domain = create_domain grid_size nhalo_domain in
    let pbox = create_primary_box domain ncolors idx in
    record {
      box = pbox;
      nhalo = nhalo;
      nhalo_domain = nhalo_domain;
      thru_dim = thru_dim;
      onbnd = boundaries domain pbox;
    }

-- Steps 1 to 5 of `color`, at the indices of the rank.
unfoldable pub color_at : Dimension → ℕ → List ℕ → ℕ → ℕ → ℕ → List ℕ → List ℕ → BoxColoringInfo
color_at D rank grid_size nhalo nhalo_domain thru_dim ncolors idx =
    let colbox : BoxColoringInfo = record {
      primary = primary_info grid_size nhalo nhalo_domain thru_dim ncolors idx;
      exclusive = record { box = []; colors = [] };
      shared = [];
      ghost = [];
      domain_halo = [];
    } in
    create_domain_halo_boxes D (
      create_ghost_boxes D (create_exclusive_and_shared_boxes D colbox ncolors idx rank) ncolors
        idx)

-- `none` is a failed assertion. The arrays have D entries. `count` is an `int` of the source: the
-- model has the assertion fail also where the product of the numbers of colors exceeds an `int`.
unfoldable pub color : Dimension → ℕ → ℕ → List ℕ → ℕ → ℕ → ℕ → List ℕ → Option BoxColoringInfo
color D size rank grid_size nhalo nhalo_domain thru_dim ncolors =
    let count = factor (dim D) ncolors in
    if count == size && ltb thru_dim (dim D)
    then some
        (color_at D rank grid_size nhalo nhalo_domain thru_dim ncolors (get_indices ncolors rank))
    else none
