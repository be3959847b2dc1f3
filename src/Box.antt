-- ===== src/Box.antt =====
-- coloring/box_types.h and coloring/simple_box_colorer.h: the coloring of a structured grid of
-- dimension D by boxes. An array over the dimensions is a list, and the bounds `lowerbnd[i]`,
-- `upperbnd[i]` of one dimension stand together. The sums of bounds, indices and halo widths stay
-- below 2^64; differences and the colors of neighbours wrap.
pub mod Axis
pub mod Primary
pub mod Indices
pub mod Plane
pub mod Space
pub mod Color
pub mod Spans
pub mod Neighbors
pub mod PlaneParts
pub mod PlaneColor
pub mod SpaceParts
pub mod SpaceColor
pub mod Tests
pub mod PlaneRounds
pub mod PlaneTiles
pub mod SpaceRounds
pub mod SpaceTiles
use flecsi.Base.{
  ℕ, zero, suc, ◌+◌, ◌-◌, ◌*◌, ◌/◌, ◌%◌, ◌^◌, Bool, true, false, not, ◌&&◌, List, [], ◌∷◌, ◌++◌,
  leb, ◌==◌, if◌then◌else◌, length, get_or, map,
}
use flecsi.Words.{sub64}

-- `lowerbnd[i]` and `upperbnd[i]`; both belong to the box.
pub record Span : Type 0 where
  pub lower : ℕ
  pub upper : ℕ

-- `box_t`
abbrev pub Box : Type 0
Box = List Span

-- `box_color_t`
pub record ColoredBox : Type 0 where
  pub box : Box
  pub colors : List ℕ

-- `onbnd[2 * i]` and `onbnd[2 * i + 1]`
pub record OnBoundary : Type 0 where
  pub at_lower : Bool
  pub at_upper : Bool

-- `box_info_t`
pub record BoxInfo : Type 0 where
  pub box : Box
  pub nhalo : ℕ
  pub nhalo_domain : ℕ
  pub thru_dim : ℕ
  pub onbnd : List OnBoundary

-- `box_coloring_info_t`
pub record BoxColoringInfo : Type 0 where
  pub primary : BoxInfo
  pub exclusive : ColoredBox
  pub shared : List ColoredBox
  pub ghost : List ColoredBox
  pub domain_halo : List Box

-- One dimension of the domain in `color`.
unfoldable pub domain_span : ℕ → ℕ → Span
domain_span grid_size nhalo_domain = record {
  lower = nhalo_domain;
  upper = sub64 (grid_size + nhalo_domain) 1;
}

-- One dimension of `create_primary_box`.
unfoldable pub primary_span : Span → ℕ → ℕ → Span
primary_span domain ncolors idx =
    let N = sub64 domain.upper domain.lower + 1 in
    let ne = N / ncolors in
    record {
      lower = domain.lower + ne * idx;
      upper =
          if not (idx == sub64 ncolors 1)
          then sub64 (domain.lower + ne * (idx + 1)) 1
          else domain.upper;
    }

-- One dimension of the loop that sets `onbnd`.
unfoldable pub on_boundary : Span → Span → OnBoundary
on_boundary domain pbox = record {
  at_lower = pbox.lower == domain.lower;
  at_upper = pbox.upper == domain.upper;
}

-- One dimension of the exclusive box: halo widths off the sides that are not on the boundary.
unfoldable pub exclusive_span : ℕ → OnBoundary → Span → Span
exclusive_span hl b pbox = record {
  lower = if not b.at_lower then pbox.lower + hl else pbox.lower;
  upper = if not b.at_upper then sub64 pbox.upper hl else pbox.upper;
}

-- One dimension of the box with its ghosts.
unfoldable pub ghost_span : ℕ → OnBoundary → Span → Span
ghost_span hl b pbox = record {
  lower = if not b.at_lower then sub64 pbox.lower hl else pbox.lower;
  upper = if not b.at_upper then pbox.upper + hl else pbox.upper;
}

-- One dimension of the box with the halo of the domain.
unfoldable pub halo_span : ℕ → OnBoundary → Span → Span
halo_span hl b pbox = record {
  lower = if b.at_lower then sub64 pbox.lower hl else pbox.lower;
  upper = if b.at_upper then pbox.upper + hl else pbox.upper;
}

-- A value 0, 1 or 2 of the loop counters `i`, `j` and `k`.
pub data Side : Type 0 where
  low mid high : Side

abbrev pub is_mid : Side → Bool
is_mid mid = true
is_mid _ = false

-- `IM[d][0]` to `IM[d][3]`: an outer span cut by an inner one.
pub record Cuts : Type 0 where
  pub outer : Span
  pub inner : Span

-- `IM[d][i]` and `IM[d][i + 1]`
abbrev pub from_cut : Cuts → Side → ℕ
from_cut c low = c.outer.lower
from_cut c mid = c.inner.lower
from_cut c high = c.inner.upper

abbrev pub to_cut : Cuts → Side → ℕ
to_cut c low = c.inner.lower
to_cut c mid = c.inner.upper
to_cut c high = c.outer.upper

-- `IM[d][i] != IM[d][i + 1]`
unfoldable pub differ : Cuts → Side → Bool
differ c i = not (from_cut c i == to_cut c i)

-- `IM[d][i] + il[i]` to `IM[d][i + 1] - iu[i]`
unfoldable pub segment : Cuts → Side → Span
segment c low = record { lower = c.outer.lower; upper = sub64 c.inner.lower 1 }
segment c mid = record { lower = c.inner.lower; upper = c.inner.upper }
segment c high = record { lower = c.inner.upper + 1; upper = c.outer.upper }

-- The index of the neighbour on a side, `idx_new[d]`.
unfoldable pub step : Side → ℕ → ℕ
step low idx = sub64 idx 1
step mid idx = idx
step high idx = idx + 1

-- The inner loop of `get_indices`: the product of the first `n` bounds.
pub factor : ℕ → List ℕ → ℕ
factor zero cobnds = 1
factor (suc n) [] = 1
factor (suc n) (b ∷ cobnds) = b * factor n cobnds

-- The outer loop, with `n` indices left; `id` holds those that are set.
pub indices_loop : List ℕ → ℕ → ℕ → List ℕ → List ℕ
indices_loop cobnds zero rem id = id
indices_loop cobnds (suc n) rem id =
    let value = rem / factor n cobnds in
    indices_loop cobnds n (sub64 rem (value * factor n cobnds)) (value ∷ id)

pub get_indices : List ℕ → ℕ → List ℕ
get_indices cobnds rank = indices_loop cobnds (length cobnds) rank []

-- `for(size_t i = 0; i < 3; ++i)`, with what each round appends
unfoldable pub loop {ℓ} : {A : Type ℓ} → (Side → List A) → List A
loop f = f low ++ f mid ++ f high

abbrev pub span_at : Box → ℕ → Span
span_at b d = get_or b d (record { lower = 0; upper = 0 })

abbrev pub boundary_at : List OnBoundary → ℕ → OnBoundary
boundary_at b d = get_or b d (record { at_lower = false; at_upper = false })

-- `IM[d]` of the exclusive and shared boxes: the primary span cut by the exclusive one.
unfoldable pub shared_cuts : BoxInfo → ℕ → Cuts
shared_cuts p d = record {
  outer = span_at p.box d;
  inner = exclusive_span p.nhalo (boundary_at p.onbnd d) (span_at p.box d);
}

-- `IM[d]` of the ghost boxes
unfoldable pub ghost_cuts : BoxInfo → ℕ → Cuts
ghost_cuts p d = record {
  outer = ghost_span p.nhalo (boundary_at p.onbnd d) (span_at p.box d);
  inner = span_at p.box d;
}

-- `IM[d]` of the domain halo boxes
unfoldable pub halo_cuts : BoxInfo → ℕ → Cuts
halo_cuts p d = record {
  outer = halo_span p.nhalo_domain (boundary_at p.onbnd d) (span_at p.box d);
  inner = span_at p.box d;
}
