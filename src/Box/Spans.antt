-- ===== src/Box/Spans.antt =====
-- The primary spans of one axis: their bounds, and the cuts of the boxes made from them.
use native.Mathlib.Nat.{div-mul-le_self, mul-le-mul_left}
use flecsi.Base.{
  ℕ, zero, suc, ◌+◌, ◌-◌, ◌*◌, ◌/◌, ◌^◌, ◌≤◌, ◌<◌, ◌≡◌, refl, true, false, arith, ◌==◌, ◌⊎◌, inl,
  min, max, if◌then◌else◌, inr,
}
use native.Mathlib.Decide.{dec_lt}
use flecsi.Words.{sub64, sub64_lem}
use flecsi.Box.{
  Span, OnBoundary, domain_span, primary_span, on_boundary, exclusive_span, ghost_span, halo_span,
}
use flecsi.Box.Axis.{InOrder}

-- The cells of an axis with `g` cells from `hd` on that are at most `hl` away from a span.
abbrev pub reach : ℕ → ℕ → ℕ → Span → Span
reach g hl hd s = record { lower = max hd (s.lower - hl); upper = min (g + hd - 1) (s.upper + hl) }

-- A span with `hd` cells more on each side on which it ends with the axis.
abbrev pub overhang : ℕ → ℕ → Span → Span
overhang g hd s = record {
  lower = if s.lower == hd then 0 else s.lower;
  upper = if s.upper == g + hd - 1 then g + 2 * hd - 1 else s.upper;
}

abbrev record_of : ℕ → ℕ → Span
record_of a b = record { lower = a; upper = b }

Span-ext : (a b c d : ℕ) → a ≡ c → b ≡ d → record_of a b ≡ record_of c d
Span-ext a b c d e e' = λ i. record { lower = e i; upper = e' i }

-- The axis has room for the halos: each of the `n` parts is wider than the halos of both sides, and
-- all bounds fit in words.
abbrev pub Room : ℕ → ℕ → ℕ → ℕ → Type 0
Room g hl hd n = (0 < n) × (2 * hl < g / n) × (g + 2 * hd < 2 ^ 64) × (n < 2 ^ 64)

part_end : (g n idx : ℕ) → idx < n → g / n * idx + g / n ≤ g
part_end g n idx h =
    let a : g / n * (idx + 1) ≤ g / n * n = mul-le-mul_left (g / n) (omega arith) in
    let b : g / n * (idx + 1) ≡ g / n * idx + g / n = grind arith in
    omega (arith, a, b, div-mul-le_self g n)

-- The bounds of a primary span: it is the last one, or another span follows.
pub primary_span_cases :
    (g hl hd n idx : ℕ)
    → Room g hl hd n
    → idx < n
    → let s = primary_span (domain_span g hd) n idx in
      ((idx + 1 ≡ n)
        × (s.lower ≡ hd + g / n * idx)
        × (s.upper ≡ g + hd - 1)
        × (g / n * idx + g / n ≤ g))
      ⊎ ((idx + 1 < n)
          × (s.lower ≡ hd + g / n * idx)
          × (s.upper ≡ hd + g / n * idx + g / n - 1)
          × (g / n * idx + g / n + g / n ≤ g))
unfolding primary_span domain_span
primary_span_cases g hl hd n idx (pos, room, fit, fit_n) h =
    let top : sub64 (g + hd) 1 ≡ g + hd - 1 = sub64_lem (g + hd) 1 (omega arith) (omega arith) in
    let width : sub64 (sub64 (g + hd) 1) hd + 1 ≡ g =
      omega (arith, sub64_lem (sub64 (g + hd) 1) hd (omega arith) (omega arith)) in
    let last : sub64 n 1 ≡ n - 1 = sub64_lem n 1 pos fit_n in
    let next : g / n * (idx + 1) ≡ g / n * idx + g / n = grind arith in
    let e = part_end g n idx h in
    elim (dec_lt (idx + 1) n) [
      | yes lt ↦
          let e' = part_end g n (idx + 1) lt in
          let inner : (idx == sub64 n 1) ≡ false = ground (arith, last) in
          let high : sub64 (hd + g / n * (idx + 1)) 1 ≡ hd + g / n * idx + g / n - 1 =
            omega (arith, sub64_lem (hd + g / n * (idx + 1)) 1 (omega arith) (omega arith)) in
          rw (width, inner) (inr (lt, refl, high, omega arith))
      | no ge ↦
          let outer : (idx == sub64 n 1) ≡ true = ground (arith, last) in
          rw (width, outer) (inl (omega arith, refl, top, e))
    ]

pub multiple : (a i : ℕ) → (a * i ≡ 0) ⊎ (a ≤ a * i)
multiple a zero = inl (omega arith)
multiple a (suc i) = inr (grind arith)

module _ (g hl hd n idx : ℕ) (room : Room g hl hd n) (h : idx < n) where
  abbrev part : Span
  part = primary_span (domain_span g hd) n idx

  abbrev bnd : OnBoundary
  bnd = on_boundary (domain_span g hd) part

  -- The part is inside the domain, wider than two halos, and a halo away from the boundaries that
  -- it does not touch.
  pub part_facts :
      (part.lower + 2 * hl ≤ part.upper)
      × (part.upper ≤ g + hd - 1)
      × (hd ≤ part.lower)
      × ((part.lower ≡ hd) ⊎ (hd + hl ≤ part.lower))
      × ((part.upper ≡ g + hd - 1) ⊎ (part.upper + hl ≤ g + hd - 1))
  part_facts = elim (primary_span_cases g hl hd n idx room h) [
    | inl c ↦ (omega arith, omega arith, omega arith, start c.1, inl (c.2))
    | inr c ↦ (omega arith, omega arith, omega arith, start c.1, inr (omega arith))
  ]
    where
      start : part.lower ≡ hd + g / n * idx → (part.lower ≡ hd) ⊎ (hd + hl ≤ part.lower)
      start e = elim (multiple (g / n) idx) [
        | inl z ↦ inl (omega arith)
        | inr ge ↦ inr (omega arith)
      ]

  pub domain_lem : ((domain_span g hd).lower ≡ hd) × ((domain_span g hd).upper ≡ g + hd - 1)
  unfolding domain_span
  domain_lem = (refl, sub64_lem (g + hd) 1 (omega arith) (omega arith))

  pub shared-InOrder : InOrder (record { outer = part; inner = exclusive_span hl bnd part })
  unfolding exclusive_span on_boundary
  shared-InOrder = ground (arith, part_facts, sub64_lem part.upper hl)

  pub ghost-InOrder : InOrder (record { outer = ghost_span hl bnd part; inner = part })
  unfolding ghost_span on_boundary
  ghost-InOrder = ground (arith, part_facts, domain_lem, sub64_lem part.lower hl)

  pub halo-InOrder : InOrder (record { outer = halo_span hd bnd part; inner = part })
  unfolding halo_span on_boundary
  halo-InOrder = ground (arith, part_facts, domain_lem, sub64_lem part.lower hd)

  pub ghost_span-reach : ghost_span hl bnd part ≡ reach g hl hd part
  unfolding ghost_span on_boundary
  ghost_span-reach =
      Span-ext _ _ _ _ (ground (arith, part_facts, domain_lem, sub64_lem part.lower hl))
        (ground (arith, part_facts, domain_lem))

  pub halo_span-overhang : halo_span hd bnd part ≡ overhang g hd part
  unfolding halo_span on_boundary
  halo_span-overhang =
      Span-ext _ _ _ _ (ground (arith, part_facts, domain_lem, sub64_lem part.lower hd))
        (ground (arith, part_facts, domain_lem))
