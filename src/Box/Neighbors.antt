-- ===== src/Box/Neighbors.antt =====
-- The parts next to a part of one axis have the cells of its ghosts.
use native.Mathlib.Nat.{le-div_iff_mul-le}
use flecsi.Base.{ℕ, ◌+◌, ◌-◌, ◌*◌, ◌/◌, ◌≤◌, ◌<◌, ◌≡◌, refl, ap, true, arith, ◌⊎◌, inl, inr}
use native.Mathlib.Decide.{dec_lt}
use flecsi.Words.{sub64, sub64_lem}
use flecsi.Box.{
  Span, Cuts, Side, low, mid, high, domain_span, primary_span, on_boundary, ghost_span, step,
}
use flecsi.Box.Axis.{in_span, side_of, is_wide}
use flecsi.Box.Spans.{Room, primary_span_cases, part_facts, domain_lem}
use flecsi.Box.Primary.{owner, primary_span_lem}

-- The cuts of the ghost boxes on one axis.
abbrev pub cuts : ℕ → ℕ → ℕ → ℕ → ℕ → Cuts
cuts g hl hd n idx =
    let part = primary_span (domain_span g hd) n idx in
    record { outer = ghost_span hl (on_boundary (domain_span g hd) part) part; inner = part }

module _ (g hl hd n idx : ℕ) (room : Room g hl hd n) (h : idx < n) where
  abbrev part : ℕ → Span
  part i = primary_span (domain_span g hd) n i

  -- A part that another follows ends where that begins.
  next_lem :
      (i j : ℕ)
      → j ≡ i + 1
      → j < n
      → ((part i).lower + g / n ≡ (part j).lower) × ((part i).upper + 1 ≡ (part j).lower)
  next_lem i j e lt =
      let m : g / n * (i + 1) ≡ g / n * i + g / n = grind arith in
      let m' : g / n * j ≡ g / n * (i + 1) = ap (λ x. g / n * x) e in
      let a : ((part i).lower ≡ hd + g / n * i) × ((part i).upper ≡ hd + g / n * i + g / n - 1) =
        elim (primary_span_cases g hl hd n i room (omega arith)) [
          | inl c ↦ absurd (omega arith)
          | inr c ↦ (c.1, c.2)
        ] in
      let b : (part j).lower ≡ hd + g / n * j = elim (primary_span_cases g hl hd n j room lt) [
        | inl c ↦ c.1
        | inr c ↦ c.1
      ] in
      (omega arith, omega arith)

  -- Without a part before it a part begins with the domain, and without one behind it ends there.
  ends_lem :
      ((idx ≡ 0) × ((part idx).lower ≡ hd) ⊎ (0 < idx))
      × ((idx + 1 ≡ n) × ((part idx).upper ≡ g + hd - 1) ⊎ (idx + 1 < n))
  ends_lem = elim (primary_span_cases g hl hd n idx room h) [
    | inl c ↦ (start c.1, inl (c.0, c.2))
    | inr c ↦ (start c.1, inr c.0)
  ]
    where
      start : (part idx).lower ≡ hd + g / n * idx → (idx ≡ 0) × ((part idx).lower ≡ hd) ⊎ (0 < idx)
      start e = elim (dec_lt 0 idx) [
        | yes lt ↦ inr lt
        | no ge ↦ let z : idx ≡ 0 = omega arith in inl (z, omega (arith, ap (λ x. g / n * x) z))
      ]

  -- A cell of the outer span lies in the part on its side, and there is such a part.
  neighbor_has :
      (x : ℕ) (s : Side)
      → (in_span x (cuts g hl hd n idx).outer ≡ true)
      → s ≡ side_of (cuts g hl hd n idx) x
      → (step s idx < n) × (in_span x (part (step s idx)) ≡ true)
  unfolding in_span ghost_span on_boundary side_of step
  neighbor_has x low o e =
      let f = part_facts g hl hd n idx room h in
      let d = domain_lem g hl hd n idx room h in
      let off : hd + hl ≤ (part idx).lower = ground (arith, f, d) in
      let w = sub64_lem (part idx).lower hl (omega arith) (omega arith) in
      let pos : 0 < idx = ground (arith, ends_lem, f, d) in
      let sl = sub64_lem idx 1 pos (omega arith) in
      let nx = next_lem (sub64 idx 1) idx (omega arith) h in
      (omega arith, ground (arith, f, d, w, nx))
  neighbor_has x mid o e = (h, ground arith)
  neighbor_has x high o e =
      let f = part_facts g hl hd n idx room h in
      let d = domain_lem g hl hd n idx room h in
      let more : idx + 1 < n = ground (arith, ends_lem, f, d) in
      let nx = next_lem idx (idx + 1) refl more in
      let f' = part_facts g hl hd n (idx + 1) room more in (more, ground (arith, f, d, nx, f'))

  -- The owner of a cell of the outer span is the part on its side.
  pub neighbor-owner :
      (x : ℕ)
      → (in_span x (cuts g hl hd n idx).outer ≡ true)
      → (step (side_of (cuts g hl hd n idx) x) idx < n)
        × (step (side_of (cuts g hl hd n idx) x) idx ≡ owner g hd n x)
  unfolding in_span
  neighbor-owner x o =
      let s = step (side_of (cuts g hl hd n idx) x) idx in
      let r : (s < n) × (in_span x (part s) ≡ true) =
        neighbor_has x (side_of (cuts g hl hd n idx) x) o refl in
      let f = part_facts g hl hd n s room r.0 in
      let le : n ≤ g =
        omega (arith, (le-div_iff_mul-le {x = 1} {y = g} (room.0)).0 (omega arith)) in
      (
        r.0,
        (primary_span_lem g hd n s x (room.0) le (room.2) (ground (arith, r.1, f))
              (ground (arith, r.1, f)) (r.0)).0
            (r.1),
      )

  -- Where the halo is not empty the part has more than one cell.
  pub is_wide-cuts :
      (x : ℕ)
      → (in_span x (cuts g hl hd n idx).outer ≡ true)
      → (0 < hl) × (is_wide (cuts g hl hd n idx) ≡ true)
        ⊎ (hl ≡ 0) × (side_of (cuts g hl hd n idx) x ≡ mid)
  unfolding in_span ghost_span on_boundary side_of is_wide
  is_wide-cuts x o =
      let f = part_facts g hl hd n idx room h in
      let z = sub64_lem (part idx).lower hl in
      elim (dec_lt 0 hl) [
        | yes lt ↦ inl (lt, ground (arith, f))
        | no ge ↦ inr (omega arith, ground (arith, f, z))
      ]
