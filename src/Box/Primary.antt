-- ===== src/Box/Primary.antt =====
-- The primary boxes of all colors partition the domain.
use native.Mathlib.Nat.{div-add-mod, mod-lt, mul-le-mul_left, le-div_iff_mul-le}
use flecsi.Base.{
  ℕ, ◌+◌, ◌-◌, ◌*◌, ◌/◌, ◌^◌, ◌≤◌, ◌<◌, ◌≡◌, ◌↔◌, refl, sym, ◌∙◌, ap, true, arith, min, List, [],
  ◌∷◌, ◌⊎◌, inl, inr, length,
}
use native.Mathlib.Decide.{dec_lt}
use flecsi.Box.{domain_span, primary_span, factor, get_indices}
use flecsi.Box.Axis.{in_span, inside}
use flecsi.Box.Color.{create_domain, create_primary_box}
use flecsi.Box.Indices.{AllBelow, weigh, weigh_below, get_indices_lem}
use flecsi.Box.Spans.{primary_span_cases}

-- The index of the part of one axis that has a cell: the last part takes the remainder.
abbrev pub owner : ℕ → ℕ → ℕ → ℕ → ℕ
owner g hd n x = min ((x - hd) / (g / n)) (n - 1)

mul_step : (f a b : ℕ) → a < b → f * a + f ≤ f * b
mul_step f a b h = grind (arith, mul-le-mul_left f h)

pub primary_span_lem :
    (g hd n idx x : ℕ)
    → 0 < n
    → n ≤ g
    → g + 2 * hd < 2 ^ 64
    → hd ≤ x
    → x < g + hd
    → idx < n
    → (in_span x (primary_span (domain_span g hd) n idx) ≡ true) ↔ (idx ≡ owner g hd n x)
unfolding in_span
primary_span_lem g hd n idx x pos le fit lo hi h =
    let part : 0 < g / n = (le-div_iff_mul-le pos).1 (omega arith) in
    let q = (x - hd) / (g / n) in
    let m = mod-lt (x - hd) part in
    let e = div-add-mod (x - hd) (g / n) in
    let order : (q < idx) × (g / n * q + g / n ≤ g / n * idx)
        ⊎ (idx ≡ q) × (g / n * q ≡ g / n * idx)
        ⊎ (idx < q) × (g / n * idx + g / n ≤ g / n * q) =
      compare_lem (g / n) q idx in
    elim (primary_span_cases g 0 hd n idx (pos, part, fit, omega arith) h) [
      | inl c ↦ ground (arith, m, e, order, c)
      | inr c ↦ ground (arith, m, e, order, c)
    ]
  where
    compare_lem :
        (f q idx : ℕ)
        → (q < idx) × (f * q + f ≤ f * idx)
          ⊎ (idx ≡ q) × (f * q ≡ f * idx)
          ⊎ (idx < q) × (f * idx + f ≤ f * q)
    compare_lem f q idx = elim (dec_lt q idx) [
      | yes lt ↦ inl (lt, mul_step f q idx lt)
      | no ge ↦ elim (dec_lt idx q) [
        | yes lt ↦ inr (inr (lt, mul_step f idx q lt))
        | no ge' ↦ let s : q ≡ idx = omega arith in inr (inl (sym s, ap (λ x. f * x) s))
      ]
    ]

-- The cell is in the domain, and each axis has at least as many cells as parts.
abbrev pub IsIn : ℕ → List ℕ → List ℕ → List ℕ → Type 0
IsIn hd [] [] [] = Unit
IsIn hd (g ∷ grid) (n ∷ ncolors) (x ∷ cell) =
    ((0 < n) × (n ≤ g) × (g + 2 * hd < 2 ^ 64) × (hd ≤ x) × (x < g + hd))
    × IsIn hd grid ncolors cell
IsIn _ _ _ _ = ⊥

abbrev pub owners : ℕ → List ℕ → List ℕ → List ℕ → List ℕ
owners hd (g ∷ grid) (n ∷ ncolors) (x ∷ cell) = owner g hd n x ∷ owners hd grid ncolors cell
owners _ _ _ _ = []

owners-AllBelow :
    (hd : ℕ) (grid ncolors cell : List ℕ)
    → IsIn hd grid ncolors cell
    → AllBelow ncolors (owners hd grid ncolors cell)
owners-AllBelow hd [] [] [] h = tt
owners-AllBelow hd (g ∷ grid) (n ∷ ncolors) (x ∷ cell) h =
    (omega arith, owners-AllBelow hd grid ncolors cell (h.1))
owners-AllBelow hd [] [] (x ∷ cell) h = elim h [ ]
owners-AllBelow hd [] (n ∷ ncolors) cell h = elim h [ ]
owners-AllBelow hd (g ∷ grid) [] cell h = elim h [ ]
owners-AllBelow hd (g ∷ grid) (n ∷ ncolors) [] h = elim h [ ]

weigh_injective :
    (bs ids js : List ℕ) → AllBelow bs ids → AllBelow bs js → weigh bs ids ≡ weigh bs js → ids ≡ js
weigh_injective [] [] [] a b e = refl
weigh_injective (n ∷ bs) (i ∷ ids) (j ∷ js) a b e = elim (dec_lt (weigh bs ids) (weigh bs js)) [
  | yes lt ↦ absurd (omega (arith, mul_step n (weigh bs ids) (weigh bs js) lt))
  | no ge ↦ elim (dec_lt (weigh bs js) (weigh bs ids)) [
    | yes lt ↦ absurd (omega (arith, mul_step n (weigh bs js) (weigh bs ids) lt))
    | no ge' ↦
        let s : weigh bs ids ≡ weigh bs js = omega arith in
        let t : i ≡ j = omega (arith, ap (λ x. n * x) s) in
        cc (t, weigh_injective bs ids js (a.1) (b.1) s)
  ]
]
weigh_injective [] [] (j ∷ js) a b e = elim b [ ]
weigh_injective [] (i ∷ ids) js a b e = elim a [ ]
weigh_injective (n ∷ bs) [] js a b e = elim a [ ]
weigh_injective (n ∷ bs) (i ∷ ids) [] a b e = elim b [ ]

primary_box_lem :
    (hd : ℕ) (grid ncolors cell ids : List ℕ)
    → IsIn hd grid ncolors cell
    → AllBelow ncolors ids
    → (inside cell (create_primary_box (create_domain grid hd) ncolors ids) ≡ true)
      ↔ (ids ≡ owners hd grid ncolors cell)
unfolding inside create_primary_box create_domain
primary_box_lem hd [] [] [] [] h b = (λ e. refl, λ e. refl)
primary_box_lem hd (g ∷ grid) (n ∷ ncolors) (x ∷ cell) (i ∷ ids) ((pos, le, fit, lo, hi), h)
      (lt, b) =
    let p = primary_span_lem g hd n i x pos le fit lo hi lt in
    let r = primary_box_lem hd grid ncolors cell ids h b in ground (arith, p, r)
primary_box_lem hd [] [] [] (i ∷ ids) h b = elim b [ ]
primary_box_lem hd [] [] (x ∷ cell) ids h b = elim h [ ]
primary_box_lem hd [] (n ∷ ncolors) cell ids h b = elim h [ ]
primary_box_lem hd (g ∷ grid) [] cell ids h b = elim h [ ]
primary_box_lem hd (g ∷ grid) (n ∷ ncolors) [] ids h b = elim h [ ]
primary_box_lem hd (g ∷ grid) (n ∷ ncolors) (x ∷ cell) [] h b = elim b [ ]

-- The primary boxes partition the domain: where every axis has at least as many cells as parts and
-- the number of colors fits in a word, a cell of the domain is in the primary box of a color if
-- and only if the color is the one numbered by the parts, axis by axis, that have the cell, and
-- this is one of the colors.
pub primary_box-owner :
    (hd : ℕ) (grid ncolors cell : List ℕ) (rank : ℕ)
    → IsIn hd grid ncolors cell
    → rank < factor (length ncolors) ncolors
    → factor (length ncolors) ncolors < 2 ^ 64
    → ((inside cell (create_primary_box (create_domain grid hd) ncolors (get_indices ncolors rank))
          ≡ true)
        ↔ (rank ≡ weigh ncolors (owners hd grid ncolors cell)))
      × (weigh ncolors (owners hd grid ncolors cell) < factor (length ncolors) ncolors)
primary_box-owner hd grid ncolors cell rank h lt fit =
    let r = get_indices_lem ncolors rank lt (omega arith) in
    let b = owners-AllBelow hd grid ncolors cell h in
    let p = primary_box_lem hd grid ncolors cell (get_indices ncolors rank) h (r.0) in
    (
      (
        λ e. sym (r.1) ∙ ap (weigh ncolors) (p.0 e),
        λ e. p.1 (weigh_injective ncolors _ _ (r.0) b (r.1 ∙ e)),
      ),
      weigh_below ncolors (owners hd grid ncolors cell) b,
    )
