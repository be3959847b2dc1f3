-- ===== src/Partition/Bounds.antt =====
-- The boundaries that `subdivide` computes, in closed form.
use native.Mathlib.Nat.{div-add-mod, mod-lt}
use flecsi.Base.{
  ℕ, zero, suc, ◌+◌, ◌-◌, ◌*◌, ◌/◌, ◌%◌, ◌≤◌, ◌<◌, ◌≡◌, refl, sym, ◌∙◌, ap, List, [], ◌∷◌, ◌++◌,
  arith, get_or, length, length-append, get_or-append_left, get_or-append_at, ◌⊎◌, inl, inr,
}
use native.Mathlib.Decide.{dec_lt}
use flecsi.Partition.{part_size, subdivide_loop, subdivide, offset_loop}

-- The first index of part `r`: the parts with one more element are the last ones.
abbrev pub bound : ℕ → ℕ → ℕ → ℕ
bound n p r = r * (n / p) + (r - (p - n % p))

pub bound-suc : (n p r : ℕ) → bound n p (suc r) ≡ bound n p r + part_size n p r
unfolding part_size
bound-suc n p r = ground arith

pub bound_end : (n p : ℕ) → 0 < p → bound n p p ≡ n
bound_end n p h = omega (arith, div-add-mod n p, mod-lt n h)

pub bound_mono : (n p r k : ℕ) → bound n p r ≤ bound n p (r + k)
bound_mono n p r zero = omega arith
bound_mono n p r (suc k) = omega (arith, bound_mono n p r k)

-- The boundaries 0 to `r`.
bounds : ℕ → ℕ → ℕ → List ℕ
bounds n p zero = 0 ∷ []
bounds n p (suc r) = bounds n p r ++ bound n p (suc r) ∷ []

length-bounds : (n p r : ℕ) → length (bounds n p r) ≡ suc r
unfolding bounds
length-bounds n p zero = refl
length-bounds n p (suc r) =
    omega (arith, length-append (bounds n p r) (bound n p (suc r) ∷ []), length-bounds n p r)

get_or-bounds : (n p r k : ℕ) → k ≤ r → get_or (bounds n p r) k 0 ≡ bound n p k
unfolding bounds
get_or-bounds n p zero k h = ground arith
get_or-bounds n p (suc r) k h = elim (dec_lt k (suc r)) [
  | yes lt ↦
      get_or-append_left (bounds n p r) _ k 0 (omega (arith, length-bounds n p r))
      ∙ get_or-bounds n p r k (omega arith)
  | no ge ↦
      let e : k ≡ length (bounds n p r) = omega (arith, length-bounds n p r) in
      let e' : k ≡ suc r = omega arith in
      ap (λ j. get_or (bounds n p r ++ bound n p (suc r) ∷ []) j 0) e
      ∙ get_or-append_at (bounds n p r) [] _ 0
      ∙ ap (bound n p) (sym e')
]

subdivide_loop-bounds :
    (n p rounds r : ℕ) → subdivide_loop n p rounds r (bounds n p r) ≡ bounds n p (r + rounds)
unfolding subdivide_loop bounds
subdivide_loop-bounds n p zero r = ground arith
subdivide_loop-bounds n p (suc rounds) r = ground (
  arith,
  get_or-bounds n p r r (omega arith),
  bound-suc n p r,
  subdivide_loop-bounds n p rounds (suc r),
)

subdivide-eq-bounds : (n p : ℕ) → subdivide n p [] ≡ bounds n p p
unfolding subdivide bounds
subdivide-eq-bounds n p = ground (arith, subdivide_loop-bounds n p p 0)

pub length-subdivide : (n p : ℕ) → length (subdivide n p []) ≡ suc p
length-subdivide n p = ap length (subdivide-eq-bounds n p) ∙ length-bounds n p p

-- Each boundary up to the last is the closed form.
pub get_or-subdivide : (n p k : ℕ) → k ≤ p → get_or (subdivide n p []) k 0 ≡ bound n p k
get_or-subdivide n p k h =
    ap (λ l. get_or l k 0) (subdivide-eq-bounds n p) ∙ get_or-bounds n p p k h

-- Subdividing n elements into p parts, p positive, gives p + 1 boundaries from 0 to n, and each
-- part r has n / p elements, or one more if it is among the last n % p parts.
pub subdivide_balanced :
    (n p r : ℕ)
    → 0 < p
    → r < p
    → (length (subdivide n p []) ≡ suc p)
      × (get_or (subdivide n p []) 0 0 ≡ 0)
      × (get_or (subdivide n p []) p 0 ≡ n)
      × ((r + n % p < p)
            × (get_or (subdivide n p []) (suc r) 0 ≡ get_or (subdivide n p []) r 0 + n / p)
          ⊎ (p ≤ r + n % p)
            × (get_or (subdivide n p []) (suc r) 0 ≡ get_or (subdivide n p []) r 0 + n / p + 1))
subdivide_balanced n p r pos hr =
    let a = get_or-subdivide n p r (omega arith) in
    let b = get_or-subdivide n p (suc r) hr in
    let m = mod-lt n pos in
    (
      length-subdivide n p,
      omega (arith, get_or-subdivide n p 0 (omega arith)),
      omega (arith, get_or-subdivide n p p (omega arith), bound_end n p pos),
      elim (dec_lt (r + n % p) p) [
        | yes lo ↦ inl (lo, omega (arith, a, b, m))
        | no hi ↦ inr (omega arith, omega (arith, a, b, m))
      ],
    )

-- The summing loop of the naive coloring ends at the same boundary.
offset_loop-bound :
    (n p rounds r : ℕ) → offset_loop n p rounds r (bound n p r) ≡ bound n p (r + rounds)
unfolding offset_loop
offset_loop-bound n p zero r = ground arith
offset_loop-bound n p (suc rounds) r =
    ground (arith, bound-suc n p r, offset_loop-bound n p rounds (suc r))

pub offset_loop_lem : (n p r : ℕ) → offset_loop n p r 0 0 ≡ bound n p r
offset_loop_lem n p r = ground (arith, offset_loop-bound n p r 0)
