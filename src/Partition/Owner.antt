-- ===== src/Partition/Owner.antt =====
-- The owner of an index under a subdivision.
use flecsi.Base.{
  ℕ, zero, suc, ◌+◌, ◌-◌, ◌^◌, ◌≤◌, ◌<◌, ◌≡◌, ap, List, [], ◌∷◌, arith, get_or, length, ◌↔◌, none,
  some,
}
use native.Mathlib.Decide.{dec_lt}
use flecsi.Partition.{subdivide, upper_bound, rank_owner}
use flecsi.Partition.Bounds.{bound, bound_end, bound_mono, length-subdivide, get_or-subdivide}

-- All elements before the position are at most `i`, and the one there is above it.
upper_bound_before : (ds : List ℕ) (i k : ℕ) → k < upper_bound ds i → get_or ds k 0 ≤ i
unfolding upper_bound
upper_bound_before [] i k h = absurd (omega arith)
upper_bound_before (d ∷ ds) i zero h = ground arith
upper_bound_before (d ∷ ds) i (suc k) h = ground (arith, upper_bound_before ds i k)

upper_bound_at :
    (ds : List ℕ) (i : ℕ) → upper_bound ds i < length ds → i < get_or ds (upper_bound ds i) 0
unfolding upper_bound
upper_bound_at [] i h = absurd (omega arith)
upper_bound_at (d ∷ ds) i h = ground (arith, upper_bound_at ds i)

upper_bound-le-length : (ds : List ℕ) (i : ℕ) → upper_bound ds i ≤ length ds
unfolding upper_bound
upper_bound-le-length [] i = omega arith
upper_bound-le-length (d ∷ ds) i = ground (arith, upper_bound-le-length ds i)

-- Some element above `i` stands at `k`, so the position is at most `k`.
upper_bound-le : (ds : List ℕ) (i k : ℕ) → k < length ds → i < get_or ds k 0 → upper_bound ds i ≤ k
unfolding upper_bound
upper_bound-le [] i k h g = absurd (omega arith)
upper_bound-le (d ∷ ds) i zero h g = ground arith
upper_bound-le (d ∷ ds) i (suc k) h g = ground (arith, upper_bound-le ds i k)

-- The position of an index that lies in part `r`.
upper_bound-subdivide :
    (n p r i : ℕ)
    → r < p
    → bound n p r ≤ i
    → i < bound n p (suc r)
    → upper_bound (subdivide n p []) i ≡ suc r
upper_bound-subdivide n p r i hr lo hi =
    let u = upper_bound (subdivide n p []) i in
    let len = length-subdivide n p in
    let above =
      upper_bound-le (subdivide n p []) i (suc r) (omega (arith, len))
        (omega (arith, get_or-subdivide n p (suc r) hr)) in
    elim (dec_lt r u) [
      | yes lt ↦ omega arith
      | no ge ↦
          let at = upper_bound_at (subdivide n p []) i (omega (arith, len)) in
          let e = get_or-subdivide n p u (omega arith) in
          let m = bound_mono n p u (r - u) in
          let eq : u + (r - u) ≡ r = omega arith in
          absurd (omega (arith, at, e, m, ap (bound n p) eq, lo))
    ]

rank_owner_in :
    (n p r i : ℕ)
    → p < 2 ^ 63
    → r < p
    → bound n p r ≤ i
    → i < bound n p (suc r)
    → rank_owner (subdivide n p []) i ≡ some r
unfolding rank_owner
rank_owner_in n p r i small hr lo hi =
    ground (arith, upper_bound-subdivide n p r i hr lo hi, length-subdivide n p)

-- Every index of the space lies in some part.
part_of :
    (n p i rounds : ℕ)
    → i < bound n p rounds
    → (r : ℕ) × (r < rounds) × (bound n p r ≤ i) × (i < bound n p (suc r))
part_of n p i zero h = absurd (omega arith)
part_of n p i (suc rounds) h = elim (dec_lt i (bound n p rounds)) [
  | yes lt ↦ let (r, a, b, c) = part_of n p i rounds lt in (r, omega arith, b, c)
  | no ge ↦ (rounds, omega arith, omega arith, h)
]

owner_in :
    (n p i : ℕ)
    → 0 < p
    → p < 2 ^ 63
    → i < n
    → (r : ℕ) × (r < p)
      × (bound n p r ≤ i)
      × (i < bound n p (suc r))
      × (rank_owner (subdivide n p []) i ≡ some r)
owner_in n p i pos small h =
    let (r, hr, lo, hi) = part_of n p i p (omega (arith, bound_end n p pos)) in
    (r, hr, lo, hi, rank_owner_in n p r i small hr lo hi)

-- For 0 < p < 2^63 parts the assertion of `rank_owner` fails exactly for the indices from n on.
pub rank_owner-none_iff :
    (n p i : ℕ) → 0 < p → p < 2 ^ 63 → (rank_owner (subdivide n p []) i ≡ none) ↔ (n ≤ i)
unfolding rank_owner
rank_owner-none_iff n p i pos small =
    let u = upper_bound (subdivide n p []) i in
    let len = length-subdivide n p in
    let le = upper_bound-le-length (subdivide n p []) i in
    (
      λ e. elim (dec_lt i n) [
        | yes lt ↦
            let (r, hr, lo, hi, own) = owner_in n p i pos small lt in absurd (ground (arith, own))
        | no ge ↦ omega arith
      ],
      λ h. elim (dec_lt u (suc p)) [
        | yes lt ↦
            let at = upper_bound_at (subdivide n p []) i (omega (arith, len)) in
            let e = get_or-subdivide n p u (omega arith) in
            let m = bound_mono n p u (p - u) in
            let eq : u + (p - u) ≡ p = omega arith in
            absurd (omega (arith, at, e, m, ap (bound n p) eq, bound_end n p pos))
        | no ge ↦ ground (arith, len, le)
      ],
    )

-- For 0 < p < 2^63 parts, the owner of an index i is the part q exactly if i lies from boundary q
-- up to boundary q + 1 of the subdivision.
pub rank_owner-subdivide :
    (n p i q : ℕ)
    → 0 < p
    → p < 2 ^ 63
    → q < p
    → (rank_owner (subdivide n p []) i ≡ some q)
      ↔ ((get_or (subdivide n p []) q 0 ≤ i) × (i < get_or (subdivide n p []) (suc q) 0))
rank_owner-subdivide n p i q pos small hq =
    let a = get_or-subdivide n p q (omega arith) in
    let b = get_or-subdivide n p (suc q) hq in
    (
      λ e. elim (dec_lt i n) [
        | yes lt ↦
            let (r, hr, lo, hi, own) = owner_in n p i pos small lt in
            let same : r ≡ q = cc in ground (arith, a, b)
        | no ge ↦ absurd (ground (arith, (rank_owner-none_iff n p i pos small).1 (omega arith)))
      ],
      λ within.
          rank_owner_in n p q i small hq (omega (arith, a, within.0)) (omega (arith, b, within.1)),
    )
