-- ===== src/Branch/Path.antt =====
-- What the operations on branch ids do to the path.
use native.Mathlib.Nat.{mul-add-div_right, mod-eq_of_lt, div-eq_of_lt}
use native.Mathlib.Decide.{dec_lt}
use flecsi.Base.{
  ℕ, suc, ◌+◌, ◌-◌, ◌*◌, ◌/◌, ◌%◌, ◌^◌, ◌≤◌, ◌<◌, ◌≡◌, refl, ap, ◌∙◌, true, false, some, arith, ltb,
  leb, ◌==◌, ◌&&◌, ◌⊎◌, inl, inr, if_some,
}
use flecsi.Branch.{depth, push, pop, pop_by, truncate}
use flecsi.Branch.Depth.{depth-parent, depth-shift}

-- Pushing a group of bits onto a branch id that is not null and has room for the group succeeds,
-- makes the id one level deeper, and `pop` takes the group off again.
pub push-pop :
    (bits dimension id group : ℕ)
    → 0 < dimension
    → 0 < id
    → id * 2 ^ dimension + 2 ^ dimension ≤ 2 ^ bits
    → group < 2 ^ dimension
    → (child : ℕ) × (push bits dimension id group ≡ some child)
      × (depth bits dimension child ≡ suc (depth bits dimension id))
      × (pop bits dimension child ≡ some id)
unfolding push pop
push-pop bits dimension id group pos nonnull room small =
    let child = id * 2 ^ dimension + group in
    let p : 0 < 2 ^ dimension = omega arith in
    let wrap : (id * 2 ^ dimension) % 2 ^ bits ≡ id * 2 ^ dimension = mod-eq_of_lt (omega arith) in
    let back : child / 2 ^ dimension ≡ id =
      mul-add-div_right p id group ∙ omega (arith, div-eq_of_lt small) in
    let below : ltb group (2 ^ dimension) ≡ true = ground arith in
    let nz : (id == 0) ≡ false = ground arith in
    let deep : depth bits dimension child ≡ suc (depth bits dimension id) =
      depth-parent dimension pos bits child (omega arith) ∙ rw (back, nz) refl in
    let popped : ltb 0 (depth bits dimension child) ≡ true = ground (arith, deep) in
    (child, rw (below, wrap) refl, deep, rw (popped, back) refl)

-- Truncating to a depth that the branch has gives an id of that depth; to a greater one changes
-- nothing.
pub truncate-depth :
    (bits dimension id to_depth : ℕ)
    → 0 < dimension
    → id < 2 ^ bits
    → ((to_depth ≤ depth bits dimension id)
        × (depth bits dimension (truncate bits dimension to_depth id) ≡ to_depth))
      ⊎ ((depth bits dimension id < to_depth) × (truncate bits dimension to_depth id ≡ id))
unfolding truncate
truncate-depth bits dimension id to_depth pos fit =
    elim (dec_lt (depth bits dimension id) to_depth) [
      | yes lt ↦ inr (lt, ground arith)
      | no ge ↦
          let e : ltb (depth bits dimension id) to_depth ≡ false = ground arith in
          let s = depth-shift dimension pos bits (depth bits dimension id - to_depth) id fit in
          inl (omega arith, rw e (s ∙ omega arith))
    ]

-- `pop(d)` fails for fewer levels than the branch is deep, and where it succeeds nothing but the
-- depth of the root is left.
pub pop_by_lem :
    (bits dimension id d rest : ℕ)
    → 0 < dimension
    → id < 2 ^ bits
    → pop_by bits dimension d id ≡ some rest
    → (depth bits dimension id ≤ d) × (depth bits dimension rest ≡ 0)
unfolding pop_by
pop_by_lem bits dimension id d rest pos fit run =
    let c =
      if_some (leb (depth bits dimension id) d && ltb (d * dimension) bits)
        (id / 2 ^ (d * dimension)) rest run in
    let le : depth bits dimension id ≤ d = ground (arith, c.0) in
    (le, ap (depth bits dimension) (c.1) ∙ depth-shift dimension pos bits d id fit ∙ omega arith)
