-- ===== src/Branch/Depth.antt =====
-- The depth of a branch id: the fuel of the loop, and what shifts do to it.
use native.Mathlib.Nat.{
  div-div-eq-div-mul, div-lt_iff_lt-mul, div-eq_of_lt, pow-le-pow_right, mul-le-mul_left, pow-suc,
  div-le_self, zero-div, div-one,
}
use flecsi.Base.{
  ℕ, zero, suc, ◌-◌, ◌*◌, ◌/◌, ◌^◌, ◌≤◌, ◌<◌, ◌≡◌, refl, sym, ap, ◌∙◌, arith, ◌==◌, if◌then◌else◌,
}
use native.Mathlib.Decide.{dec_lt}
use flecsi.Words.{pow-add}
use flecsi.Branch.{depth_loop, depth}

-- The loop does not depend on the width that the section carries.
loop_bits : (w v f dimension id : ℕ) → depth_loop w dimension f id ≡ depth_loop v dimension f id
unfolding depth_loop
loop_bits w v zero dimension id = refl
loop_bits w v (suc f) dimension id =
    ap (λ r. if id / 2 ^ dimension == 0 then 0 else suc r)
      (loop_bits w v f dimension (id / 2 ^ dimension))

module _ (dimension : ℕ) (pos : 0 < dimension) where
  pub two_le : 2 ≤ 2 ^ dimension
  two_le = pow-le-pow_right {n = 2} (omega arith) {i = 1} pos

  half_lt : (id f : ℕ) → id < 2 ^ (suc f) → id / 2 ^ dimension < 2 ^ f
  half_lt id f h =
      let p : 0 < 2 ^ dimension = omega (arith, two_le) in
      let a : 2 ^ f * 2 ≤ 2 ^ f * 2 ^ dimension = mul-le-mul_left (2 ^ f) two_le in
      let b : 2 ^ suc f ≡ 2 ^ f * 2 = pow-suc 2 f in (div-lt_iff_lt-mul p).1 (omega arith)

  depth_loop_stable :
      (w f id : ℕ) → id < 2 ^ f → depth_loop w dimension (suc f) id ≡ depth_loop w dimension f id
  unfolding depth_loop
  depth_loop_stable w zero id h =
      let z : id / 2 ^ dimension ≡ 0 = div-eq_of_lt (omega (arith, two_le)) in ground (arith, z)
  depth_loop_stable w (suc f) id h =
      let ih = depth_loop_stable w f (id / 2 ^ dimension) (half_lt id f h) in
      ap (λ r. if id / 2 ^ dimension == 0 then 0 else suc r) ih

  -- Depth is one more than that of the parent, if there is one.
  pub depth-parent :
      (w id : ℕ)
      → id < 2 ^ w
      → depth w dimension id
        ≡ (if id / 2 ^ dimension == 0 then 0 else suc (depth w dimension (id / 2 ^ dimension)))
  unfolding depth depth_loop
  depth-parent zero id h =
      let z : id / 2 ^ dimension ≡ 0 = div-eq_of_lt (omega (arith, two_le)) in ground (arith, z)
  depth-parent (suc w) id h =
      ap (λ r. if id / 2 ^ dimension == 0 then 0 else suc r)
        (loop_bits (suc w) w w dimension (id / 2 ^ dimension)
          ∙ sym (depth_loop_stable w w (id / 2 ^ dimension) (half_lt id w h))
          ∙ loop_bits w (suc w) (suc w) dimension (id / 2 ^ dimension))

  -- A shift by several groups, one after another.
  pub shift_suc :
      (id n : ℕ) → id / 2 ^ (suc n * dimension) ≡ id / 2 ^ dimension / 2 ^ (n * dimension)
  shift_suc id n =
      ap (λ e. id / 2 ^ e) (omega arith)
      ∙ ap (λ d. id / d) (pow-add 2 dimension (n * dimension))
      ∙ sym (div-div-eq-div-mul id (2 ^ dimension) (2 ^ (n * dimension)))

  pub depth_of_small : (w id : ℕ) → id < 2 ^ w → id / 2 ^ dimension ≡ 0 → depth w dimension id ≡ 0
  depth_of_small w id h z = depth-parent w id h ∙ ground (arith, z)

  -- Shifting out groups takes as many levels off, down to none.
  pub depth-shift :
      (w n id : ℕ)
      → id < 2 ^ w
      → depth w dimension (id / 2 ^ (n * dimension)) ≡ depth w dimension id - n
  depth-shift w zero id h =
      let z : 0 * dimension ≡ 0 = omega arith in
      ap (λ e. depth w dimension (id / 2 ^ e)) z ∙ ap (depth w dimension) (div-one id) ∙ omega arith
  depth-shift w (suc n) id h =
      let less : id / 2 ^ dimension < 2 ^ w = omega (arith, div-le_self id (2 ^ dimension)) in
      let ih = depth-shift w n (id / 2 ^ dimension) less in
      ap (depth w dimension) (shift_suc id n) ∙ ih ∙ (elim (dec_lt 0 (id / 2 ^ dimension)) [
        | yes lt ↦ ground (arith, depth-parent w id h)
        | no ge ↦
            let z : id / 2 ^ dimension ≡ 0 = omega arith in
            let zz : id / 2 ^ dimension / 2 ^ dimension ≡ 0 =
              ap (λ x. x / 2 ^ dimension) z ∙ zero-div (2 ^ dimension) in
            omega (arith, depth_of_small w id h z, depth_of_small w (id / 2 ^ dimension) less zz)
      ])
