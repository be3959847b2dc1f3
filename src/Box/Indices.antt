-- ===== src/Box/Indices.antt =====
-- `get_indices` is the inverse of the numbering of the colors.
use native.Mathlib.Nat.{div-add-mod, mod-lt, div-lt_iff_lt-mul, mul-le-mul_left}
use flecsi.Base.{
  ℕ, zero, suc, ◌+◌, ◌-◌, ◌*◌, ◌/◌, ◌%◌, ◌^◌, ◌≤◌, ◌<◌, ◌≡◌, refl, sym, subst, ◌∙◌, ap, List, [],
  ◌∷◌, arith, length, drop, get_or,
}
use flecsi.Words.{sub64, sub64_lem}
use flecsi.Box.{factor, indices_loop, get_indices}

-- As many indices as bounds, each below its bound.
abbrev pub AllBelow : List ℕ → List ℕ → Type 0
AllBelow [] [] = Unit
AllBelow (b ∷ bs) (i ∷ ids) = (i < b) × AllBelow bs ids
AllBelow _ _ = ⊥

-- The color at the given indices: the first index varies fastest.
abbrev pub weigh : List ℕ → List ℕ → ℕ
weigh (b ∷ bs) (i ∷ ids) = i + b * weigh bs ids
weigh _ _ = 0

factor-suc : (n : ℕ) (bs : List ℕ) → n < length bs → factor (suc n) bs ≡ factor n bs * get_or bs n 0
unfolding factor
factor-suc n [] h = absurd (omega arith)
factor-suc zero (b ∷ bs) h = ground arith
factor-suc (suc n) (b ∷ bs) h = ap (λ m. b * m) (factor-suc n bs (omega arith)) ∙ ground arith

drop-get : (n : ℕ) (bs : List ℕ) → n < length bs → drop n bs ≡ get_or bs n 0 ∷ drop (suc n) bs
drop-get n [] h = absurd (omega arith)
drop-get zero (b ∷ bs) h = refl
drop-get (suc n) (b ∷ bs) h = drop-get n bs (omega arith)

-- One round: the remainder and the quotient.
round_lem :
    (rem f b : ℕ)
    → rem < f * b
    → rem < 2 ^ 64
    → (0 < f)
      × (rem / f < b)
      × (sub64 rem (rem / f * f) < f)
      × (rem ≡ sub64 rem (rem / f * f) + f * (rem / f))
round_lem rem f b h w =
    let p : 0 < f = grind arith in
    let e : rem ≡ f * (rem / f) + rem % f = sym (div-add-mod rem f) in
    let m : rem % f < f = mod-lt rem p in
    let c : rem / f * f ≡ f * (rem / f) = grind arith in
    let s : sub64 rem (rem / f * f) ≡ rem - rem / f * f =
      sub64_lem rem (rem / f * f) (omega arith) w in
    (p, (div-lt_iff_lt-mul p).1 (grind arith), omega arith, omega arith)

factor_zero : (bs : List ℕ) → factor 0 bs ≡ 1
unfolding factor
factor_zero bs = refl

add_lem : (f b v tail : ℕ) → f * (v + b * tail) ≡ f * v + f * b * tail
add_lem f b v tail = grind arith

join_lem :
    (rem f b v tail rest whole next : ℕ)
    → rem ≡ rest + f * v
    → whole ≡ v + b * tail
    → next ≡ f * b
    → rest + f * whole ≡ rem + next * tail
join_lem rem f b v tail rest whole next e w n =
    omega (arith, e, ap (λ x. f * x) w, ap (λ x. x * tail) n, add_lem f b v tail)

module _ (bs : List ℕ) where
  indices_loop_lem :
      (n rem : ℕ) (id : List ℕ)
      → n ≤ length bs
      → rem < factor n bs
      → rem < 2 ^ 64
      → AllBelow (drop n bs) id
      → AllBelow bs (indices_loop bs n rem id)
        × (weigh bs (indices_loop bs n rem id) ≡ rem + factor n bs * weigh (drop n bs) id)
  unfolding indices_loop
  indices_loop_lem zero rem id h lt w below =
      (below, omega (arith, factor_zero bs, ap (λ x. x * weigh bs id) (factor_zero bs)))
  indices_loop_lem (suc n) rem id h lt w below =
      let fs = factor-suc n bs h in
      let d = drop-get n bs h in
      let v = rem / factor n bs in
      let r = round_lem rem (factor n bs) (get_or bs n 0) (subst (λ x. rem < x) fs lt) w in
      let ih =
        indices_loop_lem n (sub64 rem (v * factor n bs)) (v ∷ id) (omega arith) (r.2)
          (omega (arith, r.3)) (subst (λ l. AllBelow l (v ∷ id)) (sym d) (r.1, below)) in
      let tail = weigh (drop (suc n) bs) id in
      let split : weigh (drop n bs) (v ∷ id) ≡ v + get_or bs n 0 * tail =
        ap (λ l. weigh l (v ∷ id)) d in
      (ih.0, ih.1 ∙ join_lem rem (factor n bs) (get_or bs n 0) v tail _ _ _ (r.3) split fs)

drop_end : (bs : List ℕ) → drop (length bs) bs ≡ []
drop_end [] = refl
drop_end (b ∷ bs) = drop_end bs

-- A color below the product of the bounds has indices below the bounds, and is the color at these
-- indices.
pub get_indices_lem :
    (cobnds : List ℕ) (rank : ℕ)
    → rank < factor (length cobnds) cobnds
    → rank < 2 ^ 64
    → AllBelow cobnds (get_indices cobnds rank) × (weigh cobnds (get_indices cobnds rank) ≡ rank)
unfolding get_indices
get_indices_lem cobnds rank h w =
    let d = drop_end cobnds in
    let r =
      indices_loop_lem cobnds (length cobnds) rank [] (omega arith) h w
        (subst (λ l. AllBelow l []) (sym d) tt) in
    let z : weigh (drop (length cobnds) cobnds) [] ≡ 0 = ap (λ l. weigh l []) d in
    (r.0, r.1 ∙ omega (arith, ap (λ x. factor (length cobnds) cobnds * x) z))

-- Indices below the bounds number a color below the product of the bounds.
pub weigh_below : (bs ids : List ℕ) → AllBelow bs ids → weigh bs ids < factor (length bs) bs
unfolding factor
weigh_below [] [] h = omega arith
weigh_below (b ∷ bs) (i ∷ ids) h =
    let r = weigh_below bs ids (h.1) in
    let m : b * (weigh bs ids + 1) ≤ b * factor (length bs) bs = mul-le-mul_left b (omega arith) in
    let e : b * (weigh bs ids + 1) ≡ b * weigh bs ids + b = grind arith in omega arith
weigh_below [] (i ∷ ids) h = elim h [ ]
weigh_below (b ∷ bs) [] h = elim h [ ]
