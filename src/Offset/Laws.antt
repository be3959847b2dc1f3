-- ===== src/Offset/Laws.antt =====
-- What an offset range gives back.
use native.Mathlib.Nat.{
  mul-add-div_right, mod-lt, mod-eq_of_lt, div-eq_of_lt, mul-le-mul_right, div-add-mod, one-le-pow,
}
use flecsi.Base.{
  ℕ, ◌+◌, ◌-◌, ◌*◌, ◌/◌, ◌%◌, ◌^◌, ◌≤◌, ◌<◌, ◌≡◌, refl, sym, ap, ◌∙◌, some, leb, ◌&&◌, if_some,
  arith,
}
use flecsi.Words.{pow-add}
use flecsi.Offset.{
  count_mask, start_max, make, get_start, get_count, get_end, make_after, set_count, set_offset,
}

pow_pos : (c : ℕ) → 0 < 2 ^ c
pow_pos c = one-le-pow c 2 (omega arith)

-- A start and a count side by side.
unpack : (p s n : ℕ) → n < p → 0 < p → ((s * p + n) / p ≡ s) × ((s * p + n) % p ≡ n)
unpack p s n lt pos =
    let d : (s * p + n) / p ≡ s = mul-add-div_right pos s n ∙ omega (arith, div-eq_of_lt lt) in
    let e = div-add-mod (s * p + n) p in
    let m : p * ((s * p + n) / p) ≡ s * p = ap (λ q. p * q) d ∙ grind arith in (d, omega arith)

start_fits : (c s : ℕ) → c ≤ 64 → s ≤ 2 ^ (64 - c) - 1 → s * 2 ^ c + 2 ^ c ≤ 2 ^ 64
start_fits c s le h =
    let p = pow_pos (64 - c) in
    let m : (s + 1) * 2 ^ c ≤ 2 ^ (64 - c) * 2 ^ c = mul-le-mul_right (2 ^ c) (omega arith) in
    let q : 2 ^ (64 - c) * 2 ^ c ≡ 2 ^ 64 =
      sym (pow-add 2 (64 - c) c) ∙ ap (λ e. 2 ^ e) (sums c le) in
    let r : (s + 1) * 2 ^ c ≡ s * 2 ^ c + 2 ^ c = grind arith in omega arith
  where
    sums : (c : ℕ) → c ≤ 64 → 64 - c + c ≡ 64
    sums c le = omega arith

-- An offset range that was made gives back its start and its count, and ends behind them.
pub make-get :
    (c start count o : ℕ)
    → c ≤ 64
    → make c start count ≡ some o
    → (get_start c o ≡ start) × (get_count c o ≡ count) × (get_end c o ≡ (start + count) % 2 ^ 64)
unfolding make get_start get_count get_end count_mask start_max
make-get c start count o le run =
    let r =
      if_some (leb count (2 ^ c - 1) && leb start (2 ^ (64 - c) - 1))
        ((start * 2 ^ c) % 2 ^ 64 + count) o run in
    let pos = pow_pos c in
    let lt : count < 2 ^ c = ground (arith, r.0, pos) in
    let fit : start ≤ 2 ^ (64 - c) - 1 = ground (arith, r.0) in
    let w : (start * 2 ^ c) % 2 ^ 64 ≡ start * 2 ^ c =
      mod-eq_of_lt (omega (arith, start_fits c start le fit)) in
    let e : o ≡ start * 2 ^ c + count = omega (arith, r.1) in
    let u = unpack (2 ^ c) start count lt pos in rw (e, u.0, u.1) (refl, refl, refl)

-- An offset range that is made after another starts where that ends.
pub make_after-get :
    (c prev count o : ℕ)
    → c ≤ 64
    → make_after c prev count ≡ some o
    → (get_start c o ≡ get_end c prev) × (get_count c o ≡ count)
unfolding make_after
make_after-get c prev count o le run =
    let r = make-get c (get_end c prev) count o le run in (r.0, r.1)

-- Setting the count keeps the start, and setting the start keeps the count.
pub set_count-get :
    (c o o' o'' count start : ℕ)
    → c ≤ 64
    → set_count c o count ≡ some o'
    → set_offset c o start ≡ some o''
    → ((get_start c o' ≡ get_start c o) × (get_count c o' ≡ count))
      × ((get_start c o'' ≡ start) × (get_count c o'' ≡ get_count c o))
unfolding set_count set_offset get_start get_count count_mask start_max
set_count-get c o o' o'' count start le run run' =
    let pos = pow_pos c in
    let r = if_some (leb count (2 ^ c - 1)) (o / 2 ^ c * 2 ^ c + count) o' run in
    let s =
      if_some (leb start (2 ^ (64 - c) - 1)) (o % 2 ^ c + (start * 2 ^ c) % 2 ^ 64) o'' run' in
    let lt : count < 2 ^ c = ground (arith, r.0, pos) in
    let fit : start ≤ 2 ^ (64 - c) - 1 = ground (arith, s.0) in
    let w : (start * 2 ^ c) % 2 ^ 64 ≡ start * 2 ^ c =
      mod-eq_of_lt (omega (arith, start_fits c start le fit, pos)) in
    let e : o'' ≡ start * 2 ^ c + o % 2 ^ c = omega (arith, s.1) in
    let u = unpack (2 ^ c) (o / 2 ^ c) count lt pos in
    let v = unpack (2 ^ c) start (o % 2 ^ c) (mod-lt o pos) pos in (rw (r.1) u, rw (e) v)
