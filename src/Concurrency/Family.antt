-- ===== src/Concurrency/Family.antt =====
-- Values given for each thread: the change of one, and the sum of weights over the first threads.
use flecsi.Base.{
  ℕ, zero, suc, ◌+◌, ◌≤◌, ◌<◌, ◌≡◌, ◌≢◌, refl, sym, subst, arith, ap, ◌==◌, if◌then◌else◌, ==_refl,
  ==_ne,
}
use native.Mathlib.Decide.{dec_lt, ℕ_discrete}

module _ {ℓ} {A : Type ℓ} where
  -- `f` with `a` for thread `i`
  abbrev pub put_at : ℕ → A → (ℕ → A) → ℕ → A
  put_at i a f j = if i == j then a else f j

  pub put_at-same : (i : ℕ) (a : A) (f : ℕ → A) → put_at i a f i ≡ a
  put_at-same i a f = rw (==_refl i)

  pub put_at-other : (i j : ℕ) (a : A) (f : ℕ → A) → i ≢ j → put_at i a f j ≡ f j
  put_at-other i j a f ne = rw (==_ne i j ne)

module _ {ℓ} {A : Type ℓ} (weight : A → ℕ) where
  pub sum_of : ℕ → (ℕ → A) → ℕ
  sum_of zero f = 0
  sum_of (suc n) f = sum_of n f + weight (f n)

  sum_of-outside : (n i : ℕ) (a : A) (f : ℕ → A) → n ≤ i → sum_of n (put_at i a f) ≡ sum_of n f
  unfolding sum_of
  sum_of-outside zero i a f out = refl
  sum_of-outside (suc n) i a f out =
      let same = ap weight (put_at-other i n a f (λ e. absurd (omega arith))) in
      omega (arith, sum_of-outside n i a f (omega arith))

  pub sum_of-put_at :
      (n i : ℕ) (a : A) (f : ℕ → A)
      → i < n
      → sum_of n (put_at i a f) + weight (f i) ≡ sum_of n f + weight a
  unfolding sum_of
  sum_of-put_at zero i a f lt = absurd (omega arith)
  sum_of-put_at (suc n) i a f lt = elim (dec_lt i n) [
    | yes below ↦
        let same = ap weight (put_at-other i n a f (λ e. absurd (omega arith))) in
        omega (arith, sum_of-put_at n i a f below)
    | no above ↦
        let e : n ≡ i = omega arith in
        let new : weight (put_at i a f n) ≡ weight a = rw (e) (ap weight (put_at-same i a f)) in
        let old : weight (f n) ≡ weight (f i) = ap (λ k. weight (f k)) e in
        omega (arith, sum_of-outside n i a f (omega arith))
  ]

  pub sum_of-ge : (n i : ℕ) (f : ℕ → A) → i < n → weight (f i) ≤ sum_of n f
  unfolding sum_of
  sum_of-ge zero i f lt = absurd (omega arith)
  sum_of-ge (suc n) i f lt = elim (dec_lt i n) [
    | yes below ↦ omega (arith, sum_of-ge n i f below)
    | no above ↦
        let e : n ≡ i = omega arith in
        let old : weight (f n) ≡ weight (f i) = ap (λ k. weight (f k)) e in omega arith
  ]

  pub sum_of-same :
      (n : ℕ) (f g : ℕ → A) → ((i : ℕ) → weight (f i) ≡ weight (g i)) → sum_of n f ≡ sum_of n g
  unfolding sum_of
  sum_of-same zero f g same = refl
  sum_of-same (suc n) f g same = omega (arith, sum_of-same n f g same, same n)

  pub sum_of-zero : (n : ℕ) (f : ℕ → A) → ((i : ℕ) → weight (f i) ≡ 0) → sum_of n f ≡ 0
  unfolding sum_of
  sum_of-zero zero f none = refl
  sum_of-zero (suc n) f none = omega (arith, sum_of-zero n f none, none n)

  pub sum_of-le : (n : ℕ) (f : ℕ → A) → ((i : ℕ) → weight (f i) ≤ 1) → sum_of n f ≤ n
  unfolding sum_of
  sum_of-le zero f small = omega arith
  sum_of-le (suc n) f small = omega (arith, sum_of-le n f small, small n)

  pub sum_of_ones : (n : ℕ) (f : ℕ → A) → ((i : ℕ) → weight (f i) ≡ 1) → sum_of n f ≡ n
  unfolding sum_of
  sum_of_ones zero f ones = refl
  sum_of_ones (suc n) f ones = omega (arith, sum_of_ones n f ones, ones n)

-- What holds of the new value, and of the others' values, holds of all.
pub put_at-all {ℓ κ} :
    {A : Type ℓ} (P : A → Type κ) (i j : ℕ) (a : A) (f : ℕ → A)
    → (i ≡ j → P a)
    → (i ≢ j → P (f j))
    → P (put_at i a f j)
put_at-all P i j a f own others = elim (ℕ_discrete i j) [
  | yes e ↦ subst (λ k. P (put_at i a f k)) e (subst P (sym (put_at-same i a f)) (own e))
  | no ne ↦ subst P (sym (put_at-other i j a f ne)) (others ne)
]

-- Two threads that weigh something weigh more than one together.
pub sum_of-two {ℓ} :
    {A : Type ℓ} (weight : A → ℕ) (n i j : ℕ) (f : ℕ → A)
    → i < n
    → j < n
    → i ≢ j
    → weight (f i) + weight (f j) ≤ sum_of weight n f
unfolding sum_of
sum_of-two weight zero i j f lt lt' ne = absurd (omega arith)
sum_of-two weight (suc n) i j f lt lt' ne = elim (dec_lt i n) [
  | yes below ↦ elim (dec_lt j n) [
    | yes below' ↦ omega (arith, sum_of-two weight n i j f below below' ne)
    | no above' ↦
        let e : n ≡ j = omega arith in
        let last : weight (f n) ≡ weight (f j) = ap (λ k. weight (f k)) e in
        omega (arith, sum_of-ge weight n i f below)
  ]
  | no above ↦
      let e : n ≡ i = omega arith in
      let last : weight (f n) ≡ weight (f i) = ap (λ k. weight (f k)) e in
      let below' : j < n = elim (dec_lt j n) [ yes b ↦ b | no a ↦ absurd (ne (omega arith)) ] in
      omega (arith, sum_of-ge weight n j f below')
]

-- A sum that is not zero has a thread that weighs something.
pub sum_of-some {ℓ} :
    {A : Type ℓ} (weight : A → ℕ) (n : ℕ) (f : ℕ → A)
    → 0 < sum_of weight n f
    → (i : ℕ) × (i < n) × (0 < weight (f i))
unfolding sum_of
sum_of-some weight zero f pos = absurd (omega arith)
sum_of-some weight (suc n) f pos = elim (dec_lt 0 (weight (f n))) [
  | yes heavy ↦ (n, omega arith, heavy)
  | no light ↦
      let found = sum_of-some weight n f (omega arith) in (found.0, omega (arith, found.1), found.2)
]
