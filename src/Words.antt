-- ===== src/Words.antt =====
-- `size_t` differences: the words are 64 bits wide.
use native.Mathlib.Nat.{pow-suc, pow-zero, mul_assoc}
use flecsi.Base.{zero, suc, ◌*◌, ap, sym, ◌∙◌, ℕ, ◌+◌, ◌-◌, ◌%◌, ◌^◌, ◌≤◌, ◌<◌, ◌≡◌, arith}

-- `a - b` of two `size_t`
unfoldable pub sub64 : ℕ → ℕ → ℕ
sub64 a b = (a + 2 ^ 64 - b) % 2 ^ 64

-- Without a borrow it is the difference.
pub sub64_lem : (a b : ℕ) → b ≤ a → a < 2 ^ 64 → sub64 a b ≡ a - b
unfolding sub64
sub64_lem a b le lt = omega arith

-- A power of a sum.
pub pow-add : (b m n : ℕ) → b ^ (m + n) ≡ b ^ m * b ^ n
pow-add b m zero =
    let e : m + 0 ≡ m = omega arith in
    ap (λ e. b ^ e) e ∙ omega (arith, ap (λ x. b ^ m * x) (pow-zero b))
pow-add b m (suc n) =
    let e : m + suc n ≡ suc (m + n) = omega arith in
    let p = pow-suc b (m + n) in
    let q = pow-suc b n in
    ap (λ e. b ^ e) e
    ∙ p
    ∙ ap (λ x. x * b) (pow-add b m n)
    ∙ mul_assoc (b ^ m) (b ^ n) b
    ∙ ap (λ x. b ^ m * x) (sym q)
