-- ===== src/Registry/Indices.antt =====
-- The index map of an index space and its reverse.
use flecsi.Base.{
  ℕ, zero, suc, ◌+◌, ◌≤◌, ◌^◌, ◌≡◌, ◌↔◌, refl, sym, ap, ◌∙◌, true, false, Option, none, some, List,
  [], ◌∷◌, length, get_elem?, ◌==◌, arith, ==_iff, ==_refl, Bool-cases, ⊎_elim,
}
use flecsi.StdSet.{member}
use flecsi.Connectivity.Picks.{AllDistinct}
use flecsi.Registry.{Context, reverse_loop, add_index_map, get_index_map, get_reverse_index_map}

reverse_loop_out :
    (xs : List ℕ) (i : ℕ) (rev : ℕ → Option ℕ) (x : ℕ)
    → member x xs ≡ false
    → reverse_loop xs i rev x ≡ rev x
unfolding reverse_loop member
reverse_loop_out [] i rev x out = refl
reverse_loop_out (y ∷ xs) i rev x out =
    reverse_loop_out xs (suc i) _ x (ground arith) ∙ ground arith

member-get_elem? : (xs : List ℕ) (x : ℕ) → member x xs ≡ true → (k : ℕ) × (get_elem? xs k ≡ some x)
unfolding member
member-get_elem? [] x m = ground arith
member-get_elem? (y ∷ xs) x m =
    ⊎_elim (λ same. (zero, ap some (sym ((==_iff x y).0 same))))
      (λ apart. let rest = member-get_elem? xs x (ground arith) in (suc rest.0, rest.1))
      (Bool-cases (x == y))

get_elem?-member : (xs : List ℕ) (x k : ℕ) → get_elem? xs k ≡ some x → member x xs ≡ true
unfolding member
get_elem?-member [] x k e = absurd cc
get_elem?-member (y ∷ xs) x zero e = let same : y ≡ x = cc in rw (same, ==_refl x) refl
get_elem?-member (y ∷ xs) x (suc k) e = ground (arith, get_elem?-member xs x k e)

reverse_loop_at :
    (xs : List ℕ) (i k : ℕ) (rev : ℕ → Option ℕ) (x : ℕ)
    → AllDistinct xs
    → i + length xs ≤ 2 ^ 32
    → get_elem? xs k ≡ some x
    → reverse_loop xs i rev x ≡ some (i + k)
unfolding reverse_loop
reverse_loop_at [] i k rev x d small e = absurd cc
reverse_loop_at (y ∷ xs) i zero rev x d small e =
    let same : y ≡ x = cc in
    let out : member x xs ≡ false = rw (← same) d.0 in
    reverse_loop_out xs (suc i) _ x out ∙ rw (same, ==_refl x) (ap some (omega arith))
reverse_loop_at (y ∷ xs) i (suc k) rev x d small e =
    reverse_loop_at xs (suc i) k _ x d.1 (omega arith) e ∙ ap some (omega arith)

-- After `add_index_map` with distinct indices on an index space that had no reverse map, the index
-- map is the one given, and the reverse map takes `x` to `i` exactly when `x` is the index at `i`.
pub add_index_map-reverse :
    (c : Context) (space : ℕ) (m : List ℕ) (x i : ℕ)
    → AllDistinct m
    → length m ≤ 2 ^ 32
    → get_reverse_index_map c space ≡ none
    → (rev : ℕ → Option ℕ) × (get_index_map (add_index_map c space m) space ≡ some m)
      × (get_reverse_index_map (add_index_map c space m) space ≡ some rev)
      × ((rev x ≡ some i) ↔ (get_elem? m i ≡ some x))
unfolding add_index_map get_index_map get_reverse_index_map
add_index_map-reverse c space m x i d small fresh =
    let rev : ℕ → Option ℕ = reverse_loop m 0 (λ k. none) in
    let back : rev x ≡ some i → get_elem? m i ≡ some x = λ e.
      ⊎_elim
        (λ inside.
          let at = member-get_elem? m x inside in
          let value : some (0 + at.0) ≡ some i =
            sym (reverse_loop_at m 0 at.0 (λ k. none) x d (omega arith) at.1) ∙ e in
          let i_eq : at.0 ≡ i = let same : 0 + at.0 ≡ i = cc (value) in omega arith in
          rw (← i_eq) at.1)
        (λ out.
          let clash : none ≡ some i = sym (reverse_loop_out m 0 (λ k. none) x out) ∙ e in
          absurd (cc (clash)))
        (Bool-cases (member x m)) in
    (
      rev,
      rw (==_refl space) refl,
      rw (==_refl space, fresh) refl,
      (back, λ e. reverse_loop_at m 0 i (λ k. none) x d (omega arith) e ∙ ap some (omega arith)),
    )
