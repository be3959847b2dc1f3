-- ===== src/Build/Cycles.antt =====
-- `reorder_destructive` moves every value to the place that the order gives it, when the order is a
-- permutation: it follows the cycles one by one.
use flecsi.Base.{
  ℕ, zero, suc, ◌+◌, ◌-◌, ◌≤◌, ◌<◌, ◌^◌, ◌≡◌, ◌≢◌, refl, sym, ap, ◌∙◌, Bool, true, false, some,
  List, length, get_elem?, arith, ==_refl, ==_ne, Bool-cases, ⊎_elim,
}
use native.Mathlib.Decide.{ℕ_discrete, dec_lt}
use flecsi.Connectivity.Refs.{table, length-table, get_elem?-table, update, set-table}
use flecsi.Concurrency.Family.{
  put_at, put_at-same, put_at-other, put_at-all, sum_of, sum_of-put_at, sum_of-two, sum_of-some,
  sum_of-le, sum_of_ones,
}
use flecsi.Build.Reorder.{cycle_loop, reorder_loop, reorder_destructive, minus_one}

-- an element whose value has not been moved
abbrev unvisited : Bool → ℕ
unvisited true = 0
unvisited false = 1

update_same : {A : Type 0} (g : ℕ → A) (i : ℕ) (a : A) → update g i a i ≡ a
update_same g i a = rw (==_refl i) refl

update_other : {A : Type 0} (g : ℕ → A) (i k : ℕ) (a : A) → k ≢ i → update g i a k ≡ g k
update_other g i k a ne = rw (==_ne k i ne) refl

module _ (n : ℕ) (ord : ℕ → ℕ) (val : ℕ → List ℕ) where
  -- The order is a permutation of the numbers below `n`.
  pub record IsPermutation : Type 0 where
    pub within : (i : ℕ) → i < n → ord i < n
    pub injective : (i j : ℕ) → i < n → j < n → ord i ≡ ord j → i ≡ j
    pub small : n < 2 ^ 64 - 1

  abbrev left : (ℕ → Bool) → ℕ
  left vis = sum_of unvisited n vis

  -- The value of `p` is held back; the values of all other visited elements are in place, and each
  -- visited element but `s` has a predecessor among them. What is not visited is as at the start.
  record Cycling (s p : ℕ) (vis : ℕ → Bool) (o : ℕ → ℕ) (v : ℕ → List ℕ) : Type 0 where
    start_below : s < n
    pending_below : p < n
    start_visited : vis s ≡ true
    pending : vis p ≡ true
    before : (i : ℕ) → i < s → vis i ≡ true
    placed : (i : ℕ) → i < n → vis i ≡ true → i ≢ p → v (ord i) ≡ val i
    kept : (i : ℕ) → i < n → vis i ≡ false → v i ≡ val i
    order_kept : (i : ℕ) → i < n → vis i ≡ false → o i ≡ ord i
    marked : (i : ℕ) → i < n → s < i → vis i ≡ true → o i ≡ minus_one
    preceded :
        (i : ℕ)
        → i < n
        → vis i ≡ true
        → i ≢ s
        → (q : ℕ) × (q < n) × (vis q ≡ true) × (q ≢ p) × (ord q ≡ i)

  -- Between cycles: all elements below `s` are visited, and the visited ones are whole cycles.
  record Settled (s : ℕ) (vis : ℕ → Bool) (o : ℕ → ℕ) (v : ℕ → List ℕ) : Type 0 where
    before : (i : ℕ) → i < s → vis i ≡ true
    placed : (i : ℕ) → i < n → vis i ≡ true → v (ord i) ≡ val i
    kept : (i : ℕ) → i < n → vis i ≡ false → v i ≡ val i
    order_kept : (i : ℕ) → i < n → vis i ≡ false → o i ≡ ord i
    marked : (i : ℕ) → i < n → s ≤ i → vis i ≡ true → o i ≡ minus_one
    preceded : (i : ℕ) → i < n → vis i ≡ true → (q : ℕ) × (q < n) × (vis q ≡ true) × (ord q ≡ i)

  -- The next element of a cycle is new, or the start.
  next_new :
      (h : IsPermutation) {s p : ℕ} {vis : ℕ → Bool} {o : ℕ → ℕ} {v : ℕ → List ℕ}
      → Cycling s p vis o v
      → ord p ≢ s
      → vis (ord p) ≡ false
  next_new h {s} {p} {vis} c ne =
      ⊎_elim
        (λ seen.
          let q = c.preceded (ord p) (h.within p c.pending_below) seen ne in
          absurd (q.3 (h.injective q.0 p q.1 c.pending_below q.4)))
        (λ fresh. fresh) (Bool-cases (vis (ord p)))

  advance :
      (h : IsPermutation) {s p : ℕ} {vis : ℕ → Bool} {o : ℕ → ℕ} {v : ℕ → List ℕ}
      → Cycling s p vis o v
      → ord p ≢ s
      → Cycling s
          (ord p)
          (put_at (ord p) true vis)
          (update o (ord p) minus_one)
          (update v (ord p) (val p))
  advance h {s} {p} {vis} {o} {v} c ne =
      let d : ℕ = ord p in
      let fresh = next_new h c ne in
      let old : (i : ℕ) → d ≢ i → (b : Bool) → put_at d true vis i ≡ b → vis i ≡ b =
        λ i apart b e. sym (put_at-other d i true vis apart) ∙ e in
      let grown : (i : ℕ) → vis i ≡ true → put_at d true vis i ≡ true =
        λ i e. put_at-all (λ b. b ≡ true) d i true vis (λ _. refl) (λ _. e) in
      let known : (i : ℕ) → put_at d true vis i ≡ false → d ≢ i = λ i e same.
        let clash : true ≡ false = sym (put_at-same d true vis) ∙ ap (put_at d true vis) same ∙ e in
        ground arith in
      let unlike : (i : ℕ) → vis i ≡ true → d ≢ i =
        λ i e same. let clash : false ≡ true = sym fresh ∙ ap vis same ∙ e in ground arith in
      record {
        start_below = c.start_below;
        pending_below = h.within p c.pending_below;
        start_visited = grown s c.start_visited;
        pending = put_at-same d true vis;
        before = λ i lt. grown i (c.before i lt);
        placed = λ i lt e apart.
            let seen = old i (λ same. apart (sym same)) true e in
            elim (ℕ_discrete i p) [
              | yes same ↦ rw (same) (update_same v d (val p))
              | no other ↦
                  update_other v d (ord i) (val p)
                    (λ e'. other (h.injective i p lt c.pending_below e'))
                  ∙ c.placed i lt seen other
            ];
        kept = λ i lt e.
            update_other v d i (val p) (λ same. known i e (sym same))
            ∙ c.kept i lt (old i (known i e) false e);
        order_kept = λ i lt e.
            update_other o d i minus_one (λ same. known i e (sym same))
            ∙ c.order_kept i lt (old i (known i e) false e);
        marked = λ i lt above e. elim (ℕ_discrete d i) [
          | yes same ↦ rw (← same) (update_same o d minus_one)
          | no apart ↦
              update_other o d i minus_one (λ same. apart (sym same))
              ∙ c.marked i lt above (old i apart true e)
        ];
        preceded = λ i lt e not_start. elim (ℕ_discrete d i) [
          | yes same ↦
              (p, c.pending_below, grown p c.pending, (λ e'. unlike p c.pending (sym e')), same)
          | no apart ↦
              let q = c.preceded i lt (old i apart true e) not_start in
              (q.0, q.1, grown q.0 q.2, (λ e'. unlike q.0 q.2 (sym e')), q.4)
        ];
      }

  -- Each visit lowers the number of elements that are left by one.
  left-visit :
      (vis : ℕ → Bool) (d : ℕ) → d < n → vis d ≡ false → left (put_at d true vis) + 1 ≡ left vis
  left-visit vis d lt e =
      let moved = sum_of-put_at unvisited n d true vis lt in
      let weight : unvisited (vis d) ≡ 1 = ap unvisited e in omega arith

  cycle_loop_lem :
      (h : IsPermutation) (fuel s p r : ℕ) (vis : ℕ → Bool) (o : ℕ → ℕ) (v : ℕ → List ℕ)
      → Cycling s p vis o v
      → r ≡ left vis - 1
      → left vis < fuel
      → (p' : ℕ) × (r' : ℕ) × (vis' : ℕ → Bool) × (o' : ℕ → ℕ) × (v' : ℕ → List ℕ) × (cycle_loop
            fuel s
            (ord p)
            (val p)
            (record { order = table 0 n o; values = table 0 n v; remaining = r })
          ≡ some (record { order = table 0 n o'; values = table 0 n v'; remaining = r' }, val p'))
        × Cycling s p' vis' o' v'
        × (ord p' ≡ s)
        × (r' ≡ left vis' - 1)
  unfolding cycle_loop
  cycle_loop_lem h zero s p r vis o v c count enough = absurd (omega arith)
  cycle_loop_lem h (suc fuel) s p r vis o v c count enough = elim (ℕ_discrete (ord p) s) [
    | yes e ↦ (p, r, vis, o, v, rw (e, ==_refl s) refl, c, e, count)
    | no ne ↦
        let d : ℕ = ord p in
        let below : d < n = h.within p c.pending_below in
        let fresh = next_new h c ne in
        let less = left-visit vis d below fresh in
        let value : get_elem? (table 0 n v) d ≡ some (val d) =
          get_elem?-table n d v below ∙ ap some (c.kept d below fresh) in
        let place : get_elem? (table 0 n o) d ≡ some (ord d) =
          get_elem?-table n d o below ∙ ap some (c.order_kept d below fresh) in
        let rest =
          cycle_loop_lem h fuel s d (r - 1) (put_at d true vis) (update o d minus_one)
            (update v d (val p)) (advance h c ne) (omega arith) (omega arith) in
        (
          rest.0,
          rest.1,
          rest.2,
          rest.3,
          rest.4,
          rw
              (
                ==_ne (ord p) s ne,
                value,
                place,
                set-table n d o minus_one below,
                set-table n d v (val p) below,
              )
              rest.5,
          rest.6,
          rest.7,
          rest.8,
        )
  ]

  -- A cycle starts at an element that has not been visited.
  cycle-start :
      (s : ℕ) (vis : ℕ → Bool) (o : ℕ → ℕ) (v : ℕ → List ℕ)
      → Settled s vis o v
      → s < n
      → vis s ≡ false
      → Cycling s s (put_at s true vis) o v
  cycle-start s vis o v c below fresh =
      let old : (i : ℕ) → s ≢ i → (b : Bool) → put_at s true vis i ≡ b → vis i ≡ b =
        λ i apart b e. sym (put_at-other s i true vis apart) ∙ e in
      let grown : (i : ℕ) → vis i ≡ true → put_at s true vis i ≡ true =
        λ i e. put_at-all (λ b. b ≡ true) s i true vis (λ _. refl) (λ _. e) in
      let known : (i : ℕ) → put_at s true vis i ≡ false → s ≢ i = λ i e same.
        let clash : true ≡ false = sym (put_at-same s true vis) ∙ ap (put_at s true vis) same ∙ e in
        ground arith in
      let unlike : (i : ℕ) → vis i ≡ true → i ≢ s =
        λ i e same. let clash : true ≡ false = sym e ∙ ap vis same ∙ fresh in ground arith in
      record {
        start_below = below;
        pending_below = below;
        start_visited = put_at-same s true vis;
        pending = put_at-same s true vis;
        before = λ i lt. grown i (c.before i lt);
        placed = λ i lt e apart. c.placed i lt (old i (λ same. apart (sym same)) true e);
        kept = λ i lt e. c.kept i lt (old i (known i e) false e);
        order_kept = λ i lt e. c.order_kept i lt (old i (known i e) false e);
        marked = λ i lt above e.
            c.marked i lt (omega arith) (old i (λ same. absurd (omega arith)) true e);
        preceded = λ i lt e apart.
            let q = c.preceded i lt (old i (λ same. apart (sym same)) true e) in
            (q.0, q.1, grown q.0 q.2, unlike q.0 q.2, q.3);
      }

  -- When the cycle closes, the value that is held back goes to its start.
  cycle-end :
      (h : IsPermutation) (s p : ℕ) (vis : ℕ → Bool) (o : ℕ → ℕ) (v : ℕ → List ℕ)
      → Cycling s p vis o v
      → ord p ≡ s
      → Settled (suc s) vis o (update v s (val p))
  cycle-end h s p vis o v c closed = record {
    before = λ i lt. elim (ℕ_discrete i s) [
      | yes same ↦ rw (same) c.start_visited
      | no apart ↦ c.before i (omega arith)
    ];
    placed = λ i lt e. elim (ℕ_discrete i p) [
      | yes same ↦ rw (same, closed) (update_same v s (val p))
      | no other ↦
          update_other v s (ord i) (val p)
            (λ e'. other (h.injective i p lt c.pending_below (e' ∙ sym closed)))
          ∙ c.placed i lt e other
    ];
    kept = λ i lt e.
        update_other v s i (val p) (λ same.
          let clash : true ≡ false = sym c.start_visited ∙ ap vis (sym same) ∙ e in ground arith)
        ∙ c.kept i lt e;
    order_kept = c.order_kept;
    marked = λ i lt above e. c.marked i lt (omega arith) e;
    preceded = λ i lt e. elim (ℕ_discrete i s) [
      | yes same ↦ (p, c.pending_below, c.pending, closed ∙ sym same)
      | no apart ↦ let q = c.preceded i lt e apart in (q.0, q.1, q.2, q.4)
    ];
  }

  -- An element that is visited already is passed over.
  Settled-skip :
      (s : ℕ) (vis : ℕ → Bool) (o : ℕ → ℕ) (v : ℕ → List ℕ)
      → Settled s vis o v
      → vis s ≡ true
      → Settled (suc s) vis o v
  Settled-skip s vis o v c seen = record {
    before = λ i lt. elim (ℕ_discrete i s) [
      | yes same ↦ rw (same) seen
      | no apart ↦ c.before i (omega arith)
    ];
    placed = c.placed;
    kept = c.kept;
    order_kept = c.order_kept;
    marked = λ i lt above e. c.marked i lt (omega arith) e;
    preceded = c.preceded;
  }

  left_alone :
      (vis : ℕ → Bool)
      → left vis ≤ 1
      → (i : ℕ) → i < n
      → ord i < n
      → vis i ≡ false
      → vis (ord i) ≡ false
      → ord i ≡ i
  left_alone vis few i lt lt' fresh next = elim (ℕ_discrete (ord i) i) [
    | yes fixed ↦ fixed
    | no apart ↦
        let both = sum_of-two unvisited n (ord i) i vis lt' lt apart in
        let one : unvisited (vis i) ≡ 1 = ap unvisited fresh in
        let other : unvisited (vis (ord i)) ≡ 1 = ap unvisited next in
        absurd (omega (arith, both, one, other, few))
  ]

  -- When at most one element is left, all values are in place.
  Settled-done :
      (h : IsPermutation) (s : ℕ) (vis : ℕ → Bool) (o : ℕ → ℕ) (v : ℕ → List ℕ)
      → Settled s vis o v
      → left vis ≤ 1
      → (i : ℕ) → i < n
      → v (ord i) ≡ val i
  Settled-done h s vis o v c few i lt =
      ⊎_elim (c.placed i lt)
        (λ fresh.
          ⊎_elim
            (λ seen.
              let q = c.preceded (ord i) (h.within i lt) seen in
              let clash : true ≡ false = sym q.2 ∙ ap vis (h.injective q.0 i q.1 lt q.3) ∙ fresh in
              ground arith)
            (λ next.
              let fixed = left_alone vis few i lt (h.within i lt) fresh next in
              rw (fixed) (c.kept i lt fresh))
            (Bool-cases (vis (ord i))))
        (Bool-cases (vis i))

  unvisited_le : (b : Bool) → unvisited b ≤ 1
  unvisited_le true = omega arith
  unvisited_le false = omega arith

  all_visited : (vis : ℕ → Bool) → ((i : ℕ) → i < n → vis i ≡ true) → left vis ≡ 0
  all_visited vis all = elim (dec_lt 0 (left vis)) [
    | yes some_left ↦
        let found = sum_of-some unvisited n vis some_left in
        let none_left : unvisited (vis found.0) ≡ 0 = ap unvisited (all found.0 found.1) in
        absurd (omega (arith, found.2))
    | no done ↦ omega arith
  ]

  reorder_loop_lem :
      (h : IsPermutation) (fuel s r : ℕ) (vis : ℕ → Bool) (o : ℕ → ℕ) (v : ℕ → List ℕ)
      → Settled s vis o v
      → r ≡ left vis - 1
      → s + fuel ≡ n
      → (v' : ℕ → List ℕ) × (reorder_loop fuel s
            (record { order = table 0 n o; values = table 0 n v; remaining = r })
          ≡ some (table 0 n v'))
        × ((i : ℕ) → i < n → v' (ord i) ≡ val i)
  unfolding reorder_loop
  reorder_loop_lem h zero s r vis o v c count reached =
      let none_left = all_visited vis (λ i lt. c.before i (omega arith)) in
      let zero_left : r ≡ 0 = omega arith in
      (v, rw (zero_left) refl, Settled-done h s vis o v c (omega arith))
  reorder_loop_lem h (suc fuel) s r vis o v c count reached = elim (ℕ_discrete r 0) [
    | yes e ↦ (v, rw (e) refl, Settled-done h s vis o v c (omega arith))
    | no more ↦
        let below : s < n = omega arith in
        ⊎_elim
          (λ seen.
            let place : get_elem? (table 0 n o) s ≡ some minus_one =
              get_elem?-table n s o below ∙ ap some (c.marked s below (omega arith) seen) in
            let rest =
              reorder_loop_lem h fuel (suc s) r vis o v (Settled-skip s vis o v c seen) count
                (omega arith) in
            (rest.0, rw (==_ne r 0 more, place) rest.1, rest.2))
          (λ fresh.
            let place : get_elem? (table 0 n o) s ≡ some (ord s) =
              get_elem?-table n s o below ∙ ap some (c.order_kept s below fresh) in
            let value : get_elem? (table 0 n v) s ≡ some (val s) =
              get_elem?-table n s v below ∙ ap some (c.kept s below fresh) in
            let less = left-visit vis s below fresh in
            let most = sum_of-le unvisited n vis (λ i. unvisited_le (vis i)) in
            let target = h.within s below in
            let size = h.small in
            let real : ord s ≢ minus_one = λ e. absurd (omega arith) in
            let cycle =
              cycle_loop_lem h (suc n) s s (r - 1) (put_at s true vis) o v
                (cycle-start s vis o v c below fresh) (omega arith) (omega arith) in
            let rest =
              reorder_loop_lem h fuel (suc s) cycle.1 cycle.2 cycle.3
                (update cycle.4 s (val cycle.0))
                (cycle-end h s cycle.0 cycle.2 cycle.3 cycle.4 cycle.6 cycle.7) cycle.8
                (omega arith) in
            (
              rest.0,
              rw
                  (
                    ==_ne r 0 more,
                    place,
                    ==_ne (ord s) minus_one real,
                    value,
                    length-table 0 n o,
                    cycle.5,
                    set-table n s cycle.4 (val cycle.0) below,
                  )
                  rest.1,
              rest.2,
            ))
          (Bool-cases (vis s))
  ]

  Settled-start : Settled 0 (λ i. false) ord val
  Settled-start = record {
    before = λ i lt. absurd (omega arith);
    placed = λ i lt e. absurd (let clash : false ≡ true = e in ground arith);
    kept = λ i lt e. refl;
    order_kept = λ i lt e. refl;
    marked = λ i lt above e. absurd (let clash : false ≡ true = e in ground arith);
    preceded = λ i lt e. absurd (let clash : false ≡ true = e in ground arith);
  }

  -- When the order is a permutation of the numbers below `n`, with `n` below the largest `size_t`,
  -- `reorder_destructive` returns `n` values, with no access out of bounds, and for each `i` below `n`,
  -- value `i` is at the place `ord i` of the result.
  pub reorder_destructive_lem :
      IsPermutation
      → (i : ℕ) → i < n
      → (out : List (List ℕ)) × (reorder_destructive (table 0 n ord) (table 0 n val) ≡ some out)
        × (length out ≡ n)
        × (get_elem? out (ord i) ≡ some (val i))
  unfolding reorder_destructive
  reorder_destructive_lem h i lt =
      let run =
        reorder_loop_lem h n 0 (n - 1) (λ j. false) ord val Settled-start
          (ap (λ m. m - 1) (sym (sum_of_ones unvisited n (λ j. false) (λ j. refl))))
          (omega arith) in
      (
        table 0 n run.0,
        rw (length-table 0 n ord) run.1,
        length-table 0 n run.0,
        get_elem?-table n (ord i) run.0 (h.within i lt) ∙ ap some (run.2 i lt),
      )
