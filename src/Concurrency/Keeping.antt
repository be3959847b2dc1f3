-- ===== src/Concurrency/Keeping.antt =====
-- Every step of a schedule keeps the invariant of the pool.
use flecsi.Base.{ℕ, ◌+◌, ◌≤◌, ◌<◌, ◌≡◌, ◌≢◌, refl, sym, subst, ◌∙◌, ap, Bool, false, arith, ⊎_elim}
use flecsi.Concurrency.Family.{
  put_at, sum_of, sum_of-put_at, sum_of-ge, put_at-all, sum_of-same, sum_of-two,
}
use flecsi.Concurrency.Weights.{flag, holds_pool, holds_sem, debt, alert, Knows, flag-le}
use flecsi.Concurrency.Pool.{Pool, Place, Move, waiting, waking, dozing, idle, bumping, raise_count}
use flecsi.Concurrency.Effects.{
  Move-unbounded, Move-backed, Move-in_order, Move-pool_mutex, Move-sem_mutex, Move-stopped,
  Move-done, Move-Knows, Knows-later, Move-awake, Move-count, Move-open, Move-drowsy, Move-waiting,
}
use flecsi.Concurrency.Counts.{increment-unbounded}
use flecsi.Concurrency.Schedule.{woken}
use flecsi.Concurrency.Invariant.{Inv}

-- Thread `i` goes from `from` to `to`: what a sum becomes.
module _ {n : ℕ} (place : ℕ → Place) (i : ℕ) (lt : i < n) {from : Place}
    (here : place i ≡ from) where
  pub counted :
      (weight : Place → ℕ) (to : Place)
      → sum_of weight n (put_at i to place) + weight from ≡ sum_of weight n place + weight to
  counted weight to = omega (arith, sum_of-put_at weight n i to place lt, ap weight here)

  pub at_most : (weight : Place → ℕ) → weight from ≤ sum_of weight n place
  at_most weight = omega (arith, sum_of-ge weight n i place lt, ap weight here)

  pub knowing : {p : Pool} → Inv n p place → Knows p.done from
  knowing {p} inv = subst (λ x. Knows p.done x) here (inv.knows i)

  pub Move-Inv :
      {p p' : Pool} {to : Place} → Move p from p' to → Inv n p place → Inv n p' (put_at i to place)
  Move-Inv {p = p} {p' = p'} {to = to} mv inv = record {
    unbounded = Move-unbounded mv ∙ inv.unbounded;
    backed = omega (arith, counted debt to, Move-backed mv (knowing inv), inv.backed);
    in_order = Move-in_order mv inv.in_order;
    pool_mutex =
        let own : holds_pool from ≤ flag p.locked =
          omega (arith, at_most holds_pool, inv.pool_mutex) in
        omega (arith, counted holds_pool to, Move-pool_mutex mv own, inv.pool_mutex);
    sem_mutex =
        let own : holds_sem from ≤ flag p.sem_locked =
          omega (arith, at_most holds_sem, inv.sem_mutex) in
        omega (arith, counted holds_sem to, Move-sem_mutex mv own, inv.sem_mutex);
    stopped = Move-stopped mv (knowing inv) inv.stopped;
    knows = λ j.
        put_at-all (λ x. Knows p'.done x) i j to place
          (λ e. Move-Knows mv inv.stopped (knowing inv))
          (λ ne. Knows-later (place j) (Move-done mv) (inv.knows j));
    drowsy = λ j lt'.
        put_at-all (λ x. x ≡ dozing → p'.sem.count ≤ 0) i j to place (λ e. Move-drowsy mv)
          (λ ne d. omega (arith, inv.drowsy j lt' d, Move-count mv));
    awake = λ j lt' o.
        put_at-all (λ x. x ≡ waiting → p'.sem.count ≤ sum_of alert n (put_at i to place)) i j to
          place
          (λ e w.
            let before = Move-waiting mv w in
            omega (arith, inv.drowsy i lt (here ∙ before.0), before.1))
          (λ ne w.
            ⊎_elim (λ kept. omega (arith, counted alert to, inv.awake j lt' (Move-open mv o) w))
              (λ empty. omega arith) (Move-awake mv o));
  }

-- `release` by thread `i`, when no thread waits or more are alert than there were counts.
pub raise_count-Inv :
    {n : ℕ} (place : ℕ → Place) (i : ℕ) (lt : i < n)
    → place i ≡ bumping
    → {p : Pool} → Inv n p place
    → ((j : ℕ)
        → j < n
        → p.sem.done ≡ false
        → place j ≡ waiting
        → p.sem.count + 1 ≤ sum_of alert n place)
    → Inv n (raise_count p) (put_at i idle place)
raise_count-Inv {n} place i lt here {p} inv room =
    let raised = ap (λ s. s.count) (increment-unbounded p.sem inv.unbounded) in
    let bound = ap (λ s. s.max_count) (increment-unbounded p.sem inv.unbounded) in
    let stop = ap (λ s. s.done) (increment-unbounded p.sem inv.unbounded) in
    record {
      unbounded = bound ∙ inv.unbounded;
      backed = omega (arith, counted place i lt here debt idle, inv.backed);
      in_order = inv.in_order;
      pool_mutex = omega (arith, counted place i lt here holds_pool idle, inv.pool_mutex);
      sem_mutex =
          omega
            (arith, counted place i lt here holds_sem idle, inv.sem_mutex, flag-le p.sem_locked);
      stopped = λ d. inv.stopped (sym stop ∙ d);
      knows = λ j. put_at-all (λ x. Knows p.done x) i j idle place (λ e. tt) (λ ne. inv.knows j);
      drowsy = λ j lt'.
          put_at-all (λ x. x ≡ dozing → (raise_count p).sem.count ≤ 0) i j idle place
            (λ e d. ground arith)
            (λ ne d. absurd (
              omega (
                arith,
                sum_of-two holds_sem n i j place lt lt' ne,
                ap holds_sem here,
                ap holds_sem d,
                inv.sem_mutex,
                flag-le p.sem_locked,
              )));
      awake = λ j lt' o.
          put_at-all
            (λ x. x ≡ waiting → (raise_count p).sem.count ≤ sum_of alert n (put_at i idle place)) i
            j idle place (λ e w. ground arith)
            (λ ne w.
              omega (arith, counted place i lt here alert idle, room j lt' (sym stop ∙ o) w));
    }

weight-woken :
    (weight : Place → ℕ)
    → weight waiting ≡ weight waking
    → (x : Place) → weight (woken x) ≡ weight x
unfolding woken
weight-woken weight same waiting = sym same
weight-woken weight same _ = refl

Knows-woken : (d : Bool) (x : Place) → Knows d x → Knows d (woken x)
unfolding woken
Knows-woken d waiting k = tt
Knows-woken d _ k = k

woken-dozing : (x : Place) → woken x ≡ dozing → x ≡ dozing
unfolding woken
woken-dozing waiting e = ground arith
woken-dozing _ e = e

woken-waiting : (x : Place) → ¬ (woken x ≡ waiting)
unfolding woken
woken-waiting waiting e = ground arith
woken-waiting x e = ground arith

-- `notify_all` for all threads at once
pub woken-Inv :
    {n : ℕ} (place : ℕ → Place) {p : Pool} → Inv n p place → Inv n p (λ j. woken (place j))
woken-Inv {n} place {p} inv =
    let same : (weight : Place → ℕ)
        → weight waiting ≡ weight waking
        → sum_of weight n (λ j. woken (place j)) ≡ sum_of weight n place =
      λ weight e.
        sum_of-same weight n (λ j. woken (place j)) place (λ j. weight-woken weight e (place j)) in
    record {
      unbounded = inv.unbounded;
      backed = omega (arith, same debt refl, inv.backed);
      in_order = inv.in_order;
      pool_mutex = same holds_pool refl ∙ inv.pool_mutex;
      sem_mutex = same holds_sem refl ∙ inv.sem_mutex;
      stopped = inv.stopped;
      knows = λ j. Knows-woken p.done (place j) (inv.knows j);
      drowsy = λ j lt d. inv.drowsy j lt (woken-dozing (place j) d);
      awake = λ j lt o w. absurd (woken-waiting (place j) w);
    }

-- A move that leaves the pool alone, between places that count for nothing.
pub still-Inv :
    {n : ℕ} (place : ℕ → Place) (i : ℕ) (lt : i < n) {from : Place} (to : Place)
    → place i ≡ from
    → holds_pool to ≡ holds_pool from
    → holds_sem to ≡ holds_sem from
    → debt to ≡ debt from
    → alert to ≡ alert from
    → to ≢ dozing
    → to ≢ waiting
    → {p : Pool} → Knows p.done to
    → Inv n p place
    → Inv n p (put_at i to place)
still-Inv {n} place i lt to here pool sem owed ready nd nw {p} k inv = record {
  unbounded = inv.unbounded;
  backed = omega (arith, counted place i lt here debt to, owed, inv.backed);
  in_order = inv.in_order;
  pool_mutex = omega (arith, counted place i lt here holds_pool to, inv.pool_mutex);
  sem_mutex = omega (arith, counted place i lt here holds_sem to, inv.sem_mutex);
  stopped = inv.stopped;
  knows = λ j. put_at-all (λ x. Knows p.done x) i j to place (λ e. k) (λ ne. inv.knows j);
  drowsy = λ j lt'.
      put_at-all (λ x. x ≡ dozing → p.sem.count ≤ 0) i j to place (λ e d. absurd (nd d))
        (λ ne d. inv.drowsy j lt' d);
  awake = λ j lt' o.
      put_at-all (λ x. x ≡ waiting → p.sem.count ≤ sum_of alert n (put_at i to place)) i j to place
        (λ e w. absurd (nw w))
        (λ ne w. omega (arith, counted place i lt here alert to, inv.awake j lt' o w));
}
