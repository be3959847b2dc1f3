-- ===== src/Concurrency/Safety.antt =====
-- The invariant in every schedule of a pool, and what follows for its clients.
use flecsi.Base.{
  ℕ, ◌<◌, ◌≡◌, ◌≢◌, refl, sym, ◌∙◌, ap, Bool, true, false, List, ◌∷◌, ◌++◌, length, arith, ltb,
  if◌then◌else◌, List-cases, ⊎_elim,
}
use native.Mathlib.Decide.{ℕ_discrete}
use flecsi.Concurrency.Family.{
  put_at, sum_of, sum_of-two, sum_of-zero, sum_of-ge, sum_of-some, put_at-other,
}
use flecsi.Concurrency.Weights.{flag, holds_pool, holds_sem, debt, alert, Knows, flag-le}
use flecsi.Concurrency.Pool.{
  Place, entering, waiting, waking, taking, idle, bumping, reaping, spurious, new_pool,
}
use flecsi.Concurrency.Schedule.{
  System, Step, pick, notify_one, notify_nobody, notify_all, reap, started_pool, Reach, start,
  later, woken,
}
use flecsi.Concurrency.Invariant.{Inv}
use flecsi.Concurrency.Keeping.{counted, knowing, Move-Inv, raise_count-Inv, woken-Inv, still-Inv}

start-Knows : (b : Bool) → Knows false (if b then entering else idle)
start-Knows true = tt
start-Knows false = tt

start-Inv : (w n : ℕ) → Inv n new_pool (started_pool w).place
start-Inv w n =
    let place : ℕ → Place = (started_pool w).place in
    let none : (weight : Place → ℕ)
        → weight entering ≡ 0
        → weight idle ≡ 0
        → sum_of weight n place ≡ 0 =
      λ weight a b. sum_of-zero weight n place (λ i. ground arith) in
    record {
      unbounded = refl;
      backed = omega (arith, none debt refl refl);
      in_order = refl;
      pool_mutex = none holds_pool refl refl;
      sem_mutex = none holds_sem refl refl;
      stopped = λ d. ground arith;
      knows = λ i. start-Knows (ltb i w);
      drowsy = λ i lt d. ground arith;
      awake = λ i lt o w. ground arith;
    }

pub Step-Inv : {w n : ℕ} {s t : System} → Step w n s t → Inv n s.pool s.place → Inv n t.pool t.place
unfolding woken
Step-Inv {s = s} (pick i lt mv) inv = Move-Inv s.place i lt refl mv inv
Step-Inv {n = n} {s = s} (notify_one i j lt lt' at_i at_j) inv =
    let inv' = Move-Inv s.place j lt' at_j spurious inv in
    let apart : j ≢ i =
      λ e. let clash : waiting ≡ bumping = sym at_j ∙ ap s.place e ∙ at_i in ground arith in
    raise_count-Inv (put_at j waking s.place) i lt (put_at-other j i waking s.place apart ∙ at_i)
      inv'
      (λ k lk o wk. omega (arith, counted s.place j lt' at_j alert waking, inv.awake j lt' o at_j))
Step-Inv {s = s} (notify_nobody i lt at_i nobody) inv =
    raise_count-Inv s.place i lt at_i inv (λ j lt' o wj. absurd (nobody j lt' wj))
Step-Inv {s = s} (notify_all i lt at_i) inv =
    still-Inv (λ j. woken (s.place j)) i lt reaping (ap woken at_i) refl refl refl refl
      (λ e. ground arith) (λ e. ground arith) (knowing s.place i lt at_i inv)
      (woken-Inv s.place inv)
Step-Inv {s = s} (reap i lt at_i joined) inv =
    still-Inv s.place i lt idle at_i refl refl refl refl (λ e. ground arith) (λ e. ground arith) tt
      inv

pub Reach-Inv : {w n : ℕ} {s : System} → Reach w n s → Inv n s.pool s.place
Reach-Inv {w} {n} start = start-Inv w n
Reach-Inv (later r st) = Step-Inv st (Reach-Inv r)

taking-got : (d got : Bool) → Knows d (taking got) → got ≡ true
taking-got d true k = refl
taking-got d false k = absurd k

-- In every schedule, a worker that is about to take the front of the queue has had `true` from
-- `acquire`, and finds the queue not empty.
pub taking-nonempty :
    {workers threads : ℕ} {s : System}
    → Reach workers threads s
    → (i : ℕ) → i < threads
    → (got : Bool) → s.place i ≡ taking got
    → (got ≡ true) × (task : ℕ) × (rest : List ℕ) × (s.pool.tasks ≡ task ∷ rest)
taking-nonempty {threads = n} {s = s} r i lt got here =
    let inv = Reach-Inv r in
    let true_got = taking-got s.pool.done got (knowing s.place i lt here inv) in
    let owed : debt (taking got) ≡ 1 = ap flag true_got in
    let enough : 0 < length s.pool.tasks =
      omega (arith, sum_of-ge debt n i s.place lt, ap debt here, inv.backed) in
    ⊎_elim (λ e. absurd (omega (arith, ap length e)))
      (λ found. (true_got, found.0, found.1, found.2)) (List-cases s.pool.tasks)

-- In every schedule, at most one thread is inside the mutex of the pool.
pub one_inside :
    {workers threads : ℕ} {s : System}
    → Reach workers threads s
    → (i j : ℕ) → i < threads
    → j < threads
    → 0 < holds_pool (s.place i)
    → 0 < holds_pool (s.place j)
    → i ≡ j
one_inside {threads = n} {s = s} r i j lt lt' in_i in_j = elim (ℕ_discrete i j) [
  | yes e ↦ e
  | no ne ↦ absurd (
      omega (
        arith,
        sum_of-two holds_pool n i j s.place lt lt' ne,
        (Reach-Inv r).pool_mutex,
        flag-le s.pool.locked,
      ))
]

-- In every schedule, what the workers have taken followed by what is in the queue is what
-- `queue` was given, in that order.
pub tasks_in_order :
    {workers threads : ℕ} {s : System}
    → Reach workers threads s
    → s.pool.started ++ s.pool.tasks ≡ s.pool.submitted
tasks_in_order r = (Reach-Inv r).in_order

-- In every schedule, as long as the semaphore is not interrupted, no release is lost: when a
-- thread waits although the count is positive, some thread is on its way to test the count.
pub release-alert :
    {workers threads : ℕ} {s : System}
    → Reach workers threads s
    → s.pool.sem.done ≡ false
    → 0 < s.pool.sem.count
    → (i : ℕ) → i < threads
    → s.place i ≡ waiting
    → (j : ℕ) × (j < threads) × (0 < alert (s.place j))
release-alert {threads = n} {s = s} r o pos i lt here =
    sum_of-some alert n s.place (omega (arith, (Reach-Inv r).awake i lt o here))
