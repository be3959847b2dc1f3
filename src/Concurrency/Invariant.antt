-- ===== src/Concurrency/Invariant.antt =====
-- What holds of a pool in every schedule.
use flecsi.Base.{ℕ, ◌+◌, ◌≤◌, ◌<◌, ◌≡◌, true, false, ◌++◌, length}
use flecsi.Concurrency.Family.{sum_of}
use flecsi.Concurrency.Weights.{flag, holds_pool, holds_sem, debt, alert, Knows}
use flecsi.Concurrency.Pool.{Pool, Place, waiting, dozing}

pub record Inv (n : ℕ) (p : Pool) (place : ℕ → Place) : Type 0 where
  pub unbounded : p.sem.max_count ≡ 0
  -- Each count and each claim has its task in the queue.
  pub backed : p.sem.count + sum_of debt n place ≤ length p.tasks
  pub in_order : p.started ++ p.tasks ≡ p.submitted
  pub pool_mutex : sum_of holds_pool n place ≡ flag p.locked
  pub sem_mutex : sum_of holds_sem n place ≡ flag p.sem_locked
  pub stopped : p.sem.done ≡ true → p.done ≡ true
  pub knows : (i : ℕ) → Knows p.done (place i)
  -- Who is about to wait has seen no count that is still there.
  pub drowsy : (i : ℕ) → i < n → place i ≡ dozing → p.sem.count ≤ 0
  -- While a thread waits, each count has a thread on its way to test it.
  pub awake :
      (i : ℕ) → i < n → p.sem.done ≡ false → place i ≡ waiting → p.sem.count ≤ sum_of alert n place
