-- ===== src/Concurrency/Pool.antt =====
-- concurrency/thread_pool.h: the shared state of a pool, where a thread stands in `run_`, `acquire`,
-- `queue`, `release`, `join` and `interrupt`, and what one thread does in one step. A mutex is a
-- flag, a callable a number. A step is one access to what other threads may change without the
-- mutex held, or a run of accesses under a mutex that protects them. A callable does not itself
-- use the pool.
use flecsi.Base.{ℕ, ◌≤◌, ◌<◌, ◌≡◌, Bool, true, false, List, [], ◌∷◌, ◌++◌}
use flecsi.Concurrency.Semaphore.{Semaphore, semaphore, decrement, increment, interrupt}

pub record Pool : Type 0 where
  pub tasks : List ℕ  -- `queue_`
  pub done : Bool  -- `done_`
  pub locked : Bool  -- `mutex_` is held
  pub sem : Semaphore
  pub sem_locked : Bool  -- the semaphore's `mutex_` is held
  pub submitted : List ℕ  -- history: what `queue` has put into the queue so far
  pub started : List ℕ  -- history: what workers have taken from the queue so far

-- Where a thread stands; `got` is the answer of `acquire`, which `run_` does not look at.
pub data Place : Type 0 where
  -- `run_` and `acquire`
  entering : Place  -- before the first `if(done_)` of `acquire`
  locking : Place  -- before `lock_t lock(mutex_)`
  testing : Place  -- before the test of `while(count_ <= 0)`
  dozing : Place  -- before `cond_.wait(lock)`, with the mutex held
  waiting : Place  -- in `cond_.wait`
  waking : Place  -- in `cond_.wait`, notified, without the mutex
  rechecking : Place  -- before the `if(done_)` of the loop
  acquired : (got : Bool) → Place  -- before `mutex_.lock()`
  inside : (got : Bool) → Place  -- before the `if(done_)` of `run_`
  taking : (got : Bool) → Place  -- before `queue_.front()`
  running : (task : ℕ) → Place  -- before `f()`
  exited : Place  -- `run_` has returned
  -- a client
  idle : Place
  queueing : (task : ℕ) → Place  -- before `mutex_.lock()` of `queue`
  emplacing : (task : ℕ) → Place  -- before `queue_.emplace`
  releasing : Place  -- before `sem_.release()`
  bumping : Place  -- in `release`, with the mutex held
  joining : Place  -- before the `if(done_)` of `join`
  closing : Place  -- before `done_ = true` of `join`
  interrupting : Place  -- before `done_ = true` of `interrupt`
  notifying : Place  -- before `cond_.notify_all()`
  reaping : Place  -- before the loop over `threads_`

-- A new pool: the semaphore is the one of the default constructor.
abbrev pub new_pool : Pool
new_pool = record {
  tasks = [];
  done = false;
  locked = false;
  sem = semaphore 0 0;
  sem_locked = false;
  submitted = [];
  started = [];
}

-- One step of one thread that changes no other thread's place.
pub data Move (p : Pool) : Place → Pool → Place → Type 0 where
  see_done : p.sem.done ≡ true → Move p entering p (acquired false)
  see_open : p.sem.done ≡ false → Move p entering p locking
  lock_sem : p.sem_locked ≡ false → Move p locking (record p { sem_locked = true }) testing
  test_low : p.sem.count ≤ 0 → Move p testing p dozing
  test_high :
      0 < p.sem.count
      → Move p testing (record p { sem = decrement p.sem; sem_locked = false }) (acquired true)
  doze : Move p dozing (record p { sem_locked = false }) waiting
  spurious : Move p waiting p waking
  relock : p.sem_locked ≡ false → Move p waking (record p { sem_locked = true }) rechecking
  give_up : p.sem.done ≡ true → Move p rechecking (record p { sem_locked = false }) (acquired false)
  retry : p.sem.done ≡ false → Move p rechecking p testing
  lock_pool :
      {got : Bool}
      → p.locked ≡ false
      → Move p (acquired got) (record p { locked = true }) (inside got)
  leave : {got : Bool} → p.done ≡ true → Move p (inside got) (record p { locked = false }) exited
  stay : {got : Bool} → p.done ≡ false → Move p (inside got) p (taking got)
  take_front :
      {got : Bool} {task : ℕ} {rest : List ℕ}
      → p.tasks ≡ task ∷ rest
      → Move p
          (taking got)
          (record p { tasks = rest; locked = false; started = p.started ++ task ∷ [] })
          (running task)
  complete : {task : ℕ} → Move p (running task) p entering
  call_queue : {task : ℕ} → Move p idle p (queueing task)
  lock_queue :
      {task : ℕ}
      → p.locked ≡ false
      → Move p (queueing task) (record p { locked = true }) (emplacing task)
  push_task :
      {task : ℕ}
      → Move p
          (emplacing task)
          (record p {
            tasks = p.tasks ++ task ∷ [];
            locked = false;
            submitted = p.submitted ++ task ∷ [];
          })
          releasing
  lock_release : p.sem_locked ≡ false → Move p releasing (record p { sem_locked = true }) bumping
  call_join : Move p idle p joining
  join_again : p.done ≡ true → Move p joining p idle
  join_first : p.done ≡ false → Move p joining p closing
  close : Move p closing (record p { done = true }) interrupting
  stop_sem : Move p interrupting (record p { sem = interrupt p.sem }) notifying

-- `release` has the count raised and the mutex unlocked; whom it notifies is a step of `Schedule`.
abbrev pub raise_count : Pool → Pool
raise_count p = record p { sem = increment p.sem; sem_locked = false }
