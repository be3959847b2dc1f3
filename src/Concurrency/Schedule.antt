-- ===== src/Concurrency/Schedule.antt =====
-- `threads` threads over one pool, interleaved in any order. The first `workers` of them run
-- `run_`, as after `start(workers)`; the others are clients.
use flecsi.Base.{ℕ, ◌<◌, ◌≡◌, ltb, if◌then◌else◌}
use flecsi.Concurrency.Family.{put_at}
use flecsi.Concurrency.Pool.{
  Pool, Place, entering, waiting, waking, exited, idle, bumping, notifying, reaping, new_pool, Move,
  raise_count,
}

pub record System : Type 0 where
  pub pool : Pool
  pub place : ℕ → Place

-- `notify_all` for one thread
unfoldable pub woken : Place → Place
woken waiting = waking
woken other = other

pub data Step (workers threads : ℕ) (s : System) : System → Type 0 where
  pick :
      (i : ℕ) {p : Pool} {to : Place}
      → i < threads
      → Move s.pool (s.place i) p to
      → Step workers threads s (record { pool = p; place = put_at i to s.place })
  -- `++count_`, `notify_one` with one waiting thread, and the unlocking
  notify_one :
      (i j : ℕ)
      → i < threads
      → j < threads
      → s.place i ≡ bumping
      → s.place j ≡ waiting
      → Step workers threads s
          (record { pool = raise_count s.pool; place = put_at i idle (put_at j waking s.place) })
  -- the same when no thread waits
  notify_nobody :
      (i : ℕ)
      → i < threads
      → s.place i ≡ bumping
      → ((j : ℕ) → j < threads → ¬ (s.place j ≡ waiting))
      → Step workers threads s (record { pool = raise_count s.pool; place = put_at i idle s.place })
  notify_all :
      (i : ℕ)
      → i < threads
      → s.place i ≡ notifying
      → Step workers threads s
          (record { pool = s.pool; place = put_at i reaping (λ j. woken (s.place j)) })
  -- `join` returns once `t->join()` has for every worker.
  reap :
      (i : ℕ)
      → i < threads
      → s.place i ≡ reaping
      → ((j : ℕ) → j < workers → s.place j ≡ exited)
      → Step workers threads s (record { pool = s.pool; place = put_at i idle s.place })

-- The pool after `start(workers)`.
abbrev pub started_pool : ℕ → System
started_pool workers = record {
  pool = new_pool;
  place = λ i. if ltb i workers then entering else idle;
}

pub data Reach (workers threads : ℕ) : System → Type 0 where
  start : Reach workers threads (started_pool workers)
  later :
      {s t : System} → Reach workers threads s → Step workers threads s t → Reach workers threads t
