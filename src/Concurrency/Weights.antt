-- ===== src/Concurrency/Weights.antt =====
-- What a thread's place counts for: mutexes it holds, tasks it has a claim on, and whether it is
-- about to test the count of the semaphore.
use flecsi.Base.{ℕ, ◌≡◌, ◌≤◌, arith, Bool, true, false}
use flecsi.Concurrency.Pool.{
  Place, testing, dozing, waking, rechecking, acquired, inside, taking, emplacing, releasing,
  bumping, interrupting, notifying, reaping,
}

abbrev pub flag : Bool → ℕ
flag true = 1
flag false = 0

pub flag-le : (b : Bool) → flag b ≤ 1
flag-le b = ground arith

-- the thread holds the mutex of the pool
abbrev pub holds_pool : Place → ℕ
holds_pool (inside _) = 1
holds_pool (taking _) = 1
holds_pool (emplacing _) = 1
holds_pool _ = 0

-- the thread holds the mutex of the semaphore
abbrev pub holds_sem : Place → ℕ
holds_sem testing = 1
holds_sem dozing = 1
holds_sem rechecking = 1
holds_sem bumping = 1
holds_sem _ = 0

-- A task in the queue is spoken for: by a worker that has taken its count, or by a client that has
-- not yet raised the count.
abbrev pub debt : Place → ℕ
debt (acquired got) = flag got
debt (inside got) = flag got
debt (taking got) = flag got
debt releasing = 1
debt bumping = 1
debt _ = 0

-- The thread is past a wait or a lock and will test the count.
abbrev pub alert : Place → ℕ
alert testing = 1
alert waking = 1
alert rechecking = 1
alert _ = 0

-- What a place says of `done_` of the pool.
abbrev pub Knows : Bool → Place → Type 0
Knows done (acquired false) = done ≡ true
Knows done (inside false) = done ≡ true
Knows done (taking false) = ⊥
Knows done interrupting = done ≡ true
Knows done notifying = done ≡ true
Knows done reaping = done ≡ true
Knows done _ = Unit
