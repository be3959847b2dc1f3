-- ===== src/Concurrency/Semaphore.antt =====
-- concurrency/virtual_semaphore.h: the state of a semaphore and the operations that never block,
-- as one thread runs them while no other thread interferes. A count is the `int` of the source,
-- never negative: constructors get no negative number, and only a positive count is decremented.
use flecsi.Base.{ℕ, ◌+◌, ◌-◌, Bool, true, false, ◌||◌, ltb, ◌==◌, if◌then◌else◌, List, [], ◌∷◌}

pub record Semaphore : Type 0 where
  pub count : ℕ
  pub max_count : ℕ
  pub done : Bool

-- `virtual_semaphore(count, max_count)`; the other constructor has no bound, `max_count` 0.
abbrev pub semaphore : ℕ → ℕ → Semaphore
semaphore count max_count = record { count = count; max_count = max_count; done = false }

-- `--count_`
abbrev pub decrement : Semaphore → Semaphore
decrement s = record s { count = s.count - 1 }

-- `if(max_count_ == 0 || count_ < max_count_) ++count_`, of `release`
unfoldable pub increment : Semaphore → Semaphore
increment s =
    if s.max_count == 0 || ltb s.count s.max_count then record s { count = s.count + 1 } else s

-- The answer, with the state left behind.
unfoldable pub try_acquire : Semaphore → Bool × Semaphore
try_acquire s =
    if s.done then (false, s) else if ltb 0 s.count then (true, decrement s) else (false, s)

-- What `interrupt` stores; its `notify_all` is a step of `Schedule`.
abbrev pub interrupt : Semaphore → Semaphore
interrupt s = record s { done = true }

-- The operations that a client may call without blocking.
pub data Call : Type 0 where
  call_try_acquire : Call
  call_release : Call
  call_interrupt : Call

unfoldable pub perform : Call → Semaphore → Semaphore
perform call_try_acquire s = (try_acquire s).1
perform call_release s = increment s
perform call_interrupt s = interrupt s

unfoldable pub perform_all : List Call → Semaphore → Semaphore
perform_all [] s = s
perform_all (c ∷ cs) s = perform_all cs (perform c s)
