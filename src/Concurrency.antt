-- ===== src/Concurrency.antt =====
-- flecsi/concurrency: `virtual_semaphore` and `thread_pool`. `Semaphore` has the semaphore's
-- operations as one thread runs them, `Pool` the accesses of one thread to the shared state, and
-- `Schedule` the interleavings of the threads of a pool. `Weights` counts threads by where they
-- stand, `Effects` is what one move does to the counts, and `Invariant` what every schedule keeps.
pub mod Semaphore
pub mod Counts
pub mod Family
pub mod Pool
pub mod Schedule
pub mod Weights
pub mod Effects
pub mod Invariant
pub mod Keeping
pub mod Safety
pub mod Stall
mod Tests
