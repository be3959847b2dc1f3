-- ===== src/Concurrency/Counts.antt =====
-- The operations of a semaphore that never block: the counts they keep, and what they answer.
use flecsi.Base.{◌+◌, ◌≤◌, ◌<◌, ◌≡◌, refl, List, [], ◌∷◌, arith, ltb→lt, ◌∙◌}
use flecsi.Concurrency.Semaphore.{
  Semaphore, increment, try_acquire, Call, call_try_acquire, call_release, call_interrupt, perform,
  perform_all,
}

pub increment-unbounded :
    (s : Semaphore) → s.max_count ≡ 0 → increment s ≡ record s { count = s.count + 1 }
unfolding increment
increment-unbounded s h = rw h refl

-- The count of a semaphore that has a bound stays within it.
abbrev pub Bounded : Semaphore → Type 0
Bounded s = (0 < s.max_count) × (s.count ≤ s.max_count)

perform-Bounded : (c : Call) (s : Semaphore) → Bounded s → Bounded (perform c s)
unfolding perform try_acquire increment
perform-Bounded call_try_acquire s h = ground arith
perform-Bounded call_release s h = ground (arith, ltb→lt s.count s.max_count)
perform-Bounded call_interrupt s h = h

perform-max_count : (c : Call) (s : Semaphore) → (perform c s).max_count ≡ s.max_count
unfolding perform try_acquire increment
perform-max_count call_try_acquire s = ground arith
perform-max_count call_release s = ground arith
perform-max_count call_interrupt s = refl

-- Whatever sequence of `try_acquire`, `release` and `interrupt` runs on a semaphore made with a
-- positive bound and a count within it, the bound stays what it was and the count within it.
pub perform_all-Bounded :
    (cs : List Call) (s : Semaphore)
    → Bounded s
    → ((perform_all cs s).max_count ≡ s.max_count) × ((perform_all cs s).count ≤ s.max_count)
unfolding perform_all
perform_all-Bounded [] s h = (refl, h.1)
perform_all-Bounded (c ∷ cs) s h =
    let rest = perform_all-Bounded cs (perform c s) (perform-Bounded c s h) in
    let same = perform-max_count c s in (rest.0 ∙ same, omega (arith, rest.1))
