-- ===== src/Concurrency/Effects.antt =====
-- What a move does to the counts of the pool, whoever makes it.
use flecsi.Base.{
  ◌+◌, ◌≤◌, ◌<◌, ◌≡◌, refl, sym, Bool, true, false, [], ◌∷◌, ◌++◌, length, length-append,
  append_assoc, arith, ap, ◌∙◌, ◌⊎◌, inl, inr,
}
use flecsi.Concurrency.Weights.{flag, holds_pool, holds_sem, debt, alert, Knows}
use flecsi.Concurrency.Pool.{
  Pool, Place, Move, see_done, lock_sem, test_low, test_high, relock, give_up, lock_pool,
  lock_queue, lock_release, leave, stay, join_first, take_front, push_task, doze, complete,
  stop_sem, close, interrupting, notifying, reaping, acquired, inside, taking, waiting, dozing,
}

abbrev Guard : {p p' : Pool} {from to : Place} → Move p from p' to → Type 0
Guard {p} (see_done _) = p.sem.done ≡ true
Guard {p} (lock_sem _) = p.sem_locked ≡ false
Guard {p} (test_low _) = p.sem.count ≤ 0
Guard {p} (test_high _) = 0 < p.sem.count
Guard {p} (relock _) = p.sem_locked ≡ false
Guard {p} (give_up _) = p.sem.done ≡ true
Guard {p} (lock_pool _) = p.locked ≡ false
Guard {p} (lock_queue _) = p.locked ≡ false
Guard {p} (lock_release _) = p.sem_locked ≡ false
Guard {p} (leave _) = p.done ≡ true
Guard {p} (stay _) = p.done ≡ false
Guard {p} (join_first _) = p.done ≡ false
Guard {p} (take_front {task = task} {rest = rest} _) = p.tasks ≡ task ∷ rest
Guard _ = Unit

guard : {p p' : Pool} {from to : Place} (mv : Move p from p' to) → Guard mv
guard (see_done g) = g
guard (lock_sem g) = g
guard (test_low g) = g
guard (test_high g) = g
guard (relock g) = g
guard (give_up g) = g
guard (lock_pool g) = g
guard (lock_queue g) = g
guard (lock_release g) = g
guard (leave g) = g
guard (stay g) = g
guard (join_first g) = g
guard (take_front g) = g
guard _ = tt

pub Move-unbounded :
    {p p' : Pool} {from to : Place} → Move p from p' to → p'.sem.max_count ≡ p.sem.max_count
Move-unbounded doze = refl
Move-unbounded _ = refl

pub Move-backed :
    {p p' : Pool} {from to : Place}
    → Move p from p' to
    → Knows p.done from
    → p'.sem.count + debt to + length p.tasks ≤ p.sem.count + debt from + length p'.tasks
Move-backed (take_front {got = true} e) k = omega (arith, ap length e)
Move-backed (take_front {got = false} e) k = absurd k
Move-backed {p = p} (push_task {task = task}) k = omega (arith, length-append p.tasks (task ∷ []))
Move-backed mv k = ground (arith, guard mv)

pub Move-in_order :
    {p p' : Pool} {from to : Place}
    → Move p from p' to
    → p.started ++ p.tasks ≡ p.submitted
    → p'.started ++ p'.tasks ≡ p'.submitted
Move-in_order {p = p} (take_front {task = task} {rest = rest} e) h =
    append_assoc p.started (task ∷ []) rest ∙ ap (λ xs. p.started ++ xs) (sym e) ∙ h
Move-in_order {p = p} (push_task {task = task}) h =
    sym (append_assoc p.started p.tasks (task ∷ [])) ∙ ap (λ xs. xs ++ task ∷ []) h
Move-in_order _ h = h

pub Move-pool_mutex :
    {p p' : Pool} {from to : Place}
    → Move p from p' to
    → holds_pool from ≤ flag p.locked
    → holds_pool to + flag p.locked ≡ holds_pool from + flag p'.locked
Move-pool_mutex doze h = omega arith
Move-pool_mutex mv h = ground (arith, guard mv)

pub Move-sem_mutex :
    {p p' : Pool} {from to : Place}
    → Move p from p' to
    → holds_sem from ≤ flag p.sem_locked
    → holds_sem to + flag p.sem_locked ≡ holds_sem from + flag p'.sem_locked
Move-sem_mutex complete h = omega arith
Move-sem_mutex mv h = ground (arith, guard mv)

pub Move-stopped :
    {p p' : Pool} {from to : Place}
    → Move p from p' to
    → Knows p.done from
    → (p.sem.done ≡ true → p.done ≡ true)
    → p'.sem.done ≡ true
    → p'.done ≡ true
Move-stopped stop_sem k h d = k
Move-stopped close k h d = refl
Move-stopped _ k h d = h d

-- `done_` of the pool is never reset.
pub Move-done : {p p' : Pool} {from to : Place} → Move p from p' to → p.done ≡ true → p'.done ≡ true
Move-done close d = refl
Move-done _ d = d

-- The thread that moves still knows what it stands on.
pub Move-Knows :
    {p p' : Pool} {from to : Place}
    → Move p from p' to
    → (p.sem.done ≡ true → p.done ≡ true)
    → Knows p.done from
    → Knows p'.done to
Move-Knows (see_done d) stop k = stop d
Move-Knows (give_up d) stop k = stop d
Move-Knows (lock_pool {got = true} _) stop k = tt
Move-Knows (lock_pool {got = false} _) stop k = k
Move-Knows (stay {got = true} _) stop k = tt
Move-Knows (stay {got = false} o) stop k = ground arith
Move-Knows close stop k = refl
Move-Knows stop_sem stop k = k
Move-Knows _ stop k = tt

-- What the other threads know is still so.
pub Knows-later :
    {d d' : Bool} (spot : Place) → (d ≡ true → d' ≡ true) → Knows d spot → Knows d' spot
Knows-later (acquired false) later k = later k
Knows-later (acquired true) later k = tt
Knows-later (inside false) later k = later k
Knows-later (inside true) later k = tt
Knows-later (taking false) later k = k
Knows-later (taking true) later k = tt
Knows-later interrupting later k = later k
Knows-later notifying later k = later k
Knows-later reaping later k = later k
Knows-later _ later k = tt

-- No move raises the count, and one that does not lower it leaves as many threads alert, unless
-- it has seen that there is none, or that the semaphore has been interrupted.
pub Move-awake :
    {p p' : Pool} {from to : Place}
    → Move p from p' to
    → p'.sem.done ≡ false
    → (p'.sem.count + alert from ≤ p.sem.count + alert to) ⊎ (p'.sem.count ≤ 0)
Move-awake (test_low low) d = inr low
Move-awake (give_up stop) d = ground arith
Move-awake mv d = inl (ground (arith, guard mv))

pub Move-count : {p p' : Pool} {from to : Place} → Move p from p' to → p'.sem.count ≤ p.sem.count
Move-count (test_high _) = omega arith
Move-count _ = omega arith

pub Move-open :
    {p p' : Pool} {from to : Place} → Move p from p' to → p'.sem.done ≡ false → p.sem.done ≡ false
Move-open stop_sem d = ground arith
Move-open _ d = d

-- A thread that comes to wait, or is about to, has just tested the count.
pub Move-drowsy :
    {p p' : Pool} {from to : Place} → Move p from p' to → to ≡ dozing → p'.sem.count ≤ 0
Move-drowsy (test_low low) e = low
Move-drowsy mv e = ground arith

pub Move-waiting :
    {p p' : Pool} {from to : Place}
    → Move p from p' to
    → to ≡ waiting
    → (from ≡ dozing) × (p'.sem.count ≡ p.sem.count)
Move-waiting doze e = (refl, refl)
Move-waiting mv e = ground arith
